-- ===== src/Cache/Client.antt =====
-- `RedisClient` of src/cache/redis.rs: an error of the server is logged and ignored.
use poolbeg.Prelude.{
  ℕ, ℤ, pos, negsuc, ◌-◌, ◌/◌, ◌%◌, ◌≡◌, refl, ◌∙◌, ap, false, List, [], ◌∷◌, Option, none, some,
  String, str_eq, unwrap_or, if◌then◌else◌, ◌==◌, ltb, u64_mod, any, arith,
}
use poolbeg.Cache.Redis.{Redis, Laws, Answers}

-- `as i64` of a number of milliseconds: the low 64 bits, read with a sign.
unfoldable pub as_i64 : ℕ → ℤ
as_i64 n =
    let low = n % u64_mod in
    if ltb low 9223372036854775808 then pos low else negsuc (u64_mod - 1 - low)

module _ (r : Redis) where
  unfoldable pub get : r.State → String → Option String
  get s key = unwrap_or (r.get s key) none

  -- The argument of SET: no expiry for a TTL of zero.
  unfoldable pub expiry : ℕ → Option ℤ
  expiry ttl = if ttl == 0 then none else some (as_i64 (ttl / 1000000))

  unfoldable pub set : r.State → String → String → ℕ → r.State
  set s key value ttl = (r.set s key value (expiry ttl)).0

  unfoldable pub del : r.State → String → r.State
  del s key = (r.del s key).0

  unfoldable pub sadd : r.State → String → String → r.State
  sadd s key member = (r.sadd s key member).0

  unfoldable pub smembers : r.State → String → List String
  smembers s key = unwrap_or (r.smembers s key) []

  unfoldable pub del_all : r.State → List String → r.State
  del_all s [] = s
  del_all s (m ∷ ms) = del_all (del s m) ms

  unfoldable pub delete_members : r.State → String → List String → r.State
  delete_members s set_key [] = s
  delete_members s set_key (m ∷ ms) = del (del_all s (m ∷ ms)) set_key

  unfoldable pub delete_set_and_members : r.State → String → r.State
  delete_set_and_members s set_key = delete_members s set_key (smembers s set_key)

module _ (r : Redis) (law : Laws r) (up : Answers r) where
  -- After the loop a key is gone if it was listed, and as before if not.
  del_all-value :
      (s : r.State) (ms : List String) (j : String)
      → r.value (del_all r s ms) j ≡ (if any (λ n. str_eq n j) ms then none else r.value s j)
  unfolding del_all del
  del_all-value s [] j = refl
  del_all-value s (m ∷ ms) j =
      del_all-value (r.del s m).0 ms j
      ∙ rw (law.del_value s m j (up.del_answers s m)) (ground arith)

  pub smembers-is_member :
      (s : r.State) (k m : String) → any (λ n. str_eq n m) (smembers r s k) ≡ r.is_member s k m
  unfolding smembers
  smembers-is_member s k m =
      let (ms, e) = up.smembers_answers s k in rw e (law.smembers_reply s k m e)

  delete_members-value :
      (s : r.State) (k : String) (ms : List String) (j : String)
      → str_eq k j ≡ false
      → r.value (delete_members r s k ms) j
        ≡ (if any (λ n. str_eq n j) ms then none else r.value s j)
  unfolding delete_members del
  delete_members-value s k [] j ne = refl
  delete_members-value s k (m ∷ ms) j ne =
      rw (law.del_value (del_all r s (m ∷ ms)) k j (up.del_answers (del_all r s (m ∷ ms)) k))
        (rw ne (del_all-value s (m ∷ ms) j))

  -- Deleting a set with its members removes exactly the values of the members: another key but the
  -- set's own reads as before.
  pub delete_set_and_members-value :
      (s : r.State) (k j : String)
      → str_eq k j ≡ false
      → r.value (delete_set_and_members r s k) j ≡ (if r.is_member s k j then none else r.value s j)
  unfolding delete_set_and_members
  delete_set_and_members-value s k j ne =
      delete_members-value s k (smembers r s k) j ne
      ∙ ap (λ b. if b then none else r.value s j) (smembers-is_member s k j)
