-- ===== src/Cache/Redis.antt =====
-- The Redis server, which is not part of the program: its commands, what can be observed of its
-- state, and the documented behaviour that the program relies on. A reply of `none` or `false` is an
-- error, which the program logs and ignores. Expiry by time is outside: the laws speak of a command
-- and the observation right after it.
use poolbeg.Prelude.{
  ℤ, ◌≡◌, Bool, true, false, ◌&&◌, ◌||◌, List, Option, some, none, String, str_eq, any,
  if◌then◌else◌,
}

pub record Redis : Type 1 where
  pub State : Type 0
  -- The text stored at a key, and membership in the set stored at a key.
  pub value : State → String → Option String
  pub is_member : State → String → String → Bool
  -- GET, SET with an optional PX expiry, DEL, SADD, SMEMBERS.
  pub get : State → String → Option (Option String)
  pub set : State → String → String → Option ℤ → State × Bool
  pub del : State → String → State × Bool
  pub sadd : State → String → String → State × Bool
  pub smembers : State → String → Option (List String)

module _ (r : Redis) where
  open r use {State, value, is_member, get, set, del, sadd, smembers}

  -- What a command that reports success has done.
  pub record Laws : Type 0 where
    pub get_reply : (s : State) (k : String) {v : Option String} → get s k ≡ some v → v ≡ value s k
    pub set_value :
        (s : State) (k v : String) (px : Option ℤ) (j : String)
        → (set s k v px).1 ≡ true
        → value (set s k v px).0 j ≡ (if str_eq k j then some v else value s j)
    pub set_members :
        (s : State) (k v : String) (px : Option ℤ) (q m : String)
        → (set s k v px).1 ≡ true
        → str_eq k q ≡ false
        → is_member (set s k v px).0 q m ≡ is_member s q m
    pub del_value :
        (s : State) (k j : String)
        → (del s k).1 ≡ true
        → value (del s k).0 j ≡ (if str_eq k j then none else value s j)
    pub del_members :
        (s : State) (k q m : String)
        → (del s k).1 ≡ true
        → is_member (del s k).0 q m ≡ (if str_eq k q then false else is_member s q m)
    pub sadd_value :
        (s : State) (k m j : String) → (sadd s k m).1 ≡ true → value (sadd s k m).0 j ≡ value s j
    pub sadd_members :
        (s : State) (k m q n : String)
        → (sadd s k m).1 ≡ true
        → is_member (sadd s k m).0 q n ≡ ((str_eq k q && str_eq m n) || is_member s q n)
    pub smembers_reply :
        (s : State) (k m : String) {ms : List String}
        → smembers s k ≡ some ms
        → any (λ n. str_eq n m) ms ≡ is_member s k m

  -- No command fails: the server is reachable and no key holds a value of the wrong type.
  pub record Answers : Type 0 where
    pub get_answers : (s : State) (k : String) → (v : Option String) × (get s k ≡ some v)
    pub set_answers : (s : State) (k v : String) (px : Option ℤ) → (set s k v px).1 ≡ true
    pub del_answers : (s : State) (k : String) → (del s k).1 ≡ true
    pub sadd_answers : (s : State) (k m : String) → (sadd s k m).1 ≡ true
    pub smembers_answers : (s : State) (k : String) → (ms : List String) × (smembers s k ≡ some ms)
