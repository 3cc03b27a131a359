-- ===== src/Cache/Layer/Stored.antt =====
-- A text that was stored is read back.
use poolbeg.Prelude.{ℕ, ◌≡◌, ◌∙◌, List, Bool, some, String, eq_refl, Bool-cases, inl, inr, arith}
use poolbeg.Config.{CachePolicy}
use poolbeg.Rpc.Types.{JsonRpcRequest, JsonRpcResponse}
use poolbeg.Rpc.Codec.{Codec}
use poolbeg.Cache.Redis.{Redis, Laws, Answers}
use poolbeg.Cache.Policy.{resolve_ttl}
use poolbeg.Cache.Client
use poolbeg.Cache.Keys.{cache_key, head_cache_set_key}
use poolbeg.Cache.Layer.{get, set, store}

module _ (r : Redis) (law : Laws r) (up : Answers r) where
  get-value : (s : r.State) (k : String) → Client.get r s k ≡ r.value s k
  unfolding Client.get
  get-value s k = let (v, e) = up.get_answers s k in rw e (law.get_reply s k e)

  store-value :
      (codec : Codec) (s : r.State) (c : ℕ) (k text : String) (ttl : ℕ) (unfin : Bool)
      → r.value (store r codec s c k text ttl unfin) k ≡ some text
  unfolding store Client.set Client.sadd
  store-value codec s c k text ttl unfin =
      let px = Client.expiry r ttl in
      let s1 = (r.set s k text px).0 in
      let here : r.value s1 k ≡ some text =
        ground (arith, law.set_value s k text px k (up.set_answers s k text px), eq_refl k) in
      elim (Bool-cases unfin) [
        | inl e ↦ rw e (
            law.sadd_value s1 (head_cache_set_key c) k k
              (up.sadd_answers s1 (head_cache_set_key c) k)
            ∙ here)
        | inr e ↦ rw e here
      ]

  -- A response that the policies keep and that can be printed is found under its request.
  pub get-set :
      (codec : Codec) (policies : List CachePolicy) (s : r.State) (c : ℕ) (req : JsonRpcRequest)
      (resp : JsonRpcResponse) (unfin : Bool) (ttl : ℕ) (text : String)
      → resolve_ttl policies req.method unfin ≡ some ttl
      → codec.encode_response resp ≡ some text
      → get r codec (set r codec policies s c req resp unfin) c req ≡ some text
  unfolding get set
  get-set codec policies s c req resp unfin ttl text kept printed =
      rw (kept, set)
        (rw printed (
          get-value (store r codec s c (cache_key codec c req) text ttl unfin)
            (cache_key codec c req)
          ∙ store-value codec s c (cache_key codec c req) text ttl unfin))
