-- ===== src/Tests/CacheTests.antt =====
-- The cache on a server in memory.
use poolbeg.Prelude.{
  ℕ, ◌↔◌, arith, ◌≡◌, refl, List, [], ◌∷◌, none, str_eq, false, to_decimal, emit, lookup,
}
use poolbeg.Value.{null, number}
use poolbeg.Rpc.Codec.{HashLength}
use poolbeg.Cache.Keys.{head_cache_set_key, chain_key}
use poolbeg.Cache.Layer.{invalidate_head_cache}
use poolbeg.Cache.Layer.Invalidation.{
  HeadWrite, block, response, logs, apply_writes, invalidate_clears,
}
use poolbeg.Cache.Keys.{cache_key}
use poolbeg.Cache.Keys.Apart.{cache_key_iff}
use poolbeg.Tests.Exact.{exact, exact-CollisionFree}
use poolbeg.Tests.Memory.{Store, memory, memory-Laws, memory-Answers}
use poolbeg.Tests.Samples.{codec, setup, empty, balance, answer_of}

abbrev tracked : Store
tracked = record { texts = ("a", "1") ∷ ("b", "2") ∷ []; pairs = ("set", "a") ∷ [] }

block_key_apart : str_eq (head_cache_set_key 1) "poolbeg:1:block:number:5" ≡ false
unfolding head_cache_set_key to_decimal emit chain_key
block_key_apart = refl

abbrev head_writes : List HeadWrite
head_writes =
    block 5 "0xb" null
    ∷ response (balance "0x5" (number "1")) (answer_of (number "1"))
    ∷ logs 5 null
    ∷ []

sixty_four : HashLength codec
sixty_four t = refl

nothing_there : memory.value empty "poolbeg:1:block:number:5" ≡ none
unfolding lookup
nothing_there = refl

invalidate_clears_example :
    memory.value
      (invalidate_head_cache memory
        (apply_writes memory codec setup.policies 1 empty head_writes)
        1)
      "poolbeg:1:block:number:5"
    ≡ none
invalidate_clears_example =
    invalidate_clears memory codec setup.policies 1 memory-Laws memory-Answers sixty_four
      "poolbeg:1:block:number:5" empty head_writes block_key_apart nothing_there

cache_key_iff_example :
    (cache_key exact 1 (balance "0x5" (number "1"))
      ≡ cache_key exact 2 (balance "0x5" (number "7")))
    ↔ ((◌≡◌ {A = ℕ} 1 2)
        × ((balance "0x5" (number "1")).method ≡ (balance "0x5" (number "7")).method)
        × ((balance "0x5" (number "1")).params ≡ (balance "0x5" (number "7")).params))
cache_key_iff_example =
    cache_key_iff exact 1 2 (balance "0x5" (number "1")) (balance "0x5" (number "7"))
      exact-CollisionFree (omega arith) (omega arith)
