-- ===== src/Upstream/Tracker.antt =====
-- The block tracker: src/upstream/tracker.rs. A poll is one round of the loop in `run`; `Poll` holds the
-- clocks and the network of a round. The events that it sends are part of the result.
pub mod Heads
pub mod Announced
pub mod Chains
pub mod Latest
pub mod Own
use poolbeg.Prelude.{
  ℕ, ◌≡◌, Bool, true, false, not, ◌&&◌, ◌||◌, List, [], ◌∷◌, ◌++◌, Option, none, some, String,
  str_eq, ltb, ◌==◌, if◌then◌else◌, get_elem?, set, unwrap_or, parse_hex, any,
}
use poolbeg.Value.{Value, object, Fields, end, field, is_null, as_str, index}
use poolbeg.Config.{UpstreamRole, primary, secondary, fallback, UpstreamStrategy}
use poolbeg.Rpc.Types.{JsonRpcResponse}
use poolbeg.Rpc.Codec.{Codec}
use poolbeg.Cache.Redis.{Redis}
use poolbeg.Cache.Layer
use poolbeg.Upstream.Client.{UpstreamClient, HttpOutcome, send_request, try_acquire_rate_limit}
use poolbeg.Upstream.Strategy.{select}
use poolbeg.Upstream.Manager.{tier_from, latency_at, roles_in_order}

pub data BlockEvent : Type 0 where
  new_block : (chain_id height : ℕ) → (hash : String) → (header : Value) → BlockEvent
  new_logs : (chain_id block_number : ℕ) → (logs : Value) → BlockEvent
  reorg : (chain_id from_block to_block : ℕ) → BlockEvent

abbrev non_header_fields : List String
non_header_fields = "transactions" ∷ "uncles" ∷ "size" ∷ "totalDifficulty" ∷ []

unfoldable pub shift_remove : String → Fields → Fields
shift_remove k end = end
shift_remove k (field j v fs) = if str_eq j k then fs else field j v (shift_remove k fs)

unfoldable pub remove_fields : List String → Fields → Fields
remove_fields [] fs = fs
remove_fields (k ∷ ks) fs = remove_fields ks (shift_remove k fs)

unfoldable pub strip_non_header_fields : Value → Value
strip_non_header_fields (object fs) = object (remove_fields non_header_fields fs)
strip_non_header_fields v = v

unfoldable pub block_height : Value → ℕ
block_height block = unwrap_or (parse_hex (unwrap_or (as_str (index block "number")) "0x0")) 0

abbrev pub block_hash : Value → String
block_hash block = unwrap_or (as_str (index block "hash")) ""

-- The variables of the loop, the cache, and the number that the chain's manager reads.
pub record Tracking (C : Type 0) : Type 0 where
  pub cache : C
  pub last_block_number : ℕ
  pub last_block_hash : String
  pub latest_block_number : ℕ
  pub ws_connected : Bool

-- The clocks and the network in one round.
pub record Poll : Type 0 where
  pub acquired : ℕ
  pub answered : ℕ
  pub gen_range : ℕ → ℕ
  pub block_reply : ℕ → HttpOutcome
  pub logs_reply : ℕ → ℕ → HttpOutcome

module _ (r : Redis) (codec : Codec) (chain_id : ℕ) where
  unfoldable pub fetch_block_logs :
      UpstreamClient → ℕ → HttpOutcome → r.State → ℕ → UpstreamClient × r.State × List BlockEvent
  fetch_block_logs u now outcome cache block_number =
      let (u', resp) = send_request u now outcome in
      elim resp [
        | none ↦ (u', cache, [])
        | some p ↦ elim p.result [
          | none ↦ (u', cache, [])
          | some logs ↦ (
            u',
            Layer.cache_logs r codec cache chain_id block_number logs,
            new_logs chain_id block_number logs ∷ [],
          )
        ]
      ]

  -- A block that is accepted as the new head.
  unfoldable pub accept :
      UpstreamClient
      → ℕ
      → (ℕ → HttpOutcome)
      → Tracking r.State
      → ℕ
      → String
      → Value
      → UpstreamClient × Tracking r.State × List BlockEvent
  accept u now logs_of s height hash block =
      let heads =
        if not s.ws_connected
        then new_block chain_id height hash (strip_non_header_fields block) ∷ []
        else [] in
      let (u', cache, logs) =
        fetch_block_logs u now (logs_of height)
          (Layer.cache_block r codec s.cache chain_id height hash block) height in
      (
        u',
        record s {
          cache = cache;
          last_block_number = height;
          last_block_hash = hash;
          latest_block_number = height;
        },
        heads ++ logs,
      )

  -- `fetch_latest_block` from the comparison with the last block on.
  unfoldable pub see_block :
      UpstreamClient
      → ℕ
      → (ℕ → HttpOutcome)
      → Tracking r.State
      → Value
      → UpstreamClient × Tracking r.State × List BlockEvent
  see_block u now logs_of s block =
      let height = block_height block in
      let hash = block_hash block in
      if height == 0 || str_eq hash ""
      then (u, s, [])
      else if height == s.last_block_number && str_eq hash s.last_block_hash
      then (u, s, [])
      else if ltb height s.last_block_number && ltb 0 s.last_block_number
      then (u, s, [])
      else if height == s.last_block_number
          && not (str_eq hash s.last_block_hash)
          && ltb 0 s.last_block_number
      then (
        u,
        record s { cache = Layer.invalidate_head_cache r s.cache chain_id; last_block_hash = hash },
        reorg chain_id s.last_block_number height ∷ [],
      )
      else accept u now logs_of s height hash block

  unfoldable pub fetch_latest_block :
      UpstreamClient
      → ℕ
      → HttpOutcome
      → (ℕ → HttpOutcome)
      → Tracking r.State
      → UpstreamClient × Tracking r.State × List BlockEvent
  fetch_latest_block u now outcome logs_of s =
      let (u', resp) = send_request u now outcome in
      elim resp [
        | none ↦ (u', s, [])
        | some p ↦ elim p.result [
          | none ↦ (u', s, [])
          | some block ↦ if is_null block then (u', s, []) else see_block u' now logs_of s block
        ]
      ]

-- The first tier that is not empty, and the strategy's choice in it.
unfoldable pub select_from :
    (ℕ → ℕ) → UpstreamStrategy → List UpstreamClient → ℕ → List UpstreamRole → Option ℕ × ℕ
select_from gen_range strategy us counter [] = (none, counter)
select_from gen_range strategy us counter (role ∷ roles) = elim (tier_from 0 role us) [
  | [] ↦ select_from gen_range strategy us counter roles
  | i ∷ is ↦ select (latency_at us) gen_range (i ∷ is) strategy counter
]

unfoldable pub select_best_upstream :
    (ℕ → ℕ) → UpstreamStrategy → List UpstreamClient → ℕ → Option ℕ × ℕ
select_best_upstream gen_range strategy us counter =
    select_from gen_range strategy us counter roles_in_order

-- The upstreams, the round robin's counter and the tracking.
pub record Tracker (C : Type 0) : Type 0 where
  pub upstreams : List UpstreamClient
  pub counter : ℕ
  pub tracking : Tracking C

module _ (r : Redis) (codec : Codec) (chain_id : ℕ) (strategy : UpstreamStrategy) where
  -- One round of the loop in `run`.
  unfoldable pub poll : Poll → Tracker r.State → Tracker r.State × List BlockEvent
  poll x t =
      let (choice, counter') = select_best_upstream x.gen_range strategy t.upstreams t.counter in
      let t1 = record t { counter = counter' } in
      elim choice [
        | none ↦ (t1, [])
        | some i ↦ elim (get_elem? t.upstreams i) [
          | none ↦ (t1, [])
          | some u ↦
              let (u1, ok) = try_acquire_rate_limit u x.acquired in
              let (u2, tracking, events) =
                fetch_latest_block r codec chain_id u1 x.answered (x.block_reply i) (x.logs_reply i)
                  t.tracking in
              if ok
              then (record t1 { upstreams = set t.upstreams i u2; tracking = tracking }, events)
              else (record t1 { upstreams = set t.upstreams i u1 }, [])
        ]
      ]

  -- The loop over a sequence of rounds: the events in the order in which they are sent.
  unfoldable pub run : List Poll → Tracker r.State → Tracker r.State × List BlockEvent
  run [] t = (t, [])
  run (x ∷ xs) t = let (t1, now) = poll x t in let (t2, later) = run xs t1 in (t2, now ++ later)
