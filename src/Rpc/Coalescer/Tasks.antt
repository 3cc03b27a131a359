-- ===== src/Rpc/Coalescer/Tasks.antt =====
-- `coalesce_or_execute` of src/rpc/coalescer.rs run by many tasks at once, as a step relation. A step is
-- what one task does between two points where others can run: the look-up and the insertion are two steps,
-- since the map is not locked between them. The channel that a task creates goes by the task's number.
-- `cancel` is what the server does to the task of a client that is gone: it drops the future where it
-- waits, with the task's own sender, but not the sender in the map.
pub mod Shared
pub mod Stuck
pub mod Progress
use poolbeg.Prelude.{
  ℕ, ◌≡◌, ◌≢◌, ◌⊎◌, Bool, true, false, Option, none, some, String, str_eq, ◌==◌, if◌then◌else◌,
}
use poolbeg.Rpc.Types.{JsonRpcResponse}
use poolbeg.Rpc.Codec.{Codec}

-- Where a task stands. `waiting c mail` waits on the channel `c`, and `mail` is a text received on it.
pub data Phase : Type 0 where
  asking missed executing cancelled : Phase
  waiting : ℕ → Option String → Phase
  sent : JsonRpcResponse → Phase
  finished : JsonRpcResponse → Phase

-- The map in flight, the tasks, and what the closure of each task returned.
pub record State : Type 0 where
  pub in_flight : String → Option ℕ
  pub phase : ℕ → Phase
  pub executed : ℕ → Option JsonRpcResponse

abbrev pub at {ℓ} : {A : Type ℓ} → (ℕ → A) → ℕ → A → ℕ → A
at f t v i = if i == t then v else f i

abbrev pub at_key {ℓ} : {A : Type ℓ} → (String → A) → String → A → String → A
at_key f k v j = if str_eq j k then v else f j

-- A message reaches the receivers that wait; the channel holds one.
unfoldable pub deliver : ℕ → Option String → Phase → Phase
deliver t none p = p
deliver t (some text) (waiting c none) = if c == t then waiting c (some text) else waiting c none
deliver t (some text) p = p

abbrev pub enter : State → ℕ → Phase → State
enter s t p = record s { phase = at s.phase t p }

-- A sender of the channel is left: in the map, or in the task that executes.
abbrev pub Held : State → String → ℕ → Type 0
Held s k c =
    (s.in_flight k ≡ some c)
    ⊎ ((s.phase c ≡ executing) ⊎ ((resp : JsonRpcResponse) × (s.phase c ≡ sent resp)))

-- The task waits: only there can it be dropped.
unfoldable pub is_suspended : Phase → Bool
is_suspended (waiting c mail) = true
is_suspended executing = true
is_suspended _ = false

-- `key t` is the cache key that the task `t` asks for.
module _ (codec : Codec) (key : ℕ → String) where
  pub data Step (s : State) : State → Type 0 where
    miss : (t : ℕ) → s.phase t ≡ asking → s.in_flight (key t) ≡ none → Step s (enter s t missed)
    join :
        (t c : ℕ)
        → s.phase t ≡ asking
        → s.in_flight (key t) ≡ some c
        → Step s (enter s t (waiting c none))
    receive :
        (t c : ℕ) (text : String) (resp : JsonRpcResponse)
        → s.phase t ≡ waiting c (some text)
        → codec.decode_response text ≡ some resp
        → Step s (enter s t (finished resp))
    garbled :
        (t c : ℕ) (text : String)
        → s.phase t ≡ waiting c (some text)
        → codec.decode_response text ≡ none
        → Step s (enter s t missed)
    closed :
        (t c : ℕ) → s.phase t ≡ waiting c none → (Held s (key t) c → ⊥) → Step s (enter s t missed)
    insert :
        (t : ℕ)
        → s.phase t ≡ missed
        → Step s (record s {
          in_flight = at_key s.in_flight (key t) (some t);
          phase = at s.phase t executing;
        })
    send :
        (t : ℕ) (resp : JsonRpcResponse)
        → s.phase t ≡ executing
        → Step s (record s {
          phase = at (λ i. deliver t (codec.encode_response resp) (s.phase i)) t (sent resp);
          executed = at s.executed t (some resp);
        })
    remove :
        (t : ℕ) (resp : JsonRpcResponse)
        → s.phase t ≡ sent resp
        → Step s (record s {
          in_flight = at_key s.in_flight (key t) none;
          phase = at s.phase t (finished resp);
        })
    cancel : (t : ℕ) → is_suspended (s.phase t) ≡ true → Step s (enter s t cancelled)

  -- Any number of steps.
  pub data Reach (s : State) : State → Type 0 where
    here : Reach s s
    next : {u v : State} → Reach s u → Step u v → Reach s v

abbrev pub start : State
start = record { in_flight = λ k. none; phase = λ t. asking; executed = λ t. none }
