-- ===== src/Ws/Connections.antt =====
-- The WebSocket connections of the server, as steps of many tasks: `handle_ws` and the two ends of
-- `handle_ws_connection` in src/ws/handler.rs. The upgrade that `handle_ws` answers with is done by a
-- task of its own, which adds to the count only when it begins. The count is a `usize` that wraps.
pub mod Counted
use poolbeg.Prelude.{ℕ, zero, suc, ◌+◌, ◌-◌, ◌%◌, ◌≡◌, true, false, u64_mod}
use poolbeg.Ws.Handler.{handle_ws}

-- The connections that are to be upgraded, those that are open, and `ws_connection_count`.
pub record State : Type 0 where
  pub upgrading : ℕ
  pub opened : ℕ
  pub count : ℕ

abbrev pub start : State
start = record { upgrading = 0; opened = 0; count = 0 }

module _ (max_ws : ℕ) where
  pub data Step (s : State) : State → Type 0 where
    accept : handle_ws max_ws s.count ≡ true → Step s (record s { upgrading = suc s.upgrading })
    refuse : handle_ws max_ws s.count ≡ false → Step s s
    begin :
        (n : ℕ)
        → s.upgrading ≡ suc n
        → Step s (record { upgrading = n; opened = suc s.opened; count = (s.count + 1) % u64_mod })
    abandon : (n : ℕ) → s.upgrading ≡ suc n → Step s (record s { upgrading = n })
    finish :
        (n : ℕ)
        → s.opened ≡ suc n
        → Step s (record s { opened = n; count = (s.count + (u64_mod - 1)) % u64_mod })

  -- Any number of steps.
  pub data Reach (s : State) : State → Type 0 where
    here : Reach s s
    next : {u v : State} → Reach s u → Step u v → Reach s v
