-- ===== src/Reconnect/Connections.antt =====
-- The state that the session hooks keep for connections: the lists and maps of
-- src/features/session/core/reconnectRuntime.ts and lifecycle.ts, and the browser's timers. A timer
-- handle is a positive number; `setTimeout` hands out the next one.
use fluxterm.Base.{ℕ, ◌+◌, String, Bool, not, Option, List, [], ◌∷◌, ◌++◌, keep, eqb}
use fluxterm.Base.Dict.{Dict, put}
use fluxterm.Reconnect.Policy.{DisconnectReason}

pub data SessionStateUi : Type 0 where
  connecting connected disconnected error reconnecting : SessionStateUi

-- The fields of a session and of a local session's metadata that the code reads; the rest is `D`.
pub record Session (D : Type 0) : Type 0 where
  pub session_id : String
  pub profile_id : Option String
  pub details : D

pub record ReconnectInfo : Type 0 where
  pub attempt : ℕ
  pub delay_ms : ℕ

-- A timer that has not fired: its handle, the session that it will retry, and its delay.
pub record Timer : Type 0 where
  pub handle : ℕ
  pub session_id : String
  pub delay_ms : ℕ

pub record Connections (D M W : Type 0) : Type 0 where
  pub sessions : List (Session D)
  pub session_states : Dict SessionStateUi
  pub session_reasons : Dict DisconnectReason
  pub reconnect_info : Dict ReconnectInfo
  pub reconnect_timers : Dict ℕ
  pub reconnect_attempts : Dict ℕ
  pub local_session_ids : List String
  pub local_session_meta : Dict M
  pub close_handled : Dict Bool
  pub workspace : W
  pub timers : List Timer
  pub next_handle : ℕ

module _ {D M W : Type 0} where
  abbrev pub clear_timeout : Connections D M W → ℕ → Connections D M W
  clear_timeout c handle = record c { timers = keep (λ t. not (eqb t.handle handle)) c.timers }

  abbrev pub set_timeout : Connections D M W → String → ℕ → Connections D M W
  set_timeout c session_id delay_ms = record c {
    timers =
        c.timers
        ++ record { handle = c.next_handle; session_id = session_id; delay_ms = delay_ms } ∷ [];
    next_handle = c.next_handle + 1;
  }

  abbrev pub set_session_state : Connections D M W → String → SessionStateUi → Connections D M W
  set_session_state c session_id state = record c {
    session_states = put c.session_states session_id state;
  }
