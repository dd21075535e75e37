-- ===== src/Reconnect/Retries.antt =====
-- How many attempts are made.
use fluxterm.Base.{ℕ, String, false, ◌||◌, ◌==◌, ◌≡◌, none, some, List, [], ◌∷◌, or_default, find}
use fluxterm.Base.Dict.{get, get-delete_self}
use fluxterm.Reconnect.Policy.{unknown, DisconnectReason}
use fluxterm.Reconnect.Connections.{reconnecting, Session, Timer, Connections}
use fluxterm.Reconnect.Runtime.{Created, failed, clear_reconnect_state_by_id, fire, settle_attempt}

module _ {D M W : Type 0} where
  -- Nothing is kept for the session's retries.
  pub record IsQuiet (c : Connections D M W) (s : String) : Type 0 where
    pub no_timer : get c.reconnect_timers s ≡ none
    pub no_attempts : get c.reconnect_attempts s ≡ none
    pub no_info : get c.reconnect_info s ≡ none

  pub clear-IsQuiet :
      (c : Connections D M W) (s : String) → IsQuiet (clear_reconnect_state_by_id c s) s
  unfolding clear_reconnect_state_by_id
  clear-IsQuiet c s = record {
    no_timer = get-delete_self c.reconnect_timers s;
    no_attempts = get-delete_self c.reconnect_attempts s;
    no_info = get-delete_self c.reconnect_info s;
  }

-- `sessionReasonsRef.current[id] ?? "unknown"`
abbrev pub reason_of : {D M W : Type 0} → Connections D M W → String → DisconnectReason
reason_of c session_id = or_default (get c.session_reasons session_id) unknown

abbrev pub IsRetried : String → Type 0
IsRetried code = ((code == "ssh_host_key_unknown" || code == "ssh_host_key_mismatch") ≡ false)

abbrev pub AreRetried : List String → Type 0
AreRetried [] = Unit
AreRetried (code ∷ codes) = IsRetried code × AreRetried codes

-- A session whose attempts fail, one timer after the other, each with its error code.
module _ {D M W : Type 0} (profiles : List String)
    (replace_session_connection : Connections D M W → String → Session D → Connections D M W)
    (s : String) where
  abbrev pub settle : Connections D M W → Created D → Connections D M W
  settle c answer = settle_attempt profiles reason_of replace_session_connection c s answer

  -- The first timer that is set for the session fires, and its attempt fails with the code.
  abbrev pub fail_next : Connections D M W → String → Connections D M W
  fail_next c code = elim (find (λ (timer : Timer). timer.session_id == s) c.timers) [
    | none ↦ c
    | some timer ↦ settle (fire c timer) (failed code)
  ]

  unfoldable pub fail_all : Connections D M W → List String → Connections D M W
  fail_all c [] = c
  fail_all c (code ∷ rest) = fail_all (fail_next c code) rest

  -- The session ended for this reason, its k-th attempt is scheduled and its timer is set.
  abbrev pub IsWaiting : DisconnectReason → ℕ → Connections D M W → Type 0
  IsWaiting reason k c =
      (get c.session_reasons s ≡ some reason)
      × (get c.reconnect_attempts s ≡ some k)
      × (get c.session_states s ≡ some reconnecting)
      × ((timer : Timer) × (find (λ (timer : Timer). timer.session_id == s) c.timers ≡ some timer))
