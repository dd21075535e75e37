-- ===== src/Reconnect/Tests.antt =====
-- Runs of the reconnection, and each theorem at one of them.
use fluxterm.Base.{
  ℕ, ◌≤◌, String, false, ◌≡◌, refl, none, some, List, [], ◌∷◌, arith, includes, words,
}
use fluxterm.Base.Dict.{get}
use fluxterm.Reconnect.Reason.{normalize_command, infer_disconnect_reason}
use fluxterm.Reconnect.Policy.{
  poweroff, network, compute_reconnect_delay_ms, compute_reconnect_delay_ms_mono,
}
use fluxterm.Reconnect.Connections.{connecting, connected, Session, Connections}
use fluxterm.Reconnect.Lifecycle.{
  ids_of, MovesMeta, IsForgotten, replace_session_connection_state,
  replace_session_connection_state_lem,
}

abbrev Plain : Type 0
Plain = Connections ℕ ℕ ℕ

abbrev ssh : Session ℕ
ssh = record { session_id = "a"; profile_id = some "host"; details = 0 }

abbrev ready : Plain
ready = record {
  sessions = ssh ∷ [];
  session_states = ("a", connected) ∷ [];
  session_reasons = ("a", network) ∷ [];
  reconnect_info = [];
  reconnect_timers = ("a", 1) ∷ ("b", 2) ∷ [];
  reconnect_attempts = ("a", 1) ∷ [];
  local_session_ids = [];
  local_session_meta = [];
  close_handled = [];
  workspace = 0;
  timers = record { handle = 1; session_id = "a"; delay_ms = 2_000 } ∷ [];
  next_handle = 3;
}

abbrev keep_connection : Plain → String → Session ℕ → Plain
keep_connection c s next = c

infer_runs : infer_disconnect_reason (some " sudo  poweroff now") false false ≡ poweroff
unfolding infer_disconnect_reason normalize_command words
infer_runs = refl

compute_reconnect_delay_ms_mono_example : 4_000 ≤ 8_000
unfolding compute_reconnect_delay_ms
compute_reconnect_delay_ms_mono_example =
    compute_reconnect_delay_ms_mono network 2 7 4_000 8_000 (omega arith) refl refl

-- The session has ended, and no attempt was made yet.
abbrev ended : Plain
ended = record ready { reconnect_timers = []; reconnect_attempts = []; timers = [] }

abbrev two_fails : List String
two_fails = "ssh_timeout" ∷ "ssh_auth_failed" ∷ []

abbrev next_ssh : Session ℕ
next_ssh = record { session_id = "z"; profile_id = some "host"; details = 0 }

abbrev replaced : Plain
replaced = replace_session_connection_state (λ w o n. w) ready "a" next_ssh connecting none

replace_session_connection_state_lem_example :
    IsForgotten replaced "a"
    × (ids_of replaced.sessions ≡ "z" ∷ [])
    × (get replaced.session_states "z" ≡ some connecting)
    × (includes replaced.local_session_ids "z" ≡ false)
    × MovesMeta ready replaced "a" "z" none
    × (replaced.workspace ≡ 0)
replace_session_connection_state_lem_example =
    replace_session_connection_state_lem (λ w o n. w) ready "a" next_ssh connecting none refl
