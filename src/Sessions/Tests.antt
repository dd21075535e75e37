-- ===== src/Sessions/Tests.antt =====
-- Runs of the session hook on small inputs, and each theorem at one of them.
use Prim.Native.Nat.{min, max}
use fluxterm.Workspace.Tree.{collect_leaf_panes, create_single_pane_root, append_session_to_pane}
use fluxterm.Workspace.Groups.{append_session_to_default_group}
use fluxterm.Workspace.Counts.{session_count, pane_count}
use fluxterm.Workspace.Reducer.{attach}
use fluxterm.Sessions.Model.{
  append_app_event, clear_pending_host_key_for_profile, get_session_kind, resolve_session_label,
}
use fluxterm.Sessions.Commands.{
  settled, add_session, attach_target, connect_profile_command, disconnect_session_command,
  forget_session,
}
use fluxterm.Sessions.Events.{
  set_state, is_connecting, SessionStatus, ending_reason, handle_session_disconnected,
}
use fluxterm.Sessions.Handlers.{
  disconnect_known, disconnect_session, get_pane_sessions, close_other_sessions_in_pane,
  attempt_reconnect,
}
use fluxterm.Sessions.Openings.{connect_profile, split_active_pane}
use fluxterm.Sessions.Preservation.{attempt_reconnect-IsConsistent}
use fluxterm.Sessions.Additions.{connect_profile-IsConsistent, split_active_pane-IsConsistent}
use fluxterm.Sessions.Closing.{IsClosed, disconnect_session-IsClosed}
use fluxterm.Sessions.Rows.{close_other_sessions_in_pane_lem}
use fluxterm.Sessions.Delays.{retry_delay}
use fluxterm.Sessions.Endings.{
  ShowsRetry, handle_session_disconnected-again, handle_session_disconnected_lem,
}
use fluxterm.Sessions.Cancellation.{handle_statuses}
use fluxterm.Sessions.Races.{connect_profile_command-hidden, attempt_reconnect-closed}
use fluxterm.Base.{
  List, ap, same_self, count, ℕ, ◌<◌, String, true, false, ◌==◌, ◌≡◌, ◌≢◌, refl, none, some, [],
  ◌∷◌, arith, eq_iff, same,
}
use fluxterm.Base.Dict.{get, put, delete}
use fluxterm.Reconnect.Connections.{connecting, error, Session}
use fluxterm.Reconnect.Runtime.{created, failed}
use fluxterm.Workspace.Tree.{Ratios, vertical}
use fluxterm.Workspace.Counts.{sessions_in}
use fluxterm.Workspace.Reducer.{create_empty_workspace_state}
use fluxterm.Sessions.Model.{SessionKind, ssh, HostProfile, Props, Hook}
use fluxterm.Sessions.Desk.{Heard, Command, desk_step, opens, closes, desk_run, run, step}
use fluxterm.Sessions.Agreement.{listed}
use fluxterm.Sessions.Consistency.{empty-IsConsistent}
use fluxterm.Sessions.Preservation.{IsHookConsistent}
use fluxterm.Sessions.DeskEffects.{AreFine}
use fluxterm.Sessions.Refinement.{Represents, step-Represents, run-refines}

-- Ratios in hundredths.
abbrev hundredths : Ratios ℕ
hundredths = record { half = 50; lowest = 20; highest = 80; math_min = min; math_max = max }

abbrev pub host : HostProfile
host = record { id = "host"; name = "Host"; host = "example.org" }

abbrev pub props : Props
props = record {
  t = λ key. key;
  profiles = host ∷ [];
  auto_reconnect_on_poweroff = false;
  auto_reconnect_on_reboot = true;
}

abbrev first : Session SessionKind
first = record { session_id = "a"; profile_id = some "host"; details = ssh }

abbrev second : Session SessionKind
second = record { session_id = "b"; profile_id = some "host"; details = ssh }

abbrev pub Small : Type 0
Small = Hook (Unit {0}) ℕ

abbrev empty : Small
empty = record {
  live = record {
    sessions = [];
    session_states = [];
    session_reasons = [];
    reconnect_info = [];
    reconnect_timers = [];
    reconnect_attempts = [];
    local_session_ids = [];
    local_session_meta = [];
    close_handled = [];
    workspace = create_empty_workspace_state;
    timers = [];
    next_handle = 1;
  };
  serial_profiles = [];
  app_events = [];
  busy_message = none;
  last_command = [];
  suppressed_banners = [];
  terminal_eof_request_at = [];
  error_dialog_shown = [];
  suppressed_feedback_timers = [];
  pending_host_key_reconnect = [];
  pending_host_key_dialog = [];
  dialogs = [];
}

abbrev pub one : Small
one = step props empty (opens host "p" [] (created first))

abbrev two : Small
two = step props one (opens host "q" [] (created second))

hook_runs : Unit {0}
unfolding listed same create_empty_workspace_state
hook_runs = tt

step_runs : Unit {0}
unfolding listed same create_empty_workspace_state connect_profile connect_profile_command
    add_session append_app_event clear_pending_host_key_for_profile attach attach_target
    create_single_pane_root append_session_to_default_group append_session_to_pane session_count
    pane_count count get_session_kind resolve_session_label get put delete get_pane_sessions
    collect_leaf_panes disconnect_session disconnect_known disconnect_session_command forget_session
    handle_statuses
step_runs = tt

empty-Represents : Represents props empty (λ x. 0)
unfolding hook_runs
empty-Represents = record { consistent = empty-IsConsistent; unnamed = refl; opened = λ y. refl }

is_named : (x : String) → (x == "") ≡ false → x ≢ ""
is_named x h e = ground (arith, eq_iff x "")

own_pane : (p q : String) → some p ≡ some q → 0 < same p q
own_pane p q e = let own : p ≡ q = ground arith in rw (← own) (omega (arith, same_self p))

-- A message that a session connects.
abbrev greeting : Heard
greeting = (record { session_id = "a"; state = connecting; error_message = none }, 1) ∷ []

-- A connection during which a message arrives, one that fails, and the closing of the first.
abbrev day : List Command
day =
    opens host "p" greeting (created first)
    ∷ opens host "q" [] (failed "ssh_timeout")
    ∷ closes ("a" ∷ []) (λ x. greeting)
    ∷ []

not_error : true ≡ false → ⊥
not_error e = absurd (ground (arith, e))

is_fine : AreFine greeting
is_fine = ((λ e. not_error (ap is_connecting e)), tt)

run-refines_example :
    (listed "a" (run props empty day).live.sessions ≡ desk_run (λ x. 0) day "a")
    × (sessions_in "a" (run props empty day).live.workspace.root ≡ desk_run (λ x. 0) day "a")
unfolding hook_runs
run-refines_example =
    run-refines props empty (λ x. 0) day empty-Represents
      (
        (is_fine, refl, is_named "a" refl, is_named "p" refl),
        ((tt, is_named "q" refl), ((λ x. is_fine), tt)),
      )
      "a"

one-Represents : Represents props one (desk_step (λ x. 0) (opens host "p" [] (created first)))
unfolding hook_runs
one-Represents =
    step-Represents props empty (λ x. 0) (opens host "p" [] (created first)) empty-Represents
      (tt, refl, is_named "a" refl, is_named "p" refl)

two-Represents : Represents props two (
    desk_step
      (desk_step (λ x. 0) (opens host "p" [] (created first)))
      (opens host "q" [] (created second)))
unfolding step_runs
two-Represents =
    step-Represents props one (desk_step (λ x. 0) (opens host "p" [] (created first)))
      (opens host "q" [] (created second)) one-Represents
      (tt, refl, is_named "b" refl, is_named "q" refl)

-- While the back end is asked, a status message arrives.
abbrev heard : Small → Small
heard k = set_state k "a" connecting

connect_profile-IsConsistent_example :
    IsHookConsistent
      (settled (connect_profile props (λ k s. k) false heard "q" one host (created second)))
unfolding step_runs
connect_profile-IsConsistent_example =
    connect_profile-IsConsistent props (λ k s. k) false heard "q" one host (created second)
      (is_named "q" refl) (one-Represents.consistent, refl, omega arith) (λ k fine. fine)
      (λ s k fine. fine)

attempt_reconnect-IsConsistent_example :
    IsHookConsistent (attempt_reconnect props (λ k. k) one "a" (created second))
unfolding step_runs
attempt_reconnect-IsConsistent_example =
    attempt_reconnect-IsConsistent props (λ k. k) one "a" (created second)
      (one-Represents.consistent, refl) (λ k fine. fine)

split_active_pane-IsConsistent_example :
    IsHookConsistent
      (settled (split_active_pane hundredths props (λ k. k) "q" one vertical (created second)))
unfolding step_runs
split_active_pane-IsConsistent_example =
    split_active_pane-IsConsistent hundredths props (λ k. k) "q" one vertical (created second)
      (is_named "q" refl) one-Represents.consistent
      (λ q e. ((one-Represents.consistent, refl, own_pane "p" q e, refl), λ k fine. fine))

disconnect_session-IsClosed_example : IsClosed (disconnect_session (λ k. k) two "a") "a"
unfolding step_runs
disconnect_session-IsClosed_example =
    disconnect_session-IsClosed (λ k. k) two "a" ssh refl two-Represents.consistent (λ k fine. fine)

close_other_sessions_in_pane_lem_example :
    let after = close_other_sessions_in_pane (λ x. heard) two "p" "a" in
    (listed "b" after.live.sessions ≡ 0) × (sessions_in "b" after.live.workspace.root ≡ 0)
unfolding step_runs
close_other_sessions_in_pane_lem_example =
    close_other_sessions_in_pane_lem (λ x. heard) two "p" "a" "b" (λ x k. (λ y. refl, λ fine. fine))
      two-Represents.consistent refl

handle_session_disconnected-again_example :
    handle_session_disconnected props (handle_session_disconnected props one "a" 5) "a" 9
    ≡ handle_session_disconnected props one "a" 5
handle_session_disconnected-again_example = handle_session_disconnected-again props one "a" 5 9

-- The session `a` was told to reboot, twice it was reconnected already.
abbrev rebooting : Small
rebooting = record one {
  live = record one.live { reconnect_attempts = ("a", 2) ∷ [] };
  last_command = ("a", "reboot") ∷ [];
}

handle_session_disconnected_lem_example :
    let after = handle_session_disconnected props rebooting "a" 5 in
    (get after.live.session_reasons "a" ≡ some (ending_reason rebooting "a" 5))
    × ShowsRetry rebooting.live after.live "a" (retry_delay props (ending_reason rebooting "a" 5) 2)
unfolding step_runs
handle_session_disconnected_lem_example =
    handle_session_disconnected_lem props rebooting "a" 5 first refl refl refl

abbrev starting : SessionStatus
starting = record { session_id = "c"; state = connecting; error_message = none }

abbrev failing : SessionStatus
failing = record { session_id = "c"; state = error; error_message = some "refused" }

connect_profile_command-hidden_example :
    let after =
      settled
        (connect_profile_command (λ k t. k) false empty.live.workspace "q" one (created second)) in
    (listed "b" after.live.sessions ≡ 1) × (sessions_in "b" after.live.workspace.root ≡ 0)
unfolding step_runs
connect_profile_command-hidden_example =
    connect_profile_command-hidden empty.live.workspace "q" one second
      (create_single_pane_root "a" "p") refl (is_named "q" refl) refl refl refl refl

attempt_reconnect-closed_example :
    let after =
      attempt_reconnect props (λ k. disconnect_session (λ l. l) k "a") one "a" (created second) in
    (listed "b" after.live.sessions ≡ 0) × (get after.live.session_states "b" ≡ some connecting)
unfolding step_runs
attempt_reconnect-closed_example =
    attempt_reconnect-closed props (λ k. disconnect_session (λ l. l) k "a") one "a" "host" first
      second refl refl (is_named "host" refl) refl refl refl
