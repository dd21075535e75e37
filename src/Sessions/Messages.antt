-- ===== src/Sessions/Messages.antt =====
-- The status messages of the back end (src/hooks/useSessionStateCore.ts): what every message keeps.
use fluxterm.Base.{
  ℕ, String, true, false, ◌≡◌, refl, Option, none, some, Bool-cases, Option-cases, inl, inr,
  if◌then◌else◌, or_default,
}
use fluxterm.Base.Dict.{get}
use fluxterm.Reconnect.Connections.{
  SessionStateUi, connecting, connected, disconnected, error, reconnecting, Session,
}
use fluxterm.Sessions.Model.{
  SessionKind, ssh, local_shell, serial, Props, Hook, get_session_kind, append_app_event,
}
use fluxterm.Sessions.Events.{
  SessionStatus, is_connecting, should_auto_reconnect, ending_reason, end_session,
  handle_session_disconnected, consume_suppressed_ssh_session_feedback, feedback_timer_fires,
}
use fluxterm.Sessions.Statuses.{
  report_failure, show_failure, fail_session, apply_status, handle_session_status,
}
use fluxterm.Sessions.Endings.{handle_cases}
use fluxterm.Sessions.Preservation.{
  IsHookConsistent, Keeps, schedule-IsConsistent, disconnect_known-IsConsistent,
}

module _ {L R : Type 0} where
  end_session-IsConsistent :
      (props : Props) (h : Hook L R) (s : Session SessionKind) (x : String) (now : ℕ)
      → IsHookConsistent h
      → IsHookConsistent (end_session props h s x now)
  unfolding end_session append_app_event
  end_session-IsConsistent props h s x now ok =
      let reason = ending_reason h x now in
      elim (Bool-cases (should_auto_reconnect props reason)) [
        | inl e ↦ rw (e, end_session) (schedule-IsConsistent _ x reason ok)
        | inr e ↦ rw (e, end_session) ok
      ]

  pub disconnected-IsConsistent :
      (props : Props) (h : Hook L R) (x : String) (now : ℕ)
      → IsHookConsistent h
      → IsHookConsistent (handle_session_disconnected props h x now)
  disconnected-IsConsistent props h x now ok = elim (handle_cases props h x) [
    | inl same_hook ↦ rw (same_hook now) ok
    | inr (s, found, ends) ↦ rw (ends now) (end_session-IsConsistent props h s x now ok)
  ]

  show_failure-IsConsistent :
      (h : Hook L R) (x title : String)
      → IsHookConsistent h
      → IsHookConsistent (show_failure h x title)
  unfolding show_failure
  show_failure-IsConsistent h x title ok =
      elim (Bool-cases (or_default (get h.error_dialog_shown x) false)) [
        | inl e ↦ rw (e, show_failure) ok
        | inr e ↦ rw (e, show_failure) ok
      ]

  report_failure-IsConsistent :
      (props : Props) (h : Hook L R) (x : String) (message : Option String)
      → IsHookConsistent h
      → IsHookConsistent (report_failure props h x message)
  unfolding report_failure append_app_event
  report_failure-IsConsistent props h x message ok = show_failure-IsConsistent _ x _ ok

  fail_session-IsConsistent :
      (props : Props) (meanwhile : Hook L R → Hook L R) (h : Hook L R) (x : String)
      (message : Option String)
      → IsHookConsistent h
      → Keeps IsHookConsistent meanwhile
      → IsHookConsistent (fail_session props meanwhile h x message)
  unfolding fail_session
  fail_session-IsConsistent props meanwhile h x message ok kept =
      let shown = report_failure-IsConsistent props h x message ok in
      elim (Option-cases (get_session_kind h x)) [
        | inl e ↦ rw (e, fail_session) shown
        | inr (ssh, e) ↦
            rw (e, fail_session)
              (disconnect_known-IsConsistent meanwhile (report_failure props h x message) x
                (get h.live.session_states x) ssh shown kept)
        | inr (local_shell, e) ↦ rw (e, fail_session) shown
        | inr (serial, e) ↦ rw (e, fail_session) shown
      ]

  apply_status-IsConsistent :
      (props : Props) (meanwhile : Hook L R → Hook L R) (h : Hook L R) (x : String)
      (st : SessionStateUi) (message : Option String) (now : ℕ)
      → IsHookConsistent h
      → Keeps IsHookConsistent meanwhile
      → IsHookConsistent (apply_status props meanwhile h x st message now)
  unfolding apply_status append_app_event
  apply_status-IsConsistent props meanwhile h x connecting message now ok kept = ok
  apply_status-IsConsistent props meanwhile h x connected message now ok kept = ok
  apply_status-IsConsistent props meanwhile h x disconnected message now ok kept =
      disconnected-IsConsistent props h x now ok
  apply_status-IsConsistent props meanwhile h x error message now ok kept =
      fail_session-IsConsistent props meanwhile h x message ok kept
  apply_status-IsConsistent props meanwhile h x reconnecting message now ok kept = ok

  consume_pending :
      (h : Hook L R) (x : String) (st : SessionStateUi) (timer : ℕ)
      → get h.suppressed_feedback_timers x ≡ some timer
      → consume_suppressed_ssh_session_feedback h x st
        ≡ (if is_connecting st then (h, true) else (feedback_timer_fires h x, true))
  unfolding consume_suppressed_ssh_session_feedback
  consume_pending h x st timer e = rw (e, consume_suppressed_ssh_session_feedback) refl

  pub consume_free :
      (h : Hook L R) (x : String) (st : SessionStateUi)
      → get h.suppressed_feedback_timers x ≡ none
      → consume_suppressed_ssh_session_feedback h x st ≡ (h, false)
  unfolding consume_suppressed_ssh_session_feedback
  consume_free h x st e = rw (e, consume_suppressed_ssh_session_feedback) refl

  -- A message of a session whose connection was cancelled is dropped.
  pub dropped_message :
      (props : Props) (meanwhile : Hook L R → Hook L R) (h : Hook L R) (m : SessionStatus) (now : ℕ)
      (timer : ℕ)
      → get h.suppressed_feedback_timers m.session_id ≡ some timer
      → handle_session_status props meanwhile h m now
        ≡ (if is_connecting m.state then h else feedback_timer_fires h m.session_id)
  unfolding handle_session_status feedback_timer_fires
  dropped_message props meanwhile h m now timer e = elim (Bool-cases (is_connecting m.state)) [
    | inl f ↦ rw (consume_pending h m.session_id m.state timer e, f) refl
    | inr f ↦ rw (consume_pending h m.session_id m.state timer e, f) refl
  ]

  -- Every status message keeps the session list and the pane tree in agreement, also one that
  -- closes its session, when what happens in the meantime keeps them so.
  pub handle_session_status-IsConsistent :
      (props : Props) (meanwhile : Hook L R → Hook L R) (h : Hook L R) (m : SessionStatus) (now : ℕ)
      → IsHookConsistent h
      → Keeps IsHookConsistent meanwhile
      → IsHookConsistent (handle_session_status props meanwhile h m now)
  unfolding handle_session_status feedback_timer_fires
  handle_session_status-IsConsistent props meanwhile h m now ok kept =
      elim (Option-cases (get h.suppressed_feedback_timers m.session_id)) [
        | inl e ↦ rw (consume_free h m.session_id m.state e) (
            apply_status-IsConsistent props meanwhile h m.session_id m.state m.error_message now ok
              kept)
        | inr (timer, e) ↦
            rw (dropped_message props meanwhile h m now timer e)
              (elim (Bool-cases (is_connecting m.state)) [ inl f ↦ rw f ok | inr f ↦ rw f ok ])
      ]
