-- ===== src/Sessions/Statuses.antt =====
-- The status messages of sessions, of src/hooks/useSessionStateCore.ts.
use fluxterm.Base.{ℕ, String, true, false, Option, none, some, ◌∷◌, or_default, if◌then◌else◌}
use fluxterm.Base.Dict.{get, put}
use fluxterm.Reconnect.Policy.{network}
use fluxterm.Reconnect.Connections.{
  SessionStateUi, connecting, connected, disconnected, error, reconnecting,
}
use fluxterm.Sessions.Model.{
  ssh, local_shell, serial, AppEvent, Props, Hook, get_session_kind, is_serial_session,
  append_app_event, resolve_session_label,
}
use fluxterm.Sessions.Events.{
  SessionStatus, set_state, set_reason, session_profile, handle_session_disconnected,
  consume_suppressed_ssh_session_feedback,
}
use fluxterm.Sessions.Handlers.{disconnect_known}

module _ {L R : Type 0} where
  abbrev pub open_dialog : Hook L R → String → Hook L R
  open_dialog h title = record h { dialogs = title ∷ h.dialogs }

  -- A session's first failure opens a dialog.
  unfoldable pub show_failure : Hook L R → String → String → Hook L R
  show_failure h session_id title =
      if or_default (get h.error_dialog_shown session_id) false
      then h
      else open_dialog (record h { error_dialog_shown = put h.error_dialog_shown session_id true })
          title

  abbrev pub status_event : Props → Hook L R → String → String → String → AppEvent
  status_event props h session_id event_type level = record {
    event_type = event_type;
    level = level;
    session_id = some session_id;
    profile_id = session_profile h session_id;
    name = resolve_session_label props h session_id;
    reason = none;
  }

  unfoldable pub report_failure : Props → Hook L R → String → Option String → Hook L R
  report_failure props h session_id error_message =
      let is_serial = is_serial_session h session_id in
      let failed_state = (if is_serial then disconnected else error) in
      let told : Hook L R =
        record (set_reason (set_state h session_id failed_state) session_id network) {
          busy_message = some (or_default error_message (props.t "log.unknownError"));
        } in
      show_failure (append_app_event told (status_event props h session_id "session.error" "error"))
        session_id (if is_serial then "serial.connect.failed" else "dialog.sshErrorTitle")

  -- A failure of an SSH session also closes it: `meanwhile` is what happens until the back end
  -- has been told.
  unfoldable pub fail_session :
      Props → (Hook L R → Hook L R) → Hook L R → String → Option String → Hook L R
  fail_session props meanwhile h session_id error_message =
      let shown = report_failure props h session_id error_message in
      elim (get_session_kind h session_id) [
        | none ↦ shown
        | some ssh ↦
            disconnect_known meanwhile shown session_id (get h.live.session_states session_id) ssh
        | some local_shell ↦ shown
        | some serial ↦ shown
      ]

  unfoldable pub apply_status :
      Props
      → (Hook L R → Hook L R)
      → Hook L R
      → String
      → SessionStateUi
      → Option String
      → ℕ
      → Hook L R
  apply_status props meanwhile h session_id connecting error_message now =
      set_state h session_id connecting
  apply_status props meanwhile h session_id connected error_message now =
      append_app_event (set_state h session_id connected)
        (status_event props h session_id "session.connected" "success")
  apply_status props meanwhile h session_id disconnected error_message now =
      handle_session_disconnected props h session_id now
  apply_status props meanwhile h session_id error error_message now =
      fail_session props meanwhile h session_id error_message
  apply_status props meanwhile h session_id reconnecting error_message now =
      set_state h session_id reconnecting

  unfoldable pub handle_session_status :
      Props → (Hook L R → Hook L R) → Hook L R → SessionStatus → ℕ → Hook L R
  handle_session_status props meanwhile h status now =
      let consumed = consume_suppressed_ssh_session_feedback h status.session_id status.state in
      if consumed.1
      then consumed.0
      else apply_status props meanwhile consumed.0 status.session_id status.state
          status.error_message now
