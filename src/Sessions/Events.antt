-- ===== src/Sessions/Events.antt =====
-- What the hook of src/hooks/useSessionStateCore.ts does when the back end says that a session has
-- ended, changed its state or failed.
use fluxterm.Base.{
  ℕ, String, Bool, true, false, Option, none, some, or_default, if◌then◌else◌, ◌>>=◌,
}
use fluxterm.Base.Dict.{get, put, delete}
use fluxterm.Reconnect.Policy.{DisconnectReason, exit, poweroff, reboot, network, unknown}
use fluxterm.Reconnect.Reason.{infer_disconnect_reason}
use fluxterm.Reconnect.Connections.{
  SessionStateUi, connecting, connected, disconnected, error, reconnecting, Session,
  set_session_state,
}
use fluxterm.Reconnect.Runtime.{schedule_reconnect_attempt}
use fluxterm.Sessions.Model.{
  SessionKind, Props, Hook, terminal_eof_exit_grace_ms, is_terminal_eof_requested, find_session,
  is_local_session, append_app_event, resolve_session_label,
}

-- The reasons after which a session is reconnected by itself, when the settings say so.
unfoldable pub should_auto_reconnect : Props → DisconnectReason → Bool
should_auto_reconnect props exit = false
should_auto_reconnect props poweroff = props.auto_reconnect_on_poweroff
should_auto_reconnect props reboot = props.auto_reconnect_on_reboot
should_auto_reconnect props network = false
should_auto_reconnect props unknown = false

abbrev pub is_connecting : SessionStateUi → Bool
is_connecting connecting = true
is_connecting connected = false
is_connecting disconnected = false
is_connecting error = false
is_connecting reconnecting = false

-- A status message of the back end; a failure may carry the translated text of its error.
pub record SessionStatus : Type 0 where
  pub session_id : String
  pub state : SessionStateUi
  pub error_message : Option String

module _ {L R : Type 0} where
  abbrev pub set_state : Hook L R → String → SessionStateUi → Hook L R
  set_state h session_id state = record h { live = set_session_state h.live session_id state }

  abbrev pub set_reason : Hook L R → String → DisconnectReason → Hook L R
  set_reason h session_id reason = record h {
    live = record h.live { session_reasons = put h.live.session_reasons session_id reason };
  }

  -- The reason that is inferred for a session that ends at `now`.
  unfoldable pub ending_reason : Hook L R → String → ℕ → DisconnectReason
  ending_reason h session_id now =
      infer_disconnect_reason (get h.last_command session_id) (is_local_session h session_id) (
        is_terminal_eof_requested h.terminal_eof_request_at session_id terminal_eof_exit_grace_ms
          now)

  -- The part of `handleSessionDisconnected` after its early returns.
  unfoldable pub end_session : Props → Hook L R → Session SessionKind → String → ℕ → Hook L R
  end_session props h session session_id now =
      let reason = ending_reason h session_id now in
      let marked : Hook L R = record h {
        live = record h.live { close_handled = put h.live.close_handled session_id true };
        terminal_eof_request_at = delete h.terminal_eof_request_at session_id;
      } in
      let told =
        append_app_event
          (set_state (set_reason marked session_id reason) session_id
            (if should_auto_reconnect props reason then reconnecting else disconnected))
          (record {
            event_type = "session.disconnected";
            level = "error";
            session_id = some session_id;
            profile_id = session.profile_id;
            name = resolve_session_label props h session_id;
            reason = some reason;
          }) in
      if should_auto_reconnect props reason
      then record told { live = schedule_reconnect_attempt told.live session_id reason }
      else told

  unfoldable pub handle_session_disconnected : Props → Hook L R → String → ℕ → Hook L R
  handle_session_disconnected props h session_id now =
      if or_default (get h.live.close_handled session_id) false
      then h
      else if or_default (get h.suppressed_banners session_id) false
      then h
      else elim (find_session h session_id) [
        | none ↦ h
        | some session ↦ end_session props h session session_id now
      ]

  -- `set_timer` is the handle that the browser gives for the timer of five minutes.
  unfoldable pub suppress_ssh_session_feedback : Hook L R → String → ℕ → Hook L R
  suppress_ssh_session_feedback h session_id timer = record h {
    live = record h.live {
      session_states = delete h.live.session_states session_id;
      session_reasons = delete h.live.session_reasons session_id;
      close_handled = delete h.live.close_handled session_id;
    };
    error_dialog_shown = delete h.error_dialog_shown session_id;
    suppressed_feedback_timers = put h.suppressed_feedback_timers session_id timer;
  }

  -- The timer of five minutes fires.
  unfoldable pub feedback_timer_fires : Hook L R → String → Hook L R
  feedback_timer_fires h session_id = record h {
    suppressed_feedback_timers = delete h.suppressed_feedback_timers session_id;
  }

  -- What is kept, and whether the message is to be dropped.
  unfoldable pub consume_suppressed_ssh_session_feedback :
      Hook L R → String → SessionStateUi → Hook L R × Bool
  consume_suppressed_ssh_session_feedback h session_id state =
      elim (get h.suppressed_feedback_timers session_id) [
        | none ↦ (h, false)
        | some timer ↦
            if is_connecting state then (h, true) else (feedback_timer_fires h session_id, true)
      ]

  abbrev pub session_profile : Hook L R → String → Option String
  session_profile h session_id = find_session h session_id >>= λ session. session.profile_id
