-- ===== src/Sessions/Openings.antt =====
-- The handlers of src/hooks/useSessionStateCore.ts that open sessions, open them again, and split a
-- pane. What the back end answers is an argument.
use fluxterm.Base.{
  String, Bool, ◌==◌, Option, none, some, [], ◌∷◌, ◌++◌, find, if◌then◌else◌, ◌>>=◌,
}
use fluxterm.Base.Dict.{get, put, delete}
use fluxterm.Reconnect.Connections.{connecting, connected, disconnected, reconnecting, Session}
use fluxterm.Reconnect.Runtime.{Created, created, failed}
use fluxterm.Reconnect.Lifecycle.{replace_session_connection_state}
use fluxterm.Workspace.Tree.{SplitAxis, Ratios}
use fluxterm.Workspace.Reducer.{truthy, attach, replace, split_at, get_active_session_id}
use fluxterm.Sessions.Model.{
  is_id, SessionKind, ssh, local_shell, serial, HostProfile, SerialProfile, AppEvent, Props, Hook,
  find_session, is_local_session, is_serial_session, append_app_event,
  clear_pending_host_key_for_profile,
}
use fluxterm.Sessions.Events.{set_state}
use fluxterm.Sessions.Commands.{
  Ran, finished, thrown, add_to_set, add_session, same_meta, attach_target, connect_profile_command,
  reconnect_local_shell_command,
}
use fluxterm.Sessions.Statuses.{open_dialog}
use fluxterm.Sessions.Handlers.{attempt_reconnect}

unfoldable pub connecting_event : HostProfile → String → AppEvent
connecting_event profile name = record {
  event_type = "session.connecting";
  level = "info";
  session_id = none;
  profile_id = some profile.id;
  name = name;
  reason = none;
}

abbrev pub to_option : Created SessionKind → Option (Session SessionKind)
to_option (created session) = some session
to_option (failed code) = none

module _ {L R : Type 0} where
  -- The connection begins with its event; `on_session_created` and `is_suppressed` are the
  -- caller's.
  unfoldable pub connect_profile :
      Props
      → (Hook L R → Session SessionKind → Hook L R)
      → Bool
      → (Hook L R → Hook L R)
      → String
      → Hook L R
      → HostProfile
      → Created SessionKind
      → Ran (Hook L R)
  connect_profile props on_session_created is_suppressed meanwhile fresh h profile answer =
      let name =
        (if profile.name == ""
          then if profile.host == "" then props.t "session.defaultName" else profile.host
          else profile.name) in
      let begun =
        append_app_event (clear_pending_host_key_for_profile h profile.id)
          (connecting_event profile name) in
      connect_profile_command on_session_created is_suppressed h.live.workspace fresh
        (meanwhile begun) answer

  -- `is_cancelled` is what the caller's `isCancelled` answers once the back end has.
  unfoldable pub connect_serial_profile :
      Bool
      → (Hook L R → Hook L R)
      → String
      → Hook L R
      → SerialProfile
      → Created SessionKind
      → Ran (Hook L R)
  connect_serial_profile is_cancelled meanwhile fresh h profile (created session) =
      let asked = meanwhile h in
      let id = session.session_id in
      let c = asked.live in
      if is_cancelled
      then finished (record asked {
        live = record c {
          session_states = delete c.session_states id;
          session_reasons = delete c.session_reasons id;
        };
        error_dialog_shown = delete asked.error_dialog_shown id;
      })
      else finished (record asked {
        serial_profiles = put asked.serial_profiles id profile;
        live = record c {
          sessions = c.sessions ++ session ∷ [];
          session_states = put c.session_states id connected;
          workspace = attach c.workspace id (attach_target h.live.workspace fresh);
        };
      })
  connect_serial_profile is_cancelled meanwhile fresh h profile (failed code) =
      if is_cancelled
      then finished (meanwhile h)
      else thrown (open_dialog (meanwhile h) "serial.connect.failed") code

  unfoldable pub reconnect_serial_session :
      (Hook L R → Hook L R) → Hook L R → String → Created SessionKind → Hook L R
  reconnect_serial_session meanwhile h session_id answer =
      let asked = meanwhile (set_state h session_id reconnecting) in
      elim (get h.serial_profiles session_id) [
        | none ↦ h
        | some profile ↦ elim answer [
          | created next ↦ record asked {
            live =
                replace_session_connection_state replace asked.live session_id next connected none;
            serial_profiles = put (delete asked.serial_profiles session_id) next.session_id profile;
          }
          | failed code ↦
              open_dialog (set_state asked session_id disconnected) "serial.connect.failed"
        ]
      ]

  unfoldable pub reconnect_session :
      Props → (Hook L R → Hook L R) → Hook L R → String → Created SessionKind → Hook L R
  reconnect_session props meanwhile h session_id answer =
      if is_local_session h session_id
      then reconnect_local_shell_command (props.t "session.local") meanwhile h session_id
          (to_option answer)
      else if is_serial_session h session_id
      then reconnect_serial_session meanwhile h session_id answer
      else attempt_reconnect props meanwhile (set_state h session_id reconnecting) session_id answer

  -- The session of the new pane, as the back end creates it for the session that is shown.
  unfoldable pub split_with :
      Ratios R
      → (Hook L R → Hook L R)
      → String
      → String
      → Hook L R
      → SplitAxis
      → String
      → Session SessionKind
      → Session SessionKind
      → Hook L R
  split_with ratios meanwhile local_label fresh h axis pane_id current next =
      let asked = meanwhile h in
      let id = next.session_id in
      let c = asked.live in
      let is_local = is_local_session h current.session_id in
      record asked {
        live = record (add_session c next (split_at ratios c.workspace pane_id fresh id axis)) {
          session_states = put c.session_states id (if is_local then connected else connecting);
          local_session_ids =
              (if is_local then add_to_set c.local_session_ids id else c.local_session_ids);
          local_session_meta =
              (if is_local
                then put c.local_session_meta id
                    (same_meta (get h.live.local_session_meta current.session_id) local_label)
                else c.local_session_meta);
        };
      }

  abbrev pub split_answer :
      Ratios R
      → (Hook L R → Hook L R)
      → String
      → String
      → Hook L R
      → SplitAxis
      → String
      → Session SessionKind
      → Created SessionKind
      → Ran (Hook L R)
  split_answer ratios meanwhile local_label fresh h axis pane_id current (created next) =
      finished (split_with ratios meanwhile local_label fresh h axis pane_id current next)
  split_answer ratios meanwhile local_label fresh h axis pane_id current (failed code) =
      thrown (meanwhile h) code

  -- A serial session cannot be shared by two panes; an SSH session is opened again when its
  -- profile is known.
  unfoldable pub split_session :
      Ratios R
      → Props
      → (Hook L R → Hook L R)
      → String
      → Hook L R
      → SplitAxis
      → String
      → Session SessionKind
      → SessionKind
      → Created SessionKind
      → Ran (Hook L R)
  split_session ratios props meanwhile fresh h axis pane_id current serial answer =
      finished (open_dialog h "layout.split")
  split_session ratios props meanwhile fresh h axis pane_id current local_shell answer =
      split_answer ratios meanwhile (props.t "session.local") fresh h axis pane_id current answer
  split_session ratios props meanwhile fresh h axis pane_id current ssh answer =
      elim (find (λ (item : HostProfile). is_id current.profile_id item.id) props.profiles) [
        | none ↦ finished h
        | some profile ↦
            split_answer ratios meanwhile (props.t "session.local") fresh h axis pane_id current
              answer
      ]

  unfoldable pub split_active_pane :
      Ratios R
      → Props
      → (Hook L R → Hook L R)
      → String
      → Hook L R
      → SplitAxis
      → Created SessionKind
      → Ran (Hook L R)
  split_active_pane ratios props meanwhile fresh h axis answer =
      elim (truthy h.live.workspace.active_pane_id) [
        | none ↦ finished h
        | some pane_id ↦ elim (truthy (get_active_session_id h.live.workspace) >>= find_session h) [
          | none ↦ finished h
          | some current ↦
              split_session ratios props meanwhile fresh h axis pane_id current current.details
                answer
        ]
      ]
