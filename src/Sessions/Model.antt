-- ===== src/Sessions/Model.antt =====
-- The state and the small operations of src/hooks/useSessionStateCore.ts. A handler starts from a
-- committed render, in which the refs and the React states hold the same values, so each is kept
-- once. The texts of dialogs, the ids and times of events, and the texts that sessions print are
-- left out.
use fluxterm.Base.{
  true, ℕ, ◌+◌, ◌*◌, String, Bool, false, ◌==◌, trim, Option, none, some, List, ◌∷◌, find, take,
  leb, or_default, if◌then◌else◌,
}
use mathlib.Core.Option
use fluxterm.Base.Dict.{Dict, get, put, delete}
use fluxterm.Reconnect.Policy.{DisconnectReason}
use fluxterm.Reconnect.Connections.{Session, Connections}
use fluxterm.Reconnect.Runtime.{cancel}
use fluxterm.Workspace.Reducer.{SessionWorkspaceState}

pub data SessionKind : Type 0 where
  ssh local_shell serial : SessionKind

pub record LocalSessionMeta (L : Type 0) : Type 0 where
  pub shell_id : Option String
  pub label : String
  pub shell_kind : String
  pub wsl_distribution : Option String
  pub launch_config : Option L

-- The fields of a host profile and of a serial profile that name a session.
pub record HostProfile : Type 0 where
  pub id : String
  pub name : String
  pub host : String

pub record SerialProfile : Type 0 where
  pub name : String
  pub port_name : String

pub record AppEvent : Type 0 where
  pub event_type : String
  pub level : String
  pub session_id : Option String
  pub profile_id : Option String
  pub name : String
  pub reason : Option DisconnectReason

-- What the hook is given: `t` looks a text up in the chosen language.
pub record Props : Type 0 where
  pub t : String → String
  pub profiles : List HostProfile
  pub auto_reconnect_on_poweroff : Bool
  pub auto_reconnect_on_reboot : Bool

-- What the hook keeps for its sessions, its timers and its panes.
abbrev pub Live : Type 0 → Type 0 → Type 0
Live L R = Connections SessionKind (LocalSessionMeta L) (SessionWorkspaceState R)

pub record Hook (L R : Type 0) : Type 0 where
  pub live : Live L R
  pub serial_profiles : Dict SerialProfile
  pub app_events : List AppEvent
  pub busy_message : Option String
  pub last_command : Dict String
  pub suppressed_banners : Dict Bool
  pub terminal_eof_request_at : Dict ℕ
  pub error_dialog_shown : Dict Bool
  pub suppressed_feedback_timers : Dict ℕ
  pub pending_host_key_reconnect : Dict String
  pub pending_host_key_dialog : Dict Bool
  -- the titles of the dialogs that were opened, the last one first
  pub dialogs : List String

abbrev pub terminal_eof_exit_grace_ms : ℕ
terminal_eof_exit_grace_ms = 1500

abbrev pub max_app_events : ℕ
max_app_events = 10

abbrev pub mark_terminal_eof_requested : Dict ℕ → String → ℕ → Dict ℕ
mark_terminal_eof_requested request_at session_id now = put request_at session_id now

abbrev pub clear_terminal_eof_requested : Dict ℕ → String → Dict ℕ
clear_terminal_eof_requested request_at session_id = delete request_at session_id

-- `now - (at ?? -grace * 2) <= grace`, with the subtraction moved to the other side; the entry is
-- deleted by the caller.
unfoldable pub is_terminal_eof_requested : Dict ℕ → String → ℕ → ℕ → Bool
is_terminal_eof_requested request_at session_id grace_ms now = elim (get request_at session_id) [
  | none ↦ leb (now + grace_ms * 2) grace_ms
  | some at_ms ↦ leb now (at_ms + grace_ms)
]

-- A text, or the next one where it is empty.
abbrev pub or_text : String → String → String
or_text text otherwise = if text == "" then otherwise else text

-- `item.id === id`, where `id` may be null
abbrev pub is_id : Option String → String → Bool
is_id none id = false
is_id (some wanted) id = id == wanted

module _ {L R : Type 0} where
  abbrev pub find_session : Hook L R → String → Option (Session SessionKind)
  find_session h session_id = find (λ item. item.session_id == session_id) h.live.sessions

  unfoldable pub get_session_kind : Hook L R → String → Option SessionKind
  get_session_kind h session_id =
      if session_id == ""
      then none
      else Option.map (λ (item : Session SessionKind). item.details) (find_session h session_id)

  unfoldable pub is_local_session : Hook L R → String → Bool
  is_local_session h session_id = elim (get_session_kind h session_id) [
    | none ↦ false
    | some ssh ↦ false
    | some local_shell ↦ true
    | some serial ↦ false
  ]

  unfoldable pub is_serial_session : Hook L R → String → Bool
  is_serial_session h session_id = elim (get_session_kind h session_id) [
    | none ↦ false
    | some ssh ↦ false
    | some local_shell ↦ false
    | some serial ↦ true
  ]

  unfoldable pub append_app_event : Hook L R → AppEvent → Hook L R
  append_app_event h event = record h { app_events = take max_app_events (event ∷ h.app_events) }

  unfoldable pub set_last_command : Hook L R → String → String → Hook L R
  set_last_command h session_id command =
      let normalized = trim command in
      if normalized == ""
      then h
      else record h { last_command = put h.last_command session_id normalized }

  unfoldable pub resolve_session_label : Props → Hook L R → String → String
  resolve_session_label props h session_id = elim (find_session h session_id) [
    | none ↦ props.t "session.defaultName"
    | some session ↦
        if is_local_session h session_id
        then or_default
            (Option.map (λ (meta : LocalSessionMeta L). meta.label)
              (get h.live.local_session_meta session_id))
            (props.t "session.local")
        else if is_serial_session h session_id
        then elim (get h.serial_profiles session_id) [
          | none ↦ props.t "widget.serial"
          | some profile ↦
              or_text profile.name (or_text profile.port_name (props.t "widget.serial"))
        ]
        else elim (find (λ (item : HostProfile). is_id session.profile_id item.id) props.profiles) [
          | none ↦ props.t "session.defaultName"
          | some profile ↦
              or_text profile.name (or_text profile.host (props.t "session.defaultName"))
        ]
  ]

  unfoldable pub clear_scheduled_reconnect_countdown : Hook L R → String → Hook L R
  clear_scheduled_reconnect_countdown h session_id = record h {
    live = record h.live {
      timers = cancel h.live.timers (get h.live.reconnect_timers session_id);
      reconnect_timers = delete h.live.reconnect_timers session_id;
      reconnect_info = delete h.live.reconnect_info session_id;
    };
  }

  unfoldable pub clear_pending_host_key_for_profile : Hook L R → String → Hook L R
  clear_pending_host_key_for_profile h profile_id = record h {
    pending_host_key_reconnect = delete h.pending_host_key_reconnect profile_id;
    pending_host_key_dialog = delete h.pending_host_key_dialog profile_id;
  }
