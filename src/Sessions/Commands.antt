-- ===== src/Sessions/Commands.antt =====
-- src/features/session/core/commands.ts: the commands that open, close and reopen sessions, from the
-- back end's answer on. `meanwhile` is what other events do to the state before that answer.
use fluxterm.Base.{
  String, Bool, true, false, not, ◌||◌, ◌==◌, Option, none, some, List, [], ◌∷◌, ◌++◌, keep,
  includes, if◌then◌else◌,
}
use fluxterm.Base.Dict.{get, put, delete}
use fluxterm.Reconnect.Connections.{
  SessionStateUi, connecting, connected, disconnected, error, reconnecting, Session,
  set_session_state,
}
use fluxterm.Reconnect.Runtime.{Created, created, failed}
use fluxterm.Reconnect.Lifecycle.{replace_session_connection_state}
use fluxterm.Workspace.Reducer.{SessionWorkspaceState, attach, replace, detach}
use fluxterm.Sessions.Model.{SessionKind, ssh, local_shell, serial, LocalSessionMeta, Live, Hook}

-- An operation ends, or throws an error of this code.
pub data Ran {ℓ} (H : Type ℓ) : Type ℓ where
  finished : H → Ran H
  thrown : H → String → Ran H

-- The state that an operation leaves, whichever way it ends.
abbrev pub settled {ℓ} : {H : Type ℓ} → Ran H → H
settled (finished h) = h
settled (thrown h code) = h

-- A shell that the user can start.
pub record LocalShellProfile : Type 0 where
  pub id : String
  pub label : String
  pub kind : String
  pub wsl_distribution : Option String

-- Set.add
abbrev pub add_to_set : List String → String → List String
add_to_set ids id = if includes ids id then ids else ids ++ id ∷ []

abbrev pub is_host_key_code : String → Bool
is_host_key_code code = code == "ssh_host_key_unknown" || code == "ssh_host_key_mismatch"

-- The back end still has the session.
abbrev pub is_live : Option SessionStateUi → Bool
is_live none = false
is_live (some connecting) = true
is_live (some connected) = true
is_live (some disconnected) = false
is_live (some error) = false
is_live (some reconnecting) = true

abbrev pub has_ended : Option SessionStateUi → Bool
has_ended none = false
has_ended (some connecting) = false
has_ended (some connected) = false
has_ended (some disconnected) = true
has_ended (some error) = true
has_ended (some reconnecting) = false

module _ {L : Type 0} where
  -- `??` on the fields of a shell, or of the metadata of the session that gives way to a new one
  unfoldable pub shell_meta : Option LocalShellProfile → String → Option L → LocalSessionMeta L
  shell_meta none local_label launch_config = record {
    shell_id = none;
    label = local_label;
    shell_kind = "native";
    wsl_distribution = none;
    launch_config = launch_config;
  }
  shell_meta (some shell) local_label launch_config = record {
    shell_id = some shell.id;
    label = shell.label;
    shell_kind = shell.kind;
    wsl_distribution = shell.wsl_distribution;
    launch_config = launch_config;
  }

  unfoldable pub same_meta : Option (LocalSessionMeta L) → String → LocalSessionMeta L
  same_meta none local_label = shell_meta none local_label none
  same_meta (some meta) local_label = meta

module _ {R : Type 0} where
  -- The pane that `attachSession` is given by a handler that has seen the workspace `seen`: its
  -- active pane, or, where it is empty, a new pane `fresh`.
  unfoldable pub attach_target : SessionWorkspaceState R → String → Option String
  attach_target seen fresh = elim seen.root [ none ↦ some fresh | some root ↦ seen.active_pane_id ]

module _ {L R : Type 0} where
  -- `setSessions(prev => prev.concat(session))`, with the workspace told, and the reason deleted
  unfoldable pub add_session : Live L R → Session SessionKind → SessionWorkspaceState R → Live L R
  add_session c session workspace = record c {
    sessions = c.sessions ++ session ∷ [];
    session_reasons = delete c.session_reasons session.session_id;
    workspace = workspace;
  }

  -- `seen` is the workspace when the command was called, and `is_suppressed` what
  -- `shouldSuppressError` answers once the back end has.
  unfoldable pub connect_profile_command :
      (Hook L R → Session SessionKind → Hook L R)
      → Bool
      → SessionWorkspaceState R
      → String
      → Hook L R
      → Created SessionKind
      → Ran (Hook L R)
  connect_profile_command on_session_created is_suppressed seen fresh h (created session) =
      let id = session.session_id in
      let told = on_session_created h session in
      if is_suppressed
      then finished told
      else let added =
          add_session told.live session
            (attach told.live.workspace id (attach_target seen fresh)) in
        finished (record told {
          live =
              (if has_ended (get h.live.session_states id)
                then added
                else set_session_state added id connecting);
        })
  connect_profile_command on_session_created is_suppressed seen fresh h (failed code) =
      if is_suppressed
      then finished h
      else if is_host_key_code code
      then thrown h code
      else thrown (record h { dialogs = "dialog.sshErrorTitle" ∷ h.dialogs }) code

  unfoldable pub connect_local_shell_command :
      Option LocalShellProfile
      → Option L
      → String
      → SessionWorkspaceState R
      → String
      → Hook L R
      → Session SessionKind
      → Hook L R
  connect_local_shell_command shell launch_config local_label seen fresh h session =
      let id = session.session_id in
      let c = h.live in
      let added = add_session c session (attach c.workspace id (attach_target seen fresh)) in
      record h {
        live = record (set_session_state added id connected) {
          local_session_ids = add_to_set c.local_session_ids id;
          local_session_meta =
              put c.local_session_meta id (shell_meta shell local_label launch_config);
        };
      }

  unfoldable pub forget_session : Live L R → String → SessionKind → Live L R
  forget_session c session_id kind = record c {
    local_session_ids = elim kind [
      | ssh ↦ c.local_session_ids
      | local_shell ↦ keep (λ item. not (item == session_id)) c.local_session_ids
      | serial ↦ c.local_session_ids
    ];
    local_session_meta = elim kind [
      | ssh ↦ c.local_session_meta
      | local_shell ↦ delete c.local_session_meta session_id
      | serial ↦ c.local_session_meta
    ];
    sessions = keep (λ item. not (item.session_id == session_id)) c.sessions;
    workspace = detach c.workspace session_id;
    session_states = delete c.session_states session_id;
    session_reasons = delete c.session_reasons session_id;
    reconnect_info = delete c.reconnect_info session_id;
  }

  -- The back end is told of the session's end when it has it; whether it answers or throws makes
  -- no difference.
  unfoldable pub disconnect_session_command :
      (Hook L R → Hook L R) → Hook L R → String → Option SessionStateUi → SessionKind → Hook L R
  disconnect_session_command meanwhile h session_id state kind =
      let asked = if is_live state then meanwhile h else h in
      record asked { live = forget_session asked.live session_id kind }

  -- `none` stands for a shell that could not be started.
  unfoldable pub reconnect_local_shell_command :
      String → (Hook L R → Hook L R) → Hook L R → String → Option (Session SessionKind) → Hook L R
  reconnect_local_shell_command local_label meanwhile h session_id answer =
      let meta = get h.live.local_session_meta session_id in
      let asked =
        meanwhile (record h { live = set_session_state h.live session_id reconnecting }) in
      elim answer [
        | none ↦ record asked { live = set_session_state asked.live session_id disconnected }
        | some next ↦ record asked {
          live =
              replace_session_connection_state replace asked.live session_id next connected
                (some (same_meta meta local_label));
        }
      ]
