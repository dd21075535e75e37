-- ===== src/Sessions/Handlers.antt =====
-- The handlers of src/hooks/useSessionStateCore.ts that open, close, split and reconnect sessions.
-- `meanwhile` is what other events do to the state while the back end is asked.
use fluxterm.Base.{
  ℕ, String, Bool, true, false, not, ◌||◌, ◌==◌, Option, none, some, List, [], ◌∷◌, find, map, keep,
  includes, eqb, or_default, if◌then◌else◌, ◌>>=◌,
}
use mathlib.Core.Option
use fluxterm.Base.Dict.{get, put, delete}
use fluxterm.Reconnect.Policy.{DisconnectReason, unknown}
use fluxterm.Reconnect.Connections.{SessionStateUi, connecting, reconnecting, Session, Timer}
use fluxterm.Reconnect.Runtime.{Created, attempt_session_reconnect, fire}
use fluxterm.Reconnect.Lifecycle.{replace_session_connection_state}
use fluxterm.Workspace.Tree.{Leaf, collect_leaf_panes}
use fluxterm.Workspace.Reducer.{truthy, replace}
use fluxterm.Sessions.Model.{
  SessionKind, ssh, local_shell, serial, HostProfile, Props, Live, Hook, find_session,
  get_session_kind, is_local_session, is_serial_session, clear_scheduled_reconnect_countdown,
}
use fluxterm.Sessions.Events.{set_state, suppress_ssh_session_feedback}
use fluxterm.Sessions.Commands.{disconnect_session_command}

-- `slice(indexOf(x) + 1)`, empty where `x` is not there
unfoldable pub after_first : String → List String → List String
after_first x [] = []
after_first x (y ∷ ys) = let rest = after_first x ys in if y == x then ys else rest

module _ {L R : Type 0} where
  -- `disconnectSession` past its early return, with the state that the hook has seen
  unfoldable pub disconnect_known :
      (Hook L R → Hook L R) → Hook L R → String → Option SessionStateUi → SessionKind → Hook L R
  disconnect_known meanwhile h session_id state kind =
      let after = disconnect_session_command meanwhile h session_id state kind in
      elim kind [
        | ssh ↦ after
        | local_shell ↦ after
        | serial ↦ record after { serial_profiles = delete after.serial_profiles session_id }
      ]

  unfoldable pub disconnect_session : (Hook L R → Hook L R) → Hook L R → String → Hook L R
  disconnect_session meanwhile h session_id = elim (get_session_kind h session_id) [
    | none ↦ h
    | some kind ↦
        disconnect_known meanwhile h session_id (get h.live.session_states session_id) kind
  ]

  -- Each session has its own `meanwhile`.
  unfoldable pub close_sessions : (String → Hook L R → Hook L R) → Hook L R → List String → Hook L R
  close_sessions meanwhile h [] = h
  close_sessions meanwhile h (session_id ∷ session_ids) =
      close_sessions meanwhile (disconnect_session (meanwhile session_id) h session_id) session_ids

  unfoldable pub get_pane_sessions : Hook L R → String → List String
  get_pane_sessions h pane_id = elim h.live.workspace.root [
    | none ↦ []
    | some root ↦
        or_default
          (Option.map (λ (l : Leaf). l.session_ids)
            (find (λ (l : Leaf). l.pane_id == pane_id) (collect_leaf_panes root)))
          []
  ]

  abbrev pub mark_banner : Hook L R → String → Bool → Hook L R
  mark_banner h session_id suppress_banner =
      if suppress_banner
      then record h { suppressed_banners = put h.suppressed_banners session_id true }
      else h

  unfoldable pub close_pane_session :
      (Hook L R → Hook L R) → Hook L R → String → String → Bool → Hook L R
  close_pane_session meanwhile h pane_id session_id suppress_banner =
      let closed =
        disconnect_session meanwhile (mark_banner h session_id suppress_banner) session_id in
      if includes (get_pane_sessions h pane_id) session_id
      then record closed { suppressed_banners = delete closed.suppressed_banners session_id }
      else h

  unfoldable pub close_other_sessions_in_pane :
      (String → Hook L R → Hook L R) → Hook L R → String → String → Hook L R
  close_other_sessions_in_pane meanwhile h pane_id session_id =
      close_sessions meanwhile h
        (keep (λ item. not (item == session_id)) (get_pane_sessions h pane_id))

  unfoldable pub close_sessions_to_right_in_pane :
      (String → Hook L R → Hook L R) → Hook L R → String → String → Hook L R
  close_sessions_to_right_in_pane meanwhile h pane_id session_id =
      close_sessions meanwhile h (after_first session_id (get_pane_sessions h pane_id))

  unfoldable pub close_all_sessions_in_pane :
      (String → Hook L R → Hook L R) → Hook L R → String → Hook L R
  close_all_sessions_in_pane meanwhile h pane_id =
      close_sessions meanwhile h (get_pane_sessions h pane_id)

  -- The state that decides whether the back end is told is the one before the suppression.
  unfoldable pub cancel_ssh_connect_session :
      (Hook L R → Hook L R) → Hook L R → String → ℕ → Hook L R
  cancel_ssh_connect_session meanwhile h session_id timer =
      let suppressed = suppress_ssh_session_feedback h session_id timer in
      elim (get_session_kind h session_id) [
        | none ↦ suppressed
        | some kind ↦
            disconnect_known meanwhile suppressed session_id (get h.live.session_states session_id)
              kind
      ]

  abbrev pub get_disconnect_reason : Live L R → String → DisconnectReason
  get_disconnect_reason c session_id = or_default (get c.session_reasons session_id) unknown

  abbrev pub replace_session_connection : Live L R → String → Session SessionKind → Live L R
  replace_session_connection c old_id next =
      replace_session_connection_state replace c old_id next connecting none

  abbrev pub profile_of : Hook L R → String → Option String
  profile_of h session_id = truthy (find_session h session_id >>= λ session. session.profile_id)

  abbrev attempt_live : List String → Hook L R → Hook L R → String → Created SessionKind → Hook L R
  attempt_live ids noted asked session_id answer = record asked {
    live =
        attempt_session_reconnect ids get_disconnect_reason replace_session_connection
          (λ _. asked.live) noted.live session_id answer;
  }

  -- A question about the host's key that is still open keeps the profile's entry.
  unfoldable pub end_attempt : Hook L R → String → Hook L R
  end_attempt h profile_id =
      if or_default (get h.pending_host_key_dialog profile_id) false
      then h
      else record h { pending_host_key_reconnect = delete h.pending_host_key_reconnect profile_id }

  abbrev pub note_attempt : Hook L R → String → String → Hook L R
  note_attempt h profile_id session_id = record h {
    pending_host_key_reconnect = put h.pending_host_key_reconnect profile_id session_id;
  }

  -- The back end is asked for a session only when the profile is known.
  unfoldable pub attempt_reconnect :
      Props → (Hook L R → Hook L R) → Hook L R → String → Created SessionKind → Hook L R
  attempt_reconnect props meanwhile h session_id answer =
      let ids = map (λ (item : HostProfile). item.id) props.profiles in
      elim (profile_of h session_id) [
        | none ↦ attempt_live ids h h session_id answer
        | some profile_id ↦
            let noted = note_attempt h profile_id session_id in
            if includes ids profile_id
            then end_attempt (attempt_live ids noted (meanwhile noted) session_id answer) profile_id
            else end_attempt (attempt_live ids noted noted session_id answer) profile_id
      ]

  unfoldable pub trigger_scheduled_reconnect_now :
      Props → (Hook L R → Hook L R) → Hook L R → String → Created SessionKind → Hook L R
  trigger_scheduled_reconnect_now props meanwhile h session_id answer =
      if is_local_session h session_id || is_serial_session h session_id
      then h
      else if eqb (or_default (get h.live.reconnect_timers session_id) 0) 0
      then h
      else attempt_reconnect props meanwhile
          (set_state (clear_scheduled_reconnect_countdown h session_id) session_id reconnecting)
          session_id answer

  -- The timer of a reconnection fires.
  unfoldable pub reconnect_timer_fires :
      Props → (Hook L R → Hook L R) → Hook L R → Timer → Created SessionKind → Hook L R
  reconnect_timer_fires props meanwhile h timer answer =
      attempt_reconnect props meanwhile (record h { live = fire h.live timer }) timer.session_id
        answer
