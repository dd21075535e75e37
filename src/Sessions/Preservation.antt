-- ===== src/Sessions/Preservation.antt =====
-- The handlers of the session hook (src/hooks/useSessionStateCore.ts) keep the session list and the
-- pane tree in agreement.
use fluxterm.Base.{
  ◌+◌, String, false, ◌||◌, ◌==◌, ◌≡◌, Option, none, List, [], ◌∷◌, map, includes, find, Bool-cases,
  Option-cases, inl, inr, or_default, leb,
}
use fluxterm.Base.Dict.{get}
use fluxterm.Reconnect.Policy.{
  DisconnectReason, compute_reconnect_delay_ms, get_max_reconnect_attempts,
}
use fluxterm.Reconnect.Connections.{SessionStateUi, Session}
use fluxterm.Reconnect.Runtime.{
  Created, created, failed, clear_reconnect_state_by_id, schedule_reconnect_attempt, settle_attempt,
  attempt_session_reconnect,
}
use fluxterm.Reconnect.Lifecycle.{replace_session_connection_state}
use fluxterm.Workspace.Reducer.{replace}
use fluxterm.Sessions.Model.{
  SessionKind, ssh, local_shell, serial, HostProfile, Props, Live, Hook, get_session_kind,
}
use fluxterm.Sessions.Commands.{is_live, forget_session, disconnect_session_command}
use fluxterm.Sessions.Handlers.{
  end_attempt, note_attempt, disconnect_known, disconnect_session, close_sessions,
  get_disconnect_reason, replace_session_connection, profile_of, attempt_reconnect,
}
use fluxterm.Sessions.Agreement.{listed}
use fluxterm.Sessions.Consistency.{IsConsistent, forget-IsConsistent, replace-IsConsistent}

module _ {L R : Type 0} where
  -- The list and the tree of a hook are in agreement.
  abbrev pub IsLiveConsistent : Live L R → Type 0
  IsLiveConsistent c = IsConsistent c.sessions c.workspace

  abbrev pub IsHookConsistent : Hook L R → Type 0
  IsHookConsistent h = IsLiveConsistent h.live

  -- What happens in the meantime keeps a property.
  abbrev pub Keeps : (Hook L R → Type 0) → (Hook L R → Hook L R) → Type 0
  Keeps P meanwhile = (k : Hook L R) → P k → P (meanwhile k)

  abbrev pub IsNew : Created SessionKind → Live L R → Type 0
  IsNew (created next) c = listed next.session_id c.sessions ≡ 0
  IsNew (failed code) c = Unit

  pub schedule-IsConsistent :
      (c : Live L R) (x : String) (reason : DisconnectReason)
      → IsLiveConsistent c
      → IsLiveConsistent (schedule_reconnect_attempt c x reason)
  unfolding schedule_reconnect_attempt
  schedule-IsConsistent c x reason ok =
      let attempts = or_default (get c.reconnect_attempts x) 0 + 1 in
      elim (Option-cases (compute_reconnect_delay_ms reason attempts)) [
        | inl e ↦ rw (e, schedule_reconnect_attempt) ok
        | inr (d, e) ↦ rw (e, schedule_reconnect_attempt) ok
      ]

  pub connection-IsConsistent :
      (c : Live L R) (o : String) (n : Session SessionKind) (st : SessionStateUi) (meta : Option _)
      → IsLiveConsistent c
      → listed n.session_id c.sessions ≡ 0
      → IsLiveConsistent (replace_session_connection_state replace c o n st meta)
  unfolding replace_session_connection_state clear_reconnect_state_by_id
  connection-IsConsistent c o n st meta ok fresh =
      replace-IsConsistent c.sessions c.workspace o n ok fresh

  settle-IsConsistent :
      (ids : List String) (c : Live L R) (x : String) (answer : Created SessionKind)
      → IsLiveConsistent c
      → IsNew answer c
      → IsLiveConsistent
          (settle_attempt ids get_disconnect_reason replace_session_connection c x answer)
  unfolding settle_attempt clear_reconnect_state_by_id
  settle-IsConsistent ids c x (created next) ok fresh =
      connection-IsConsistent c x next _ none ok fresh
  settle-IsConsistent ids c x (failed code) ok fresh =
      elim (Bool-cases (code == "ssh_host_key_unknown" || code == "ssh_host_key_mismatch")) [
        | inl e ↦ rw (e, settle_attempt) ok
        | inr e ↦
            let reason = get_disconnect_reason c x in
            elim (Bool-cases (
              leb (get_max_reconnect_attempts reason)
                (or_default (get c.reconnect_attempts x) 0))) [
                  | inl f ↦ rw (e, f, settle_attempt) ok
                  | inr f ↦ rw (e, f, settle_attempt) (schedule-IsConsistent c x reason ok)
                ]
      ]

  disconnect_command-IsConsistent :
      (meanwhile : Hook L R → Hook L R) (h : Hook L R) (x : String) (st : Option SessionStateUi)
      (kind : SessionKind)
      → IsHookConsistent h
      → Keeps IsHookConsistent meanwhile
      → IsHookConsistent (disconnect_session_command meanwhile h x st kind)
  unfolding disconnect_session_command forget_session
  disconnect_command-IsConsistent meanwhile h x st kind ok kept = elim (Bool-cases (is_live st)) [
    | inl e ↦
        rw (e, disconnect_session_command)
          (forget-IsConsistent (meanwhile h).live.sessions (meanwhile h).live.workspace x
            (kept h ok))
    | inr e ↦
        rw (e, disconnect_session_command)
          (forget-IsConsistent h.live.sessions h.live.workspace x ok)
  ]

  pub disconnect_known-IsConsistent :
      (meanwhile : Hook L R → Hook L R) (h : Hook L R) (x : String) (st : Option SessionStateUi)
      (kind : SessionKind)
      → IsHookConsistent h
      → Keeps IsHookConsistent meanwhile
      → IsHookConsistent (disconnect_known meanwhile h x st kind)
  unfolding disconnect_known
  disconnect_known-IsConsistent meanwhile h x st ssh ok kept =
      disconnect_command-IsConsistent meanwhile h x st ssh ok kept
  disconnect_known-IsConsistent meanwhile h x st local_shell ok kept =
      disconnect_command-IsConsistent meanwhile h x st local_shell ok kept
  disconnect_known-IsConsistent meanwhile h x st serial ok kept =
      disconnect_command-IsConsistent meanwhile h x st serial ok kept

  pub disconnect-IsConsistent :
      (meanwhile : Hook L R → Hook L R) (h : Hook L R) (x : String)
      → IsHookConsistent h
      → Keeps IsHookConsistent meanwhile
      → IsHookConsistent (disconnect_session meanwhile h x)
  unfolding disconnect_session
  disconnect-IsConsistent meanwhile h x ok kept = elim (Option-cases (get_session_kind h x)) [
    | inl e ↦ rw (e, disconnect_session) ok
    | inr (kind, e) ↦
        rw (e, disconnect_session)
          (disconnect_known-IsConsistent meanwhile h x (get h.live.session_states x) kind ok kept)
  ]

  -- Closing a row of sessions one after the other keeps the session list and the pane tree in
  -- agreement, when what happens in the meantime keeps them so.
  pub close_sessions-IsConsistent :
      (meanwhile : String → Hook L R → Hook L R) (h : Hook L R) (xs : List String)
      → IsHookConsistent h
      → ((x : String) → Keeps IsHookConsistent (meanwhile x))
      → IsHookConsistent (close_sessions meanwhile h xs)
  unfolding close_sessions
  close_sessions-IsConsistent meanwhile h [] ok kept = ok
  close_sessions-IsConsistent meanwhile h (x ∷ xs) ok kept =
      close_sessions-IsConsistent meanwhile (disconnect_session (meanwhile x) h x) xs
        (disconnect-IsConsistent (meanwhile x) h x ok (kept x)) kept

  -- A new session is expected: the list and the tree agree, and it is not in the list.
  abbrev pub Expects : Created SessionKind → Hook L R → Type 0
  Expects answer k = IsHookConsistent k × IsNew answer k.live

  attempt_live-IsConsistent :
      (ids : List String) (c asked : Live L R) (x : String) (answer : Created SessionKind)
      → IsLiveConsistent c
      → IsLiveConsistent asked
      → IsNew answer asked
      → IsLiveConsistent (
          attempt_session_reconnect ids get_disconnect_reason replace_session_connection
            (λ _. asked)
            c
            x
            answer)
  unfolding attempt_session_reconnect clear_reconnect_state_by_id
  attempt_live-IsConsistent ids c asked x answer ok later fresh =
      elim (Option-cases (find (λ (item : Session SessionKind). item.session_id == x) c.sessions)) [
        | inl e ↦ rw (e, attempt_session_reconnect) ok
        | inr (s, e) ↦ elim (Option-cases s.profile_id) [
          | inl f ↦ rw (e, f, attempt_session_reconnect) ok
          | inr (pid, f) ↦ elim (Bool-cases (includes ids pid)) [
            | inl g ↦
                rw (e, f, g, attempt_session_reconnect)
                  (settle-IsConsistent ids asked x answer later fresh)
            | inr g ↦ rw (e, f, g, attempt_session_reconnect) ok
          ]
        ]
      ]

  end_attempt-IsConsistent :
      (k : Hook L R) (pid : String) → IsHookConsistent k → IsHookConsistent (end_attempt k pid)
  unfolding end_attempt
  end_attempt-IsConsistent k pid ok =
      elim (Bool-cases (or_default (get k.pending_host_key_dialog pid) false)) [
        | inl e ↦ rw (e, end_attempt) ok
        | inr e ↦ rw (e, end_attempt) ok
      ]

  -- An attempt to reconnect a session keeps the session list and the pane tree in agreement,
  -- whatever the back end answers, when a session that it creates is new.
  pub attempt_reconnect-IsConsistent :
      (props : Props) (meanwhile : Hook L R → Hook L R) (h : Hook L R) (x : String)
      (answer : Created SessionKind)
      → Expects answer h
      → Keeps (Expects answer) meanwhile
      → IsHookConsistent (attempt_reconnect props meanwhile h x answer)
  unfolding attempt_reconnect
  attempt_reconnect-IsConsistent props meanwhile h x answer (ok, fresh) kept =
      let ids = map (λ (item : HostProfile). item.id) props.profiles in
      elim (Option-cases (profile_of h x)) [
        | inl e ↦
            rw (e, attempt_reconnect)
              (attempt_live-IsConsistent ids h.live h.live x answer ok ok fresh)
        | inr (pid, e) ↦
            let noted = note_attempt h pid x in
            let (later, still) = kept noted (ok, fresh) in
            elim (Bool-cases (includes ids pid)) [
              | inl f ↦
                  rw (e, f, attempt_reconnect)
                    (end_attempt-IsConsistent _ pid (
                      attempt_live-IsConsistent ids h.live (meanwhile noted).live x answer ok later
                        still))
              | inr f ↦
                  rw (e, f, attempt_reconnect)
                    (end_attempt-IsConsistent _ pid
                      (attempt_live-IsConsistent ids h.live h.live x answer ok ok fresh))
            ]
      ]
