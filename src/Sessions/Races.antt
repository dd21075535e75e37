-- ===== src/Sessions/Races.antt =====
-- Two races of the session hook (src/hooks/useSessionStateCore.ts): a pane that is chosen before the
-- back end answers, and a session that is closed before it answers.
use fluxterm.Base.{
  ℕ, ◌*◌, String, true, false, ◌≡◌, ◌≢◌, refl, ap, ◌∙◌, none, some, [], ◌∷◌, ◌++◌, map, includes,
  same, arith, Bool-cases, inl, inr, same_self, or_default,
}
use fluxterm.Base.Dict.{get, get-put_self}
use fluxterm.Reconnect.Connections.{connecting, Session}
use fluxterm.Reconnect.Runtime.{
  created, clear_reconnect_state_by_id, settle_attempt, attempt_session_reconnect,
}
use fluxterm.Reconnect.Lifecycle.{replace_session_connection_state}
use fluxterm.Workspace.Tree.{SessionPaneNode}
use fluxterm.Workspace.Counts.{pane_count, sessions_in, session_count-append_session}
use fluxterm.Workspace.Reducer.{SessionWorkspaceState, attach}
use fluxterm.Sessions.Model.{SessionKind, HostProfile, Props, Live, Hook, find_session}
use fluxterm.Sessions.Commands.{
  settled, has_ended, attach_target, add_session, connect_profile_command,
}
use fluxterm.Sessions.Handlers.{
  end_attempt, note_attempt, profile_of, attempt_reconnect, replace_session_connection,
}
use fluxterm.Sessions.Agreement.{listed, listed-concat, listed-replace, truthy-text}

module _ {R : Type 0} where
  attach_nowhere :
      (w : SessionWorkspaceState R) (root : SessionPaneNode R) (x p y : String)
      → w.root ≡ some root
      → p ≢ ""
      → pane_count p root ≡ 0
      → sessions_in y (attach w x (some p)).root ≡ sessions_in y w.root
  unfolding attach
  attach_nowhere w root x p y e named away =
      rw (e, truthy-text p named, attach)
        (omega (arith, session_count-append_session root p x y, ap (λ (t : ℕ). t * same x y) away))

module _ {L R : Type 0} where
  -- A connection that begins with an empty workspace, and whose answer comes when another session
  -- has opened the first pane, puts its session into the list but into no pane.
  pub connect_profile_command-hidden :
      (seen : SessionWorkspaceState R) (fresh : String) (h : Hook L R) (s : Session SessionKind)
      (root : SessionPaneNode R)
      → seen.root ≡ none
      → fresh ≢ ""
      → h.live.workspace.root ≡ some root
      → pane_count fresh root ≡ 0
      → sessions_in s.session_id (some root) ≡ 0
      → listed s.session_id h.live.sessions ≡ 0
      → let after = settled (connect_profile_command (λ k t. k) false seen fresh h (created s)) in
        (listed s.session_id after.live.sessions ≡ 1)
        × (sessions_in s.session_id after.live.workspace.root ≡ 0)
  unfolding connect_profile_command add_session attach_target
  connect_profile_command-hidden seen fresh h s root empty named opened away unshown new =
      let x = s.session_id in
      let added : listed x (h.live.sessions ++ s ∷ []) ≡ 1 =
        omega (arith, listed-concat h.live.sessions s x, same_self x) in
      let hidden =
        attach_nowhere h.live.workspace root x fresh x opened named away
        ∙ ap (sessions_in x) opened
        ∙ unshown in
      elim (Bool-cases (has_ended (get h.live.session_states x))) [
        | inl e ↦ rw (e, connect_profile_command, empty) (added, hidden)
        | inr e ↦ rw (e, connect_profile_command, empty) (added, hidden)
      ]

  replaced_nothing :
      (c : Live L R) (x : String) (n : Session SessionKind)
      → listed x c.sessions ≡ 0
      → listed n.session_id c.sessions ≡ 0
      → (listed n.session_id (replace_session_connection c x n).sessions ≡ 0)
        × (get (replace_session_connection c x n).session_states n.session_id ≡ some connecting)
  unfolding replace_session_connection_state clear_reconnect_state_by_id
  replaced_nothing c x n gone new = (
    omega (
      arith,
      listed-replace c.sessions x n n.session_id,
      new,
      ap (λ (t : ℕ). same x n.session_id * t) gone,
      ap (λ (t : ℕ). same n.session_id n.session_id * t) gone,
    ),
    get-put_self _ n.session_id connecting,
  )

  end_attempt_live : (k : Hook L R) (pid : String) → (end_attempt k pid).live ≡ k.live
  unfolding end_attempt
  end_attempt_live k pid =
      elim (Bool-cases (or_default (get k.pending_host_key_dialog pid) false)) [
        | inl e ↦ rw (e, end_attempt) refl
        | inr e ↦ rw (e, end_attempt) refl
      ]

  attempted :
      (props : Props) (meanwhile : Hook L R → Hook L R) (h : Hook L R) (x pid : String)
      (s n : Session SessionKind)
      → find_session h x ≡ some s
      → s.profile_id ≡ some pid
      → pid ≢ ""
      → includes (map (λ (item : HostProfile). item.id) props.profiles) pid ≡ true
      → (attempt_reconnect props meanwhile h x (created n)).live
        ≡ replace_session_connection (meanwhile (note_attempt h pid x)).live x n
  unfolding attempt_reconnect attempt_session_reconnect settle_attempt
  attempted props meanwhile h x pid s n found of_profile named known =
      let whose : profile_of h x ≡ some pid = rw (found, of_profile) (truthy-text pid named) in
      rw
        (
          whose, known, attempt_reconnect, end_attempt_live, found, of_profile,
          attempt_session_reconnect, known,
        )
        refl

  -- When a session is closed while the back end opens its new connection, the new session is not
  -- in the list, yet it is kept as one that is connecting.
  pub attempt_reconnect-closed :
      (props : Props) (meanwhile : Hook L R → Hook L R) (h : Hook L R) (x pid : String)
      (s n : Session SessionKind)
      → find_session h x ≡ some s
      → s.profile_id ≡ some pid
      → pid ≢ ""
      → includes (map (λ (item : HostProfile). item.id) props.profiles) pid ≡ true
      → listed x (meanwhile (note_attempt h pid x)).live.sessions ≡ 0
      → listed n.session_id (meanwhile (note_attempt h pid x)).live.sessions ≡ 0
      → let after = attempt_reconnect props meanwhile h x (created n) in
        (listed n.session_id after.live.sessions ≡ 0)
        × (get after.live.session_states n.session_id ≡ some connecting)
  attempt_reconnect-closed props meanwhile h x pid s n found of_profile named known gone new =
      rw (attempted props meanwhile h x pid s n found of_profile named known)
        (replaced_nothing (meanwhile (note_attempt h pid x)).live x n gone new)
