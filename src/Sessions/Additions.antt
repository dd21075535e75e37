-- ===== src/Sessions/Additions.antt =====
-- Opening a session and splitting a pane (src/hooks/useSessionStateCore.ts) keep the session list
-- and the pane tree in agreement.
use fluxterm.Base.{
  String, Bool, true, false, ◌≡◌, ◌≢◌, ◌<◌, refl, Option, none, some, List, [], ◌∷◌, ◌++◌, find,
  arith, Bool-cases, Option-cases, inl, inr, ◌>>=◌,
}
use fluxterm.Base.Dict.{get}
use fluxterm.Reconnect.Connections.{Session}
use fluxterm.Reconnect.Runtime.{Created, created, failed}
use fluxterm.Workspace.Tree.{SessionPaneNode, SplitAxis, Ratios}
use fluxterm.Workspace.Groups.{SessionGroup}
use fluxterm.Workspace.Counts.{panes_in}
use fluxterm.Workspace.Reducer.{SessionWorkspaceState, truthy, attach, get_active_session_id}
use fluxterm.Workspace.Invariant.{IsWellFormed, IsTarget, state}
use fluxterm.Sessions.Model.{
  SessionKind, ssh, local_shell, serial, HostProfile, Props, Live, Hook, is_id, find_session,
  append_app_event, clear_pending_host_key_for_profile,
}
use fluxterm.Sessions.Commands.{
  settled, has_ended, is_host_key_code, attach_target, add_session, connect_profile_command,
}
use fluxterm.Sessions.Openings.{
  split_session, split_answer, connect_profile, split_with, split_active_pane,
}
use fluxterm.Sessions.Agreement.{listed}
use fluxterm.Sessions.Consistency.{IsConsistent, add-IsConsistent, split-IsConsistent}
use fluxterm.Sessions.Preservation.{IsLiveConsistent, IsHookConsistent, Keeps, IsNew}

module _ {R : Type 0} where
  named_target :
      (root : Option (SessionPaneNode R)) (active : Option String) (gs : List SessionGroup)
      (fresh : String)
      → IsWellFormed (state root active gs)
      → fresh ≢ ""
      → (q : String) × (attach_target (state root active gs) fresh ≡ some q) × (q ≢ "")
  unfolding attach_target
  named_target none active gs fresh w named = (fresh, refl, named)
  named_target (some root) none gs fresh w named = absurd w.tree
  named_target (some root) (some a) gs fresh w named =
      (a, refl, λ e. absurd (omega (arith, rw e at w.tree.1, w.tree.0.panes_named)))

module _ {L R : Type 0} where
  -- A connection can end well: the list and the tree agree, the session is new, and the pane that
  -- was chosen when the connection began is there, or there is no pane at all.
  abbrev pub CanConnect : SessionWorkspaceState R → String → Created SessionKind → Hook L R → Type 0
  CanConnect seen fresh answer k =
      IsHookConsistent k
      × IsNew answer k.live
      × IsTarget k.live.workspace.root (attach_target seen fresh)

  attach_seen :
      (seen : SessionWorkspaceState R) (fresh : String) (c : Live L R) (s : Session SessionKind)
      → IsWellFormed seen
      → fresh ≢ ""
      → IsLiveConsistent c
      → listed s.session_id c.sessions ≡ 0
      → IsTarget c.workspace.root (attach_target seen fresh)
      → IsConsistent
          (c.sessions ++ s ∷ [])
          (attach c.workspace s.session_id (attach_target seen fresh))
  attach_seen seen fresh c s w named ok new target =
      let (q, e, filled) = named_target seen.root seen.active_pane_id seen.groups fresh w named in
      rw e (add-IsConsistent c.sessions c.workspace s q ok new filled (rw e at target))

  connect_command-IsConsistent :
      (on_created : Hook L R → Session SessionKind → Hook L R) (suppress : Bool)
      (seen : SessionWorkspaceState R) (fresh : String) (h : Hook L R)
      (answer : Created SessionKind)
      → IsWellFormed seen
      → fresh ≢ ""
      → CanConnect seen fresh answer h
      → ((s : Session SessionKind) → Keeps (CanConnect seen fresh answer) (λ k. on_created k s))
      → IsHookConsistent (settled (connect_profile_command on_created suppress seen fresh h answer))
  unfolding connect_profile_command add_session
  connect_command-IsConsistent on_created true seen fresh h (created s) w named ok kept =
      (kept s h ok).0
  connect_command-IsConsistent on_created false seen fresh h (created s) w named ok kept =
      let (fine, new, target) = kept s h ok in
      let done = attach_seen seen fresh (on_created h s).live s w named fine new target in
      elim (Bool-cases (has_ended (get h.live.session_states s.session_id))) [
        | inl e ↦ rw (e, connect_profile_command) done
        | inr e ↦ rw (e, connect_profile_command) done
      ]
  connect_command-IsConsistent on_created true seen fresh h (failed code) w named ok kept = ok.0
  connect_command-IsConsistent on_created false seen fresh h (failed code) w named ok kept =
      elim (Bool-cases (is_host_key_code code)) [
        | inl e ↦ rw (e, connect_profile_command) ok.0
        | inr e ↦ rw (e, connect_profile_command) ok.0
      ]

  -- A connection to a host keeps the session list and the pane tree in agreement, however it
  -- ends, when they agree as it begins, the id of the session that it creates is in the list
  -- neither then nor later, and the pane that the session is to stand in, chosen when the
  -- connection begins, is there when it ends; where the workspace is empty as it begins, it is so
  -- when it ends, or has a pane of the id that was drawn for the first pane, an id that is not
  -- empty. What other events do until the answer, and the caller with the session that was
  -- created, is to keep to these conditions.
  pub connect_profile-IsConsistent :
      (props : Props) (on_created : Hook L R → Session SessionKind → Hook L R) (suppress : Bool)
      (meanwhile : Hook L R → Hook L R) (fresh : String) (h : Hook L R) (profile : HostProfile)
      (answer : Created SessionKind)
      → fresh ≢ ""
      → CanConnect h.live.workspace fresh answer h
      → Keeps (CanConnect h.live.workspace fresh answer) meanwhile
      → ((s : Session SessionKind)
          → Keeps (CanConnect h.live.workspace fresh answer) (λ k. on_created k s))
      → IsHookConsistent
          (settled (connect_profile props on_created suppress meanwhile fresh h profile answer))
  unfolding connect_profile append_app_event clear_pending_host_key_for_profile
  connect_profile-IsConsistent props on_created suppress meanwhile fresh h profile answer named ok
        kept told =
      connect_command-IsConsistent on_created suppress h.live.workspace fresh _ answer
        ok.0.well_formed named (kept _ ok) told

  -- A split can end well: the pane is still there, and the new pane and session are new.
  abbrev pub CanSplit : String → String → Created SessionKind → Hook L R → Type 0
  CanSplit p fresh answer k =
      IsHookConsistent k
      × IsNew answer k.live
      × (0 < panes_in p k.live.workspace.root)
      × (panes_in fresh k.live.workspace.root ≡ 0)

  split_answer-IsConsistent :
      (ratios : Ratios R) (meanwhile : Hook L R → Hook L R) (label fresh : String) (h : Hook L R)
      (axis : SplitAxis) (p : String) (current : Session SessionKind) (answer : Created SessionKind)
      → fresh ≢ ""
      → CanSplit p fresh answer h
      → Keeps (CanSplit p fresh answer) meanwhile
      → IsHookConsistent
          (settled (split_answer ratios meanwhile label fresh h axis p current answer))
  unfolding split_with add_session
  split_answer-IsConsistent ratios meanwhile label fresh h axis p current (created s) named ok
        kept =
      let (fine, new, there, free) = kept h ok in
      split-IsConsistent ratios _ _ s p fresh axis fine new there free named
  split_answer-IsConsistent ratios meanwhile label fresh h axis p current (failed code) named ok
        kept =
      (kept h ok).0

  split_session-IsConsistent :
      (ratios : Ratios R) (props : Props) (meanwhile : Hook L R → Hook L R) (fresh : String)
      (h : Hook L R) (axis : SplitAxis) (p : String) (current : Session SessionKind)
      (kind : SessionKind) (answer : Created SessionKind)
      → fresh ≢ ""
      → CanSplit p fresh answer h
      → Keeps (CanSplit p fresh answer) meanwhile
      → IsHookConsistent
          (settled (split_session ratios props meanwhile fresh h axis p current kind answer))
  unfolding split_session
  split_session-IsConsistent ratios props meanwhile fresh h axis p current serial answer named ok
        kept =
      ok.0
  split_session-IsConsistent ratios props meanwhile fresh h axis p current local_shell answer named
        ok kept =
      split_answer-IsConsistent ratios meanwhile (props.t "session.local") fresh h axis p current
        answer named ok kept
  split_session-IsConsistent ratios props meanwhile fresh h axis p current ssh answer named ok
        kept =
      elim (Option-cases
        (find (λ (item : HostProfile). is_id current.profile_id item.id) props.profiles)) [
          | inl e ↦ rw (e, split_session) ok.0
          | inr (profile, e) ↦
              rw (e, split_session)
                (split_answer-IsConsistent ratios meanwhile (props.t "session.local") fresh h axis p
                  current answer named ok kept)
        ]

  -- Splitting the active pane keeps the session list and the pane tree in agreement, whatever the
  -- back end answers, when the pane is not closed in the meantime and the new session and the new
  -- pane are new.
  pub split_active_pane-IsConsistent :
      (ratios : Ratios R) (props : Props) (meanwhile : Hook L R → Hook L R) (fresh : String)
      (h : Hook L R) (axis : SplitAxis) (answer : Created SessionKind)
      → fresh ≢ ""
      → IsHookConsistent h
      → ((p : String)
          → truthy h.live.workspace.active_pane_id ≡ some p
          → CanSplit p fresh answer h × Keeps (CanSplit p fresh answer) meanwhile)
      → IsHookConsistent (settled (split_active_pane ratios props meanwhile fresh h axis answer))
  unfolding split_active_pane
  split_active_pane-IsConsistent ratios props meanwhile fresh h axis answer named ok kept =
      elim (Option-cases (truthy h.live.workspace.active_pane_id)) [
        | inl e ↦ rw (e, split_active_pane) ok
        | inr (p, e) ↦
            let shown = truthy (get_active_session_id h.live.workspace) >>= find_session h in
            elim (Option-cases shown) [
              | inl f ↦ rw (e, f, split_active_pane) ok
              | inr (s, f) ↦
                  rw (e, f, split_active_pane)
                    (split_session-IsConsistent ratios props meanwhile fresh h axis p s s.details
                      answer named (kept p e).0 (kept p e).1)
            ]
      ]
