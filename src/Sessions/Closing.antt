-- ===== src/Sessions/Closing.antt =====
-- What closing sessions does (src/hooks/useSessionStateCore.ts): which sessions are left, and what is
-- still known of one that was closed.
use fluxterm.Base.{
  String, ◌==◌, ◌≡◌, refl, ap, ◌∙◌, Option, none, some, List, [], ◌∷◌, find, same, arith, eq_iff,
  Bool-cases, Option-cases, inl, inr, if◌then◌else◌,
}
use fluxterm.Base.Dict.{get, get-delete_self}
use fluxterm.Reconnect.Connections.{SessionStateUi, Session}
use fluxterm.Workspace.Counts.{sessions_in}
use fluxterm.Sessions.Model.{
  SessionKind, ssh, local_shell, serial, Live, Hook, find_session, get_session_kind,
}
use fluxterm.Sessions.Commands.{is_live, forget_session, disconnect_session_command}
use fluxterm.Sessions.Handlers.{disconnect_known, disconnect_session}
use fluxterm.Sessions.Agreement.{listed, listed-keep}
use fluxterm.Sessions.Preservation.{IsHookConsistent, Keeps, disconnect-IsConsistent}

module _ {D : Type 0} where
  find→listed :
      (ss : List (Session D)) (x : String)
      → find (λ (item : Session D). item.session_id == x) ss ≡ none
      → listed x ss ≡ 0
  unfolding listed same
  find→listed [] x h = refl
  find→listed (s ∷ ss) x h = ground (arith, find→listed ss x, eq_iff s.session_id x)

module _ {L R : Type 0} where
  -- Nothing of a closed session is left.
  pub record IsClosed (h : Hook L R) (x : String) : Type 0 where
    pub not_listed : listed x h.live.sessions ≡ 0
    pub not_shown : sessions_in x h.live.workspace.root ≡ 0
    pub no_state : get h.live.session_states x ≡ none
    pub no_reason : get h.live.session_reasons x ≡ none
    pub no_info : get h.live.reconnect_info x ≡ none

  pub kind_known :
      (h : Hook L R) (x : String)
      → get_session_kind h x ≡ none
      → listed "" h.live.sessions ≡ 0
      → listed x h.live.sessions ≡ 0
  unfolding get_session_kind
  kind_known h x e unnamed = elim (Bool-cases (x == "")) [
    | inl f ↦ rw ((eq_iff x "").0 f) unnamed
    | inr f ↦ elim (Option-cases (find_session h x)) [
      | inl g ↦ find→listed h.live.sessions x g
      | inr (s, g) ↦ absurd (ground arith)
    ]
  ]

  pub disconnect_command_live :
      (meanwhile : Hook L R → Hook L R) (h : Hook L R) (x : String) (st : Option SessionStateUi)
      (kind : SessionKind)
      → (disconnect_known meanwhile h x st kind).live
        ≡ forget_session (if is_live st then meanwhile h else h).live x kind
  unfolding disconnect_known disconnect_session_command
  disconnect_command_live meanwhile h x st ssh = refl
  disconnect_command_live meanwhile h x st local_shell = refl
  disconnect_command_live meanwhile h x st serial = refl

  forget-IsClosed :
      (c : Live L R) (x : String) (kind : SessionKind)
      → (listed x (forget_session c x kind).sessions ≡ 0)
        × (get (forget_session c x kind).session_states x ≡ none)
        × (get (forget_session c x kind).session_reasons x ≡ none)
        × (get (forget_session c x kind).reconnect_info x ≡ none)
  unfolding forget_session
  forget-IsClosed c x kind = (
    ground (arith, listed-keep c.sessions x x, eq_iff x x),
    get-delete_self c.session_states x,
    get-delete_self c.session_reasons x,
    get-delete_self c.reconnect_info x,
  )

  -- A known session that is disconnected, whatever happens while the back end is told, is neither
  -- in the list nor in the pane tree, and has no state, no reason and no countdown, when what
  -- happens in the meantime keeps the list and the tree in agreement.
  pub disconnect_session-IsClosed :
      (meanwhile : Hook L R → Hook L R) (h : Hook L R) (x : String) (kind : SessionKind)
      → get_session_kind h x ≡ some kind
      → IsHookConsistent h
      → Keeps IsHookConsistent meanwhile
      → IsClosed (disconnect_session meanwhile h x) x
  unfolding disconnect_session
  disconnect_session-IsClosed meanwhile h x kind known ok kept =
      let st = get h.live.session_states x in
      let ok_after = disconnect-IsConsistent meanwhile h x ok kept in
      let asked = (if is_live st then meanwhile h else h) in
      let same_live = disconnect_command_live meanwhile h x st kind in
      let (gone, no_state, no_reason, no_info) = forget-IsClosed asked.live x kind in
      let at_live : (disconnect_session meanwhile h x).live ≡ forget_session asked.live x kind =
        rw (known, disconnect_session) same_live in
      let unlisted : listed x (disconnect_session meanwhile h x).live.sessions ≡ 0 =
        ap (λ (c : Live L R). listed x c.sessions) at_live ∙ gone in
      record {
        not_listed = unlisted;
        not_shown = ok_after.agrees x ∙ unlisted;
        no_state = ap (λ (c : Live L R). get c.session_states x) at_live ∙ no_state;
        no_reason = ap (λ (c : Live L R). get c.session_reasons x) at_live ∙ no_reason;
        no_info = ap (λ (c : Live L R). get c.reconnect_info x) at_live ∙ no_info;
      }
