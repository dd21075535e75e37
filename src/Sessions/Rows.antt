-- ===== src/Sessions/Rows.antt =====
-- Closing several sessions of a pane at once (src/hooks/useSessionStateCore.ts).
use fluxterm.Base.{
  ap, String, false, not, ◌&&◌, ◌==◌, ◌≡◌, refl, ◌∙◌, Option, List, [], ◌∷◌, ◌++◌, keep, includes,
  arith, eq_iff, Bool-cases, Option-cases, inl, inr, if◌then◌else◌,
}
use fluxterm.Base.Dict.{get}
use fluxterm.Reconnect.Connections.{SessionStateUi}
use fluxterm.Workspace.Counts.{sessions_in}
use fluxterm.Sessions.Model.{Live, SessionKind, Hook, get_session_kind}
use fluxterm.Sessions.Commands.{is_live, forget_session}
use fluxterm.Sessions.Handlers.{
  get_pane_sessions, close_other_sessions_in_pane, close_sessions_to_right_in_pane, close_sessions,
  after_first, disconnect_known, disconnect_session,
}
use fluxterm.Sessions.Closing.{disconnect_command_live, kind_known}
use fluxterm.Sessions.Agreement.{listed, listed-keep}
use fluxterm.Sessions.Preservation.{close_sessions-IsConsistent, IsHookConsistent}

includes-keep_other :
    (xs : List String) (x y : String)
    → includes (keep (λ item. not (item == x)) xs) y ≡ (includes xs y && not (y == x))
includes-keep_other [] x y = refl
includes-keep_other (z ∷ xs) x y =
    ground (arith, includes-keep_other xs x y, eq_iff z x, eq_iff z y, eq_iff y x)

after_first-append :
    (left right : List String) (x : String)
    → includes left x ≡ false
    → after_first x (left ++ x ∷ right) ≡ right
unfolding after_first
after_first-append [] right x h = ground (arith, eq_iff x x)
after_first-append (y ∷ left) right x h =
    ground (arith, after_first-append left right x, eq_iff y x, eq_iff x y)

module _ {L R : Type 0} where
  -- Nothing happens while the back end is told.
  abbrev pub nothing : String → Hook L R → Hook L R
  nothing x k = k

  -- Other events that open, close and rename no session, and keep the list and the tree in
  -- agreement.
  abbrev pub AreCalm : (String → Hook L R → Hook L R) → Type 0
  AreCalm meanwhile =
      (x : String) (k : Hook L R)
      → ((y : String) → listed y (meanwhile x k).live.sessions ≡ listed y k.live.sessions)
        × (IsHookConsistent k → IsHookConsistent (meanwhile x k))

  pub nothing-AreCalm : AreCalm nothing
  nothing-AreCalm x k = (λ y. refl, λ fine. fine)

  disconnect_calm :
      (meanwhile : Hook L R → Hook L R) (h : Hook L R) (x : String) (st : Option SessionStateUi)
      (kind : SessionKind) (y : String)
      → listed y (meanwhile h).live.sessions ≡ listed y h.live.sessions
      → listed y (disconnect_known meanwhile h x st kind).live.sessions
        ≡ (if x == y then 0 else listed y h.live.sessions)
  unfolding forget_session
  disconnect_calm meanwhile h x st kind y calm =
      ap (λ (c : Live L R). listed y c.sessions) (disconnect_command_live meanwhile h x st kind)
      ∙ elim (Bool-cases (is_live st)) [
        | inl e ↦ rw e (listed-keep (meanwhile h).live.sessions x y ∙ rw calm refl)
        | inr e ↦ rw e (listed-keep h.live.sessions x y)
      ]

  listed-disconnect :
      (meanwhile : Hook L R → Hook L R) (h : Hook L R) (x y : String)
      → listed "" h.live.sessions ≡ 0
      → listed y (meanwhile h).live.sessions ≡ listed y h.live.sessions
      → listed y (disconnect_session meanwhile h x).live.sessions
        ≡ (if x == y then 0 else listed y h.live.sessions)
  unfolding disconnect_session
  listed-disconnect meanwhile h x y unnamed calm = elim (Option-cases (get_session_kind h x)) [
    | inl e ↦ rw (e, disconnect_session) (ground (arith, kind_known h x e unnamed, eq_iff x y))
    | inr (kind, e) ↦
        rw (e, disconnect_session)
          (disconnect_calm meanwhile h x (get h.live.session_states x) kind y calm)
  ]

  pub listed-close_sessions :
      (meanwhile : String → Hook L R → Hook L R) (h : Hook L R) (xs : List String) (y : String)
      → AreCalm meanwhile
      → listed "" h.live.sessions ≡ 0
      → listed y (close_sessions meanwhile h xs).live.sessions
        ≡ (if includes xs y then 0 else listed y h.live.sessions)
  unfolding close_sessions
  listed-close_sessions meanwhile h [] y calm unnamed = refl
  listed-close_sessions meanwhile h (x ∷ xs) y calm unnamed =
      let closed = λ (z : String). listed-disconnect (meanwhile x) h x z unnamed ((calm x h).0 z) in
      let rest =
        listed-close_sessions meanwhile (disconnect_session (meanwhile x) h x) xs y calm
          (ground (arith, closed "", unnamed)) in
      rest ∙ ground (arith, closed y)

  -- A row of sessions was closed: exactly they have left the list and the pane tree.
  abbrev pub AreClosed : List String → Hook L R → Hook L R → Type 0
  AreClosed xs before after =
      (y : String)
      → (listed y after.live.sessions
          ≡ (if includes xs y then 0 else listed y before.live.sessions))
        × (sessions_in y after.live.workspace.root
            ≡ (if includes xs y then 0 else sessions_in y before.live.workspace.root))

  close_sessions-AreClosed :
      (meanwhile : String → Hook L R → Hook L R) (h : Hook L R) (xs : List String)
      → AreCalm meanwhile
      → IsHookConsistent h
      → listed "" h.live.sessions ≡ 0
      → AreClosed xs h (close_sessions meanwhile h xs)
  close_sessions-AreClosed meanwhile h xs calm ok unnamed y =
      let left = listed-close_sessions meanwhile h xs y calm unnamed in
      let after = close_sessions-IsConsistent meanwhile h xs ok (λ x k. (calm x k).1) in
      (left, ground (arith, left, after.agrees y, ok.agrees y))

  -- Where the session list and the pane tree agree and no session has an empty id: closing the
  -- other sessions of a pane closes exactly the sessions that the pane has when it begins, but the
  -- given one: they leave the list and the tree, and every other session stays in both as often as
  -- it was; when what happens while the back end is told opens, closes and renames no session and
  -- keeps the list and the tree in agreement.
  pub close_other_sessions_in_pane_lem :
      (meanwhile : String → Hook L R → Hook L R) (h : Hook L R) (pane x y : String)
      → AreCalm meanwhile
      → IsHookConsistent h
      → listed "" h.live.sessions ≡ 0
      → let after = close_other_sessions_in_pane meanwhile h pane x in
        let closes = includes (get_pane_sessions h pane) y && not (y == x) in
        (listed y after.live.sessions ≡ (if closes then 0 else listed y h.live.sessions))
        × (sessions_in y after.live.workspace.root
            ≡ (if closes then 0 else sessions_in y h.live.workspace.root))
  unfolding close_other_sessions_in_pane
  close_other_sessions_in_pane_lem meanwhile h pane x y calm ok unnamed =
      let others = keep (λ item. not (item == x)) (get_pane_sessions h pane) in
      rw (← includes-keep_other (get_pane_sessions h pane) x y)
        (close_sessions-AreClosed meanwhile h others calm ok unnamed y)

  -- Closing the sessions to the right of a session closes exactly those that come after its first
  -- place in the pane, when nothing else happens in the meantime.
  pub close_sessions_to_right-AreClosed :
      (h : Hook L R) (pane x : String) (left right : List String)
      → get_pane_sessions h pane ≡ left ++ x ∷ right
      → includes left x ≡ false
      → IsHookConsistent h
      → listed "" h.live.sessions ≡ 0
      → AreClosed right h (close_sessions_to_right_in_pane nothing h pane x)
  unfolding close_sessions_to_right_in_pane
  close_sessions_to_right-AreClosed h pane x left right row first ok unnamed =
      rw (row, after_first-append left right x first)
        (close_sessions-AreClosed nothing h right nothing-AreCalm ok unnamed)
