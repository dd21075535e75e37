-- ===== src/Sessions/Agreement.antt =====
-- The session list and the pane tree of the session hook (src/hooks/useSessionStateCore.ts): they
-- name the same sessions.
use fluxterm.Base.{
  ℕ, ◌+◌, ◌*◌, ◌<◌, String, not, ◌==◌, ◌≡◌, ◌≢◌, ap, Option, none, some, List, [], ◌∷◌, ◌++◌, map,
  keep, same, count, arith, eq_iff, Bool-cases, inl, inr, same_self, same_ne, if◌then◌else◌,
}
use fluxterm.Reconnect.Connections.{Session}
use fluxterm.Workspace.Tree.{SessionPaneNode, SplitAxis, Ratios, create_single_pane_root}
use fluxterm.Workspace.Groups.{SessionGroup}
use fluxterm.Workspace.Counts.{
  session_count, pane_count, sessions_in, panes_in, session_count-append_session,
  session_count-replace,
}
use fluxterm.Workspace.Counts.Reshape.{session_count-split}
use fluxterm.Workspace.Reducer.{truthy, attach, replace, split_at}
use fluxterm.Workspace.Invariant.{IsWellFormed, IsTarget, state}

module _ {D : Type 0} where
  -- How often the list has a session with this id.
  unfoldable pub listed : String → List (Session D) → ℕ
  listed x [] = 0
  listed x (s ∷ ss) = same s.session_id x + listed x ss

  pub listed-concat :
      (ss : List (Session D)) (s : Session D) (y : String)
      → listed y (ss ++ s ∷ []) ≡ listed y ss + same s.session_id y
  unfolding listed
  listed-concat [] s y = omega arith
  listed-concat (r ∷ ss) s y = omega (arith, listed-concat ss s y)

  pub listed-keep :
      (ss : List (Session D)) (x y : String)
      → listed y (keep (λ item. not (item.session_id == x)) ss)
        ≡ (if x == y then 0 else listed y ss)
  unfolding listed same
  listed-keep [] x y = ground arith
  listed-keep (r ∷ ss) x y =
      ground (arith, listed-keep ss x y, eq_iff r.session_id x, eq_iff r.session_id y, eq_iff x y)

  pub listed-replace :
      (ss : List (Session D)) (o : String) (n : Session D) (y : String)
      → listed y (map (λ (item : Session D). if item.session_id == o then n else item) ss)
          + same o y * listed o ss
        ≡ listed y ss + same n.session_id y * listed o ss
  unfolding listed same
  listed-replace [] o n y = omega arith
  listed-replace (r ∷ ss) o n y = elim (Bool-cases (r.session_id == o)) [
    | inl e ↦
        rw e
          (rw ((eq_iff r.session_id o).0 e) (omega (arith, same_self o, listed-replace ss o n y)))
    | inr e ↦ rw e (omega (arith, same_ne r.session_id o e, listed-replace ss o n y))
  ]

pub truthy-text : (p : String) → p ≢ "" → truthy (some p) ≡ some p
unfolding truthy
truthy-text p h = ground (arith, eq_iff p "", h)

module _ {R : Type 0} where
  -- Attaching a new session to a pane that is there, or to an empty workspace, adds it once.
  pub attach_counts :
      (root : Option (SessionPaneNode R)) (active : Option String) (gs : List SessionGroup)
      (x p y : String)
      → IsWellFormed (state root active gs)
      → p ≢ ""
      → IsTarget root (some p)
      → sessions_in y (attach (state root active gs) x (some p)).root
        ≡ sessions_in y root + same x y
  unfolding attach create_single_pane_root session_count count
  attach_counts none active gs x p y w named target = rw (truthy-text p named, attach) (omega arith)
  attach_counts (some root) none gs x p y w named target = absurd w.tree
  attach_counts (some root) (some a) gs x p y w named target =
      let one : pane_count p root ≡ 1 = omega (arith, w.tree.0.panes_unique p) in
      rw (truthy-text p named, attach)
        (omega (arith, session_count-append_session root p x y, ap (λ (t : ℕ). t * same x y) one))

  pub split_counts :
      (ratios : Ratios R) (root : Option (SessionPaneNode R)) (active : Option String)
      (gs : List SessionGroup) (p q x : String) (axis : SplitAxis) (y : String)
      → IsWellFormed (state root active gs)
      → 0 < panes_in p root
      → sessions_in y (split_at ratios (state root active gs) p q x axis).root
        ≡ sessions_in y root + same x y
  unfolding split_at
  split_counts ratios none active gs p q x axis y w there = absurd (omega arith)
  split_counts ratios (some root) none gs p q x axis y w there = absurd w.tree
  split_counts ratios (some root) (some a) gs p q x axis y w there =
      let one : pane_count p root ≡ 1 = omega (arith, w.tree.0.panes_unique p) in
      omega (arith, session_count-split ratios root p q x axis y, ap (λ (t : ℕ). t * same x y) one)

  pub replace_counts :
      (root : Option (SessionPaneNode R)) (active : Option String) (gs : List SessionGroup)
      (o n y : String)
      → sessions_in y (replace (state root active gs) o n).root + same o y * sessions_in o root
        ≡ sessions_in y root + same n y * sessions_in o root
  unfolding replace
  replace_counts none active gs o n y = omega arith
  replace_counts (some root) active gs o n y = session_count-replace root o n y
