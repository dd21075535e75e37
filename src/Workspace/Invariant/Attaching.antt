-- ===== src/Workspace/Invariant/Attaching.antt =====
-- Attaching a session and splitting a pane keep the workspace well formed.
use fluxterm.Base.{
  ℕ, ◌+◌, ◌*◌, ◌<◌, String, ◌≡◌, ◌≢◌, ap, Option, none, some, List, same, count, arith,
  Option-cases, inl, inr, eq_iff, same_self, or_else,
}
use fluxterm.Workspace.Tree.{SessionPaneNode, SplitAxis, Ratios, create_single_pane_root}
use fluxterm.Workspace.Groups.{SessionGroup, append_session_to_default_group}
use fluxterm.Workspace.Counts.{
  session_count, pane_count, sessions_in, panes_in, session_count-append_session,
  pane_count-append_session,
}
use fluxterm.Workspace.Counts.Reshape.{session_count-split, pane_count-split}
use fluxterm.Workspace.Grouping.{grouped}
use fluxterm.Workspace.Grouping.Moves.{
  AreGroupsSound, grouped-append_default, append_default-AreGroupsSound,
}
use fluxterm.Workspace.Soundness.{single-IsSound, append-IsSound, split-IsSound}
use fluxterm.Workspace.Reducer.{truthy, attach, split_at}
use fluxterm.Workspace.Invariant.{IsWellFormed, IsTarget, state}

truthy-eq-some : (o : Option String) (p : String) → truthy o ≡ some p → (o ≡ some p) × (p ≢ "")
unfolding truthy
truthy-eq-some none p h = absurd (ground arith)
truthy-eq-some (some q) p h = (ground arith, λ e. ground (arith, eq_iff q ""))

grouped-append_fresh :
    (gs : List SessionGroup)
    → AreGroupsSound gs
    → (s x : String) → grouped s gs ≡ 0
    → grouped x (append_session_to_default_group gs s) ≡ grouped x gs + same s x
grouped-append_fresh gs sound s x fresh =
    omega (arith, grouped-append_default gs sound s x, ap (λ (t : ℕ). same s x * t) fresh)

single_count :
    (R : Type 0) (s p x : String) → session_count x (create_single_pane_root {R = R} s p) ≡ same s x
unfolding create_single_pane_root session_count count
single_count R s p x = omega arith

single_panes : (R : Type 0) (s p : String) → pane_count p (create_single_pane_root {R = R} s p) ≡ 1
unfolding create_single_pane_root pane_count
single_panes R s p = same_self p

module _ {R : Type 0} where
  target_in :
      (root : SessionPaneNode R) (a : String) (p : Option String) (q : String)
      → 0 < pane_count a root
      → IsTarget (some root) p
      → or_else p (some a) ≡ some q
      → 0 < pane_count q root
  target_in root a none q there target e =
      let same_id : a ≡ q = ground arith in rw (← same_id) there
  target_in root a (some p) q there target e =
      let same_id : p ≡ q = ground arith in rw (← same_id) target

  pub attach-IsWellFormed :
      (root : Option (SessionPaneNode R)) (active : Option String) (gs : List SessionGroup)
      (x : String) (p : Option String)
      → IsWellFormed (state root active gs)
      → sessions_in x root ≡ 0
      → IsTarget root p
      → IsWellFormed (attach (state root active gs) x p)
  unfolding attach
  attach-IsWellFormed none active gs x p w fresh target = elim (Option-cases (truthy p)) [
    | inl e ↦ rw (e, attach) w
    | inr (q, e) ↦
        rw (e, attach)
          (record {
            tree = (single-IsSound x q (truthy-eq-some p q e).1, omega (arith, single_panes R x q));
            groups = append_default-AreGroupsSound gs w.groups x;
            filed = λ y. omega (
              arith,
              grouped-append_fresh gs w.groups x y (omega (arith, w.filed x)),
              w.filed y,
              single_count R x q y,
            );
          })
  ]
  attach-IsWellFormed (some root) none gs x p w fresh target = absurd w.tree
  attach-IsWellFormed (some root) (some a) gs x p w fresh target =
      elim (Option-cases (truthy (or_else p (some a)))) [
        | inl e ↦ rw (e, attach) w
        | inr (q, e) ↦
            let sound = w.tree.0 in
            let there =
              target_in root a p q w.tree.1 target (truthy-eq-some (or_else p (some a)) q e).0 in
            let one : pane_count q root ≡ 1 = omega (arith, sound.panes_unique q) in
            rw (e, attach)
              (record {
                tree = (
                  append-IsSound root sound q x fresh there,
                  omega (arith, pane_count-append_session root q x q),
                );
                groups = append_default-AreGroupsSound gs w.groups x;
                filed = λ y. omega (
                  arith,
                  grouped-append_fresh gs w.groups x y (omega (arith, w.filed x)),
                  w.filed y,
                  session_count-append_session root q x y,
                  ap (λ (t : ℕ). t * same x y) one,
                );
              })
      ]

  pub split-IsWellFormed :
      (ratios : Ratios R) (root : Option (SessionPaneNode R)) (active : Option String)
      (gs : List SessionGroup) (p q x : String) (axis : SplitAxis)
      → IsWellFormed (state root active gs)
      → sessions_in x root ≡ 0
      → 0 < panes_in p root
      → panes_in q root ≡ 0
      → q ≢ ""
      → IsWellFormed (split_at ratios (state root active gs) p q x axis)
  unfolding split_at
  split-IsWellFormed ratios none active gs p q x axis w fresh there free named =
      absurd (omega arith)
  split-IsWellFormed ratios (some root) none gs p q x axis w fresh there free named = absurd w.tree
  split-IsWellFormed ratios (some root) (some a) gs p q x axis w fresh there free named =
      let sound = w.tree.0 in
      let one : pane_count p root ≡ 1 = omega (arith, sound.panes_unique p) in
      record {
        tree = (
          split-IsSound root sound ratios p q x axis there free named fresh,
          omega (
            arith,
            pane_count-split ratios root p q x axis q,
            ap (λ (t : ℕ). t * same q q) one,
            same_self q,
          ),
        );
        groups = append_default-AreGroupsSound gs w.groups x;
        filed = λ y. omega (
          arith,
          grouped-append_fresh gs w.groups x y (omega (arith, w.filed x)),
          w.filed y,
          session_count-split ratios root p q x axis y,
          ap (λ (t : ℕ). t * same x y) one,
        );
      }
