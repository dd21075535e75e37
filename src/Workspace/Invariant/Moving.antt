-- ===== src/Workspace/Invariant/Moving.antt =====
-- Activating, focusing, replacing, reordering and resizing keep the workspace well formed.
use fluxterm.Base.{
  ℕ, ◌*◌, String, ◌≡◌, ap, Option, none, some, List, same, arith, Bool-cases, Option-cases, inl,
  inr,
}
use fluxterm.Workspace.Tree.{
  SessionPaneNode, Ratios, leaf_session, contains_pane_id, find_leaf_by_session_id,
  find_leaf_by_pane_id,
}
use fluxterm.Workspace.Reshape.{update_split_ratio}
use fluxterm.Workspace.Groups.{SessionGroup}
use fluxterm.Workspace.Counts.{
  sessions_in, session_count-set_active, pane_count-set_active, session_count-replace,
  pane_count-replace,
}
use fluxterm.Workspace.Counts.Reshape.{
  session_count-reorder, pane_count-reorder, session_count-resize, pane_count-resize,
}
use fluxterm.Workspace.Grouping.Moves.{grouped-replace_in_groups, replace-AreGroupsSound}
use fluxterm.Workspace.Finding.{contains_pane→count, find_by_session_id}
use fluxterm.Workspace.Soundness.{
  set_active-IsSound, replace-IsSound, reorder-IsSound, resize-IsSound,
}
use fluxterm.Workspace.Reducer.{truthy, activate, focus, replace, reorder, resize}
use fluxterm.Workspace.Invariant.{IsWellFormed, state}

module _ {R : Type 0} where
  pub activate-IsWellFormed :
      (root : Option (SessionPaneNode R)) (active : Option String) (gs : List SessionGroup)
      (x : String)
      → IsWellFormed (state root active gs)
      → IsWellFormed (activate (state root active gs) x)
  unfolding activate
  activate-IsWellFormed none active gs x w = w
  activate-IsWellFormed (some root) none gs x w = absurd w.tree
  activate-IsWellFormed (some root) (some a) gs x w =
      elim (Option-cases (find_leaf_by_session_id root x)) [
        | inl e ↦ rw (e, activate) w
        | inr (l, e) ↦
            rw (e, activate)
              (record {
                tree = (
                  set_active-IsSound root w.tree.0 l.pane_id x,
                  omega (
                    arith,
                    pane_count-set_active root l.pane_id x l.pane_id,
                    (find_by_session_id root x l e).0,
                  ),
                );
                groups = w.groups;
                filed = λ y. omega (arith, session_count-set_active root l.pane_id x y, w.filed y);
              })
      ]

  pub focus-IsWellFormed :
      (root : Option (SessionPaneNode R)) (active : Option String) (gs : List SessionGroup)
      (p : String)
      → IsWellFormed (state root active gs)
      → IsWellFormed (focus (state root active gs) p)
  unfolding focus
  focus-IsWellFormed none active gs p w = w
  focus-IsWellFormed (some root) none gs p w = absurd w.tree
  focus-IsWellFormed (some root) (some a) gs p w = elim (Bool-cases (contains_pane_id root p)) [
    | inr e ↦ rw (e, focus) w
    | inl e ↦ elim (Option-cases (truthy (leaf_session (find_leaf_by_pane_id root p)))) [
      | inl d ↦
          rw (e, d, focus)
            (record {
              tree = (w.tree.0, contains_pane→count root p e);
              groups = w.groups;
              filed = w.filed;
            })
      | inr (x, d) ↦
          rw (e, d, focus)
            (record {
              tree = (
                set_active-IsSound root w.tree.0 p x,
                omega (arith, pane_count-set_active root p x p, contains_pane→count root p e),
              );
              groups = w.groups;
              filed = λ y. omega (arith, session_count-set_active root p x y, w.filed y);
            })
    ]
  ]

  pub replace-IsWellFormed :
      (root : Option (SessionPaneNode R)) (active : Option String) (gs : List SessionGroup)
      (o n : String)
      → IsWellFormed (state root active gs)
      → sessions_in n root ≡ 0
      → IsWellFormed (replace (state root active gs) o n)
  unfolding replace
  replace-IsWellFormed none active gs o n w fresh = w
  replace-IsWellFormed (some root) none gs o n w fresh = absurd w.tree
  replace-IsWellFormed (some root) (some a) gs o n w fresh = record {
    tree = (
      replace-IsSound root w.tree.0 o n fresh,
      omega (arith, pane_count-replace root o n a, w.tree.1),
    );
    groups = replace-AreGroupsSound gs w.groups o n;
    filed = λ y. omega (
      arith,
      grouped-replace_in_groups gs w.groups o n y,
      session_count-replace root o n y,
      w.filed y,
      ap (λ (t : ℕ). same o y * t) (w.filed o),
      ap (λ (t : ℕ). same n y * t) (w.filed o),
    );
  }

  pub reorder-IsWellFormed :
      (root : Option (SessionPaneNode R)) (active : Option String) (gs : List SessionGroup)
      (p s t : String)
      → IsWellFormed (state root active gs)
      → IsWellFormed (reorder (state root active gs) p s t)
  unfolding reorder
  reorder-IsWellFormed none active gs p s t w = w
  reorder-IsWellFormed (some root) none gs p s t w = absurd w.tree
  reorder-IsWellFormed (some root) (some a) gs p s t w = record {
    tree = (
      reorder-IsSound root w.tree.0 p s t,
      omega (arith, pane_count-reorder root p s t a, w.tree.1),
    );
    groups = w.groups;
    filed = λ y. omega (arith, session_count-reorder root p s t y, w.filed y);
  }

  pub resize-IsWellFormed :
      (ratios : Ratios R) (root : Option (SessionPaneNode R)) (active : Option String)
      (gs : List SessionGroup) (p : String) (r : R)
      → IsWellFormed (state root active gs)
      → IsWellFormed (resize ratios (state root active gs) p r)
  unfolding resize update_split_ratio
  resize-IsWellFormed ratios none active gs p r w = w
  resize-IsWellFormed ratios (some root) none gs p r w = absurd w.tree
  resize-IsWellFormed ratios (some root) (some a) gs p r w = record {
    tree = (
      resize-IsSound root w.tree.0 ratios p r,
      omega (arith, pane_count-resize ratios root p r a, w.tree.1),
    );
    groups = w.groups;
    filed = λ y. omega (arith, session_count-resize ratios root p r y, w.filed y);
  }
