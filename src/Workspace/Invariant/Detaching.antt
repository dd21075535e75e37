-- ===== src/Workspace/Invariant/Detaching.antt =====
-- Detaching a session keeps the workspace well formed.
use fluxterm.Base.{
  ℕ, ◌*◌, ◌<◌, String, ◌≡◌, refl, ap, Option, none, some, List, same, arith, Option-cases, inl, inr,
}
use fluxterm.Workspace.Tree.{SessionPaneNode, Leaf, find_leaf_by_pane_id}
use fluxterm.Workspace.Reshape.{remove_session_from_node}
use fluxterm.Workspace.Groups.{SessionGroup}
use fluxterm.Workspace.Counts.{pane_count}
use fluxterm.Workspace.Counts.Reshape.{sessions_in-remove}
use fluxterm.Workspace.Grouping.Moves.{grouped-remove, remove-AreGroupsSound}
use fluxterm.Workspace.Finding.{find_by_pane_id, head_leaf_panes}
use fluxterm.Workspace.Soundness.{remove-IsSound}
use fluxterm.Workspace.Reducer.{truthy, create_empty_workspace_state, choose_active_leaf, detach}
use fluxterm.Workspace.Invariant.{IsWellFormed, state}

module _ {R : Type 0} where
  choose_active_leaf_lem :
      (active : Option String) (root : SessionPaneNode R)
      → (l : Leaf) × (choose_active_leaf active root ≡ some l) × (0 < pane_count l.pane_id root)
  unfolding choose_active_leaf
  choose_active_leaf_lem active root = elim (Option-cases (truthy active)) [
    | inl e ↦
        let (l, first, there) = head_leaf_panes root in (l, rw (e, choose_active_leaf) first, there)
    | inr (p, e) ↦ elim (Option-cases (find_leaf_by_pane_id root p)) [
      | inl d ↦
          let (l, first, there) = head_leaf_panes root in
          (l, rw (e, d, choose_active_leaf) first, there)
      | inr (l, d) ↦
          let (same_id, there) = find_by_pane_id root p l d in
          (l, rw (e, d, choose_active_leaf) refl, rw same_id there)
    ]
  ]

  pub detach-IsWellFormed :
      (root : Option (SessionPaneNode R)) (active : Option String) (gs : List SessionGroup)
      (x : String)
      → IsWellFormed (state root active gs)
      → IsWellFormed (detach (state root active gs) x)
  unfolding detach
  detach-IsWellFormed none active gs x w = w
  detach-IsWellFormed (some root) none gs x w = absurd w.tree
  detach-IsWellFormed (some root) (some a) gs x w =
      elim (Option-cases (remove_session_from_node root x)) [
        | inl e ↦
            rw (e, detach)
              (record {
                tree = unfold create_empty_workspace_state in refl;
                groups = remove-AreGroupsSound gs w.groups x;
                filed = λ y.
                    unfold create_empty_workspace_state in
                    omega (
                      arith,
                      grouped-remove gs w.groups x y,
                      rw e at (sessions_in-remove root x y),
                      w.filed y,
                      ap (λ (t : ℕ). same x y * t) (w.filed x),
                    );
              })
        | inr (rest, e) ↦
            let (l, chosen, there) = choose_active_leaf_lem (some a) rest in
            rw (e, chosen, detach)
              (record {
                tree = (remove-IsSound root w.tree.0 x rest e, there);
                groups = remove-AreGroupsSound gs w.groups x;
                filed = λ y. omega (
                  arith,
                  grouped-remove gs w.groups x y,
                  rw e at (sessions_in-remove root x y),
                  w.filed y,
                  ap (λ (t : ℕ). same x y * t) (w.filed x),
                );
              })
      ]
