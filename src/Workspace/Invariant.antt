-- ===== src/Workspace/Invariant.antt =====
-- The invariant of the workspace state, and the reducer's actions that keep it.
pub mod Attaching
pub mod Moving
pub mod Detaching
pub mod Regrouping
pub mod Reduction
use fluxterm.Base.{
  ℕ, ◌+◌, ◌*◌, ◌≤◌, ◌<◌, String, Bool, true, false, ◌==◌, ◌≡◌, ◌≢◌, refl, ap, sym, Option, none,
  some, List, [], ◌∷◌, ◌++◌, same, count, arith, Bool-cases, Option-cases, inl, inr, eq_iff,
  same_self, same_ne, same_eq, same_of_ne, or_else, any, head?, if◌then◌else◌,
}
use fluxterm.Workspace.Tree.{
  SessionPaneNode, SplitAxis, Ratios, Leaf, create_single_pane_root, leaf_session, contains_pane_id,
  append_session_to_pane, set_pane_active_session, replace_session_id, find_leaf_by_session_id,
  find_leaf_by_pane_id, collect_leaf_panes,
}
use fluxterm.Workspace.Reshape.{
  remove_session_from_node, replace_pane_with_split, reorder_pane_sessions, update_split_ratio,
}
use fluxterm.Workspace.Groups.{
  SessionGroup, default_session_group_id, remove_session_from_all_groups, cleanup_session_groups,
  append_session_to_default_group, contains_session_id_in_groups, resolve_session_group_color,
}
use fluxterm.Workspace.Counts.{
  session_count, pane_count, sessions_in, panes_in, session_count-append_session,
  pane_count-append_session, session_count-set_active, pane_count-set_active, session_count-replace,
  pane_count-replace,
}
use fluxterm.Workspace.Counts.Reshape.{
  sessions_in-remove, session_count-reorder, pane_count-reorder, session_count-split,
  pane_count-split, session_count-resize, pane_count-resize,
}
use fluxterm.Workspace.Grouping.{
  grouped, group_count, grouped-append, group_count-append, grouped-cleanup,
}
use fluxterm.Workspace.Grouping.Moves.{
  AreGroupsSound, cleanup-AreGroupsSound, grouped-remove_all, group_count-remove_all, grouped-move,
  move-AreGroupsSound, grouped-append_default, append_default-AreGroupsSound, grouped-remove,
  remove-AreGroupsSound, grouped-replace_in_groups, replace-AreGroupsSound,
}
use fluxterm.Workspace.Finding.{
  contains_pane→count, find_by_pane_id, find_by_session_id, head_leaf_panes,
}
use fluxterm.Workspace.Soundness.{
  IsSound, single-IsSound, append-IsSound, set_active-IsSound, replace-IsSound, remove-IsSound,
  reorder-IsSound, split-IsSound, resize-IsSound,
}
use fluxterm.Workspace.Reducer.{
  SessionWorkspaceState, SessionWorkspaceAction, attach_session, activate_session, focus_pane,
  split_pane, replace_session, detach_session, reorder_sessions, resize_split, create_session_group,
  move_session, truthy, create_empty_workspace_state, attach, activate, focus, replace,
  choose_active_leaf, detach, reorder, move_to_group, is_name_taken, create_group, split_at, resize,
  session_workspace_reducer,
}

module _ {R : Type 0} where
  -- The active pane is a pane of the tree, and there is none where there is no tree.
  abbrev pub IsAnchored : Option (SessionPaneNode R) → Option String → Type 0
  IsAnchored none active = active ≡ none
  IsAnchored (some root) none = ⊥
  IsAnchored (some root) (some p) = IsSound root × (0 < pane_count p root)

  pub record IsWellFormed (s : SessionWorkspaceState R) : Type 0 where
    pub tree : IsAnchored s.root s.active_pane_id
    pub groups : AreGroupsSound s.groups
    pub filed : (x : String) → grouped x s.groups ≡ sessions_in x s.root

  abbrev pub IsTarget : Option (SessionPaneNode R) → Option String → Type 0
  IsTarget none p = Unit
  IsTarget (some root) none = Unit
  IsTarget (some root) (some p) = 0 < pane_count p root

  -- What the callers of `dispatch` see to: new ids are new, and target panes are in the tree.
  abbrev pub IsAllowed : SessionWorkspaceState R → SessionWorkspaceAction R → Type 0
  IsAllowed s (attach_session x p) = (sessions_in x s.root ≡ 0) × IsTarget s.root p
  IsAllowed s (split_pane p q x axis) =
      (sessions_in x s.root ≡ 0) × (0 < panes_in p s.root) × (panes_in q s.root ≡ 0) × (q ≢ "")
  IsAllowed s (replace_session o n) = sessions_in n s.root ≡ 0
  IsAllowed s (create_session_group g n x) = group_count g s.groups ≡ 0
  IsAllowed s _ = Unit

  pub empty-IsWellFormed : IsWellFormed (create_empty_workspace_state {R = R})
  unfolding create_empty_workspace_state grouped group_count count same
  empty-IsWellFormed = record {
    tree = refl;
    groups = record { default_once = refl; ids_unique = λ i. ground arith; none_empty = refl };
    filed = λ x. refl;
  }

  abbrev pub state :
      Option (SessionPaneNode R) → Option String → List SessionGroup → SessionWorkspaceState R
  state root active groups = record { root = root; active_pane_id = active; groups = groups }
