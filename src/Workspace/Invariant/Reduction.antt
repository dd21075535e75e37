-- ===== src/Workspace/Invariant/Reduction.antt =====
-- The reducer keeps the workspace well formed, and so does every run of it.
use fluxterm.Base.{String, ◌≡◌}
use fluxterm.Workspace.Tree.{Ratios}
use fluxterm.Workspace.Reducer.{
  SessionWorkspaceState, SessionWorkspaceAction, attach_session, activate_session, focus_pane,
  split_pane, replace_session, detach_session, reorder_sessions, resize_split, create_session_group,
  move_session, create_empty_workspace_state, session_workspace_reducer,
}
use fluxterm.Workspace.Invariant.{IsWellFormed, IsAllowed, empty-IsWellFormed}
use fluxterm.Workspace.Invariant.Attaching.{attach-IsWellFormed, split-IsWellFormed}
use fluxterm.Workspace.Invariant.Moving.{
  activate-IsWellFormed, focus-IsWellFormed, replace-IsWellFormed, reorder-IsWellFormed,
  resize-IsWellFormed,
}
use fluxterm.Workspace.Invariant.Detaching.{detach-IsWellFormed}
use fluxterm.Workspace.Invariant.Regrouping.{move-IsWellFormed, create-IsWellFormed}

module _ {R : Type 0} (ratios : Ratios R) (to_lower : String → String) where
  -- The reducer takes a well-formed workspace to a well-formed workspace, for each action whose
  -- new session, pane and group ids are new and whose target pane is in the tree.
  pub reducer-IsWellFormed :
      (s : SessionWorkspaceState R) (a : SessionWorkspaceAction R)
      → IsWellFormed s
      → IsAllowed s a
      → IsWellFormed (session_workspace_reducer ratios to_lower s a)
  unfolding session_workspace_reducer
  reducer-IsWellFormed s (attach_session x p) w (fresh, target) =
      attach-IsWellFormed s.root s.active_pane_id s.groups x p w fresh target
  reducer-IsWellFormed s (activate_session x) w h =
      activate-IsWellFormed s.root s.active_pane_id s.groups x w
  reducer-IsWellFormed s (focus_pane p) w h =
      focus-IsWellFormed s.root s.active_pane_id s.groups p w
  reducer-IsWellFormed s (split_pane p q x axis) w (fresh, there, free, named) =
      split-IsWellFormed ratios s.root s.active_pane_id s.groups p q x axis w fresh there free named
  reducer-IsWellFormed s (replace_session o n) w fresh =
      replace-IsWellFormed s.root s.active_pane_id s.groups o n w fresh
  reducer-IsWellFormed s (detach_session x) w h =
      detach-IsWellFormed s.root s.active_pane_id s.groups x w
  reducer-IsWellFormed s (reorder_sessions p x y) w h =
      reorder-IsWellFormed s.root s.active_pane_id s.groups p x y w
  reducer-IsWellFormed s (resize_split p r) w h =
      resize-IsWellFormed ratios s.root s.active_pane_id s.groups p r w
  reducer-IsWellFormed s (create_session_group g n x) w free =
      create-IsWellFormed to_lower s.root s.active_pane_id s.groups g n x w free
  reducer-IsWellFormed s (move_session x g) w h =
      move-IsWellFormed s.root s.active_pane_id s.groups x g w

  -- The states that allowed actions lead to from the empty workspace.
  pub data Reachable : SessionWorkspaceState R → Type 0 where
    start : Reachable create_empty_workspace_state
    step :
        {s t : SessionWorkspaceState R}
        → Reachable s
        → (a : SessionWorkspaceAction R) → IsAllowed s a
        → session_workspace_reducer ratios to_lower s a ≡ t
        → Reachable t

  -- Every state that allowed actions lead to from the empty workspace is well formed.
  pub Reachable-IsWellFormed : {s : SessionWorkspaceState R} → Reachable s → IsWellFormed s
  Reachable-IsWellFormed start = empty-IsWellFormed
  Reachable-IsWellFormed (step {s} r a ok e) =
      rw e at (reducer-IsWellFormed s a (Reachable-IsWellFormed r) ok)
