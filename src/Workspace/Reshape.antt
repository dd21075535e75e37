-- ===== src/Workspace/Reshape.antt =====
-- Removal, reordering and resizing in the pane tree,
-- src/features/session/core/workspaceReducer.ts.
use fluxterm.Base.{
  ℕ, String, Bool, true, false, not, ◌==◌, Option, none, some, List, [], ◌∷◌, if◌then◌else◌,
  or_default, keep, includes, index_of, eqb, get_elem?, get_last?, remove_at, insert_at,
}
use fluxterm.Workspace.Tree.{
  SessionPaneNode, leaf, split, SplitAxis, Leaf, Ratios, contains_pane_id, create_single_pane_root,
}

-- `sessionIds.filter((item) => item !== sessionId)`
abbrev pub without : String → List String → List String
without session_id = keep (λ item. not (item == session_id))

unfoldable pub active_after_removal : Option String → List String → Option String
active_after_removal active kept =
    if includes kept (or_default active "") then active else get_last? kept

unfoldable pub remove_session_from_leaf : Leaf → List String → Option Leaf
unfolding active_after_removal
remove_session_from_leaf l [] = none
remove_session_from_leaf l (x ∷ xs) = some (record l {
  session_ids = x ∷ xs;
  active_session_id = active_after_removal l.active_session_id (x ∷ xs);
})

-- `splice(sourceIndex, 1)` and `splice(targetIndex, 0, moved)`
unfoldable pub move_item : List String → ℕ → ℕ → List String
move_item ids source target = elim (get_elem? ids source) [
  | none ↦ ids
  | some moved ↦ insert_at (remove_at ids source) target moved
]

unfoldable pub reorder_sessions : List String → String → String → List String
unfolding move_item
reorder_sessions ids source_id target_id = elim (index_of ids source_id) [
  | none ↦ ids
  | some source ↦ elim (index_of ids target_id) [
    | none ↦ ids
    | some target ↦ if eqb source target then ids else move_item ids source target
  ]
]

module _ {R : Type 0} where
  -- A split with an empty side is replaced by the other side.
  unfoldable pub rejoin :
      SplitAxis
      → R
      → Option (SessionPaneNode R)
      → Option (SessionPaneNode R)
      → Option (SessionPaneNode R)
  rejoin axis ratio none none = none
  rejoin axis ratio none (some second) = some second
  rejoin axis ratio (some first) none = some first
  rejoin axis ratio (some first) (some second) = some (split axis ratio first second)

  abbrev pub as_node : Option Leaf → Option (SessionPaneNode R)
  as_node none = none
  as_node (some l) = some (leaf l)

  unfoldable pub remove_session_from_node : SessionPaneNode R → String → Option (SessionPaneNode R)
  unfolding remove_session_from_leaf rejoin
  remove_session_from_node (leaf l) session_id =
      if includes l.session_ids session_id
      then as_node (remove_session_from_leaf l (without session_id l.session_ids))
      else some (leaf l)
  remove_session_from_node (split axis ratio first second) session_id =
      rejoin axis ratio (remove_session_from_node first session_id)
        (remove_session_from_node second session_id)

  unfoldable pub reorder_pane_sessions :
      SessionPaneNode R → String → String → String → SessionPaneNode R
  unfolding reorder_sessions
  reorder_pane_sessions (leaf l) pane_id source_id target_id =
      if l.pane_id == pane_id
      then leaf (record l { session_ids = reorder_sessions l.session_ids source_id target_id })
      else leaf l
  reorder_pane_sessions (split axis ratio first second) pane_id source_id target_id =
      split axis ratio (reorder_pane_sessions first pane_id source_id target_id)
        (reorder_pane_sessions second pane_id source_id target_id)

module _ {R : Type 0} (ratios : Ratios R) where
  unfoldable pub replace_pane_with_split :
      SessionPaneNode R → String → String → String → SplitAxis → SessionPaneNode R
  unfolding create_single_pane_root
  replace_pane_with_split (leaf l) pane_id next_pane_id next_session_id axis =
      if l.pane_id == pane_id
      then split axis ratios.half (leaf l) (create_single_pane_root next_session_id next_pane_id)
      else leaf l
  replace_pane_with_split (split a ratio first second) pane_id next_pane_id next_session_id axis =
      split a ratio (replace_pane_with_split first pane_id next_pane_id next_session_id axis)
        (replace_pane_with_split second pane_id next_pane_id next_session_id axis)

  unfoldable pub clamp_ratio : R → R
  clamp_ratio value = ratios.math_min ratios.highest (ratios.math_max ratios.lowest value)

  unfoldable pub update_split_ratio_internal :
      SessionPaneNode R → String → R → SessionPaneNode R × Bool
  unfolding clamp_ratio contains_pane_id
  update_split_ratio_internal (leaf l) pane_id ratio = (leaf l, l.pane_id == pane_id)
  update_split_ratio_internal (split axis old first second) pane_id ratio =
      let next_first = update_split_ratio_internal first pane_id ratio in
      let next_second = update_split_ratio_internal second pane_id ratio in
      if next_first.1
      then (
        (if contains_pane_id first pane_id
            then split axis (clamp_ratio ratio) next_first.0 second
            else split axis old next_first.0 second),
        true,
      )
      else if next_second.1
      then (
        (if contains_pane_id second pane_id
            then split axis (clamp_ratio ratio) first next_second.0
            else split axis old first next_second.0),
        true,
      )
      else (split axis old first second, false)

  unfoldable pub update_split_ratio : SessionPaneNode R → String → R → SessionPaneNode R
  unfolding update_split_ratio_internal
  update_split_ratio node pane_id ratio = (update_split_ratio_internal node pane_id ratio).0
