-- ===== src/Workspace/Reducer.antt =====
-- The reducer of src/features/session/core/workspaceReducer.ts, with the queries on the state.
-- `toLocaleLowerCase` is the platform's.
use fluxterm.Base.{
  trim, String, Bool, false, not, ◌||◌, ◌==◌, Option, none, some, List, [], ◌∷◌, ◌++◌,
  if◌then◌else◌, or_else, or_default, includes, any, find, head?,
}
use mathlib.Core.Option
use fluxterm.Workspace.Tree.{
  SessionPaneNode, SplitAxis, Leaf, Ratios, contains_pane_id, create_single_pane_root, leaf_session,
  find_leaf_by_pane_id, find_leaf_by_session_id, collect_node_session_ids, collect_leaf_panes,
  append_session_to_pane, set_pane_active_session, replace_session_id,
}
use fluxterm.Workspace.Reshape.{
  remove_session_from_node, reorder_pane_sessions, replace_pane_with_split, update_split_ratio,
}
use fluxterm.Workspace.Groups.{
  SessionGroup, default_session_group_id, create_default_session_group, cleanup_session_groups,
  remove_session_from_all_groups, append_session_to_default_group, remove_session_from_groups,
  replace_session_id_in_groups, contains_session_id_in_groups, move_session_to_group,
  resolve_session_group_color,
}

pub record SessionWorkspaceState (R : Type 0) : Type 0 where
  pub root : Option (SessionPaneNode R)
  pub active_pane_id : Option String
  pub groups : List SessionGroup

-- The fields `activate` and `createdAt`, which the reducer does not read, are left out.
pub data SessionWorkspaceAction (R : Type 0) : Type 0 where
  attach_session : (session_id : String) (pane_id : Option String) → SessionWorkspaceAction R
  activate_session : (session_id : String) → SessionWorkspaceAction R
  focus_pane : (pane_id : String) → SessionWorkspaceAction R
  split_pane :
      (pane_id next_pane_id next_session_id : String) → SplitAxis → SessionWorkspaceAction R
  replace_session : (old_session_id next_session_id : String) → SessionWorkspaceAction R
  detach_session : (session_id : String) → SessionWorkspaceAction R
  reorder_sessions :
      (pane_id source_session_id target_session_id : String) → SessionWorkspaceAction R
  resize_split : (pane_id : String) (ratio : R) → SessionWorkspaceAction R
  create_session_group : (group_id name session_id : String) → SessionWorkspaceAction R
  move_session : (session_id group_id : String) → SessionWorkspaceAction R

-- A text that may be null, as a condition reads it: the empty text counts as null.
unfoldable pub truthy : Option String → Option String
truthy none = none
truthy (some s) = if s == "" then none else some s

module _ {R : Type 0} where
  unfoldable pub create_empty_workspace_state : SessionWorkspaceState R
  create_empty_workspace_state = record {
    root = none;
    active_pane_id = none;
    groups = create_default_session_group ∷ [];
  }

  unfoldable pub collect_workspace_session_ids : SessionWorkspaceState R → List String
  collect_workspace_session_ids state = elim state.root [
    | none ↦ []
    | some root ↦ collect_node_session_ids root
  ]

  unfoldable pub get_active_session_id : SessionWorkspaceState R → Option String
  unfolding truthy
  get_active_session_id state = elim state.root [
    | none ↦ none
    | some root ↦ elim (truthy state.active_pane_id) [
      | none ↦ none
      | some pane_id ↦ leaf_session (find_leaf_by_pane_id root pane_id)
    ]
  ]

  unfoldable pub get_session_group_id : SessionWorkspaceState R → String → String
  get_session_group_id state session_id =
      or_default
        (Option.map (λ (group : SessionGroup). group.id)
          (find (λ group. includes group.session_ids session_id) state.groups))
        default_session_group_id

  unfoldable pub attach : SessionWorkspaceState R → String → Option String → SessionWorkspaceState R
  unfolding truthy
  attach state session_id pane_id = elim state.root [
    | none ↦ elim (truthy pane_id) [
      | none ↦ state
      | some pane ↦ record {
        root = some (create_single_pane_root session_id pane);
        active_pane_id = some pane;
        groups = append_session_to_default_group state.groups session_id;
      }
    ]
    | some root ↦ elim (truthy (or_else pane_id state.active_pane_id)) [
      | none ↦ state
      | some target ↦ record {
        root = some (append_session_to_pane root target session_id);
        active_pane_id = some target;
        groups = append_session_to_default_group state.groups session_id;
      }
    ]
  ]

  unfoldable pub activate : SessionWorkspaceState R → String → SessionWorkspaceState R
  activate state session_id = elim state.root [
    | none ↦ state
    | some root ↦ elim (find_leaf_by_session_id root session_id) [
      | none ↦ state
      | some l ↦ record {
        root = some (set_pane_active_session root l.pane_id session_id);
        active_pane_id = some l.pane_id;
        groups = state.groups;
      }
    ]
  ]

  unfoldable pub focus : SessionWorkspaceState R → String → SessionWorkspaceState R
  unfolding truthy
  focus state pane_id = elim state.root [
    | none ↦ state
    | some root ↦
        if contains_pane_id root pane_id
        then record {
          root = elim (truthy (leaf_session (find_leaf_by_pane_id root pane_id))) [
            | none ↦ some root
            | some session_id ↦ some (set_pane_active_session root pane_id session_id)
          ];
          active_pane_id = some pane_id;
          groups = state.groups;
        }
        else state
  ]

  unfoldable pub replace : SessionWorkspaceState R → String → String → SessionWorkspaceState R
  replace state old_id next_id = elim state.root [
    | none ↦ state
    | some root ↦ record state {
      root = some (replace_session_id root old_id next_id);
      groups = replace_session_id_in_groups state.groups old_id next_id;
    }
  ]

  -- the pane that stays active, or else the first one that is left
  unfoldable pub choose_active_leaf : Option String → SessionPaneNode R → Option Leaf
  unfolding truthy
  choose_active_leaf active root =
      or_else
        (elim (truthy active) [ none ↦ none | some pane_id ↦ find_leaf_by_pane_id root pane_id ])
        (head? (collect_leaf_panes root))

  unfoldable pub detach : SessionWorkspaceState R → String → SessionWorkspaceState R
  unfolding choose_active_leaf create_empty_workspace_state
  detach state session_id = elim state.root [
    | none ↦ state
    | some root ↦ elim (remove_session_from_node root session_id) [
      | none ↦ record create_empty_workspace_state {
        groups = remove_session_from_groups state.groups session_id;
      }
      | some next_root ↦ record {
        root = some next_root;
        active_pane_id =
            Option.map (λ (l : Leaf). l.pane_id)
              (choose_active_leaf state.active_pane_id next_root);
        groups = remove_session_from_groups state.groups session_id;
      }
    ]
  ]

  unfoldable pub reorder :
      SessionWorkspaceState R → String → String → String → SessionWorkspaceState R
  reorder state pane_id source_id target_id = elim state.root [
    | none ↦ state
    | some root ↦ record state {
      root = some (reorder_pane_sessions root pane_id source_id target_id);
    }
  ]

  unfoldable pub move_to_group : SessionWorkspaceState R → String → String → SessionWorkspaceState R
  move_to_group state session_id group_id =
      if contains_session_id_in_groups state.groups session_id
      then if any (λ (group : SessionGroup). group.id == group_id) state.groups
        then record state { groups = move_session_to_group state.groups session_id group_id }
        else state
      else state

-- The groups hold another one of this name, up to spaces and case.
unfoldable pub is_name_taken : (String → String) → List SessionGroup → String → Bool
is_name_taken to_lower groups trimmed =
    any (λ group. to_lower (trim group.name) == to_lower trimmed) groups

module _ {R : Type 0} (to_lower : String → String) where
  unfoldable pub create_group :
      SessionWorkspaceState R → String → String → String → SessionWorkspaceState R
  unfolding is_name_taken
  create_group state group_id name session_id =
      let trimmed = trim name in
      if trimmed == "" || not (contains_session_id_in_groups state.groups session_id)
      then state
      else if is_name_taken to_lower state.groups trimmed
      then state
      else record state {
        groups = cleanup_session_groups (
            remove_session_from_all_groups state.groups session_id
            ++ record {
              id = group_id;
              name = trimmed;
              session_ids = session_id ∷ [];
              color = resolve_session_group_color group_id;
              built_in = false;
            }
              ∷ []);
      }

module _ {R : Type 0} (ratios : Ratios R) where
  unfoldable pub split_at :
      SessionWorkspaceState R → String → String → String → SplitAxis → SessionWorkspaceState R
  split_at state pane_id next_pane_id next_session_id axis = elim state.root [
    | none ↦ state
    | some root ↦ record {
      root = some (replace_pane_with_split ratios root pane_id next_pane_id next_session_id axis);
      active_pane_id = some next_pane_id;
      groups = append_session_to_default_group state.groups next_session_id;
    }
  ]

  unfoldable pub resize : SessionWorkspaceState R → String → R → SessionWorkspaceState R
  resize state pane_id ratio = elim state.root [
    | none ↦ state
    | some root ↦ record state { root = some (update_split_ratio ratios root pane_id ratio) }
  ]

module _ {R : Type 0} (ratios : Ratios R) (to_lower : String → String) where
  unfoldable pub session_workspace_reducer :
      SessionWorkspaceState R → SessionWorkspaceAction R → SessionWorkspaceState R
  session_workspace_reducer s (attach_session x p) = attach s x p
  session_workspace_reducer s (activate_session x) = activate s x
  session_workspace_reducer s (focus_pane p) = focus s p
  session_workspace_reducer s (split_pane p q x axis) = split_at ratios s p q x axis
  session_workspace_reducer s (replace_session x y) = replace s x y
  session_workspace_reducer s (detach_session x) = detach s x
  session_workspace_reducer s (reorder_sessions p x y) = reorder s p x y
  session_workspace_reducer s (resize_split p r) = resize ratios s p r
  session_workspace_reducer s (create_session_group g n x) = create_group to_lower s g n x
  session_workspace_reducer s (move_session x g) = move_to_group s x g
