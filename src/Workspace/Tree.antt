-- ===== src/Workspace/Tree.antt =====
-- The pane tree of src/types.ts (`SessionPaneNode`) and its operations in
-- src/features/session/core/workspaceReducer.ts. The split ratio is a number of type `R`, and a
-- node is a value: where the source returns a node itself if nothing changed below it, the result
-- here is an equal node.
use fluxterm.Base.{
  String, Bool, ◌&&◌, ◌||◌, ◌==◌, Option, none, some, List, [], ◌∷◌, ◌++◌, map, if◌then◌else◌,
  or_else, includes, get_last?,
}

pub data SplitAxis : Type 0 where
  horizontal vertical : SplitAxis

pub record Leaf : Type 0 where
  pub pane_id : String
  pub session_ids : List String
  pub active_session_id : Option String

pub data SessionPaneNode (R : Type 0) : Type 0 where
  leaf : Leaf → SessionPaneNode R
  split : SplitAxis → R → SessionPaneNode R → SessionPaneNode R → SessionPaneNode R

-- The numbers that a split ratio is made of: the literals of the source, and `Math.min`, `Math.max`.
pub record Ratios (R : Type 0) : Type 0 where
  pub half : R
  pub lowest : R
  pub highest : R
  pub math_min : R → R → R
  pub math_max : R → R → R

-- `leaf?.activeSessionId ?? leaf?.sessionIds[leaf.sessionIds.length - 1] ?? null`
abbrev pub leaf_session : Option Leaf → Option String
leaf_session none = none
leaf_session (some l) = or_else l.active_session_id (get_last? l.session_ids)

-- `sessionIds.map((item) => item === oldSessionId ? nextSessionId : item)`
unfoldable pub replace_in_list : String → String → List String → List String
replace_in_list old_id next_id = map (λ item. if item == old_id then next_id else item)

unfoldable pub replace_active : String → String → Option String → Option String
replace_active old_id next_id none = none
replace_active old_id next_id (some active) = if active == old_id then some next_id else some active

module _ {R : Type 0} where
  unfoldable pub create_single_pane_root : String → String → SessionPaneNode R
  create_single_pane_root session_id pane_id = leaf (record {
    pane_id = pane_id;
    session_ids = session_id ∷ [];
    active_session_id = some session_id;
  })

  unfoldable pub collect_node_session_ids : SessionPaneNode R → List String
  collect_node_session_ids (leaf l) = l.session_ids
  collect_node_session_ids (split axis ratio first second) =
      collect_node_session_ids first ++ collect_node_session_ids second

  unfoldable pub contains_session_id : SessionPaneNode R → String → Bool
  contains_session_id (leaf l) session_id = includes l.session_ids session_id
  contains_session_id (split axis ratio first second) session_id =
      contains_session_id first session_id || contains_session_id second session_id

  unfoldable pub contains_pane_id : SessionPaneNode R → String → Bool
  contains_pane_id (leaf l) pane_id = l.pane_id == pane_id
  contains_pane_id (split axis ratio first second) pane_id =
      contains_pane_id first pane_id || contains_pane_id second pane_id

  unfoldable pub find_leaf_by_pane_id : SessionPaneNode R → String → Option Leaf
  find_leaf_by_pane_id (leaf l) pane_id = if l.pane_id == pane_id then some l else none
  find_leaf_by_pane_id (split axis ratio first second) pane_id =
      or_else (find_leaf_by_pane_id first pane_id) (find_leaf_by_pane_id second pane_id)

  unfoldable pub find_leaf_by_session_id : SessionPaneNode R → String → Option Leaf
  find_leaf_by_session_id (leaf l) session_id =
      if includes l.session_ids session_id then some l else none
  find_leaf_by_session_id (split axis ratio first second) session_id =
      or_else (find_leaf_by_session_id first session_id) (find_leaf_by_session_id second session_id)

  unfoldable pub collect_leaf_panes : SessionPaneNode R → List Leaf
  collect_leaf_panes (leaf l) = l ∷ []
  collect_leaf_panes (split axis ratio first second) =
      collect_leaf_panes first ++ collect_leaf_panes second

  unfoldable pub append_session_to_pane : SessionPaneNode R → String → String → SessionPaneNode R
  append_session_to_pane (leaf l) pane_id session_id =
      if l.pane_id == pane_id
      then leaf (record l {
        session_ids = l.session_ids ++ session_id ∷ [];
        active_session_id = some session_id;
      })
      else leaf l
  append_session_to_pane (split axis ratio first second) pane_id session_id =
      split axis ratio (append_session_to_pane first pane_id session_id)
        (append_session_to_pane second pane_id session_id)

  unfoldable pub set_pane_active_session : SessionPaneNode R → String → String → SessionPaneNode R
  set_pane_active_session (leaf l) pane_id session_id =
      if l.pane_id == pane_id && includes l.session_ids session_id
      then leaf (record l { active_session_id = some session_id })
      else leaf l
  set_pane_active_session (split axis ratio first second) pane_id session_id =
      split axis ratio (set_pane_active_session first pane_id session_id)
        (set_pane_active_session second pane_id session_id)

  unfoldable pub replace_session_id : SessionPaneNode R → String → String → SessionPaneNode R
  unfolding replace_in_list replace_active
  replace_session_id (leaf l) old_id next_id =
      if includes l.session_ids old_id
      then leaf (record l {
        session_ids = replace_in_list old_id next_id l.session_ids;
        active_session_id = replace_active old_id next_id l.active_session_id;
      })
      else leaf l
  replace_session_id (split axis ratio first second) old_id next_id =
      split axis ratio (replace_session_id first old_id next_id)
        (replace_session_id second old_id next_id)
