-- ===== src/Workspace/Detached.antt =====
-- What detaching a session leaves of the panes and of the groups (detachSession of
-- src/features/session/core/workspaceReducer.ts).
use fluxterm.Base.{
  ◌≡◌, refl, ap, sym, ◌∙◌, String, Bool, true, false, not, ◌==◌, ◌&&◌, ◌||◌, Option, none, some,
  List, [], ◌∷◌, ◌++◌, map, keep, all, count, same, includes, arith, Bool-cases, inl, inr,
  if◌then◌else◌,
}
use fluxterm.Workspace.Tree.{SessionPaneNode, leaf, split, SplitAxis, Leaf, collect_leaf_panes}
use fluxterm.Workspace.Reshape.{
  without, as_node, remove_session_from_leaf, remove_session_from_node, rejoin,
}
use fluxterm.Workspace.Groups.{
  SessionGroup, default_session_group_id, is_nonempty, with_sessions, ensure_default_session_group,
  remove_session_from_all_groups, cleanup_session_groups, remove_session_from_groups,
}
use fluxterm.Workspace.Grouping.{grouped, is_kept, ensure_default_self, group_count-with_sessions}
use fluxterm.Workspace.Grouping.Moves.{AreGroupsSound}
use fluxterm.Workspace.Counts.{sessions_in}
use fluxterm.Workspace.Actives.{ActiveIn, AllShowOwn}
use fluxterm.Workspace.Reducer.{SessionWorkspaceState, detach}
use fluxterm.Workspace.Invariant.{IsWellFormed, state}
use fluxterm.Workspace.Effects.{detach_root, detached_counts}

-- A pane as its id and its sessions, in their order.
abbrev pub Row : Type 0
Row = String × List String

-- What is left of panes without a session: those that show another one.
abbrev pub rows_without : String → List Row → List Row
rows_without x rows =
    keep (λ (row : Row). is_nonempty row.1)
      (map (λ (row : Row). (row.0, keep (λ y. not (y == x)) row.1)) rows)

-- What is left of groups without a session: the default group, and those that have another one.
abbrev pub groups_without : String → List SessionGroup → List SessionGroup
groups_without x groups =
    keep
      (λ (group : SessionGroup).
        (group.id == default_session_group_id) || is_nonempty group.session_ids)
      (map
        (λ (group : SessionGroup). record group {
          session_ids = keep (λ y. not (y == x)) group.session_ids;
        })
        groups)

without_absent : (x : String) (ids : List String) → count x ids ≡ 0 → without x ids ≡ ids
unfolding count same
without_absent x [] h = refl
without_absent x (y ∷ ids) h = elim (Bool-cases (y == x)) [
  | inl e ↦ absurd (ground (arith, h, e))
  | inr e ↦ rw e (ap (λ rest. y ∷ rest) (without_absent x ids (ground (arith, h, e))))
]

not_there : (x : String) (ids : List String) → includes ids x ≡ false → without x ids ≡ ids
not_there x [] h = refl
not_there x (y ∷ ids) h = elim (Bool-cases (y == x)) [
  | inl e ↦ absurd (ground (arith, h, e))
  | inr e ↦ rw e (ap (λ rest. y ∷ rest) (not_there x ids (ground (arith, h, e))))
]

map-append {ℓ κ} :
    {A : Type ℓ} {B : Type κ} (f : A → B) (xs ys : List A) → map f (xs ++ ys) ≡ map f xs ++ map f ys
map-append f [] ys = refl
map-append f (x ∷ xs) ys = ap (λ rest. f x ∷ rest) (map-append f xs ys)

append_nil {ℓ} : {A : Type ℓ} (xs : List A) → xs ++ [] ≡ xs
append_nil [] = refl
append_nil (x ∷ xs) = ap (λ rest. x ∷ rest) (append_nil xs)

head_kept : (a b : Bool) → (a && b) ≡ true → a ≡ true
head_kept a b h = ground (arith, h)

tail_kept : (a b : Bool) → (a && b) ≡ true → b ≡ true
tail_kept a b h = ground (arith, h)

rows_without-append :
    (x : String) (rows more : List Row)
    → rows_without x (rows ++ more) ≡ rows_without x rows ++ rows_without x more
rows_without-append x [] more = refl
rows_without-append x (row ∷ rows) more =
    let rest = rows_without-append x rows more in
    elim (Bool-cases (is_nonempty (keep (λ y. not (y == x)) row.1))) [
      | inl e ↦ rw e (ap (λ later. (row.0, keep (λ y. not (y == x)) row.1) ∷ later) rest)
      | inr e ↦ rw e rest
    ]

filled : (active : Option String) (ids : List String) → ActiveIn active ids → is_nonempty ids ≡ true
unfolding count
filled none ids h = absurd h
filled (some a) [] h = absurd (omega arith)
filled (some a) (x ∷ ids) h = refl

module _ {R : Type 0} where
  -- The panes of a tree, in their order.
  abbrev pub rows_of : SessionPaneNode R → List Row
  rows_of n = map (λ (l : Leaf). (l.pane_id, l.session_ids)) (collect_leaf_panes n)

  abbrev pub rows_in : Option (SessionPaneNode R) → List Row
  rows_in none = []
  rows_in (some root) = rows_of root

  rows_of-split :
      (axis : SplitAxis) (ratio : R) (first second : SessionPaneNode R)
      → rows_of (split axis ratio first second) ≡ rows_of first ++ rows_of second
  unfolding collect_leaf_panes
  rows_of-split axis ratio first second =
      map-append (λ (l : Leaf). (l.pane_id, l.session_ids)) (collect_leaf_panes first)
        (collect_leaf_panes second)

  rows_in-rejoin :
      (axis : SplitAxis) (ratio : R) (first second : Option (SessionPaneNode R))
      → rows_in (rejoin axis ratio first second) ≡ rows_in first ++ rows_in second
  unfolding rejoin
  rows_in-rejoin axis ratio none none = refl
  rows_in-rejoin axis ratio none (some second) = refl
  rows_in-rejoin axis ratio (some first) none = sym (append_nil (rows_of first))
  rows_in-rejoin axis ratio (some first) (some second) = rows_of-split axis ratio first second

rows_in-leaf :
    (R : Type 0) (l : Leaf) (ids : List String)
    → rows_in (as_node {R = R} (remove_session_from_leaf l ids))
      ≡ keep (λ (row : Row). is_nonempty row.1) ((l.pane_id, ids) ∷ [])
unfolding remove_session_from_leaf collect_leaf_panes
rows_in-leaf R l [] = refl
rows_in-leaf R l (x ∷ ids) = refl

module _ {R : Type 0} where
  rows_in-remove :
      (n : SessionPaneNode R) (x : String)
      → AllShowOwn n
      → rows_in (remove_session_from_node n x) ≡ rows_without x (rows_of n)
  unfolding remove_session_from_node collect_leaf_panes
  rows_in-remove (leaf l) x h = elim (Bool-cases (includes l.session_ids x)) [
    | inl e ↦ rw e (rows_in-leaf R l (without x l.session_ids))
    | inr e ↦ rw (e, not_there x l.session_ids e, filled l.active_session_id l.session_ids h) refl
  ]
  rows_in-remove (split axis ratio first second) x (h, k) =
      rows_in-rejoin axis ratio (remove_session_from_node first x)
        (remove_session_from_node second x)
      ∙ rw (rows_in-remove first x h, rows_in-remove second x k)
          (sym (rows_without-append x (rows_of first) (rows_of second)))
      ∙ ap (rows_without x) (sym (rows_of-split axis ratio first second))

group_without :
    (x : String) (gs : List SessionGroup)
    → grouped x gs ≡ 0
    → all is_kept gs ≡ true
    → groups_without x gs ≡ gs
unfolding grouped
group_without x [] none_there kept = refl
group_without x (g ∷ gs) none_there kept =
    rw (without_absent x g.session_ids (omega (arith, none_there))) (
      rw (head_kept (is_kept g) (all is_kept gs) kept) (
        ap (λ rest. g ∷ rest)
          (group_without x gs (omega (arith, none_there))
            (tail_kept (is_kept g) (all is_kept gs) kept))))

removed_groups :
    (gs : List SessionGroup) (x : String)
    → AreGroupsSound gs
    → remove_session_from_groups gs x ≡ groups_without x gs
unfolding remove_session_from_groups remove_session_from_all_groups cleanup_session_groups
removed_groups gs x sound =
    let own : ensure_default_session_group gs ≡ gs =
      ensure_default_self gs (omega (arith, sound.default_once)) in
    let left = map (with_sessions (without x)) gs in
    let still : ensure_default_session_group left ≡ left = ensure_default_self left (
      omega (
        arith,
        group_count-with_sessions (without x) default_session_group_id gs,
        sound.default_once,
      )) in
    rw (own, still) refl

module _ {R : Type 0} where
  detached_rows :
      (root : Option (SessionPaneNode R)) (active : Option String) (gs : List SessionGroup)
      (x : String)
      → IsWellFormed (state root active gs)
      → (rows_in (detach (state root active gs) x).root ≡ rows_without x (rows_in root))
        × ((detach (state root active gs) x).groups ≡ groups_without x gs)
  unfolding detach
  detached_rows none active gs x w =
      (refl, sym (group_without x gs (w.filed x) w.groups.none_empty))
  detached_rows (some root) none gs x w = absurd w.tree
  detached_rows (some root) (some a) gs x w =
      let (same_root, same_groups) = detach_root root (some a) gs x in
      (
        ap rows_in same_root ∙ rows_in-remove root x w.tree.0.shown,
        same_groups ∙ removed_groups gs x w.groups,
      )

  -- Detaching a session from a well-formed workspace takes it out of its pane and out of its
  -- group. Every other pane and every other session stays: the panes stand in the same order, with
  -- the same ids, and each has its other sessions in the same order, but that a pane with no other
  -- session is gone. The groups, too, keep their order, their ids, names and colours and their
  -- other sessions, but that a group with no other session is gone, unless it is the default one.
  pub detach_lem :
      (s : SessionWorkspaceState R) (x y : String)
      → IsWellFormed s
      → (rows_in (detach s x).root ≡ rows_without x (rows_in s.root))
        × ((detach s x).groups ≡ groups_without x s.groups)
        × (sessions_in y (detach s x).root ≡ (if x == y then 0 else sessions_in y s.root))
        × (grouped y (detach s x).groups ≡ (if x == y then 0 else grouped y s.groups))
  detach_lem s x y w =
      let (rows, groups) = detached_rows s.root s.active_pane_id s.groups x w in
      let (in_tree, in_groups) = detached_counts s.root s.active_pane_id s.groups x y w in
      (rows, groups, in_tree, in_groups)
