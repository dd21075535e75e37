-- ===== src/Workspace/Counts/Reshape.antt =====
-- The occurrences under removal, splitting, reordering and resizing.
use fluxterm.Base.{
  ℕ, zero, suc, ◌+◌, ◌*◌, ◌≤◌, String, ◌≡◌, refl, ap, inl, inr, Option, none, some, List, [], ◌∷◌,
  includes, count, same, arith, Bool-cases, Option-cases, not_includes→count, get_elem?, remove_at,
  insert_at, index_of,
}
use fluxterm.Workspace.Tree.{SessionPaneNode, leaf, split, SplitAxis, Leaf, Ratios}
use fluxterm.Workspace.Reshape.{
  as_node, remove_session_from_node, remove_session_from_leaf, rejoin, without,
  replace_pane_with_split, move_item, reorder_sessions, reorder_pane_sessions,
  update_split_ratio_internal,
}
use fluxterm.Workspace.Counts.{session_count, pane_count, sessions_in, panes_in, count-without}

sessions_in-leaf :
    (R : Type 0) (l : Leaf) (kept : List String) (y : String)
    → sessions_in y (as_node {R = R} (remove_session_from_leaf l kept)) ≡ count y kept
unfolding remove_session_from_leaf session_count count
sessions_in-leaf R l [] y = refl
sessions_in-leaf R l (x ∷ xs) y = refl

panes_in-leaf :
    (R : Type 0) (l : Leaf) (kept : List String) (q : String)
    → panes_in q (as_node {R = R} (remove_session_from_leaf l kept)) ≤ same l.pane_id q
unfolding remove_session_from_leaf pane_count
panes_in-leaf R l [] q = omega arith
panes_in-leaf R l (x ∷ xs) q = omega arith

module _ {R : Type 0} where
  sessions_in-rejoin :
      (axis : SplitAxis) (ratio : R) (a b : Option (SessionPaneNode R)) (y : String)
      → sessions_in y (rejoin axis ratio a b) ≡ sessions_in y a + sessions_in y b
  unfolding rejoin session_count
  sessions_in-rejoin axis ratio none none y = omega arith
  sessions_in-rejoin axis ratio none (some b) y = omega arith
  sessions_in-rejoin axis ratio (some a) none y = omega arith
  sessions_in-rejoin axis ratio (some a) (some b) y = omega arith

  panes_in-rejoin :
      (axis : SplitAxis) (ratio : R) (a b : Option (SessionPaneNode R)) (q : String)
      → panes_in q (rejoin axis ratio a b) ≡ panes_in q a + panes_in q b
  unfolding rejoin pane_count
  panes_in-rejoin axis ratio none none q = omega arith
  panes_in-rejoin axis ratio none (some b) q = omega arith
  panes_in-rejoin axis ratio (some a) none q = omega arith
  panes_in-rejoin axis ratio (some a) (some b) q = omega arith

  pub sessions_in-remove :
      (node : SessionPaneNode R) (s y : String)
      → sessions_in y (remove_session_from_node node s) + same s y * session_count s node
        ≡ session_count y node
  unfolding remove_session_from_node session_count
  sessions_in-remove (leaf l) s y = elim (Bool-cases (includes l.session_ids s)) [
    | inl e ↦
        rw (e, reorder_sessions)
          (omega (
            arith,
            sessions_in-leaf R l (without s l.session_ids) y,
            count-without s l.session_ids y,
          ))
    | inr e ↦
        let gone = not_includes→count l.session_ids s e in
        rw e (omega (arith, ap (λ (t : ℕ). same s y * t) gone))
  ]
  sessions_in-remove (split axis ratio first second) s y = omega (
    arith,
    sessions_in-rejoin axis ratio (remove_session_from_node first s)
        (remove_session_from_node second s) y,
    sessions_in-remove first s y,
    sessions_in-remove second s y,
  )

  pub panes_in-remove :
      (node : SessionPaneNode R) (s q : String)
      → panes_in q (remove_session_from_node node s) ≤ pane_count q node
  unfolding remove_session_from_node pane_count
  panes_in-remove (leaf l) s q = elim (Bool-cases (includes l.session_ids s)) [
    | inl e ↦ rw e (panes_in-leaf R l (without s l.session_ids) q)
    | inr e ↦ rw e (omega arith)
  ]
  panes_in-remove (split axis ratio first second) s q = omega (
    arith,
    panes_in-rejoin axis ratio (remove_session_from_node first s)
        (remove_session_from_node second s) q,
    panes_in-remove first s q,
    panes_in-remove second s q,
  )

pub count-remove_at :
    (xs : List String) (i : ℕ) (m y : String)
    → get_elem? xs i ≡ some m
    → count y (remove_at xs i) + same m y ≡ count y xs
unfolding count
count-remove_at [] i m y h = cc
count-remove_at (x ∷ xs) zero m y h = ground arith
count-remove_at (x ∷ xs) (suc i) m y h = omega (arith, count-remove_at xs i m y h)

pub count-insert_at :
    (xs : List String) (j : ℕ) (a y : String) → count y (insert_at xs j a) ≡ count y xs + same a y
unfolding count
count-insert_at [] zero a y = omega arith
count-insert_at (x ∷ xs) zero a y = omega arith
count-insert_at [] (suc j) a y = omega arith
count-insert_at (x ∷ xs) (suc j) a y = omega (arith, count-insert_at xs j a y)

pub count-move_item :
    (xs : List String) (i j : ℕ) (y : String) → count y (move_item xs i j) ≡ count y xs
unfolding move_item
count-move_item xs i j y = elim (Option-cases (get_elem? xs i)) [
  | inl e ↦ rw (e, move_item)
  | inr (m, e) ↦
      rw (e, move_item)
        (omega (arith, count-insert_at (remove_at xs i) j m y, count-remove_at xs i m y e))
]

-- Reordering keeps every session as often as it was.
pub count-reorder_sessions :
    (xs : List String) (s t y : String) → count y (reorder_sessions xs s t) ≡ count y xs
unfolding reorder_sessions
count-reorder_sessions xs s t y = elim (Option-cases (index_of xs s)) [
  | inl e ↦ rw (e, reorder_sessions)
  | inr (i, e) ↦ elim (Option-cases (index_of xs t)) [
    | inl d ↦ rw (e, d, reorder_sessions)
    | inr (j, d) ↦ rw (e, d, reorder_sessions) (ground (arith, count-move_item xs i j y))
  ]
]

module _ {R : Type 0} where
  pub session_count-reorder :
      (node : SessionPaneNode R) (p s t y : String)
      → session_count y (reorder_pane_sessions node p s t) ≡ session_count y node
  unfolding session_count reorder_pane_sessions
  session_count-reorder (leaf l) p s t y =
      ground (arith, count-reorder_sessions l.session_ids s t y)
  session_count-reorder (split axis ratio first second) p s t y =
      omega (arith, session_count-reorder first p s t y, session_count-reorder second p s t y)

  pub pane_count-reorder :
      (node : SessionPaneNode R) (p s t q : String)
      → pane_count q (reorder_pane_sessions node p s t) ≡ pane_count q node
  unfolding pane_count reorder_pane_sessions
  pane_count-reorder (leaf l) p s t q = ground arith
  pane_count-reorder (split axis ratio first second) p s t q =
      omega (arith, pane_count-reorder first p s t q, pane_count-reorder second p s t q)

module _ {R : Type 0} (ratios : Ratios R) where
  pub session_count-split :
      (node : SessionPaneNode R) (p q s : String) (axis : SplitAxis) (y : String)
      → session_count y (replace_pane_with_split ratios node p q s axis)
        ≡ session_count y node + pane_count p node * same s y
  unfolding session_count pane_count replace_pane_with_split count same
  session_count-split (leaf l) p q s axis y = ground arith
  session_count-split (split a ratio first second) p q s axis y =
      omega (arith, session_count-split first p q s axis y, session_count-split second p q s axis y)

  pub pane_count-split :
      (node : SessionPaneNode R) (p q s : String) (axis : SplitAxis) (y : String)
      → pane_count y (replace_pane_with_split ratios node p q s axis)
        ≡ pane_count y node + pane_count p node * same q y
  unfolding pane_count replace_pane_with_split same
  pane_count-split (leaf l) p q s axis y = ground arith
  pane_count-split (split a ratio first second) p q s axis y =
      omega (arith, pane_count-split first p q s axis y, pane_count-split second p q s axis y)

  pub session_count-resize :
      (node : SessionPaneNode R) (p : String) (r : R) (y : String)
      → session_count y (update_split_ratio_internal ratios node p r).0 ≡ session_count y node
  unfolding session_count update_split_ratio_internal
  session_count-resize (leaf l) p r y = refl
  session_count-resize (split axis old first second) p r y =
      ground (arith, session_count-resize first p r y, session_count-resize second p r y)

  pub pane_count-resize :
      (node : SessionPaneNode R) (p : String) (r : R) (q : String)
      → pane_count q (update_split_ratio_internal ratios node p r).0 ≡ pane_count q node
  unfolding pane_count update_split_ratio_internal
  pane_count-resize (leaf l) p r q = refl
  pane_count-resize (split axis old first second) p r q =
      ground (arith, pane_count-resize first p r q, pane_count-resize second p r q)
