-- ===== src/Workspace/Actives.antt =====
-- Every pane shows one of its own sessions.
use fluxterm.Base.{
  ◌<◌, String, ◌==◌, ◌≡◌, refl, Option, none, some, List, [], ◌∷◌, same, arith, count, includes,
  Bool-cases, inl, inr, eq_iff, includes→count, count-concat, same_self, get_last?, if◌then◌else◌,
}
use fluxterm.Workspace.Tree.{
  SessionPaneNode, leaf, split, SplitAxis, Leaf, Ratios, append_session_to_pane,
  set_pane_active_session, replace_session_id, replace_in_list, replace_active,
}
use fluxterm.Workspace.Reshape.{
  as_node, active_after_removal, remove_session_from_node, remove_session_from_leaf, rejoin,
  without, replace_pane_with_split, reorder_sessions, reorder_pane_sessions,
  update_split_ratio_internal,
}
use fluxterm.Workspace.Counts.Reshape.{count-reorder_sessions}

abbrev pub ActiveIn : Option String → List String → Type 0
ActiveIn none ids = ⊥
ActiveIn (some a) ids = 0 < count a ids

abbrev pub ShowsOwn : Leaf → Type 0
ShowsOwn l = ActiveIn l.active_session_id l.session_ids

module _ {R : Type 0} where
  abbrev pub AllShowOwn : SessionPaneNode R → Type 0
  AllShowOwn (leaf l) = ShowsOwn l
  AllShowOwn (split axis ratio first second) = AllShowOwn first × AllShowOwn second

  abbrev pub AllShowOwn? : Option (SessionPaneNode R) → Type 0
  AllShowOwn? none = Unit
  AllShowOwn? (some root) = AllShowOwn root

  pub append-AllShowOwn :
      (n : SessionPaneNode R) (p s : String)
      → AllShowOwn n
      → AllShowOwn (append_session_to_pane n p s)
  unfolding append_session_to_pane
  append-AllShowOwn (leaf l) p s h = elim (Bool-cases (l.pane_id == p)) [
    | inl e ↦ rw e (omega (arith, count-concat s l.session_ids s, same_self s))
    | inr e ↦ rw e h
  ]
  append-AllShowOwn (split axis ratio first second) p s (h, k) =
      (append-AllShowOwn first p s h, append-AllShowOwn second p s k)

  pub set_active-AllShowOwn :
      (n : SessionPaneNode R) (p s : String)
      → AllShowOwn n
      → AllShowOwn (set_pane_active_session n p s)
  unfolding set_pane_active_session
  set_active-AllShowOwn (leaf l) p s h = ground (arith, includes→count l.session_ids s)
  set_active-AllShowOwn (split axis ratio first second) p s (h, k) =
      (set_active-AllShowOwn first p s h, set_active-AllShowOwn second p s k)

count-replaced_pos :
    (o n a : String) (xs : List String)
    → 0 < count a xs
    → 0 < count (if a == o then n else a) (replace_in_list o n xs)
unfolding replace_in_list count same
count-replaced_pos o n a [] h = absurd (omega arith)
count-replaced_pos o n a (x ∷ xs) h =
    ground (
      arith,
      count-replaced_pos o n a xs,
      eq_iff x a,
      eq_iff n n,
      eq_iff a a,
      eq_iff a o,
      eq_iff x o,
    )

ActiveIn-replace :
    (o n : String) (active : Option String) (ids : List String)
    → ActiveIn active ids
    → ActiveIn (replace_active o n active) (replace_in_list o n ids)
unfolding replace_active
ActiveIn-replace o n none ids h = h
ActiveIn-replace o n (some a) ids h = ground (arith, count-replaced_pos o n a ids)

ActiveIn-cons :
    (o : Option String) (x : String) (xs : List String) → ActiveIn o xs → ActiveIn o (x ∷ xs)
unfolding count
ActiveIn-cons none x xs h = h
ActiveIn-cons (some a) x xs h = omega arith

-- A list that is not empty has a last element, which stands in it.
ActiveIn-get_last : (x : String) (xs : List String) → ActiveIn (get_last? (x ∷ xs)) (x ∷ xs)
unfolding count
ActiveIn-get_last x [] = omega (arith, same_self x)
ActiveIn-get_last x (y ∷ ys) =
    ActiveIn-cons (get_last? (y ∷ ys)) x (y ∷ ys) (ActiveIn-get_last y ys)

ActiveIn-removal :
    (a x : String) (xs : List String) → ActiveIn (active_after_removal (some a) (x ∷ xs)) (x ∷ xs)
unfolding active_after_removal
ActiveIn-removal a x xs = elim (Bool-cases (includes (x ∷ xs) a)) [
  | inl e ↦ rw e (includes→count (x ∷ xs) a e)
  | inr e ↦ rw e (ActiveIn-get_last x xs)
]

shown_after_removal :
    (R : Type 0) (l : Leaf) (kept : List String) (a : String)
    → l.active_session_id ≡ some a
    → AllShowOwn? (as_node {R = R} (remove_session_from_leaf l kept))
unfolding remove_session_from_leaf
shown_after_removal R l [] a e = tt
shown_after_removal R l (x ∷ xs) a e = rw e (ActiveIn-removal a x xs)

reorder_leaf :
    (active : Option String) (ids : List String) (s t : String)
    → ActiveIn active ids
    → ActiveIn active (reorder_sessions ids s t)
reorder_leaf none ids s t h = h
reorder_leaf (some a) ids s t h = omega (arith, count-reorder_sessions ids s t a)

leaf-AllShowOwn :
    (R : Type 0) (l : Leaf) (old kept : List String)
    → ActiveIn l.active_session_id old
    → AllShowOwn? (as_node {R = R} (remove_session_from_leaf l kept))
leaf-AllShowOwn R l old kept h = go l.active_session_id refl h
  where
    go :
        (active : Option String)
        → l.active_session_id ≡ active
        → ActiveIn active old
        → AllShowOwn? (as_node {R = R} (remove_session_from_leaf l kept))
    go none e h = absurd h
    go (some a) e h = shown_after_removal R l kept a e

module _ {R : Type 0} where
  pub replace-AllShowOwn :
      (node : SessionPaneNode R) (o n : String)
      → AllShowOwn node
      → AllShowOwn (replace_session_id node o n)
  unfolding replace_session_id
  replace-AllShowOwn (leaf l) o n h =
      ground (arith, ActiveIn-replace o n l.active_session_id l.session_ids)
  replace-AllShowOwn (split axis ratio first second) o n (h, k) =
      (replace-AllShowOwn first o n h, replace-AllShowOwn second o n k)

  rejoin-AllShowOwn :
      (axis : SplitAxis) (ratio : R) (a b : Option (SessionPaneNode R))
      → AllShowOwn? a
      → AllShowOwn? b
      → AllShowOwn? (rejoin axis ratio a b)
  unfolding rejoin
  rejoin-AllShowOwn axis ratio none none h k = tt
  rejoin-AllShowOwn axis ratio none (some b) h k = k
  rejoin-AllShowOwn axis ratio (some a) none h k = h
  rejoin-AllShowOwn axis ratio (some a) (some b) h k = (h, k)

  pub remove-AllShowOwn :
      (node : SessionPaneNode R) (s : String)
      → AllShowOwn node
      → AllShowOwn? (remove_session_from_node node s)
  unfolding remove_session_from_node
  remove-AllShowOwn (leaf l) s h = elim (Bool-cases (includes l.session_ids s)) [
    | inl e ↦ rw e (leaf-AllShowOwn R l l.session_ids (without s l.session_ids) h)
    | inr e ↦ rw e h
  ]
  remove-AllShowOwn (split axis ratio first second) s (h, k) =
      rejoin-AllShowOwn axis ratio (remove_session_from_node first s)
        (remove_session_from_node second s) (remove-AllShowOwn first s h)
        (remove-AllShowOwn second s k)

  pub reorder-AllShowOwn :
      (node : SessionPaneNode R) (p s t : String)
      → AllShowOwn node
      → AllShowOwn (reorder_pane_sessions node p s t)
  unfolding reorder_pane_sessions
  reorder-AllShowOwn (leaf l) p s t h = elim (Bool-cases (l.pane_id == p)) [
    | inl e ↦ rw e (reorder_leaf l.active_session_id l.session_ids s t h)
    | inr e ↦ rw e h
  ]
  reorder-AllShowOwn (split axis ratio first second) p s t (h, k) =
      (reorder-AllShowOwn first p s t h, reorder-AllShowOwn second p s t k)

module _ {R : Type 0} (ratios : Ratios R) where
  pub split-AllShowOwn :
      (node : SessionPaneNode R) (p q s : String) (axis : SplitAxis)
      → AllShowOwn node
      → AllShowOwn (replace_pane_with_split ratios node p q s axis)
  unfolding replace_pane_with_split count
  split-AllShowOwn (leaf l) p q s axis h = elim (Bool-cases (l.pane_id == p)) [
    | inl e ↦ rw e (h, omega (arith, same_self s))
    | inr e ↦ rw e h
  ]
  split-AllShowOwn (split a ratio first second) p q s axis (h, k) =
      (split-AllShowOwn first p q s axis h, split-AllShowOwn second p q s axis k)

  pub resize-AllShowOwn :
      (node : SessionPaneNode R) (p : String) (r : R)
      → AllShowOwn node
      → AllShowOwn (update_split_ratio_internal ratios node p r).0
  unfolding update_split_ratio_internal
  resize-AllShowOwn (leaf l) p r h = h
  resize-AllShowOwn (split axis old first second) p r (h, k) =
      ground (arith, resize-AllShowOwn first p r h, resize-AllShowOwn second p r k)
