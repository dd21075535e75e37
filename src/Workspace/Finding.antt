-- ===== src/Workspace/Finding.antt =====
-- Finding a pane by its id or by a session.
use fluxterm.Base.{
  ◌<◌, String, true, ◌≡◌, refl, none, some, List, [], ◌∷◌, ◌++◌, same, arith, count, includes,
  Bool-cases, Option-cases, inl, inr, eq_iff, includes→count, not_includes→count, head?, same_self,
}
use fluxterm.Workspace.Tree.{
  SessionPaneNode, leaf, split, Leaf, contains_pane_id, find_leaf_by_pane_id,
  find_leaf_by_session_id, collect_leaf_panes,
}
use fluxterm.Workspace.Counts.{session_count, pane_count}

head_append {ℓ} :
    {A : Type ℓ} (xs ys : List A) (a : A) → head? xs ≡ some a → head? (xs ++ ys) ≡ some a
head_append [] ys a h = cc
head_append (x ∷ xs) ys a h = h

module _ {R : Type 0} where
  pub contains_pane→count :
      (n : SessionPaneNode R) (p : String) → contains_pane_id n p ≡ true → 0 < pane_count p n
  unfolding contains_pane_id pane_count same
  contains_pane→count (leaf l) p h = ground arith
  contains_pane→count (split axis ratio first second) p h =
      ground (arith, contains_pane→count first p, contains_pane→count second p)

  pub count→contains_pane :
      (n : SessionPaneNode R) (p : String) → 0 < pane_count p n → contains_pane_id n p ≡ true
  unfolding contains_pane_id pane_count same
  count→contains_pane (leaf l) p h = ground arith
  count→contains_pane (split axis ratio first second) p h =
      ground (arith, count→contains_pane first p, count→contains_pane second p)

  -- What a search by pane id returns has that id, and is a pane of the tree.
  pub find_by_pane_id :
      (n : SessionPaneNode R) (p : String) (l : Leaf)
      → find_leaf_by_pane_id n p ≡ some l
      → (l.pane_id ≡ p) × (0 < pane_count p n)
  unfolding find_leaf_by_pane_id pane_count same
  find_by_pane_id (leaf l') p l h = ground (arith, eq_iff l'.pane_id p)
  find_by_pane_id (split axis ratio first second) p l h =
      ground (arith, find_by_pane_id first p l, find_by_pane_id second p l)

  find_none :
      (n : SessionPaneNode R) (p : String) → find_leaf_by_pane_id n p ≡ none → pane_count p n ≡ 0
  unfolding find_leaf_by_pane_id pane_count same
  find_none (leaf l') p h = ground arith
  find_none (split axis ratio first second) p h =
      ground (arith, find_none first p, find_none second p)

  pub find_by_pane_id_total :
      (n : SessionPaneNode R) (p : String)
      → 0 < pane_count p n
      → (l : Leaf) × (find_leaf_by_pane_id n p ≡ some l)
  find_by_pane_id_total n p h = elim (Option-cases (find_leaf_by_pane_id n p)) [
    | inl e ↦ absurd (omega (arith, find_none n p e))
    | inr found ↦ found
  ]

  -- What a search by session returns is a pane of the tree that holds the session.
  pub find_by_session_id :
      (n : SessionPaneNode R) (s : String) (l : Leaf)
      → find_leaf_by_session_id n s ≡ some l
      → (0 < pane_count l.pane_id n) × (0 < count s l.session_ids) × (0 < session_count s n)
  unfolding find_leaf_by_session_id pane_count session_count
  find_by_session_id (leaf l') s l h = elim (Bool-cases (includes l'.session_ids s)) [
    | inl e ↦
        let same_leaf : l' ≡ l = ground arith in
        rw (← same_leaf) (
          omega (arith, same_self l'.pane_id),
          includes→count l'.session_ids s e,
          includes→count l'.session_ids s e,
        )
    | inr e ↦ absurd (ground arith)
  ]
  find_by_session_id (split axis ratio first second) s l h =
      ground (arith, find_by_session_id first s l, find_by_session_id second s l)

  session_not_found :
      (n : SessionPaneNode R) (s : String)
      → find_leaf_by_session_id n s ≡ none
      → session_count s n ≡ 0
  unfolding find_leaf_by_session_id session_count
  session_not_found (leaf l') s h = ground (arith, not_includes→count l'.session_ids s)
  session_not_found (split axis ratio first second) s h =
      ground (arith, session_not_found first s, session_not_found second s)

  pub find_by_session_id_total :
      (n : SessionPaneNode R) (s : String)
      → 0 < session_count s n
      → (l : Leaf) × (find_leaf_by_session_id n s ≡ some l)
  find_by_session_id_total n s h = elim (Option-cases (find_leaf_by_session_id n s)) [
    | inl e ↦ absurd (omega (arith, session_not_found n s e))
    | inr found ↦ found
  ]

  pub head_leaf_panes :
      (n : SessionPaneNode R)
      → (l : Leaf) × (head? (collect_leaf_panes n) ≡ some l) × (0 < pane_count l.pane_id n)
  unfolding collect_leaf_panes pane_count
  head_leaf_panes (leaf l) = (l, refl, omega (arith, same_self l.pane_id))
  head_leaf_panes (split axis ratio first second) =
      let (l, e, h) = head_leaf_panes first in
      (l, head_append (collect_leaf_panes first) (collect_leaf_panes second) l e, omega arith)
