-- ===== src/Workspace/Counts.antt =====
-- How often a session and a pane stand in the pane tree.
pub mod Reshape
use fluxterm.Base.{
  ℕ, ◌+◌, ◌*◌, String, ◌==◌, ◌≡◌, ap, inl, inr, Option, none, some, List, [], ◌∷◌, includes, count,
  same, arith, eq_iff, same_self, count-concat, not_includes→count, Bool-cases, same_ne, same_eq,
}
use fluxterm.Workspace.Tree.{
  SessionPaneNode, leaf, split, append_session_to_pane, set_pane_active_session, replace_session_id,
  replace_in_list,
}
use fluxterm.Workspace.Reshape.{without}

module _ {R : Type 0} where
  unfoldable pub session_count : String → SessionPaneNode R → ℕ
  session_count x (leaf l) = count x l.session_ids
  session_count x (split axis ratio first second) = session_count x first + session_count x second

  unfoldable pub pane_count : String → SessionPaneNode R → ℕ
  pane_count p (leaf l) = same l.pane_id p
  pane_count p (split axis ratio first second) = pane_count p first + pane_count p second

  abbrev pub sessions_in : String → Option (SessionPaneNode R) → ℕ
  sessions_in x none = 0
  sessions_in x (some root) = session_count x root

  abbrev pub panes_in : String → Option (SessionPaneNode R) → ℕ
  panes_in p none = 0
  panes_in p (some root) = pane_count p root

  pub session_count-append_session :
      (n : SessionPaneNode R) (p s x : String)
      → session_count x (append_session_to_pane n p s)
        ≡ session_count x n + pane_count p n * same s x
  unfolding session_count append_session_to_pane pane_count count same
  session_count-append_session (leaf l) p s x = elim (Bool-cases (l.pane_id == p)) [
    | inl e ↦ rw e (omega (arith, same_eq l.pane_id p e, count-concat x l.session_ids s))
    | inr e ↦ rw e (omega (arith, same_ne l.pane_id p e))
  ]
  session_count-append_session (split axis ratio first second) p s x =
      omega
        (arith, session_count-append_session first p s x, session_count-append_session second p s x)

  pub pane_count-append_session :
      (n : SessionPaneNode R) (p s q : String)
      → pane_count q (append_session_to_pane n p s) ≡ pane_count q n
  unfolding append_session_to_pane pane_count
  pane_count-append_session (leaf l) p s q = ground arith
  pane_count-append_session (split axis ratio first second) p s q =
      omega (arith, pane_count-append_session first p s q, pane_count-append_session second p s q)

  pub session_count-set_active :
      (n : SessionPaneNode R) (p s x : String)
      → session_count x (set_pane_active_session n p s) ≡ session_count x n
  unfolding session_count set_pane_active_session
  session_count-set_active (leaf l) p s x = ground arith
  session_count-set_active (split axis ratio first second) p s x =
      omega (arith, session_count-set_active first p s x, session_count-set_active second p s x)

  pub pane_count-set_active :
      (n : SessionPaneNode R) (p s q : String)
      → pane_count q (set_pane_active_session n p s) ≡ pane_count q n
  unfolding pane_count set_pane_active_session
  pane_count-set_active (leaf l) p s q = ground arith
  pane_count-set_active (split axis ratio first second) p s q =
      omega (arith, pane_count-set_active first p s q, pane_count-set_active second p s q)

-- What replacing one text by another does to the occurrences of a third.
pub count-replace_in_list :
    (o n : String) (xs : List String) (y : String)
    → count y (replace_in_list o n xs) + same o y * count o xs ≡ count y xs + same n y * count o xs
unfolding count replace_in_list same
count-replace_in_list o n [] y = omega arith
count-replace_in_list o n (x ∷ xs) y = elim (Bool-cases (x == o)) [
  | inl e ↦
      rw e (rw ((eq_iff x o).0 e) (omega (arith, same_self o, count-replace_in_list o n xs y)))
  | inr e ↦ rw e (omega (arith, same_ne x o e, count-replace_in_list o n xs y))
]

pub count-without :
    (s : String) (xs : List String) (y : String)
    → count y (without s xs) + same s y * count s xs ≡ count y xs
unfolding count same
count-without s [] y = omega arith
count-without s (x ∷ xs) y = elim (Bool-cases (x == s)) [
  | inl e ↦ rw e (rw ((eq_iff x s).0 e) (omega (arith, same_self s, count-without s xs y)))
  | inr e ↦ rw e (omega (arith, same_ne x s e, count-without s xs y))
]

module _ {R : Type 0} where
  pub session_count-replace :
      (node : SessionPaneNode R) (o n y : String)
      → session_count y (replace_session_id node o n) + same o y * session_count o node
        ≡ session_count y node + same n y * session_count o node
  unfolding session_count replace_session_id
  session_count-replace (leaf l) o n y = elim (Bool-cases (includes l.session_ids o)) [
    | inl e ↦ rw e (count-replace_in_list o n l.session_ids y)
    | inr e ↦
        let gone = not_includes→count l.session_ids o e in
        rw e (omega (arith, ap (λ (t : ℕ). same o y * t) gone, ap (λ (t : ℕ). same n y * t) gone))
  ]
  session_count-replace (split axis ratio first second) o n y =
      omega (arith, session_count-replace first o n y, session_count-replace second o n y)

  pub pane_count-replace :
      (node : SessionPaneNode R) (o n q : String)
      → pane_count q (replace_session_id node o n) ≡ pane_count q node
  unfolding pane_count replace_session_id
  pane_count-replace (leaf l) o n q = ground arith
  pane_count-replace (split axis ratio first second) o n q =
      omega (arith, pane_count-replace first o n q, pane_count-replace second o n q)
