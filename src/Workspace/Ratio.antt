-- ===== src/Workspace/Ratio.antt =====
-- What a resize changes, against a description of it.
use fluxterm.Base.{
  ◌+◌, ◌≤◌, String, true, false, ◌||◌, ◌≡◌, refl, arith, Bool-cases, inl, inr, if◌then◌else◌,
}
use fluxterm.Workspace.Tree.{SessionPaneNode, leaf, split, Ratios, contains_pane_id}
use fluxterm.Workspace.Reshape.{clamp_ratio, update_split_ratio_internal, update_split_ratio}
use fluxterm.Workspace.Counts.{pane_count}
use fluxterm.Workspace.Finding.{contains_pane→count}

module _ {R : Type 0} where
  -- Gives every split that encloses the pane the ratio, and changes nothing else.
  abbrev pub set_enclosing : SessionPaneNode R → String → R → SessionPaneNode R
  set_enclosing (leaf l) p r = leaf l
  set_enclosing (split axis old first second) p r =
      split axis (if contains_pane_id first p || contains_pane_id second p then r else old)
        (set_enclosing first p r) (set_enclosing second p r)

  set_enclosing_elsewhere :
      (n : SessionPaneNode R) (p : String) (r : R)
      → contains_pane_id n p ≡ false
      → set_enclosing n p r ≡ n
  unfolding contains_pane_id
  set_enclosing_elsewhere (leaf l) p r h = refl
  set_enclosing_elsewhere (split axis old first second) p r h =
      ground (arith, set_enclosing_elsewhere first p r, set_enclosing_elsewhere second p r)

module _ {R : Type 0} (ratios : Ratios R) where
  matched_iff :
      (n : SessionPaneNode R) (p : String) (r : R)
      → (update_split_ratio_internal ratios n p r).1 ≡ contains_pane_id n p
  unfolding update_split_ratio_internal contains_pane_id
  matched_iff (leaf l) p r = refl
  matched_iff (split axis old first second) p r =
      ground (arith, matched_iff first p r, matched_iff second p r)

  not_in_both :
      (first second : SessionPaneNode R) (p : String)
      → pane_count p first + pane_count p second ≤ 1
      → contains_pane_id first p ≡ true
      → contains_pane_id second p ≡ false
  not_in_both first second p le h = elim (Bool-cases (contains_pane_id second p)) [
    | inl e ↦ absurd (omega (arith, contains_pane→count first p h, contains_pane→count second p e))
    | inr e ↦ e
  ]

  resized :
      (n : SessionPaneNode R) (p : String) (r : R)
      → pane_count p n ≤ 1
      → (update_split_ratio_internal ratios n p r).0 ≡ set_enclosing n p (clamp_ratio ratios r)
  unfolding update_split_ratio_internal pane_count
  resized (leaf l) p r h = refl
  resized (split axis old first second) p r h = elim (Bool-cases (contains_pane_id first p)) [
    | inl e ↦
        let other = not_in_both first second p h e in
        rw (
          matched_iff first p r,
          e,
          resized first p r (omega arith),
          set_enclosing_elsewhere second p (clamp_ratio ratios r) other,
        )
    | inr e ↦ elim (Bool-cases (contains_pane_id second p)) [
      | inl d ↦ rw (
        matched_iff first p r,
        matched_iff second p r,
        e,
        d,
        resized second p r (omega arith),
        set_enclosing_elsewhere first p (clamp_ratio ratios r) e,
      )
      | inr d ↦ rw (
        matched_iff first p r,
        matched_iff second p r,
        e,
        d,
        set_enclosing_elsewhere first p (clamp_ratio ratios r) e,
        set_enclosing_elsewhere second p (clamp_ratio ratios r) d,
      )
    ]
  ]

  -- In a tree where the pane id stands at most once, a resize gives the clamped ratio to every
  -- split that encloses the pane, not only to the innermost one, and changes nothing else.
  pub update_split_ratio_lem :
      (n : SessionPaneNode R) (p : String) (r : R)
      → pane_count p n ≤ 1
      → update_split_ratio ratios n p r ≡ set_enclosing n p (clamp_ratio ratios r)
  unfolding update_split_ratio
  update_split_ratio_lem n p r h = resized n p r h
