-- ===== src/Layout/SlotKeys.antt =====
-- The keys of slots as the layout hook (src/main/hooks/useLayoutState.ts) reads them.
use fluxterm.Base.{
  ℕ, zero, suc, ◌<◌, true, false, ◌==◌, ◌≡◌, refl, ap, ◌∙◌, sym, Option, none, some, eqb, ◌&&◌,
  arith, eq_iff, eq_refl, Bool-cases, inl, inr,
}
use fluxterm.Layout.Slots.{WidgetSide, left, right, side_slot_key}
use fluxterm.Layout.Hook.{is_side, match_side_slot}

pub match-side_slot_key :
    (side : WidgetSide) (index : ℕ)
    → index < 10
    → match_side_slot (side_slot_key side index) ≡ some (side, index)
unfolding match_side_slot side_slot_key
match-side_slot_key left zero h = refl
match-side_slot_key left (suc zero) h = refl
match-side_slot_key left (suc (suc zero)) h = refl
match-side_slot_key left (suc (suc (suc zero))) h = refl
match-side_slot_key left (suc (suc (suc (suc zero)))) h = refl
match-side_slot_key left (suc (suc (suc (suc (suc zero))))) h = refl
match-side_slot_key left (suc (suc (suc (suc (suc (suc zero)))))) h = refl
match-side_slot_key left (suc (suc (suc (suc (suc (suc (suc zero))))))) h = refl
match-side_slot_key left (suc (suc (suc (suc (suc (suc (suc (suc zero)))))))) h = refl
match-side_slot_key left (suc (suc (suc (suc (suc (suc (suc (suc (suc zero))))))))) h = refl
match-side_slot_key left (suc (suc (suc (suc (suc (suc (suc (suc (suc (suc n)))))))))) h =
    absurd (omega arith)
match-side_slot_key right zero h = refl
match-side_slot_key right (suc zero) h = refl
match-side_slot_key right (suc (suc zero)) h = refl
match-side_slot_key right (suc (suc (suc zero))) h = refl
match-side_slot_key right (suc (suc (suc (suc zero)))) h = refl
match-side_slot_key right (suc (suc (suc (suc (suc zero))))) h = refl
match-side_slot_key right (suc (suc (suc (suc (suc (suc zero)))))) h = refl
match-side_slot_key right (suc (suc (suc (suc (suc (suc (suc zero))))))) h = refl
match-side_slot_key right (suc (suc (suc (suc (suc (suc (suc (suc zero)))))))) h = refl
match-side_slot_key right (suc (suc (suc (suc (suc (suc (suc (suc (suc zero))))))))) h = refl
match-side_slot_key right (suc (suc (suc (suc (suc (suc (suc (suc (suc (suc n)))))))))) h =
    absurd (omega arith)

match-bottom : match_side_slot "bottom" ≡ none
unfolding match_side_slot
match-bottom = refl

-- The key of a side and an index is not that of the bottom.
pub side_not_bottom :
    (side : WidgetSide) (index : ℕ) → index < 10 → (side_slot_key side index == "bottom") ≡ false
side_not_bottom side index small = elim (Bool-cases (side_slot_key side index == "bottom")) [
  | inr e ↦ e
  | inl e ↦
      let same_key = (eq_iff (side_slot_key side index) "bottom").0 e in
      absurd (
        ground
          (arith, match-side_slot_key side index small, ap match_side_slot same_key, match-bottom))
]

pub is_side-eq : (s t : WidgetSide) → is_side s t ≡ true → s ≡ t
is_side-eq left left h = refl
is_side-eq left right h = absurd (ground arith)
is_side-eq right left h = absurd (ground arith)
is_side-eq right right h = refl

pub is_side_refl : (s : WidgetSide) → is_side s s ≡ true
is_side_refl left = refl
is_side_refl right = refl

abbrev pair_of : Option (WidgetSide × ℕ) → WidgetSide × ℕ
pair_of none = (left, 0)
pair_of (some p) = p

-- Keys are the same exactly where the sides and the indices are.
pub key_eq :
    (s t : WidgetSide) (i j : ℕ)
    → i < 10
    → j < 10
    → (side_slot_key s i == side_slot_key t j) ≡ (is_side s t && eqb i j)
key_eq s t i j small_i small_j = elim (Bool-cases (side_slot_key s i == side_slot_key t j)) [
  | inl e ↦
      let same_key = (eq_iff (side_slot_key s i) (side_slot_key t j)).0 e in
      let both =
        sym (match-side_slot_key s i small_i)
        ∙ ap match_side_slot same_key
        ∙ match-side_slot_key t j small_j in
      let same_pair = ap pair_of both in
      let same_index : i ≡ j = ap (λ (p : WidgetSide × ℕ). p.1) same_pair in
      let same_side : s ≡ t = ap (λ (p : WidgetSide × ℕ). p.0) same_pair in
      rw e (rw (same_side, is_side_refl) (ground (arith, same_index)))
  | inr e ↦ elim (Bool-cases (is_side s t)) [
    | inr f ↦ rw (e, f) refl
    | inl f ↦ elim (Bool-cases (eqb i j)) [
      | inr g ↦ rw (e, f, g) refl
      | inl g ↦
          let same_index : i ≡ j = ground (arith, g) in
          let same_side : s ≡ t = is_side-eq s t f in
          absurd (ground (arith, rw (same_side, same_index) at e, eq_refl (side_slot_key t j)))
    ]
  ]
]
