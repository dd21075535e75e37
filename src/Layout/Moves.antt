-- ===== src/Layout/Moves.antt =====
-- What a slot holds after a widget is moved, and after its widget is closed.
use mathlib.Core.Option
use fluxterm.Base.{
  zero, suc, suc, ℕ, ◌<◌, ◌≡◌, refl, String, Bool, false, ◌==◌, none, some, [], ◌∷◌, if◌then◌else◌,
  arith, eq_iff, eq_refl, Bool-cases, Option-cases, inl, inr,
}
use fluxterm.Base.Dict.{get, get-put}
use fluxterm.Layout.Slots.{
  WidgetKey, key_text, WidgetSide, left, right, WidgetGroup, Slots, create_empty_group,
  side_slot_key, parse_side_slot_key, is_active, remove_widget, move_widget_to_slot,
}

abbrev cleared : WidgetKey → WidgetGroup → WidgetGroup
cleared widget group = if is_active group widget then create_empty_group else group

get-remove_widget :
    (slots : Slots) (widget : WidgetKey) (slot : String)
    → get (remove_widget slots widget) slot ≡ Option.map (cleared widget) (get slots slot)
unfolding get remove_widget
get-remove_widget [] widget slot = refl
get-remove_widget ((other, group) ∷ slots) widget slot = elim (Bool-cases (other == slot)) [
  | inl this ↦ rw this refl
  | inr apart ↦ rw apart (get-remove_widget slots widget slot)
]

cleared_lem :
    (widget : WidgetKey) (group : WidgetGroup) → is_active (cleared widget group) widget ≡ false
cleared_lem widget group = elim (Bool-cases (is_active group widget)) [
  | inl this ↦ rw this refl
  | inr other ↦ rw other other
]

cleared_other :
    (widget other : WidgetKey) (group : WidgetGroup)
    → (key_text widget == key_text other) ≡ false
    → is_active (cleared widget group) other ≡ is_active group other
cleared_other widget other group apart = elim (Option-cases group.active) [
  | inl empty ↦ rw empty refl
  | inr (active, there) ↦ elim (Bool-cases (key_text active == key_text widget)) [
    | inl this ↦
        rw (there, this)
          (ground (
            arith,
            apart,
            this,
            eq_iff (key_text active) (key_text widget),
            eq_iff (key_text active) (key_text other),
            eq_iff (key_text widget) (key_text other),
          ))
    | inr differs ↦ rw (there, differs) refl
  ]
]

-- A slot where a widget is active.
abbrev pub holds : Slots → String → WidgetKey → Bool
holds slots slot widget = elim (get slots slot) [
  | none ↦ false
  | some group ↦ is_active group widget
]

-- A moved widget is in its new slot and in no other one, and another widget stays where it was, but
-- for the one that the new slot held.
pub move_widget_to_slot_lem :
    (slots : Slots) (widget other : WidgetKey) (target slot : String)
    → (key_text widget == key_text other) ≡ false
    → let after = move_widget_to_slot slots widget target in
      (holds after slot widget ≡ (target == slot))
      × (holds after slot other ≡ (if target == slot then false else holds slots slot other))
unfolding move_widget_to_slot
move_widget_to_slot_lem slots widget other target slot apart =
    let moved =
      get-put (remove_widget slots widget) target slot (record { active = some widget }) in
    elim (Bool-cases (target == slot)) [
      | inl here ↦ rw (moved, holds, here, eq_refl (key_text widget), apart) (refl, refl)
      | inr elsewhere ↦
          rw (moved, holds, elsewhere, get-remove_widget slots widget slot)
            (elim (Option-cases (get slots slot)) [
              | inl missing ↦ rw (missing, holds) (refl, refl)
              | inr (group, there) ↦
                  rw (there, holds)
                    (cleared_lem widget group, cleared_other widget other group apart)
            ])
    ]

pub parse-side_slot_key :
    (side : WidgetSide) (index : ℕ)
    → index < 10
    → parse_side_slot_key (side_slot_key side index) ≡ some (side, index)
unfolding parse_side_slot_key side_slot_key
parse-side_slot_key left zero h = refl
parse-side_slot_key left (suc zero) h = refl
parse-side_slot_key left (suc (suc zero)) h = refl
parse-side_slot_key left (suc (suc (suc zero))) h = refl
parse-side_slot_key left (suc (suc (suc (suc zero)))) h = refl
parse-side_slot_key left (suc (suc (suc (suc (suc zero))))) h = refl
parse-side_slot_key left (suc (suc (suc (suc (suc (suc zero)))))) h = refl
parse-side_slot_key left (suc (suc (suc (suc (suc (suc (suc zero))))))) h = refl
parse-side_slot_key left (suc (suc (suc (suc (suc (suc (suc (suc zero)))))))) h = refl
parse-side_slot_key left (suc (suc (suc (suc (suc (suc (suc (suc (suc zero))))))))) h = refl
parse-side_slot_key left (suc (suc (suc (suc (suc (suc (suc (suc (suc (suc n)))))))))) h =
    absurd (omega arith)
parse-side_slot_key right zero h = refl
parse-side_slot_key right (suc zero) h = refl
parse-side_slot_key right (suc (suc zero)) h = refl
parse-side_slot_key right (suc (suc (suc zero))) h = refl
parse-side_slot_key right (suc (suc (suc (suc zero)))) h = refl
parse-side_slot_key right (suc (suc (suc (suc (suc zero))))) h = refl
parse-side_slot_key right (suc (suc (suc (suc (suc (suc zero)))))) h = refl
parse-side_slot_key right (suc (suc (suc (suc (suc (suc (suc zero))))))) h = refl
parse-side_slot_key right (suc (suc (suc (suc (suc (suc (suc (suc zero)))))))) h = refl
parse-side_slot_key right (suc (suc (suc (suc (suc (suc (suc (suc (suc zero))))))))) h = refl
parse-side_slot_key right (suc (suc (suc (suc (suc (suc (suc (suc (suc (suc n)))))))))) h =
    absurd (omega arith)
