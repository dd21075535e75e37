-- ===== src/Layout/Loops.antt =====
-- The loop over the slots of a side ends within its fuel, since a count is at most the maximum.
use fluxterm.Base.{
  ◌≤◌, ℕ, zero, suc, ◌+◌, ◌≡◌, refl, String, false, List, [], ◌∷◌, Option, some, none, arith,
  Bool-cases, inl, inr, or_default,
}
use fluxterm.Base.Json.{Json, null, boolean, number, string, array, object}
use fluxterm.Base.Dict.{get, put}
use fluxterm.Layout.Slots.{WidgetSide, Slots, max_side_slots, create_empty_group, side_slot_key}
use fluxterm.Layout.Structure.{LayoutNumbers}
use fluxterm.Layout.Stored.{clamp_number, clamp_count, fill_side}

module _ {N : Type 0} (numbers : LayoutNumbers N) where
  stops :
      (fuel : ℕ) (slots : Slots) (side : WidgetSide) (count : N) (index : ℕ) (sources : List String)
      (next : Slots)
      → numbers.lt (numbers.from index) count ≡ false
      → fill_side numbers fuel slots side count index sources next ≡ next
  unfolding fill_side
  stops zero slots side count index sources next h = refl
  stops (suc fuel) slots side count index sources next h = rw (h, fill_side) refl

  more_fuel :
      (fuel total : ℕ) (slots : Slots) (side : WidgetSide) (count : N) (index : ℕ)
      (sources : List String) (next : Slots)
      → index + fuel ≡ max_side_slots
      → fuel ≤ total
      → numbers.lt (numbers.from max_side_slots) count ≡ false
      → fill_side numbers total slots side count index sources next
        ≡ fill_side numbers fuel slots side count index sources next
  unfolding fill_side
  more_fuel zero total slots side count index sources next e le h =
      let last : index ≡ max_side_slots = omega (arith, e) in
      stops total slots side count index sources next (rw last h)
  more_fuel (suc fuel) zero slots side count index sources next e le h = absurd (omega arith)
  more_fuel (suc fuel) (suc total) slots side count index [] next e le h =
      elim (Bool-cases (numbers.lt (numbers.from index) count)) [
        | inr done ↦ rw (done, fill_side) refl
        | inl more ↦
            rw (more, fill_side)
              (more_fuel fuel total slots side count (index + 1) []
                (put next (side_slot_key side index) create_empty_group) (omega (arith, e))
                (omega (arith, le)) h)
      ]
  more_fuel (suc fuel) (suc total) slots side count index (source ∷ others) next e le h =
      elim (Bool-cases (numbers.lt (numbers.from index) count)) [
        | inr done ↦ rw (done, fill_side) refl
        | inl more ↦
            rw (more, fill_side)
              (more_fuel fuel total slots side count (index + 1) others
                (put next (side_slot_key side index)
                  (or_default (get slots source) create_empty_group))
                (omega (arith, e)) (omega (arith, le)) h)
      ]

  clamped_count :
      (value : Option (Json N))
      → ((x : N) → numbers.lt (numbers.from 10) (numbers.math_min (numbers.from 10) x) ≡ false)
      → numbers.lt (numbers.from 10) (numbers.from 1) ≡ false
      → numbers.lt (numbers.from max_side_slots) (clamp_count numbers value) ≡ false
  unfolding clamp_number
  clamped_count none h one = one
  clamped_count (some (number n)) h one = elim (Bool-cases (numbers.is_finite n)) [
    | inl finite ↦ rw (finite, clamp_number) (h (numbers.math_max (numbers.from 1) n))
    | inr infinite ↦ rw (infinite, clamp_number) one
  ]
  clamped_count (some null) h one = one
  clamped_count (some (boolean b)) h one = one
  clamped_count (some (string s)) h one = one
  clamped_count (some (array items)) h one = one
  clamped_count (some (object entries)) h one = one

  -- The loop over a side's slots ends within its fuel, whatever the stored count: where 10 is not
  -- below the minimum of 10 and a number, and not below 1, more fuel gives the same slots.
  pub fill_side_enough :
      (fuel : ℕ) (slots : Slots) (side : WidgetSide) (value : Option (Json N))
      (sources : List String) (next : Slots)
      → max_side_slots ≤ fuel
      → ((x : N) → numbers.lt (numbers.from 10) (numbers.math_min (numbers.from 10) x) ≡ false)
      → numbers.lt (numbers.from 10) (numbers.from 1) ≡ false
      → fill_side numbers fuel slots side (clamp_count numbers value) 0 sources next
        ≡ fill_side numbers max_side_slots slots side (clamp_count numbers value) 0 sources next
  fill_side_enough fuel slots side value sources next le h one =
      more_fuel max_side_slots fuel slots side (clamp_count numbers value) 0 sources next refl le
        (clamped_count value h one)
