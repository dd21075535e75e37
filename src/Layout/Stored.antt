-- ===== src/Layout/Stored.antt =====
-- `normalizeSideSlotStructure`, `clampNumber` and `normalizeWidgetLayout` of src/layout/model.ts. The
-- loop over the slots of a side has fuel for `max_side_slots` of them.
use fluxterm.Base.{
  ℕ, zero, suc, ◌+◌, String, Bool, true, false, not, ◌==◌, ◌||◌, Option, none, some, List, [], ◌∷◌,
  if◌then◌else◌, or_default,
}
use fluxterm.Base.Dict.{get, put}
use fluxterm.Layout.Structure.{
  LayoutNumbers, Sides, WidgetLayout, keys, get_side_slot_keys, entries, normalize_slots,
  dedupe_active_widgets, active_texts, normalize_floating,
}
use fluxterm.Base.Json.{Json, null, boolean, number, string, at_key, as_boolean}
use fluxterm.Layout.Slots.{
  WidgetSide, left, right, Slots, max_side_slots, create_empty_group, side_slot_key,
}

module _ {N : Type 0} (numbers : LayoutNumbers N) where
  unfoldable pub clamp_number : Option (Json N) → N → N → N → N
  clamp_number (some (number value)) low high fallback =
      if numbers.is_finite value
      then numbers.math_min high (numbers.math_max low value)
      else fallback
  clamp_number other low high fallback = fallback

  abbrev pub clamp_count : Option (Json N) → N
  clamp_count value =
      clamp_number value (numbers.from 1) (numbers.from max_side_slots) (numbers.from 1)

  -- The loop over the slots of a side, at an index, where `keys` are the keys left.
  unfoldable pub fill_side : ℕ → Slots → WidgetSide → N → ℕ → List String → Slots → Slots
  fill_side zero slots side count index keys next = next
  fill_side (suc fuel) slots side count index keys next =
      if numbers.lt (numbers.from index) count
      then elim keys [
        | [] ↦
            fill_side fuel slots side count (index + 1) []
              (put next (side_slot_key side index) create_empty_group)
        | source ∷ others ↦
            fill_side fuel slots side count (index + 1) others (
              put next (side_slot_key side index)
                (or_default (get slots source) create_empty_group))
      ]
      else next

  -- The slots and the clamped counts.
  unfoldable pub normalize_side_slot_structure : Slots → Sides N → Slots × Sides N
  normalize_side_slot_structure slots counts =
      let clamped : Sides N = record {
        left = clamp_count (some (number counts.left));
        right = clamp_count (some (number counts.right));
      } in
      let lefts =
        fill_side max_side_slots slots left clamped.left 0 (get_side_slot_keys slots left) [] in
      let sides =
        fill_side max_side_slots slots right clamped.right 0 (get_side_slot_keys slots right)
          lefts in
      (put sides "bottom" (or_default (get slots "bottom") create_empty_group), clamped)

  -- `!value` on a part of the stored layout
  abbrev pub is_falsy : Option (Json N) → Bool
  is_falsy none = true
  is_falsy (some null) = true
  is_falsy (some (boolean b)) = not b
  is_falsy (some (number n)) = numbers.is_zero n
  is_falsy (some (string s)) = s == ""
  is_falsy (some other) = false

  abbrev pub is_version_one : Option (Json N) → Bool
  is_version_one (some (number n)) = numbers.equal n (numbers.from 1)
  is_version_one other = false

  abbrev pub inside : Option (Json N) → String → Option (Json N)
  inside none key = none
  inside (some value) key = at_key value key

  abbrev pub entries_at : Option (Json N) → List (String × Json N)
  entries_at none = []
  entries_at (some value) = entries value

  -- The layout that is made of a stored one that passes the first tests.
  unfoldable pub checked_layout : Json N → WidgetLayout N
  checked_layout value =
      let base =
        normalize_slots (entries_at (at_key value "slots")) (("bottom", create_empty_group) ∷ []) in
      let stored_counts = at_key value "sideSlotCounts" in
      let counts : Sides N = record {
        left = clamp_count (inside stored_counts "left");
        right = clamp_count (inside stored_counts "right");
      } in
      let structured = normalize_side_slot_structure base counts in
      let slots = dedupe_active_widgets structured.0 in
      let sizes = at_key value "sizes" in
      let collapsed = at_key value "collapsed" in
      record {
        sizes = record {
          left =
              clamp_number (inside sizes "left") (numbers.from 220) (numbers.from 520)
                (numbers.from 320);
          right =
              clamp_number (inside sizes "right") (numbers.from 260) (numbers.from 560)
                (numbers.from 360);
          bottom =
              clamp_number (inside sizes "bottom") (numbers.from 160) (numbers.from 420)
                (numbers.from 240);
        };
        collapsed = record {
          left = or_default (as_boolean (inside collapsed "left")) false;
          right = or_default (as_boolean (inside collapsed "right")) false;
          bottom = or_default (as_boolean (inside collapsed "bottom")) false;
        };
        side_slot_counts = structured.1;
        slots = slots;
        floating =
            normalize_floating (active_texts slots) (entries_at (at_key value "floating")) [];
      }

  -- The tests that refuse a stored layout.
  abbrev pub is_refused : Json N → Bool
  is_refused value =
      not (is_version_one (at_key value "version"))
      || (is_falsy (at_key value "sizes") || is_falsy (at_key value "slots"))

  unfoldable pub normalize_widget_layout : Json N → Option (WidgetLayout N)
  normalize_widget_layout value = if is_refused value then none else some (checked_layout value)
