-- ===== src/Layout/Tests.antt =====
-- Runs of the widget layout, and each theorem at one of them.
use fluxterm.Base.{
  ℕ, ◌≡◌, refl, String, true, false, [], ◌∷◌, some, if◌then◌else◌, eqb, ltb, min, arith, ◌==◌,
}
use fluxterm.Base.Json.{Json, number, string, object, field, no_fields}
use fluxterm.Base.Dict.{get, put}
use fluxterm.Layout.Slots.{
  files, ai, left, right, Slots, max_side_slots, side_slot_key, parse_side_slot_key, remove_widget,
  move_widget_to_slot,
}
use fluxterm.Layout.Structure.{LayoutNumbers}
use fluxterm.Layout.Stored.{clamp_count, fill_side, checked_layout, normalize_widget_layout}
use fluxterm.Layout.Moves.{holds, move_widget_to_slot_lem, parse-side_slot_key}
use fluxterm.Layout.Tidy.{IsTidy, normalize_widget_layout-IsTidy}
use fluxterm.Layout.Keys.{HasSlotKeys, put-HasSlotKeys}
use fluxterm.Layout.Shifting.{IsDistinct}
use fluxterm.Layout.Splits.{handle_close_slot_lem, handle_close_slot-split}
use fluxterm.Layout.Hook.{
  LayoutHook, count_of, match_side_slot, moved_index, shifted_key, shift_slots, handle_toggle_split,
  handle_close_slot,
}
use fluxterm.Base.{◌+◌, inr}
use fluxterm.Layout.Loops.{fill_side_enough}

abbrev numbers : LayoutNumbers ℕ
numbers = record {
  from = λ n. n;
  is_finite = λ n. true;
  is_zero = λ n. eqb n 0;
  equal = eqb;
  lt = ltb;
  math_min = min;
  math_max = λ a b. if ltb a b then b else a;
}

abbrev two_slots : Slots
two_slots =
    ("left:0", record { active = some files }) ∷ ("bottom", record { active = some ai }) ∷ []

move_widget_to_slot_lem_example :
    let after = move_widget_to_slot two_slots files "bottom" in
    (holds after "left:0" files ≡ ("bottom" == "left:0"))
    × (holds after "left:0" ai
        ≡ (if "bottom" == "left:0" then false else holds two_slots "left:0" ai))
move_widget_to_slot_lem_example = move_widget_to_slot_lem two_slots files ai "bottom" "left:0" refl

move_runs : holds (move_widget_to_slot two_slots files "bottom") "bottom" files ≡ true
unfolding move_widget_to_slot remove_widget get put
move_runs = refl

parse_runs : parse_side_slot_key (side_slot_key right 3) ≡ some (right, 3)
parse_runs = parse-side_slot_key right 3 (omega arith)

abbrev stored_slot : String → Json ℕ
stored_slot widget = object (field "active" (string widget) no_fields)

abbrev stored : Json ℕ
stored = object (
    field "version" (number 1) (
      field "sizes" (object no_fields) (
        field "slots"
          (object
            (field "left:0" (stored_slot "files") (field "bottom" (stored_slot "files") no_fields)))
          no_fields)))

normalize_widget_layout-IsTidy_example : IsTidy (checked_layout numbers stored)
unfolding normalize_widget_layout
normalize_widget_layout-IsTidy_example =
    normalize_widget_layout-IsTidy numbers stored (checked_layout numbers stored) refl

least : (x : ℕ) → ltb 10 (min 10 x) ≡ false
least x = ground arith

fill_side_enough_example :
    fill_side numbers 15 two_slots left (clamp_count numbers (some (number 3))) 0 [] []
    ≡ fill_side numbers max_side_slots two_slots left
        (clamp_count numbers (some (number 3)))
        0
        []
        []
fill_side_enough_example =
    fill_side_enough numbers 15 two_slots left (some (number 3)) [] [] (omega arith) least refl

abbrev two_left : LayoutHook
two_left = record {
  collapsed = record { left = false; right = false; bottom = false };
  side_slot_counts = record { left = 2; right = 1 };
  slots = ("left:0", record { active = some files }) ∷ ("left:1", record { active = some ai }) ∷ [];
  floating = [];
}

no_slots-HasSlotKeys : HasSlotKeys []
no_slots-HasSlotKeys key there = absurd (ground (arith, there))

two_left-HasSlotKeys : HasSlotKeys two_left.slots
unfolding put side_slot_key
two_left-HasSlotKeys =
    put-HasSlotKeys (("left:0", record { active = some files }) ∷ []) "left:1"
      (record { active = some ai }) (inr (left, 1, omega arith, refl))
      (put-HasSlotKeys [] "left:0" (record { active = some files })
        (inr (left, 0, omega arith, refl)) no_slots-HasSlotKeys)

two_left-IsDistinct : IsDistinct two_left.slots
unfolding get
two_left-IsDistinct = (refl, (refl, tt))

handle_close_slot_lem_example :
    let after = handle_close_slot two_left (side_slot_key left 0) in
    (get after.slots (side_slot_key left 0)
      ≡ get two_left.slots (side_slot_key left (if ltb 0 0 then 0 else 0 + 1)))
    × (get after.slots (side_slot_key right 0) ≡ get two_left.slots (side_slot_key right 0))
    × (get after.slots "bottom" ≡ get two_left.slots "bottom")
    × (count_of after.side_slot_counts left + 1 ≡ 2)
handle_close_slot_lem_example =
    handle_close_slot_lem two_left left right 0 0 0 two_left-HasSlotKeys two_left-IsDistinct
      (omega arith, omega arith, omega arith) (omega arith) (omega arith) refl

close_runs : handle_close_slot two_left "left:0" ≡ record two_left {
  side_slot_counts = record { left = 1; right = 1 };
  slots = ("left:0", record { active = some ai }) ∷ [];
}
unfolding handle_close_slot match_side_slot shift_slots shifted_key moved_index side_slot_key put
close_runs = refl

handle_close_slot-split_example :
    let after = handle_close_slot (handle_toggle_split two_left left) (side_slot_key left 2) in
    (get after.slots (side_slot_key left 1) ≡ get two_left.slots (side_slot_key left 1))
    × (get after.slots (side_slot_key right 0) ≡ get two_left.slots (side_slot_key right 0))
    × (get after.slots "bottom" ≡ get two_left.slots "bottom")
    × (count_of after.side_slot_counts left ≡ 2)
handle_close_slot-split_example =
    handle_close_slot-split two_left left right 1 0 two_left-HasSlotKeys two_left-IsDistinct
      (omega arith) (omega arith) (omega arith) (omega arith) refl
