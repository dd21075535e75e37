-- ===== src/Layout/Hook.antt =====
-- The layout hook, src/main/hooks/useLayoutState.ts, with what src/main/hooks/useFloatingWidgets.ts
-- does to its slots. Each side has at most ten slots.
use fluxterm.Base.{
  ℕ, ◌-◌, String, Bool, true, false, not, ◌==◌, Option, none, some, [], ◌∷◌, eqb, leb, ltb,
  if◌then◌else◌,
}
use fluxterm.Base.Dict.{Dict, get, put, delete}
use fluxterm.Layout.Slots.{
  WidgetKey, key_text, WidgetSide, left, right, Slots, create_empty_group, strip_prefix,
  read_digits, side_slot_key, is_active, increase_side_slots, close_active_widget_in_slot,
}
use fluxterm.Layout.Structure.{Sides, Areas}

-- The sizes of the panels, and their dragging, are left out.
pub record LayoutHook : Type 0 where
  pub collapsed : Areas Bool
  pub side_slot_counts : Sides ℕ
  pub slots : Slots
  pub floating : Dict String

pub data WidgetArea : Type 0 where
  side_area : WidgetSide → WidgetArea
  bottom_area : WidgetArea

abbrev pub count_of : Sides ℕ → WidgetSide → ℕ
count_of counts left = counts.left
count_of counts right = counts.right

abbrev pub set_count : Sides ℕ → WidgetSide → ℕ → Sides ℕ
set_count counts left count = record counts { left = count }
set_count counts right count = record counts { right = count }

abbrev pub is_side : WidgetSide → WidgetSide → Bool
is_side left left = true
is_side left right = false
is_side right left = false
is_side right right = true

abbrev digits_value : String → Option ℕ
digits_value String.[] = none
digits_value (String.◌∷◌ c s) = read_digits (String.◌∷◌ c s) 0

-- `/^(left|right):(\d+)$/`, with the number that the digits make
unfoldable pub match_side_slot : String → Option (WidgetSide × ℕ)
match_side_slot value = elim (strip_prefix "left:" value) [
  | some digits ↦ elim (digits_value digits) [ none ↦ none | some index ↦ some (left, index) ]
  | none ↦ elim (strip_prefix "right:" value) [
    | none ↦ none
    | some digits ↦ elim (digits_value digits) [ none ↦ none | some index ↦ some (right, index) ]
  ]
]

-- The place of a slot once the slot at `index` is gone; `none` for one that is left out.
unfoldable pub moved_index : ℕ → ℕ → Option ℕ
moved_index index item_index =
    if eqb item_index index
    then none
    else some (if ltb index item_index then item_index - 1 else item_index)

unfoldable pub shifted_key : WidgetSide → ℕ → String → Option String
shifted_key side index key = if key == "bottom" then some "bottom" else elim (match_side_slot key) [
  | none ↦ none
  | some (item_side, item_index) ↦
      if is_side item_side side
      then elim (moved_index index item_index) [
        | none ↦ none
        | some target ↦ some (side_slot_key side target)
      ]
      else some key
]

-- The entries are written into `next`, one after the other.
unfoldable pub shift_slots : WidgetSide → ℕ → Slots → Slots → Slots
shift_slots side index next [] = next
shift_slots side index next ((key, group) ∷ slots) = elim (shifted_key side index key) [
  | none ↦ shift_slots side index next slots
  | some target ↦ shift_slots side index (put next target group) slots
]

unfoldable pub handle_toggle_split : LayoutHook → WidgetSide → LayoutHook
handle_toggle_split h side =
    let result = increase_side_slots h.slots side (count_of h.side_slot_counts side) in
    record h { slots = result.0; side_slot_counts = set_count h.side_slot_counts side result.1 }

-- `Math.max(1, count - 1)`
abbrev pub one_less : ℕ → ℕ
one_less count = if leb 2 count then count - 1 else 1

unfoldable pub handle_close_slot : LayoutHook → String → LayoutHook
handle_close_slot h slot =
    if slot == "bottom"
    then record h { slots = close_active_widget_in_slot h.slots "bottom" }
    else elim (match_side_slot slot) [
      | none ↦ h
      | some (side, index) ↦
          let count = count_of h.side_slot_counts side in
          if leb count index
          then h
          else if leb count 1
          then record h { slots = close_active_widget_in_slot h.slots slot }
          else record h {
            slots = shift_slots side index [] h.slots;
            side_slot_counts = set_count h.side_slot_counts side (one_less count);
          }
    ]

unfoldable pub set_widget_collapsed : LayoutHook → WidgetArea → Bool → LayoutHook
set_widget_collapsed h (side_area left) collapsed = record h {
  collapsed = record h.collapsed { left = collapsed };
}
set_widget_collapsed h (side_area right) collapsed = record h {
  collapsed = record h.collapsed { right = collapsed };
}
set_widget_collapsed h bottom_area collapsed = record h {
  collapsed = record h.collapsed { bottom = collapsed };
}

abbrev is_collapsed : Areas Bool → WidgetArea → Bool
is_collapsed collapsed (side_area left) = collapsed.left
is_collapsed collapsed (side_area right) = collapsed.right
is_collapsed collapsed bottom_area = collapsed.bottom

unfoldable pub handle_toggle_collapsed : LayoutHook → WidgetArea → LayoutHook
handle_toggle_collapsed h area = set_widget_collapsed h area (not (is_collapsed h.collapsed area))

-- A widget is taken out of its slot to float. The source is called with slots that are there.
unfoldable pub handle_float : LayoutHook → String → LayoutHook
handle_float h slot = elim (get h.slots slot) [
  | none ↦ h
  | some group ↦ elim group.active [
    | none ↦ h
    | some widget ↦ record h {
      floating = put h.floating (key_text widget) slot;
      slots = put h.slots slot create_empty_group;
    }
  ]
]

-- The floating window is closed, which does not bring the widget back.
unfoldable pub dismiss_floating_widget : LayoutHook → WidgetKey → LayoutHook
dismiss_floating_widget h widget = record h { floating = delete h.floating (key_text widget) }

-- The floating window cannot be opened: the widget goes back to the slot.
unfoldable pub float_failed : LayoutHook → String → WidgetKey → LayoutHook
float_failed h slot widget = elim (get h.slots slot) [
  | none ↦ dismiss_floating_widget h widget
  | some group ↦
      if is_active group widget
      then dismiss_floating_widget h widget
      else record (dismiss_floating_widget h widget) {
        slots = put h.slots slot (record { active = some widget });
      }
]
