-- ===== src/Layout/Slots.antt =====
-- The slots of src/layout/types.ts, and the operations on them of src/layout/model.ts. Slots are
-- values, so that `cloneSlots` is no operation here.
use Prim.Native.Char.{code}
use fluxterm.Base.{
  ℕ, ◌+◌, ◌-◌, ◌*◌, String, Bool, false, ◌==◌, ◌&&◌, Option, none, some, [], ◌∷◌, if◌then◌else◌,
  eqb, leb, ltb, get_elem?, or_default,
}
use fluxterm.Base.Dict.{Dict, get, put}

pub data WidgetKey : Type 0 where
  profiles serial files transfers events history ai tunnels broadcast : WidgetKey

abbrev pub key_text : WidgetKey → String
key_text profiles = "profiles"
key_text serial = "serial"
key_text files = "files"
key_text transfers = "transfers"
key_text events = "events"
key_text history = "history"
key_text ai = "ai"
key_text tunnels = "tunnels"
key_text broadcast = "broadcast"

-- A widget key of a stored layout; `logs` is an old name of `events`.
abbrev pub normalize_widget_key : String → Option WidgetKey
normalize_widget_key value =
    if value == "profiles"
    then some profiles
    else if value == "serial"
    then some serial
    else if value == "files"
    then some files
    else if value == "transfers"
    then some transfers
    else if value == "events"
    then some events
    else if value == "history"
    then some history
    else if value == "ai"
    then some ai
    else if value == "tunnels"
    then some tunnels
    else if value == "broadcast"
    then some broadcast
    else if value == "logs"
    then some events
    else none

pub data WidgetSide : Type 0 where
  left right : WidgetSide

pub record WidgetGroup : Type 0 where
  pub active : Option WidgetKey

abbrev pub Slots : Type 0
Slots = Dict WidgetGroup

abbrev pub max_side_slots : ℕ
max_side_slots = 10

abbrev pub create_empty_group : WidgetGroup
create_empty_group = record { active = none }

-- An index in decimal; indices are below `max_side_slots`.
abbrev index_text : ℕ → String
index_text index =
    or_default (get_elem? ("0" ∷ "1" ∷ "2" ∷ "3" ∷ "4" ∷ "5" ∷ "6" ∷ "7" ∷ "8" ∷ "9" ∷ []) index) ""

abbrev prepend : String → String → String
prepend String.[] s = s
prepend (String.◌∷◌ c prefix) s = String.◌∷◌ c (prepend prefix s)

unfoldable pub side_slot_key : WidgetSide → ℕ → String
side_slot_key left index = prepend "left:" (index_text index)
side_slot_key right index = prepend "right:" (index_text index)

abbrev pub strip_prefix : String → String → Option String
strip_prefix String.[] s = some s
strip_prefix (String.◌∷◌ p ps) String.[] = none
strip_prefix (String.◌∷◌ p ps) (String.◌∷◌ c s) =
    let rest = strip_prefix ps s in if eqb (code p) (code c) then rest else none

abbrev pub read_digits : String → ℕ → Option ℕ
read_digits String.[] value = some value
read_digits (String.◌∷◌ c s) value =
    let rest = read_digits s (value * 10 + (code c - 48)) in
    if leb 48 (code c) && leb (code c) 57 then rest else none

-- An index of digits, where it is below `max_side_slots`.
abbrev read_index : String → Option ℕ
read_index String.[] = none
read_index (String.◌∷◌ c s) = elim (read_digits (String.◌∷◌ c s) 0) [
  | none ↦ none
  | some index ↦ if ltb index max_side_slots then some index else none
]

-- `/^(left|right):(\d+)$/`
unfoldable pub parse_side_slot_key : String → Option (WidgetSide × ℕ)
parse_side_slot_key value = elim (strip_prefix "left:" value) [
  | some digits ↦ elim (read_index digits) [ none ↦ none | some index ↦ some (left, index) ]
  | none ↦ elim (strip_prefix "right:" value) [
    | none ↦ none
    | some digits ↦ elim (read_index digits) [ none ↦ none | some index ↦ some (right, index) ]
  ]
]

abbrev pub is_active : WidgetGroup → WidgetKey → Bool
is_active group widget = elim group.active [
  | none ↦ false
  | some other ↦ key_text other == key_text widget
]

-- `if (group.active === widget) group.active = null`, on every slot
unfoldable pub remove_widget : Slots → WidgetKey → Slots
remove_widget [] widget = []
remove_widget ((slot, group) ∷ slots) widget =
    (slot, (if is_active group widget then create_empty_group else group))
    ∷ remove_widget slots widget

unfoldable pub move_widget_to_slot : Slots → WidgetKey → String → Slots
move_widget_to_slot slots widget target =
    put (remove_widget slots widget) target (record { active = some widget })

-- Both results: the slots and `nextCount`.
unfoldable pub increase_side_slots : Slots → WidgetSide → ℕ → Slots × ℕ
increase_side_slots slots side current_count =
    let next_count =
      if leb (current_count + 1) max_side_slots then current_count + 1 else max_side_slots in
    if eqb next_count current_count
    then (slots, next_count)
    else (put slots (side_slot_key side (next_count - 1)) create_empty_group, next_count)

unfoldable pub close_active_widget_in_slot : Slots → String → Slots
close_active_widget_in_slot slots slot = elim (get slots slot) [
  | none ↦ slots
  | some group ↦ elim group.active [
    | none ↦ slots
    | some widget ↦ put slots slot create_empty_group
  ]
]
