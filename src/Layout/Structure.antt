-- ===== src/Layout/Structure.antt =====
-- The types of a widget layout, and what `normalizeWidgetLayout` of src/layout/model.ts calls on slots,
-- keys and origins. A stored number is of a type `N`.
use fluxterm.Base.{
  ℕ, String, Bool, ◌==◌, Option, none, some, List, [], ◌∷◌, ◌++◌, map, if◌then◌else◌, ltb, includes,
}
use fluxterm.Base.Dict.{Dict, get, put}
use fluxterm.Base.Json.{Json, object, Fields, no_fields, field, at_key, as_text}
use fluxterm.Layout.Slots.{
  key_text, normalize_widget_key, WidgetSide, left, right, WidgetGroup, Slots, create_empty_group,
  side_slot_key, parse_side_slot_key,
}

-- JavaScript's numbers, as far as the layout uses them; `from` gives the whole ones.
pub record LayoutNumbers (N : Type 0) : Type 0 where
  pub from : ℕ → N
  pub is_finite : N → Bool
  pub is_zero : N → Bool
  pub equal : N → N → Bool
  pub lt : N → N → Bool
  pub math_min : N → N → N
  pub math_max : N → N → N

pub record Sides (A : Type 0) : Type 0 where
  pub left : A
  pub right : A

pub record Areas (A : Type 0) : Type 0 where
  pub left : A
  pub right : A
  pub bottom : A

-- `floating` holds the origin of each widget that floats.
pub record WidgetLayout (N : Type 0) : Type 0 where
  pub sizes : Areas N
  pub collapsed : Areas Bool
  pub side_slot_counts : Sides N
  pub slots : Slots
  pub floating : Dict String

-- `Object.keys`
abbrev pub keys : {V : Type 0} → Dict V → List String
keys [] = []
keys ((key, value) ∷ d) = key ∷ keys d

-- The indices of a side's keys.
unfoldable pub side_indices : List String → WidgetSide → List ℕ
side_indices [] side = []
side_indices (key ∷ rest) side =
    let later = side_indices rest side in
    elim (parse_side_slot_key key) [
      | none ↦ later
      | some (left, index) ↦ elim side [ left ↦ index ∷ later | right ↦ later ]
      | some (right, index) ↦ elim side [ left ↦ later | right ↦ index ∷ later ]
    ]

-- `sort((a, b) => a.index - b.index)`
unfoldable pub insert_index : ℕ → List ℕ → List ℕ
insert_index i [] = i ∷ []
insert_index i (j ∷ rest) =
    let later = insert_index i rest in if ltb j i then j ∷ later else i ∷ j ∷ rest

unfoldable pub sort_indices : List ℕ → List ℕ
sort_indices [] = []
sort_indices (i ∷ rest) = insert_index i (sort_indices rest)

unfoldable pub get_side_slot_keys : Slots → WidgetSide → List String
get_side_slot_keys slots side =
    map (side_slot_key side) (sort_indices (side_indices (keys slots) side))

module _ {N : Type 0} where
  -- An unknown `active` is none, and so is every value that is not an object.
  unfoldable pub normalize_group : Json N → WidgetGroup
  normalize_group group = record {
    active = elim (as_text (at_key group "active")) [
      | none ↦ none
      | some value ↦ normalize_widget_key value
    ];
  }

  abbrev entries_of : Fields N → List (String × Json N)
  entries_of no_fields = []
  entries_of (field name value rest) = (name, value) ∷ entries_of rest

  -- `Object.entries`, but for the indices of an array or a text, which no caller reads.
  abbrev pub entries : Json N → List (String × Json N)
  entries (object fields) = entries_of fields
  entries value = []

  unfoldable pub normalize_slots : List (String × Json N) → Slots → Slots
  normalize_slots [] next = next
  normalize_slots ((key, value) ∷ rest) next = normalize_slots rest (
      if key == "bottom"
      then put next "bottom" (normalize_group value)
      else elim (parse_side_slot_key key) [
        | none ↦ next
        | some (side, index) ↦ put next (side_slot_key side index) (normalize_group value)
      ])

-- The loop that clears the widgets seen in an earlier slot, with the texts of those seen.
unfoldable pub dedupe_slots : List String → Slots → List String → Slots
dedupe_slots [] next used = next
dedupe_slots (slot ∷ rest) next used = elim (get next slot) [
  | none ↦ dedupe_slots rest next used
  | some group ↦ elim group.active [
    | none ↦ dedupe_slots rest next used
    | some widget ↦
        let seen = includes used (key_text widget) in
        dedupe_slots rest (if seen then put next slot create_empty_group else next)
          (if seen then used else key_text widget ∷ used)
  ]
]

unfoldable pub ordered_keys : Slots → List String
ordered_keys slots =
    get_side_slot_keys slots left ++ get_side_slot_keys slots right ++ "bottom" ∷ []

unfoldable pub dedupe_active_widgets : Slots → Slots
dedupe_active_widgets slots = dedupe_slots (ordered_keys slots) slots []

-- The texts of the widgets in the slots.
unfoldable pub active_texts : Slots → List String
active_texts [] = []
active_texts ((slot, group) ∷ slots) =
    let later = active_texts slots in
    elim group.active [ none ↦ later | some widget ↦ key_text widget ∷ later ]

-- The slot that a floating widget came from.
unfoldable pub normalize_origin : {N : Type 0} → Json N → Option String
normalize_origin value = elim (as_text (at_key value "origin")) [
  | none ↦ none
  | some origin ↦ if origin == "bottom" then some "bottom" else elim (parse_side_slot_key origin) [
    | none ↦ none
    | some (side, index) ↦ some (side_slot_key side index)
  ]
]

unfoldable pub normalize_floating :
    {N : Type 0} → List String → List (String × Json N) → Dict String → Dict String
normalize_floating active [] next = next
normalize_floating active ((key, value) ∷ rest) next =
    normalize_floating active rest (elim (normalize_widget_key key) [
      | none ↦ next
      | some widget ↦ elim (normalize_origin value) [
        | none ↦ next
        | some origin ↦
            if includes active (key_text widget) then next else put next (key_text widget) origin
      ]
    ])
