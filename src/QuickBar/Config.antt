-- ===== src/QuickBar/Config.antt =====
-- `isValidGroup`, `isValidCommand` and `normalizeConfig` of src/main/hooks/useQuickBarState.ts. Sets
-- of ids are lists; properties of a stored command that its type does not name are dropped.
use fluxterm.Base.{
  ℕ, ◌+◌, String, Bool, true, ◌||◌, Option, none, some, List, [], ◌∷◌, any, ◌==◌, if◌then◌else◌,
  ◌>>=◌, includes, or_default, trim,
}
use fluxterm.Base.Json.{
  Json, string, array, object, Numbers, at_key, as_text, as_boolean, as_number, as_list,
}
use fluxterm.QuickBar.Model.{
  default_group_id, legacy_default_group_id, QuickCommandGroup, QuickCommandItem, QuickBarConfig,
  Locale, group_ids, renumber, create_default_quick_bar_config,
}

abbrev kept : Bool → QuickCommandItem → Option QuickCommandItem
kept valid item = if valid then some item else none

module _ {N : Type 0} where
  -- `isValidGroup`, with the value as a group
  unfoldable pub valid_group : Json N → Option (QuickCommandGroup N)
  valid_group value = do
    id ← as_text (at_key value "id")
    name ← as_text (at_key value "name")
    order ← as_number (at_key value "order")
    visible ← as_boolean (at_key value "visible")
    some (record { id = id; name = name; order = order; visible = visible })

  -- `item.type === undefined || item.type === "sendText"`
  unfoldable pub is_valid_type : Option (Json N) → Bool
  is_valid_type none = true
  is_valid_type (some (string kind)) = kind == "sendText"
  is_valid_type (some other) = Bool.false

  -- `isValidCommand`, with the value as a command
  unfoldable pub valid_command : Json N → Option QuickCommandItem
  valid_command value = do
    id ← as_text (at_key value "id")
    label ← as_text (at_key value "label")
    command ← as_text (at_key value "command")
    group_id ← as_text (at_key value "groupId")
    kept (is_valid_type (at_key value "type"))
        (record { id = id; label = label; command = command; group_id = group_id })

  -- `filter` by one of the two checks
  abbrev pub keep_valid : {A : Type 0} → (Json N → Option A) → List (Json N) → List A
  keep_valid check [] = []
  keep_valid check (value ∷ rest) = elim (check value) [
    | none ↦ keep_valid check rest
    | some a ↦ a ∷ keep_valid check rest
  ]

abbrev pub from_legacy : String → String
from_legacy id = if id == legacy_default_group_id then default_group_id else id

module _ {N : Type 0} (numbers : Numbers N) (locale : Locale) where
  -- The loop over the raw groups, at an index and with the ids seen before.
  unfoldable pub dedupe_groups :
      List (QuickCommandGroup N) → ℕ → List String → List (QuickCommandGroup N)
  dedupe_groups [] index seen = []
  dedupe_groups (group ∷ rest) index seen =
      let id = from_legacy (trim group.id) in
      let skipped = id == "" || includes seen id in
      let others = dedupe_groups rest (index + 1) (if skipped then seen else id ∷ seen) in
      let name =
        if id == default_group_id
        then locale.default_group_name
        else let trimmed = trim group.name in
          if trimmed == "" then locale.group_n (index + 1) else trimmed in
      let order = if numbers.is_finite group.order then group.order else numbers.from_index index in
      if skipped
      then others
      else record { id = id; name = name; order = order; visible = group.visible } ∷ others

  unfoldable pub with_default_group : List (QuickCommandGroup N) → List (QuickCommandGroup N)
  with_default_group groups =
      if any (λ (group : QuickCommandGroup N). group.id == default_group_id) groups
      then groups
      else record {
        id = default_group_id;
        name = locale.default_group_name;
        order = numbers.minus_one;
        visible = true;
      }
        ∷ groups

  -- `sort((a, b) => a.order - b.order)`, which is stable
  unfoldable pub insert :
      QuickCommandGroup N → List (QuickCommandGroup N) → List (QuickCommandGroup N)
  insert group [] = group ∷ []
  insert group (other ∷ rest) =
      let later = insert group rest in
      if numbers.lt other.order group.order then other ∷ later else group ∷ other ∷ rest

  unfoldable pub sort : List (QuickCommandGroup N) → List (QuickCommandGroup N)
  sort [] = []
  sort (group ∷ rest) = insert group (sort rest)

-- The loop over the raw commands, with the ids seen before.
unfoldable pub dedupe_commands :
    List String → List QuickCommandItem → List String → List QuickCommandItem
dedupe_commands allowed [] seen = []
dedupe_commands allowed (item ∷ rest) seen =
    let skipped = includes seen item.id in
    let others = dedupe_commands allowed rest (if skipped then seen else item.id ∷ seen) in
    let next_group_id = from_legacy item.group_id in
    let group_id = if includes allowed next_group_id then next_group_id else default_group_id in
    if skipped then others else record item { group_id = group_id } ∷ others

module _ {N : Type 0} (numbers : Numbers N) (locale : Locale) where
  -- The part of `normalizeConfig` after its first test.
  unfoldable pub normalize_object : Json N → QuickBarConfig
  normalize_object parsed =
      let raw_groups = keep_valid valid_group (as_list (at_key parsed "groups")) in
      let deduped =
        with_default_group numbers locale (dedupe_groups numbers locale raw_groups 0 []) in
      let groups = renumber (sort numbers locale deduped) 0 in
      let raw_commands = keep_valid valid_command (as_list (at_key parsed "commands")) in
      record {
        show_group_title = or_default (as_boolean (at_key parsed "showGroupTitle")) true;
        groups = groups;
        commands = dedupe_commands (group_ids groups) raw_commands [];
      }

  unfoldable pub normalize_config : Json N → QuickBarConfig
  normalize_config (array items) = normalize_object (array items)
  normalize_config (object fields) = normalize_object (object fields)
  normalize_config other = create_default_quick_bar_config locale
