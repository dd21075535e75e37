-- ===== src/QuickBar/Model.antt =====
-- The types of src/types.ts and the helpers of src/main/hooks/useQuickBarState.ts that its
-- configuration and its operations share. A group's `order` is of a type `O`: a JSON number before
-- a configuration is checked, an index afterwards. The field `type` of a command has one value,
-- which every operation writes or keeps, and is left out.
use fluxterm.Base.{
  ℕ, ◌+◌, ◌≤◌, ◌≡◌, String, Bool, true, false, Option, List, [], ◌∷◌, any, ◌==◌, ◌&&◌,
  if◌then◌else◌, count, includes, All, trim, not, none, some,
}

abbrev pub default_group_id : String
default_group_id = "00000000-0000-4000-8000-000000000001"

abbrev pub legacy_default_group_id : String
legacy_default_group_id = "default"

pub record QuickCommandGroup (O : Type 0) : Type 0 where
  pub id : String
  pub name : String
  pub order : O
  pub visible : Bool

pub record QuickCommandItem : Type 0 where
  pub id : String
  pub label : String
  pub command : String
  pub group_id : String

pub record QuickBarConfig : Type 0 where
  pub show_group_title : Bool
  pub groups : List (QuickCommandGroup ℕ)
  pub commands : List QuickCommandItem

-- What the translation and the runtime supply.
pub record Locale : Type 0 where
  pub default_group_name : String
  pub to_locale_lower_case : String → String
  -- the template `Group ${n}`
  pub group_n : ℕ → String

abbrev pub group_ids : {O : Type 0} → List (QuickCommandGroup O) → List String
group_ids [] = []
group_ids (g ∷ groups) = g.id ∷ group_ids groups

abbrev pub command_ids : List QuickCommandItem → List String
command_ids [] = []
command_ids (c ∷ commands) = c.id ∷ command_ids commands

-- `map((group, index) => ({ ...group, order: index }))` from an index on
abbrev pub renumber : {O : Type 0} → List (QuickCommandGroup O) → ℕ → List (QuickCommandGroup ℕ)
renumber [] i = []
renumber (g ∷ groups) i =
    record { id = g.id; name = g.name; order = i; visible = g.visible } ∷ renumber groups (i + 1)

unfoldable pub create_default_quick_bar_config : Locale → QuickBarConfig
create_default_quick_bar_config locale = record {
  show_group_title = true;
  groups =
      record { id = default_group_id; name = locale.default_group_name; order = 0; visible = true }
      ∷ [];
  commands = [];
}

abbrev pub normalize_group_name : Locale → String → String
normalize_group_name locale name = locale.to_locale_lower_case (trim name)

abbrev pub is_duplicate_group_name :
    Locale → List (QuickCommandGroup ℕ) → String → Option String → Bool
is_duplicate_group_name locale groups name exclude_group_id =
    let normalized = normalize_group_name locale name in
    any
      (λ (group : QuickCommandGroup ℕ).
        let taken = normalize_group_name locale group.name == normalized in
        elim exclude_group_id [
          | none ↦ taken
          | some excluded ↦ if not (excluded == "") && group.id == excluded then false else taken
        ])
      groups

-- The groups' orders are their positions from one on.
abbrev pub IsNumbered : List (QuickCommandGroup ℕ) → ℕ → Type 0
IsNumbered [] i = Unit
IsNumbered (g ∷ groups) i = (g.order ≡ i) × IsNumbered groups (i + 1)

abbrev pub IsGrouped : List String → QuickCommandItem → Type 0
IsGrouped ids c = includes ids c.group_id ≡ true

-- The default group is there, group ids and command ids are distinct, the groups are numbered, and
-- every command is in a group.
pub record IsWellFormed (q : QuickBarConfig) : Type 0 where
  pub default_once : count default_group_id (group_ids q.groups) ≡ 1
  pub groups_once : (x : String) → count x (group_ids q.groups) ≤ 1
  pub numbered : IsNumbered q.groups 0
  pub commands_once : (x : String) → count x (command_ids q.commands) ≤ 1
  pub grouped : All (IsGrouped (group_ids q.groups)) q.commands
