-- ===== src/QuickBar/Tests.antt =====
-- Runs of the quick command bar, and each theorem at one of them.
use fluxterm.Base.{
  ℕ, suc, ◌≤◌, ◌≡◌, refl, String, true, [], ◌∷◌, ltb, arith, count, includes, keep, trim,
}
use fluxterm.Base.Json.{
  Json, number, string, boolean, array, object, item, no_items, field, no_fields, Numbers,
}
use fluxterm.QuickBar.Model.{
  default_group_id, QuickCommandItem, QuickBarConfig, Locale, command_ids, group_ids, IsWellFormed,
  create_default_quick_bar_config,
}
use fluxterm.Base.Dict.{get, put}
use fluxterm.QuickBar.Config.{
  normalize_object, sort, with_default_group, dedupe_groups, valid_group, insert, normalize_config,
}
use fluxterm.QuickBar.Actions.{
  in_group, reorder_list, are_distinct, look_up, by_id, fill_places, reorder_commands, adds_group,
  quick_bar_step,
}
use fluxterm.QuickBar.Places.{outside, group_places}
use fluxterm.QuickBar.Loading.{normalize_config-IsWellFormed}
use fluxterm.QuickBar.Reordering.{are_distinct→once, reorder_commands_lem}
use fluxterm.QuickBar.Steps.{starts, steps, IsReachable-IsWellFormed}

-- The numbers from -1 on.
abbrev numbers : Numbers ℕ
numbers = record { from_index = λ i. suc i; minus_one = 0; is_finite = λ n. true; lt = ltb }

abbrev locale : Locale
locale = record {
  default_group_name = "Default";
  to_locale_lower_case = λ s. s;
  group_n = λ n. "Group";
}

abbrev stored_group : String → ℕ → Json ℕ
stored_group id order = object (
    field "id" (string id) (
      field "name" (string " tools ")
        (field "order" (number order) (field "visible" (boolean true) no_fields))))

abbrev stored : Json ℕ
stored = object (
    field "groups"
      (array (
        item (stored_group "b" 7)
          (item (stored_group "default" 3) (item (stored_group "b" 1) no_items))))
      no_fields)

normalize_runs :
    group_ids (normalize_config numbers locale stored).groups ≡ default_group_id ∷ "b" ∷ []
unfolding normalize_config normalize_object sort with_default_group dedupe_groups valid_group trim
    insert
normalize_runs = refl

normalize_config-IsWellFormed_example : IsWellFormed (normalize_config numbers locale stored)
normalize_config-IsWellFormed_example = normalize_config-IsWellFormed numbers locale stored

abbrev command : String → String → QuickCommandItem
command id group_id = record { id = id; label = id; command = "ls"; group_id = group_id }

abbrev three : QuickBarConfig
three = record {
  show_group_title = true;
  groups = [];
  commands = command "1" "g" ∷ command "2" "h" ∷ command "3" "g" ∷ [];
}

reorder_runs :
    command_ids (reorder_commands three "g" ("3" ∷ "1" ∷ [])).commands ≡ "3" ∷ "2" ∷ "1" ∷ []
unfolding reorder_commands reorder_list are_distinct look_up get by_id put fill_places
reorder_runs = refl

known : (id : String) → includes ("3" ∷ "1" ∷ []) id ≡ true → includes ("1" ∷ "3" ∷ []) id ≡ true
known id h = ground (arith, h)

once : (id : String) → count id ("3" ∷ "1" ∷ []) ≤ 1
unfolding are_distinct
once id = are_distinct→once ("3" ∷ "1" ∷ []) id refl

reorder_commands_lem_example :
    let after = (reorder_commands three "g" ("3" ∷ "1" ∷ [])).commands in
    (command_ids (keep (in_group "g") after) ≡ "3" ∷ "1" ∷ [])
    × (outside "g" after ≡ outside "g" three.commands)
    × (group_places after ≡ group_places three.commands)
reorder_commands_lem_example = reorder_commands_lem three "g" ("3" ∷ "1" ∷ []) refl known once

abbrev initial : QuickBarConfig
initial = create_default_quick_bar_config locale

abbrev with_group : QuickBarConfig
with_group = quick_bar_step {N = ℕ} numbers locale initial (adds_group "work" "g")

IsReachable-IsWellFormed_example : IsWellFormed with_group
unfolding create_default_quick_bar_config
IsReachable-IsWellFormed_example =
    IsReachable-IsWellFormed numbers locale with_group
      (steps initial (adds_group "work" "g") starts refl)
