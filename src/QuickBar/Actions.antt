-- ===== src/QuickBar/Actions.antt =====
-- The operations of `useQuickBarState`, on the whole state. An operation reads the state of the
-- render that it is called in, which is the state that it changes. Ids that `createId` makes are
-- arguments.
use fluxterm.Base.{
  ℕ, String, Bool, true, false, not, ◌&&◌, ◌||◌, Option, none, some, List, [], ◌∷◌, ◌++◌, map, any,
  keep, ◌==◌, if◌then◌else◌, eqb, length, includes, or_default, trim,
}
use fluxterm.Base.Dict.{Dict, get, put}
use fluxterm.Base.Json.{Json, Numbers}
use fluxterm.QuickBar.Model.{
  default_group_id, QuickCommandGroup, QuickCommandItem, QuickBarConfig, Locale, group_ids,
  command_ids, renumber, is_duplicate_group_name,
}
use fluxterm.QuickBar.Config.{normalize_config}

pub data GroupMutationResult : Type 0 where
  added : String → GroupMutationResult
  renamed group_name_required group_name_duplicate : GroupMutationResult

abbrev pub in_group : String → QuickCommandItem → Bool
in_group group_id item = item.group_id == group_id

-- `prev.map((group) => group.id === groupId ? change(group) : group)`
unfoldable pub change_group :
    (QuickCommandGroup ℕ → QuickCommandGroup ℕ)
    → String
    → List (QuickCommandGroup ℕ)
    → List (QuickCommandGroup ℕ)
change_group change group_id [] = []
change_group change group_id (g ∷ groups) =
    (if g.id == group_id then change g else g) ∷ change_group change group_id groups

abbrev pub with_name : String → QuickCommandGroup ℕ → QuickCommandGroup ℕ
with_name name group = record group { name = name }

abbrev pub switched : QuickCommandGroup ℕ → QuickCommandGroup ℕ
switched group = record group { visible = not group.visible }

unfoldable pub add_group :
    Locale → QuickBarConfig → String → String → GroupMutationResult × QuickBarConfig
add_group locale q name new_id =
    let trimmed = trim name in
    if trimmed == ""
    then (group_name_required, q)
    else if is_duplicate_group_name locale q.groups trimmed none
    then (group_name_duplicate, q)
    else (
      added new_id,
      record q {
        groups =
            q.groups
            ++ record { id = new_id; name = trimmed; order = length q.groups; visible = false }
              ∷ [];
      },
    )

unfoldable pub rename_group :
    Locale → QuickBarConfig → String → String → GroupMutationResult × QuickBarConfig
rename_group locale q group_id name =
    let trimmed = trim name in
    if trimmed == ""
    then (group_name_required, q)
    else if is_duplicate_group_name locale q.groups trimmed (some group_id)
    then (group_name_duplicate, q)
    else (renamed, record q { groups = change_group (with_name trimmed) group_id q.groups })

-- The commands of a removed group fall back to the default group.
unfoldable pub fall_back : String → List QuickCommandItem → List QuickCommandItem
fall_back group_id [] = []
fall_back group_id (item ∷ items) =
    (if item.group_id == group_id then record item { group_id = default_group_id } else item)
    ∷ fall_back group_id items

unfoldable pub remove_group : QuickBarConfig → String → QuickBarConfig
remove_group q group_id = if group_id == default_group_id then q else record q {
  groups = renumber (keep (λ (g : QuickCommandGroup ℕ). not (g.id == group_id)) q.groups) 0;
  commands = fall_back group_id q.commands;
}

unfoldable pub toggle_group_visible : QuickBarConfig → String → QuickBarConfig
toggle_group_visible q group_id = record q { groups = change_group switched group_id q.groups }

-- The effect that runs when the language changes.
unfoldable pub follow_language : Locale → QuickBarConfig → QuickBarConfig
follow_language locale q = record q {
  groups = change_group (with_name locale.default_group_name) default_group_id q.groups;
}

-- `payload.groupId && groupIds.has(payload.groupId) ? payload.groupId : otherwise`
abbrev pub choose_group : List String → Option String → String → String
choose_group ids none otherwise = otherwise
choose_group ids (some wanted) otherwise =
    if not (wanted == "") && includes ids wanted then wanted else otherwise

unfoldable pub add_command :
    QuickBarConfig → String → String → Option String → String → Option String × QuickBarConfig
add_command q label command group_id new_id =
    let trimmed = trim label in
    if trimmed == "" then (none, q) else (
      some new_id,
      record q {
        commands =
            q.commands
            ++ record {
              id = new_id;
              label = trimmed;
              command = command;
              group_id = choose_group (group_ids q.groups) group_id default_group_id;
            }
              ∷ [];
      },
    )

-- The fields of `Partial<QuickCommandItem>` that are read.
pub record CommandChange : Type 0 where
  pub label : Option String
  pub command : Option String
  pub group_id : Option String

unfoldable pub change_command :
    List String → String → CommandChange → List QuickCommandItem → List QuickCommandItem
change_command ids command_id payload [] = []
change_command ids command_id payload (item ∷ items) =
    (if item.id == command_id
      then record {
        id = item.id;
        label = or_default payload.label item.label;
        command = or_default payload.command item.command;
        group_id = choose_group ids payload.group_id item.group_id;
      }
      else item)
    ∷ change_command ids command_id payload items

unfoldable pub update_command : QuickBarConfig → String → CommandChange → QuickBarConfig
update_command q command_id payload = record q {
  commands = change_command (group_ids q.groups) command_id payload q.commands;
}

-- `new Map(items.map((item) => [item.id, item]))`
unfoldable pub by_id : List QuickCommandItem → Dict QuickCommandItem → Dict QuickCommandItem
by_id [] map = map
by_id (item ∷ items) map = by_id items (put map item.id item)

-- The items of the ids, without those that the map lacks.
unfoldable pub look_up : Dict QuickCommandItem → List String → List QuickCommandItem
look_up map [] = []
look_up map (id ∷ ids) =
    let rest = look_up map ids in elim (get map id) [ none ↦ rest | some item ↦ item ∷ rest ]

-- The last `map` of `reorderCommands`: each place of the group takes the next of the items.
unfoldable pub fill_places :
    String → List QuickCommandItem → List QuickCommandItem → List QuickCommandItem
fill_places group_id [] next = []
fill_places group_id (item ∷ items) next =
    if in_group group_id item
    then elim next [
      | [] ↦ item ∷ fill_places group_id items []
      | first ∷ later ↦ first ∷ fill_places group_id items later
    ]
    else item ∷ fill_places group_id items next

-- `new Set(ids).size === ids.length`
unfoldable pub are_distinct : List String → Bool
are_distinct [] = true
are_distinct (id ∷ ids) = not (includes ids id) && are_distinct ids

unfoldable pub reorder_list : List QuickCommandItem → String → List String → List QuickCommandItem
reorder_list prev group_id wanted =
    let group_commands = keep (in_group group_id) prev in
    if not (eqb (length group_commands) (length wanted))
    then prev
    else if any (λ id. not (includes (command_ids group_commands) id)) wanted
        || not (are_distinct wanted)
    then prev
    else let ordered = look_up (by_id group_commands []) wanted in
      if not (eqb (length ordered) (length group_commands))
      then prev
      else fill_places group_id prev ordered

unfoldable pub reorder_commands : QuickBarConfig → String → List String → QuickBarConfig
reorder_commands q group_id wanted = record q { commands = reorder_list q.commands group_id wanted }

unfoldable pub remove_command : QuickBarConfig → String → QuickBarConfig
remove_command q command_id = record q {
  commands = keep (λ (item : QuickCommandItem). not (item.id == command_id)) q.commands;
}

-- What can happen to the state.
pub data QuickBarAction (N : Type 0) : Type 0 where
  loads : Json N → QuickBarAction N
  follows_language : QuickBarAction N
  shows_group_title : Bool → QuickBarAction N
  adds_group renames_group : String → String → QuickBarAction N
  removes_group toggles_group : String → QuickBarAction N
  adds_command : String → String → Option String → String → QuickBarAction N
  updates_command : String → CommandChange → QuickBarAction N
  reorders_commands : String → List String → QuickBarAction N
  removes_command : String → QuickBarAction N

module _ {N : Type 0} (numbers : Numbers N) (locale : Locale) where
  unfoldable pub quick_bar_step : QuickBarConfig → QuickBarAction N → QuickBarConfig
  quick_bar_step q (loads parsed) = normalize_config numbers locale parsed
  quick_bar_step q follows_language = follow_language locale q
  quick_bar_step q (shows_group_title shown) = record q { show_group_title = shown }
  quick_bar_step q (adds_group name new_id) = (add_group locale q name new_id).1
  quick_bar_step q (renames_group group_id name) = (rename_group locale q group_id name).1
  quick_bar_step q (removes_group group_id) = remove_group q group_id
  quick_bar_step q (toggles_group group_id) = toggle_group_visible q group_id
  quick_bar_step q (adds_command label command group_id new_id) =
      (add_command q label command group_id new_id).1
  quick_bar_step q (updates_command command_id payload) = update_command q command_id payload
  quick_bar_step q (reorders_commands group_id wanted) = reorder_commands q group_id wanted
  quick_bar_step q (removes_command command_id) = remove_command q command_id
