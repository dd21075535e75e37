-- ===== src/QuickBar/Steps.antt =====
-- Every operation of the quick command bar keeps its state well formed, and so does any sequence of
-- them.
use fluxterm.Base.{
  length, ◌+◌, ◌≤◌, ◌≡◌, refl, ap, String, Bool, true, false, not, ◌==◌, List, [], ◌∷◌, count,
  includes, not_includes→count, includes→count, arith, Bool-cases, inl, inr, All, keep,
}
use fluxterm.Base.Json.{Numbers}
use fluxterm.QuickBar.Model.{
  default_group_id, QuickCommandItem, QuickBarConfig, Locale, group_ids, command_ids, IsGrouped,
  IsWellFormed, create_default_quick_bar_config,
}
use fluxterm.QuickBar.Actions.{
  in_group, with_name, switched, toggle_group_visible, follow_language, CommandChange,
  change_command, update_command, fill_places, reorder_list, reorder_commands, remove_command,
  QuickBarAction, loads, follows_language, shows_group_title, adds_group, renames_group,
  removes_group, toggles_group, adds_command, updates_command, reorders_commands, removes_command,
  quick_bar_step,
}
use fluxterm.QuickBar.Ids.{count-keep_command-le, count-keep_split}
use fluxterm.QuickBar.Places.{
  group_places, outside, keep-fill_places, outside-fill_places, group_places-fill_places,
}
use fluxterm.QuickBar.Reordering.{group_commands, ordered, ordered-AllIn, reorder_list-cases}
use fluxterm.QuickBar.Loading.{normalize_config-IsWellFormed, default-IsWellFormed}
use fluxterm.QuickBar.Invariant.{
  change_group-IsWellFormed, add_group-IsWellFormed, rename_group-IsWellFormed,
}
use fluxterm.QuickBar.Placing.{
  remove_group-IsWellFormed, add_command-IsWellFormed, choose_group_there,
}

change_command_ids :
    (ids : List String) (id : String) (payload : CommandChange) (items : List QuickCommandItem)
    → command_ids (change_command ids id payload items) ≡ command_ids items
unfolding change_command
change_command_ids ids id payload [] = refl
change_command_ids ids id payload (c ∷ items) =
    let later = change_command_ids ids id payload items in
    elim (Bool-cases (c.id == id)) [
      | inl this ↦ rw this (ap (λ rest. c.id ∷ rest) later)
      | inr other ↦ rw other (ap (λ rest. c.id ∷ rest) later)
    ]

change_command-IsGrouped :
    (ids : List String) (id : String) (payload : CommandChange) (items : List QuickCommandItem)
    → All (IsGrouped ids) items
    → All (IsGrouped ids) (change_command ids id payload items)
unfolding change_command
change_command-IsGrouped ids id payload [] g = tt
change_command-IsGrouped ids id payload (c ∷ items) (here, g) =
    let later = change_command-IsGrouped ids id payload items g in
    elim (Bool-cases (c.id == id)) [
      | inl this ↦ rw this (choose_group_there ids payload.group_id c.group_id here, later)
      | inr other ↦ rw other (here, later)
    ]

update_command-IsWellFormed :
    (q : QuickBarConfig) (id : String) (payload : CommandChange)
    → IsWellFormed q
    → IsWellFormed (update_command q id payload)
unfolding update_command
update_command-IsWellFormed q id payload w = record {
  default_once = w.default_once;
  groups_once = w.groups_once;
  numbered = w.numbered;
  commands_once =
      λ x. rw (change_command_ids (group_ids q.groups) id payload q.commands) (w.commands_once x);
  grouped = change_command-IsGrouped (group_ids q.groups) id payload q.commands w.grouped;
}

-- Whether commands are grouped depends on their places only.
places_of :
    (ids : List String) (items : List QuickCommandItem)
    → All (IsGrouped ids) items
    → All (λ (x : String). includes ids x ≡ true) (group_places items)
places_of ids [] g = tt
places_of ids (c ∷ items) (here, g) = (here, places_of ids items g)

grouped_of :
    (ids : List String) (items : List QuickCommandItem)
    → All (λ (x : String). includes ids x ≡ true) (group_places items)
    → All (IsGrouped ids) items
grouped_of ids [] g = tt
grouped_of ids (c ∷ items) (here, g) = (here, grouped_of ids items g)

reorder_list-IsGrouped :
    (ids : List String) (items : List QuickCommandItem) (group_id : String) (wanted : List String)
    → All (IsGrouped ids) items
    → All (IsGrouped ids) (reorder_list items group_id wanted)
reorder_list-IsGrouped ids items group_id wanted g =
    let next = ordered items group_id wanted in
    elim (reorder_list-cases items group_id wanted) [
      | inl same_list ↦ rw same_list g
      | inr (filled, _, _, _, _) ↦ rw filled (
          grouped_of ids (fill_places group_id items next) (
            rw (group_places-fill_places group_id items next (ordered-AllIn items group_id wanted))
              (places_of ids items g)))
    ]

-- A command id is as often in a filled list as in the filled places and outside of them.
count-fill_places :
    (group_id : String) (items : List QuickCommandItem) (wanted : List String) (x : String)
    → let next = ordered items group_id wanted in
      command_ids next ≡ wanted
      → length next ≡ length (group_commands items group_id wanted)
      → count x (command_ids (fill_places group_id items next))
        ≡ count x wanted + count x (command_ids (outside group_id items))
count-fill_places group_id items wanted x e l =
    let next = ordered items group_id wanted in
    let next_in = ordered-AllIn items group_id wanted in
    let filled = fill_places group_id items next in
    omega (
      arith,
      count-keep_split (in_group group_id) filled x,
      ap (λ rest. count x (command_ids rest)) (keep-fill_places group_id items next next_in l),
      ap (λ rest. count x (command_ids rest)) (outside-fill_places group_id items next next_in),
      ap (count x) e,
    )

reorder_list-once :
    (items : List QuickCommandItem) (group_id : String) (wanted : List String) (x : String)
    → count x (command_ids items) ≤ 1
    → count x (command_ids (reorder_list items group_id wanted)) ≤ 1
reorder_list-once items group_id wanted x once = elim (reorder_list-cases items group_id wanted) [
  | inl same_list ↦ rw same_list once
  | inr (filled, e, l, wanted_once, known) ↦
      let outside_none : includes wanted x ≡ true
          → count x (command_ids (outside group_id items)) ≡ 0 =
        λ there. omega (
          arith,
          includes→count (command_ids (group_commands items group_id wanted)) x (known x there),
          count-keep_split (in_group group_id) items x,
          once,
        ) in
      let inside_none = not_includes→count wanted x in
      rw filled (
        ground (
          arith,
          count-fill_places group_id items wanted x e l,
          wanted_once x,
          outside_none,
          inside_none,
          count-keep_split (in_group group_id) items x,
          once,
        ))
]

reorder_commands-IsWellFormed :
    (q : QuickBarConfig) (group_id : String) (wanted : List String)
    → IsWellFormed q
    → IsWellFormed (reorder_commands q group_id wanted)
unfolding reorder_commands
reorder_commands-IsWellFormed q group_id wanted w = record {
  default_once = w.default_once;
  groups_once = w.groups_once;
  numbered = w.numbered;
  commands_once = λ x. reorder_list-once q.commands group_id wanted x (w.commands_once x);
  grouped = reorder_list-IsGrouped (group_ids q.groups) q.commands group_id wanted w.grouped;
}

keep-IsGrouped :
    (p : QuickCommandItem → Bool) (ids : List String) (items : List QuickCommandItem)
    → All (IsGrouped ids) items
    → All (IsGrouped ids) (keep p items)
keep-IsGrouped p ids [] g = tt
keep-IsGrouped p ids (c ∷ items) (here, g) = elim (Bool-cases (p c)) [
  | inl kept ↦ rw kept (here, keep-IsGrouped p ids items g)
  | inr dropped ↦ rw dropped (keep-IsGrouped p ids items g)
]

remove_command-IsWellFormed :
    (q : QuickBarConfig) (id : String) → IsWellFormed q → IsWellFormed (remove_command q id)
unfolding remove_command
remove_command-IsWellFormed q id w =
    let p = λ (item : QuickCommandItem). not (item.id == id) in
    record {
      default_once = w.default_once;
      groups_once = w.groups_once;
      numbered = w.numbered;
      commands_once = λ x. omega (arith, count-keep_command-le p q.commands x, w.commands_once x);
      grouped = keep-IsGrouped p (group_ids q.groups) q.commands w.grouped;
    }

module _ {N : Type 0} (numbers : Numbers N) (locale : Locale) where
  -- Ids that `createId` makes are new.
  abbrev pub IsFresh : QuickBarConfig → QuickBarAction N → Type 0
  IsFresh q (adds_group name new_id) = includes (group_ids q.groups) new_id ≡ false
  IsFresh q (adds_command label command group_id new_id) =
      includes (command_ids q.commands) new_id ≡ false
  IsFresh q action = Unit

  quick_bar_step-IsWellFormed :
      (q : QuickBarConfig) (action : QuickBarAction N)
      → IsFresh q action
      → IsWellFormed q
      → IsWellFormed (quick_bar_step numbers locale q action)
  unfolding quick_bar_step toggle_group_visible follow_language
  quick_bar_step-IsWellFormed q (loads parsed) f w =
      normalize_config-IsWellFormed numbers locale parsed
  quick_bar_step-IsWellFormed q follows_language f w =
      change_group-IsWellFormed (with_name locale.default_group_name) default_group_id q (λ g. refl)
        (λ g. refl) w
  quick_bar_step-IsWellFormed q (shows_group_title shown) f w = record {
    default_once = w.default_once;
    groups_once = w.groups_once;
    numbered = w.numbered;
    commands_once = w.commands_once;
    grouped = w.grouped;
  }
  quick_bar_step-IsWellFormed q (adds_group name new_id) f w =
      add_group-IsWellFormed locale q name new_id f w
  quick_bar_step-IsWellFormed q (renames_group group_id name) f w =
      rename_group-IsWellFormed locale q group_id name w
  quick_bar_step-IsWellFormed q (removes_group group_id) f w =
      remove_group-IsWellFormed q group_id w
  quick_bar_step-IsWellFormed q (toggles_group group_id) f w =
      change_group-IsWellFormed switched group_id q (λ g. refl) (λ g. refl) w
  quick_bar_step-IsWellFormed q (adds_command label command group_id new_id) f w =
      add_command-IsWellFormed q label command group_id new_id f w
  quick_bar_step-IsWellFormed q (updates_command id payload) f w =
      update_command-IsWellFormed q id payload w
  quick_bar_step-IsWellFormed q (reorders_commands group_id wanted) f w =
      reorder_commands-IsWellFormed q group_id wanted w
  quick_bar_step-IsWellFormed q (removes_command id) f w = remove_command-IsWellFormed q id w

  -- The states of the hook, from the default configuration on.
  pub data IsReachable : QuickBarConfig → Type 0 where
    starts : IsReachable (create_default_quick_bar_config locale)
    steps :
        (q : QuickBarConfig) (action : QuickBarAction N)
        → IsReachable q
        → IsFresh q action
        → IsReachable (quick_bar_step numbers locale q action)

  -- Whatever is loaded and done, with new ids for new groups and commands: the default group
  -- stands once in the list, ids are distinct, the groups are numbered by their places, and each
  -- command is in one of the groups.
  pub IsReachable-IsWellFormed : (q : QuickBarConfig) → IsReachable q → IsWellFormed q
  IsReachable-IsWellFormed q starts = default-IsWellFormed numbers locale
  IsReachable-IsWellFormed q (steps p action r f) =
      quick_bar_step-IsWellFormed p action f (IsReachable-IsWellFormed p r)
