-- ===== src/QuickBar/Reordering.antt =====
-- `reorderCommands`: which ids it takes, and what it changes.
use fluxterm.Base.{
  eqb, ◌≤◌, ◌≡◌, refl, ap, ◌∙◌, sym, String, true, false, not, ◌==◌, ◌||◌, List, [], ◌∷◌, some,
  if◌then◌else◌, any, count, same, same_self, eq_iff, eq_refl, includes, includes→count, is_some,
  Option-cases, arith, Bool-cases, inl, inr, ◌⊎◌, keep, length, not_includes→count,
}
use fluxterm.Base.Dict.{Dict, get, put, get-put, get-empty}
use fluxterm.QuickBar.Model.{QuickBarConfig, QuickCommandItem, command_ids}
use fluxterm.QuickBar.Actions.{
  reorder_list, reorder_commands, in_group, by_id, look_up, fill_places, are_distinct,
}
use fluxterm.QuickBar.Places.{
  AllIn, outside, group_places, keep-AllIn, keep-fill_places, outside-fill_places,
  group_places-fill_places,
}

-- Every command of the map stands under its id and is in the group.
abbrev IsSound : String → Dict QuickCommandItem → Type 0
IsSound group_id found =
    (id : String) (c : QuickCommandItem)
    → get found id ≡ some c
    → (c.id ≡ id) × (c.group_id == group_id ≡ true)

put-IsSound :
    (group_id : String) (found : Dict QuickCommandItem) (c : QuickCommandItem)
    → c.group_id == group_id ≡ true
    → IsSound group_id found
    → IsSound group_id (put found c.id c)
put-IsSound group_id found c here sound id d e =
    let step : (if c.id == id then some c else get found id) ≡ some d =
      sym (get-put found c.id id c) ∙ e in
    elim (Bool-cases (c.id == id)) [
      | inl this ↦
          let same_item : c ≡ d = ground (arith, step, this) in
          rw (← same_item) (ground (arith, eq_iff c.id id, this), here)
      | inr other ↦ sound id d (ground (arith, step, other))
    ]

by_id-IsSound :
    (group_id : String) (items : List QuickCommandItem) (found : Dict QuickCommandItem)
    → AllIn group_id items
    → IsSound group_id found
    → IsSound group_id (by_id items found)
unfolding by_id
by_id-IsSound group_id [] found h sound = sound
by_id-IsSound group_id (c ∷ items) found (here, h) sound =
    by_id-IsSound group_id items (put found c.id c) h (put-IsSound group_id found c here sound)

is_some-by_id :
    (items : List QuickCommandItem) (found : Dict QuickCommandItem) (id : String)
    → is_some (get (by_id items found) id)
      ≡ (is_some (get found id) || includes (command_ids items) id)
unfolding by_id
is_some-by_id [] found id = ground arith
is_some-by_id (c ∷ items) found id =
    ground (arith, is_some-by_id items (put found c.id c) id, get-put found c.id id c)

look_up-AllIn :
    (group_id : String) (found : Dict QuickCommandItem) (ids : List String)
    → IsSound group_id found
    → AllIn group_id (look_up found ids)
unfolding look_up
look_up-AllIn group_id found [] sound = tt
look_up-AllIn group_id found (id ∷ ids) sound = elim (Option-cases (get found id)) [
  | inl missing ↦ rw (missing, look_up) (look_up-AllIn group_id found ids sound)
  | inr (c, there) ↦
      rw (there, look_up) ((sound id c there).1, look_up-AllIn group_id found ids sound)
]

command_ids-look_up :
    (group_id : String) (found : Dict QuickCommandItem) (ids : List String)
    → IsSound group_id found
    → ((id : String) → includes ids id ≡ true → is_some (get found id) ≡ true)
    → command_ids (look_up found ids) ≡ ids
unfolding look_up
command_ids-look_up group_id found [] sound all_there = refl
command_ids-look_up group_id found (id ∷ ids) sound all_there =
    let later =
      command_ids-look_up group_id found ids sound (λ x h. all_there x (ground (arith, h))) in
    elim (Option-cases (get found id)) [
      | inl missing ↦ absurd (ground (arith, missing, all_there id, eq_refl id))
      | inr (c, there) ↦ rw (there, look_up, (sound id c there).0) (ap (λ rest. id ∷ rest) later)
    ]

length-command_ids : (items : List QuickCommandItem) → length (command_ids items) ≡ length items
length-command_ids [] = refl
length-command_ids (c ∷ items) = omega (arith, length-command_ids items)

no_stranger :
    (known ids : List String)
    → any (λ id. not (includes known id)) ids ≡ false
    → (id : String) → includes ids id ≡ true
    → includes known id ≡ true
no_stranger known [] h id there = ground arith
no_stranger known (x ∷ ids) h id there =
    let rest_known : any (λ y. not (includes known y)) ids ≡ false = ground (arith, h) in
    ground (arith, no_stranger known ids rest_known id, eq_iff x id)

no_stranger_back :
    (known ids : List String)
    → ((id : String) → includes ids id ≡ true → includes known id ≡ true)
    → any (λ id. not (includes known id)) ids ≡ false
no_stranger_back known [] h = refl
no_stranger_back known (x ∷ ids) h =
    let later = no_stranger_back known ids (λ id there. h id (ground (arith, there))) in
    ground (arith, later, h x, eq_refl x)

pub are_distinct→once : (ids : List String) (x : String) → are_distinct ids ≡ true → count x ids ≤ 1
unfolding are_distinct count same
are_distinct→once [] x h = omega arith
are_distinct→once (id ∷ ids) x h =
    ground (arith, are_distinct→once ids x, not_includes→count ids x, eq_iff id x)

once→are_distinct : (ids : List String) → ((x : String) → count x ids ≤ 1) → are_distinct ids ≡ true
unfolding are_distinct count
once→are_distinct [] h = refl
once→are_distinct (id ∷ ids) h =
    let later = once→are_distinct ids (λ x. omega (arith, h x)) in
    ground (arith, later, h id, same_self id, includes→count ids id)

module _ (prev : List QuickCommandItem) (group_id : String) (wanted : List String) where
  abbrev pub group_commands : List QuickCommandItem
  group_commands = keep (in_group group_id) prev

  abbrev pub ordered : List QuickCommandItem
  ordered = look_up (by_id group_commands []) wanted

  by_id_lem : IsSound group_id (by_id group_commands [])
  by_id_lem =
      by_id-IsSound group_id group_commands [] (keep-AllIn group_id prev)
        (λ id c e. absurd (ground (arith, e, get-empty {V = QuickCommandItem} id)))

  -- The commands are found for ids that are all in the group.
  ordered_ids :
      ((id : String) → includes wanted id ≡ true → includes (command_ids group_commands) id ≡ true)
      → command_ids ordered ≡ wanted
  ordered_ids known =
      command_ids-look_up group_id (by_id group_commands []) wanted by_id_lem
        (λ id there. is_some-by_id group_commands [] id ∙ ground (arith, known id there))

  pub ordered-AllIn : AllIn group_id ordered
  ordered-AllIn = look_up-AllIn group_id (by_id group_commands []) wanted by_id_lem

  -- Where the ids are the group's, each of them once, the code's tests let them pass.
  reorders :
      length wanted ≡ length group_commands
      → ((id : String)
          → includes wanted id ≡ true
          → includes (command_ids group_commands) id ≡ true)
      → ((id : String) → count id wanted ≤ 1)
      → reorder_list prev group_id wanted ≡ fill_places group_id prev ordered
  unfolding reorder_list
  reorders e known once =
      let none_strange = no_stranger_back (command_ids group_commands) wanted known in
      let distinct = once→are_distinct wanted once in
      let lengths : length ordered ≡ length group_commands =
        omega (arith, e, length-command_ids ordered, ap length (ordered_ids known)) in
      let same_length : eqb (length group_commands) (length wanted) ≡ true = ground (arith, e) in
      let same_found : eqb (length ordered) (length group_commands) ≡ true =
        ground (arith, lengths) in
      rw (same_length, none_strange, distinct, same_found, reorder_list) refl

  -- Either the list stays, or it was filled with the group's commands in the order of the ids.
  pub reorder_list-cases :
      (reorder_list prev group_id wanted ≡ prev)
      ⊎ ((reorder_list prev group_id wanted ≡ fill_places group_id prev ordered)
          × (command_ids ordered ≡ wanted)
          × (length ordered ≡ length group_commands)
          × ((id : String) → count id wanted ≤ 1)
          × ((id : String)
              → includes wanted id ≡ true
              → includes (command_ids group_commands) id ≡ true))
  unfolding reorder_list
  reorder_list-cases = elim (Bool-cases (eqb (length group_commands) (length wanted))) [
    | inr unequal ↦ inl (rw (unequal, reorder_list) refl)
    | inl same_length ↦
        elim (Bool-cases (any (λ id. not (includes (command_ids group_commands) id)) wanted)) [
          | inl strange ↦ inl (rw (same_length, strange, reorder_list) refl)
          | inr none_strange ↦ elim (Bool-cases (are_distinct wanted)) [
            | inr twice ↦ inl (rw (same_length, none_strange, twice, reorder_list) refl)
            | inl distinct ↦
                let known = no_stranger (command_ids group_commands) wanted none_strange in
                let once : (id : String) → count id wanted ≤ 1 =
                  λ id. are_distinct→once wanted id distinct in
                let e : length wanted ≡ length group_commands = ground (arith, same_length) in
                inr (
                  reorders e known once,
                  ordered_ids known,
                  omega (arith, e, length-command_ids ordered, ap length (ordered_ids known)),
                  once,
                  known,
                )
          ]
        ]
  ]

-- Where the ids are those of the group's commands, each of them once, the group's commands stand
-- in the order of the ids, and the places of the groups and the other groups' commands are as
-- they were.
pub reorder_commands_lem :
    (q : QuickBarConfig) (group_id : String) (wanted : List String)
    → length wanted ≡ length (keep (in_group group_id) q.commands)
    → ((id : String)
        → includes wanted id ≡ true
        → includes (command_ids (keep (in_group group_id) q.commands)) id ≡ true)
    → ((id : String) → count id wanted ≤ 1)
    → let after = (reorder_commands q group_id wanted).commands in
      (command_ids (keep (in_group group_id) after) ≡ wanted)
      × (outside group_id after ≡ outside group_id q.commands)
      × (group_places after ≡ group_places q.commands)
unfolding reorder_commands
reorder_commands_lem q group_id wanted e known once =
    let next = ordered q.commands group_id wanted in
    let next_in = ordered-AllIn q.commands group_id wanted in
    let ids = ordered_ids q.commands group_id wanted known in
    rw (reorders q.commands group_id wanted e known once) (
      ap command_ids (
            keep-fill_places group_id q.commands next next_in
              (omega (arith, e, length-command_ids next, ap length ids)))
          ∙ ids,
      outside-fill_places group_id q.commands next next_in,
      group_places-fill_places group_id q.commands next next_in,
    )
