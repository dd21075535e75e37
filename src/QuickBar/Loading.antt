-- ===== src/QuickBar/Loading.antt =====
-- What `normalizeConfig` makes of a stored configuration is well formed.
use fluxterm.Base.{
  ℕ, ◌+◌, ◌≤◌, ◌<◌, ◌≡◌, refl, ap, ◌∙◌, String, true, ◌==◌, ◌||◌, List, [], ◌∷◌, if◌then◌else◌, any,
  count, same, same_self, same_le, eq_iff, includes, arith, Bool-cases, inl, inr, All,
  count→includes, includes→count, not_includes→count, trim,
}
use fluxterm.Base.Json.{
  Json, null, boolean, number, string, array, object, Numbers, at_key, as_list,
}
use fluxterm.QuickBar.Model.{
  default_group_id, QuickCommandGroup, QuickCommandItem, Locale, group_ids, command_ids, renumber,
  IsGrouped, IsWellFormed, create_default_quick_bar_config,
}
use fluxterm.QuickBar.Config.{
  valid_group, valid_command, keep_valid, from_legacy, dedupe_groups, with_default_group, insert,
  sort, dedupe_commands, normalize_object, normalize_config,
}
use fluxterm.QuickBar.Ids.{group_ids-renumber, renumber-IsNumbered}

module _ {N : Type 0} (numbers : Numbers N) (locale : Locale) where
  count-insert :
      (g : QuickCommandGroup N) (groups : List (QuickCommandGroup N)) (x : String)
      → count x (group_ids (insert numbers locale g groups))
        ≡ same g.id x + count x (group_ids groups)
  unfolding count insert
  count-insert g [] x = omega arith
  count-insert g (other ∷ rest) x = ground (arith, count-insert g rest x)

  count-sort :
      (groups : List (QuickCommandGroup N)) (x : String)
      → count x (group_ids (sort numbers locale groups)) ≡ count x (group_ids groups)
  unfolding count sort
  count-sort [] x = refl
  count-sort (g ∷ groups) x =
      omega (arith, count-insert g (sort numbers locale groups) x, count-sort groups x)

  dedupe_groups_seen :
      (groups : List (QuickCommandGroup N)) (i : ℕ) (seen : List String) (x : String)
      → includes seen x ≡ true
      → count x (group_ids (dedupe_groups numbers locale groups i seen)) ≡ 0
  unfolding count same dedupe_groups
  dedupe_groups_seen [] i seen x h = refl
  dedupe_groups_seen (g ∷ groups) i seen x h =
      let id = from_legacy (trim g.id) in
      ground (
        arith,
        dedupe_groups_seen groups (i + 1) seen x h,
        dedupe_groups_seen groups (i + 1) (id ∷ seen) x,
        eq_iff id x,
      )

  dedupe_groups_once :
      (groups : List (QuickCommandGroup N)) (i : ℕ) (seen : List String) (x : String)
      → count x (group_ids (dedupe_groups numbers locale groups i seen)) ≤ 1
  unfolding count same dedupe_groups
  dedupe_groups_once [] i seen x = omega arith
  dedupe_groups_once (g ∷ groups) i seen x =
      let id = from_legacy (trim g.id) in
      ground (
        arith,
        dedupe_groups_once groups (i + 1) seen x,
        dedupe_groups_once groups (i + 1) (id ∷ seen) x,
        dedupe_groups_seen groups (i + 1) (id ∷ seen) x,
      )

is_there :
    {N : Type 0} (groups : List (QuickCommandGroup N)) (x : String)
    → any (λ (group : QuickCommandGroup N). group.id == x) groups ≡ includes (group_ids groups) x
is_there [] x = refl
is_there (g ∷ groups) x = ap (λ b. g.id == x || b) (is_there groups x)

dedupe_commands_seen :
    (allowed : List String) (items : List QuickCommandItem) (seen : List String) (x : String)
    → includes seen x ≡ true
    → count x (command_ids (dedupe_commands allowed items seen)) ≡ 0
unfolding count same dedupe_commands
dedupe_commands_seen allowed [] seen x h = refl
dedupe_commands_seen allowed (c ∷ items) seen x h = ground (
  arith,
  dedupe_commands_seen allowed items seen x h,
  dedupe_commands_seen allowed items (c.id ∷ seen) x,
  eq_iff c.id x,
)

dedupe_commands_once :
    (allowed : List String) (items : List QuickCommandItem) (seen : List String) (x : String)
    → count x (command_ids (dedupe_commands allowed items seen)) ≤ 1
unfolding count same dedupe_commands
dedupe_commands_once allowed [] seen x = omega arith
dedupe_commands_once allowed (c ∷ items) seen x = ground (
  arith,
  dedupe_commands_once allowed items seen x,
  dedupe_commands_once allowed items (c.id ∷ seen) x,
  dedupe_commands_seen allowed items (c.id ∷ seen) x,
)

chosen_is_there :
    (allowed : List String) (x : String)
    → includes allowed default_group_id ≡ true
    → includes allowed (if includes allowed x then x else default_group_id) ≡ true
chosen_is_there allowed x h = elim (Bool-cases (includes allowed x)) [
  | inl there ↦ rw there there
  | inr missing ↦ rw missing h
]

dedupe_commands_grouped :
    (allowed : List String) (items : List QuickCommandItem) (seen : List String)
    → includes allowed default_group_id ≡ true
    → All (IsGrouped allowed) (dedupe_commands allowed items seen)
unfolding dedupe_commands
dedupe_commands_grouped allowed [] seen h = tt
dedupe_commands_grouped allowed (c ∷ items) seen h = elim (Bool-cases (includes seen c.id)) [
  | inl there ↦ rw there (dedupe_commands_grouped allowed items seen h)
  | inr fresh ↦ rw fresh (
    chosen_is_there allowed (from_legacy c.group_id) h,
    dedupe_commands_grouped allowed items (c.id ∷ seen) h,
  )
]

module _ {N : Type 0} (numbers : Numbers N) (locale : Locale) where
  with_default_once :
      (groups : List (QuickCommandGroup N)) (x : String)
      → count x (group_ids groups) ≤ 1
      → count x (group_ids (with_default_group numbers locale groups)) ≤ 1
  unfolding count same with_default_group
  with_default_once groups x once = rw (is_there groups default_group_id) (
      ground (
        arith,
        once,
        eq_iff default_group_id x,
        not_includes→count (group_ids groups) default_group_id,
      ))

  with_default_there :
      (groups : List (QuickCommandGroup N))
      → 0 < count default_group_id (group_ids (with_default_group numbers locale groups))
  unfolding count with_default_group
  with_default_there groups = rw (is_there groups default_group_id) (
      ground
        (arith, same_self default_group_id, includes→count (group_ids groups) default_group_id))

  normalize_object-IsWellFormed :
      (parsed : Json N) → IsWellFormed (normalize_object numbers locale parsed)
  unfolding normalize_object
  normalize_object-IsWellFormed parsed =
      let raw_groups = keep_valid valid_group (as_list (at_key parsed "groups")) in
      let deduped = dedupe_groups numbers locale raw_groups 0 [] in
      let complete = with_default_group numbers locale deduped in
      let groups = renumber (sort numbers locale complete) 0 in
      let raw_commands = keep_valid valid_command (as_list (at_key parsed "commands")) in
      let same_count : (x : String) → count x (group_ids groups) ≡ count x (group_ids complete) =
        λ x.
          ap (count x) (group_ids-renumber (sort numbers locale complete) 0)
          ∙ count-sort numbers locale complete x in
      let once : (x : String) → count x (group_ids complete) ≤ 1 =
        λ x. with_default_once deduped x (dedupe_groups_once numbers locale raw_groups 0 [] x) in
      let there : 0 < count default_group_id (group_ids groups) =
        omega (arith, same_count default_group_id, with_default_there deduped) in
      record {
        default_once = omega (arith, there, same_count default_group_id, once default_group_id);
        groups_once = λ x. omega (arith, same_count x, once x);
        numbered = renumber-IsNumbered (sort numbers locale complete) 0;
        commands_once = λ x. dedupe_commands_once (group_ids groups) raw_commands [] x;
        grouped =
            dedupe_commands_grouped (group_ids groups) raw_commands []
              (count→includes (group_ids groups) default_group_id there);
      }

  pub default-IsWellFormed : IsWellFormed (create_default_quick_bar_config locale)
  unfolding create_default_quick_bar_config count
  default-IsWellFormed = record {
    default_once = omega (arith, same_self default_group_id);
    groups_once = λ x. omega (arith, same_le default_group_id x);
    numbered = (refl, tt);
    commands_once = λ x. omega arith;
    grouped = tt;
  }

  -- Whatever value a stored configuration is, the configuration that is made of it is well formed.
  pub normalize_config-IsWellFormed :
      (value : Json N) → IsWellFormed (normalize_config numbers locale value)
  unfolding normalize_config
  normalize_config-IsWellFormed (array items) = normalize_object-IsWellFormed (array items)
  normalize_config-IsWellFormed (object fields) = normalize_object-IsWellFormed (object fields)
  normalize_config-IsWellFormed null = default-IsWellFormed
  normalize_config-IsWellFormed (boolean b) = default-IsWellFormed
  normalize_config-IsWellFormed (number n) = default-IsWellFormed
  normalize_config-IsWellFormed (string s) = default-IsWellFormed
