-- ===== src/QuickBar/Placing.antt =====
-- The removing of a group and the adding of a command keep the state of the quick command bar well
-- formed: every command stays in a group that is there.
use fluxterm.Base.{
  ℕ, ◌≡◌, refl, ap, ◌∙◌, String, true, false, not, ◌==◌, ◌&&◌, List, [], ◌∷◌, ◌++◌, Option, some,
  none, if◌then◌else◌, count, count-concat, same_le, same_ne, eq_iff, includes, includes→count,
  count→includes, not_includes→count, arith, Bool-cases, inl, inr, All, keep, trim,
}
use fluxterm.QuickBar.Model.{
  default_group_id, QuickCommandGroup, QuickCommandItem, QuickBarConfig, group_ids, command_ids,
  renumber, IsGrouped, IsWellFormed,
}
use fluxterm.QuickBar.Actions.{fall_back, remove_group, choose_group, add_command}
use fluxterm.QuickBar.Ids.{
  group_ids-renumber, renumber-IsNumbered, command_ids-append, count-keep_group,
}

fall_back_ids :
    (id : String) (items : List QuickCommandItem)
    → command_ids (fall_back id items) ≡ command_ids items
unfolding fall_back
fall_back_ids id [] = refl
fall_back_ids id (c ∷ items) = elim (Bool-cases (c.group_id == id)) [
  | inl this ↦ rw this (ap (λ ids. c.id ∷ ids) (fall_back_ids id items))
  | inr other ↦ rw other (ap (λ ids. c.id ∷ ids) (fall_back_ids id items))
]

-- Ids that hold the default group and every other id but the removed one.
fall_back-IsGrouped :
    (id : String) (ids rest : List String) (items : List QuickCommandItem)
    → includes rest default_group_id ≡ true
    → ((x : String) → (x == id) ≡ false → includes ids x ≡ true → includes rest x ≡ true)
    → All (IsGrouped ids) items
    → All (IsGrouped rest) (fall_back id items)
unfolding fall_back
fall_back-IsGrouped id ids rest [] d h g = tt
fall_back-IsGrouped id ids rest (c ∷ items) d h (here, g) = elim (Bool-cases (c.group_id == id)) [
  | inl this ↦ rw this (d, fall_back-IsGrouped id ids rest items d h g)
  | inr other ↦ rw other (h c.group_id other here, fall_back-IsGrouped id ids rest items d h g)
]

pub remove_group-IsWellFormed :
    (q : QuickBarConfig) (id : String) → IsWellFormed q → IsWellFormed (remove_group q id)
unfolding remove_group
remove_group-IsWellFormed q id w = elim (Bool-cases (id == default_group_id)) [
  | inl default ↦ rw default w
  | inr other ↦
      let kept = keep (λ (g : QuickCommandGroup ℕ). not (g.id == id)) q.groups in
      let counted : (x : String)
          → count x (group_ids (renumber kept 0))
            ≡ (if id == x then 0 else count x (group_ids q.groups)) =
        λ x. ap (count x) (group_ids-renumber kept 0) ∙ count-keep_group q.groups id x in
      let once : count default_group_id (group_ids (renumber kept 0)) ≡ 1 =
        ground (arith, counted default_group_id, other, w.default_once) in
      rw other (record {
        default_once = once;
        groups_once = λ x. ground (arith, counted x, w.groups_once x);
        numbered = renumber-IsNumbered kept 0;
        commands_once = λ x. rw (fall_back_ids id q.commands) (w.commands_once x);
        grouped =
            fall_back-IsGrouped id (group_ids q.groups) (group_ids (renumber kept 0)) q.commands
              (count→includes (group_ids (renumber kept 0)) default_group_id (omega (arith, once)))
              (λ x apart there. count→includes (group_ids (renumber kept 0)) x (
                ground (
                  arith,
                  counted x,
                  apart,
                  eq_iff x id,
                  eq_iff id x,
                  includes→count (group_ids q.groups) x there,
                )))
              w.grouped;
      })
]

pub choose_group_there :
    (ids : List String) (wanted : Option String) (otherwise : String)
    → includes ids otherwise ≡ true
    → includes ids (choose_group ids wanted otherwise) ≡ true
choose_group_there ids none otherwise h = h
choose_group_there ids (some wanted) otherwise h =
    elim (Bool-cases (not (wanted == "") && includes ids wanted)) [
      | inl good ↦ rw good (ground (arith, good))
      | inr bad ↦ rw bad h
    ]

grouped_append :
    (ids : List String) (items : List QuickCommandItem) (c : QuickCommandItem)
    → All (IsGrouped ids) items
    → includes ids c.group_id ≡ true
    → All (IsGrouped ids) (items ++ c ∷ [])
grouped_append ids [] c g h = (h, tt)
grouped_append ids (d ∷ items) c (here, g) h = (here, grouped_append ids items c g h)

default_there :
    (q : QuickBarConfig) → IsWellFormed q → includes (group_ids q.groups) default_group_id ≡ true
default_there q w =
    count→includes (group_ids q.groups) default_group_id (omega (arith, w.default_once))

pub add_command-IsWellFormed :
    (q : QuickBarConfig) (label command : String) (group_id : Option String) (new_id : String)
    → includes (command_ids q.commands) new_id ≡ false
    → IsWellFormed q
    → IsWellFormed (add_command q label command group_id new_id).1
unfolding add_command
add_command-IsWellFormed q label command group_id new_id fresh w =
    elim (Bool-cases (trim label == "")) [
      | inl empty ↦ rw empty w
      | inr named ↦
          let chosen = choose_group (group_ids q.groups) group_id default_group_id in
          let c : QuickCommandItem = record {
            id = new_id;
            label = trim label;
            command = command;
            group_id = chosen;
          } in
          let e = command_ids-append q.commands (c ∷ []) in
          let absent = not_includes→count (command_ids q.commands) new_id fresh in
          rw named (record {
            default_once = w.default_once;
            groups_once = w.groups_once;
            numbered = w.numbered;
            commands_once = λ x. ground (
              arith,
              ap (count x) e ∙ count-concat x (command_ids q.commands) new_id,
              w.commands_once x,
              absent,
              same_le new_id x,
              same_ne new_id x,
              eq_iff new_id x,
            );
            grouped = grouped_append (group_ids q.groups) q.commands c w.grouped (
                choose_group_there (group_ids q.groups) group_id default_group_id
                  (default_there q w));
          })
    ]
