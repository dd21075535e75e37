-- ===== src/Workspace/Grouping/Moves.antt =====
-- What each operation on the groups does to the entries of every session and to the group ids.
use fluxterm.Base.{
  ℕ, ◌+◌, ◌*◌, ◌≤◌, ◌<◌, String, true, ◌≡◌, refl, ap, List, [], ◌∷◌, map, same, arith, keep, all,
}
use fluxterm.Workspace.Tree.{replace_in_list}
use fluxterm.Workspace.Reshape.{without}
use fluxterm.Workspace.Groups.{
  SessionGroup, default_session_group_id, ensure_default_session_group, cleanup_session_groups,
  with_sessions, remove_session_from_all_groups, concat_in_group, move_session_to_group,
  append_session_to_default_group, remove_session_from_groups, replace_session_id_in_groups,
}
use fluxterm.Workspace.Grouping.{
  grouped, group_count, ensure_default_self, is_kept, grouped-without, grouped-replace,
  grouped-concat, group_count-concat, group_count-with_sessions, grouped-cleanup,
  group_count-cleanup-le, group_count-cleanup_default,
}

-- There is one default group, no id stands twice, and only the default group may be empty.
pub record AreGroupsSound (gs : List SessionGroup) : Type 0 where
  pub default_once : group_count default_session_group_id gs ≡ 1
  pub ids_unique : (i : String) → group_count i gs ≤ 1
  pub none_empty : all is_kept gs ≡ true

all-keep : (gs : List SessionGroup) → all is_kept (keep is_kept gs) ≡ true
all-keep [] = refl
all-keep (g ∷ gs) = ground (arith, all-keep gs)

pub cleanup-AreGroupsSound :
    (gs : List SessionGroup)
    → group_count default_session_group_id gs ≡ 1
    → ((i : String) → group_count i gs ≤ 1)
    → AreGroupsSound (cleanup_session_groups gs)
cleanup-AreGroupsSound gs once unique = record {
  default_once = omega (arith, group_count-cleanup_default gs (omega arith));
  ids_unique = λ i. omega (arith, group_count-cleanup-le gs (omega arith) i, unique i);
  none_empty = unfold cleanup_session_groups in all-keep (ensure_default_session_group gs);
}

module _ (gs : List SessionGroup) (sound : AreGroupsSound gs) where
  has_default : 0 < group_count default_session_group_id gs
  has_default = omega (arith, sound.default_once)

  pub grouped-remove_all :
      (s x : String)
      → grouped x (remove_session_from_all_groups gs s) + same s x * grouped s gs ≡ grouped x gs
  unfolding remove_session_from_all_groups
  grouped-remove_all s x = rw (ensure_default_self gs has_default) (grouped-without s gs x)

  pub group_count-remove_all :
      (s i : String) → group_count i (remove_session_from_all_groups gs s) ≡ group_count i gs
  unfolding remove_session_from_all_groups
  group_count-remove_all s i =
      rw (ensure_default_self gs has_default) (group_count-with_sessions (without s) i gs)

  module _ (g s : String) where
    abbrev moved : List SessionGroup
    moved = map (concat_in_group g s) (remove_session_from_all_groups gs s)

    group_count-moved : (i : String) → group_count i moved ≡ group_count i gs
    group_count-moved i = omega (
      arith,
      group_count-concat g s (remove_session_from_all_groups gs s) i,
      group_count-remove_all s i,
    )

    -- The session moves to the group with id `g`, if there is one; the others stay.
    pub grouped-move :
        (x : String)
        → grouped x (move_session_to_group gs s g) + same s x * grouped s gs
          ≡ grouped x gs + group_count g gs * same s x
    unfolding move_session_to_group
    grouped-move x = omega (
      arith,
      grouped-cleanup moved
          (omega (arith, group_count-moved default_session_group_id, sound.default_once)) x,
      grouped-concat g s (remove_session_from_all_groups gs s) x,
      ap (λ (t : ℕ). t * same s x) (group_count-remove_all s g),
      grouped-remove_all s x,
    )

    pub move-AreGroupsSound : AreGroupsSound (move_session_to_group gs s g)
    unfolding move_session_to_group
    move-AreGroupsSound =
        cleanup-AreGroupsSound moved
          (omega (arith, group_count-moved default_session_group_id, sound.default_once))
          (λ i. omega (arith, group_count-moved i, sound.ids_unique i))

  append_default-eq :
      (s : String)
      → append_session_to_default_group gs s ≡ move_session_to_group gs s default_session_group_id
  unfolding append_session_to_default_group move_session_to_group
  append_default-eq s = refl

  -- A session that is attached stands in the default group alone.
  pub grouped-append_default :
      (s x : String)
      → grouped x (append_session_to_default_group gs s) + same s x * grouped s gs
        ≡ grouped x gs + same s x
  grouped-append_default s x = rw append_default-eq (
      omega (
        arith,
        grouped-move default_session_group_id s x,
        ap (λ (t : ℕ). t * same s x) sound.default_once,
      ))

  pub append_default-AreGroupsSound :
      (s : String) → AreGroupsSound (append_session_to_default_group gs s)
  append_default-AreGroupsSound s =
      rw append_default-eq (move-AreGroupsSound default_session_group_id s)

  pub grouped-remove :
      (s x : String)
      → grouped x (remove_session_from_groups gs s) + same s x * grouped s gs ≡ grouped x gs
  unfolding remove_session_from_groups
  grouped-remove s x = omega (
    arith,
    grouped-cleanup (remove_session_from_all_groups gs s)
        (omega (arith, group_count-remove_all s default_session_group_id, sound.default_once)) x,
    grouped-remove_all s x,
  )

  pub remove-AreGroupsSound : (s : String) → AreGroupsSound (remove_session_from_groups gs s)
  unfolding remove_session_from_groups
  remove-AreGroupsSound s =
      cleanup-AreGroupsSound (remove_session_from_all_groups gs s)
        (omega (arith, group_count-remove_all s default_session_group_id, sound.default_once))
        (λ i. omega (arith, group_count-remove_all s i, sound.ids_unique i))

  module _ (o n : String) where
    abbrev replaced : List SessionGroup
    replaced = map (with_sessions (replace_in_list o n)) gs

    group_count-replaced : (i : String) → group_count i replaced ≡ group_count i gs
    group_count-replaced i = group_count-with_sessions (replace_in_list o n) i gs

    replace-eq : replace_session_id_in_groups gs o n ≡ cleanup_session_groups replaced
    unfolding replace_session_id_in_groups
    replace-eq =
        ap
          (λ (t : List SessionGroup).
            cleanup_session_groups (map (with_sessions (replace_in_list o n)) t))
          (ensure_default_self gs has_default)

    pub grouped-replace_in_groups :
        (x : String)
        → grouped x (replace_session_id_in_groups gs o n) + same o x * grouped o gs
          ≡ grouped x gs + same n x * grouped o gs
    grouped-replace_in_groups x = rw replace-eq (
        omega (
          arith,
          grouped-cleanup replaced
              (omega (arith, group_count-replaced default_session_group_id, sound.default_once)) x,
          grouped-replace o n gs x,
        ))

    pub replace-AreGroupsSound : AreGroupsSound (replace_session_id_in_groups gs o n)
    replace-AreGroupsSound = rw replace-eq (
        cleanup-AreGroupsSound replaced
          (omega (arith, group_count-replaced default_session_group_id, sound.default_once))
          (λ i. omega (arith, group_count-replaced i, sound.ids_unique i)))
