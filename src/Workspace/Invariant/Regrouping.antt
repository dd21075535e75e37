-- ===== src/Workspace/Invariant/Regrouping.antt =====
-- Making a group and moving a session to one keep the workspace well formed.
use fluxterm.Base.{
  trim, ℕ, ◌+◌, ◌*◌, ◌<◌, String, Bool, true, false, ◌==◌, ◌≡◌, refl, ap, Option, none, some, List,
  [], ◌∷◌, ◌++◌, not, ◌||◌, includes→count, same, count, arith, Bool-cases, inl, inr, same_of_ne,
  any,
}
use fluxterm.Workspace.Tree.{SessionPaneNode}
use fluxterm.Workspace.Groups.{
  SessionGroup, default_session_group_id, remove_session_from_all_groups, cleanup_session_groups,
  contains_session_id_in_groups, resolve_session_group_color,
}
use fluxterm.Workspace.Grouping.{
  grouped, group_count, grouped-append, group_count-append, grouped-cleanup,
}
use fluxterm.Workspace.Grouping.Moves.{
  AreGroupsSound, cleanup-AreGroupsSound, grouped-remove_all, group_count-remove_all, grouped-move,
  move-AreGroupsSound,
}
use fluxterm.Workspace.Soundness.{add_fresh}
use fluxterm.Workspace.Reducer.{move_to_group, is_name_taken, create_group}
use fluxterm.Workspace.Invariant.{IsWellFormed, state}

any_group→count :
    (gs : List SessionGroup) (g : String)
    → any (λ (group : SessionGroup). group.id == g) gs ≡ true
    → 0 < group_count g gs
unfolding group_count same
any_group→count [] g h = cc
any_group→count (x ∷ gs) g h = ground (arith, any_group→count gs g)

contains→grouped :
    (gs : List SessionGroup) (x : String)
    → contains_session_id_in_groups gs x ≡ true
    → 0 < grouped x gs
unfolding contains_session_id_in_groups grouped
contains→grouped [] x h = cc
contains→grouped (g ∷ gs) x h =
    ground (arith, includes→count g.session_ids x, contains→grouped gs x)

module _ (gs : List SessionGroup) (sound : AreGroupsSound gs) (new : SessionGroup)
    (free : group_count new.id gs ≡ 0) (x : String) where
  abbrev with_new : List SessionGroup
  with_new = remove_session_from_all_groups gs x ++ new ∷ []

  group_count-with_new : (i : String) → group_count i with_new ≡ group_count i gs + same new.id i
  unfolding group_count
  group_count-with_new i = omega (
    arith,
    group_count-append i (remove_session_from_all_groups gs x) (new ∷ []),
    group_count-remove_all gs sound x i,
  )

  not_default : same new.id default_session_group_id ≡ 0
  not_default =
      same_of_ne new.id default_session_group_id
        (λ e. omega (arith, rw e at free, sound.default_once))

  with_new-AreGroupsSound : AreGroupsSound (cleanup_session_groups with_new)
  with_new-AreGroupsSound =
      cleanup-AreGroupsSound with_new
        (omega
          (arith, group_count-with_new default_session_group_id, not_default, sound.default_once))
        (λ i. omega (
          arith,
          group_count-with_new i,
          add_fresh (λ j. group_count j gs) new.id sound.ids_unique free i,
        ))

  grouped-with_new :
      new.session_ids ≡ x ∷ []
      → grouped x gs ≡ 1
      → (y : String) → grouped y (cleanup_session_groups with_new) ≡ grouped y gs
  unfolding grouped count
  grouped-with_new own once y = omega (
    arith,
    grouped-cleanup with_new
        (omega (arith, group_count-with_new default_session_group_id, sound.default_once)) y,
    grouped-append y (remove_session_from_all_groups gs x) (new ∷ []),
    grouped-remove_all gs sound x y,
    ap (λ (t : ℕ). same x y * t) once,
    ap (count y) own,
  )

second_of_or : (a b : Bool) → (a || not b) ≡ false → b ≡ true
second_of_or a b h = ground arith

module _ {R : Type 0} where
  -- A session that stands in a group stands in one group, once.
  grouped_once :
      (root : Option (SessionPaneNode R)) (active : Option String) (gs : List SessionGroup)
      (x : String)
      → IsWellFormed (state root active gs)
      → contains_session_id_in_groups gs x ≡ true
      → grouped x gs ≡ 1
  grouped_once none active gs x w h = absurd (omega (arith, w.filed x, contains→grouped gs x h))
  grouped_once (some root) none gs x w h = absurd w.tree
  grouped_once (some root) (some a) gs x w h =
      omega (arith, w.filed x, contains→grouped gs x h, w.tree.0.sessions_unique x)

  -- New groups with the same entries for each session keep the state well formed.
  regroup :
      (root : Option (SessionPaneNode R)) (active : Option String) (gs hs : List SessionGroup)
      → IsWellFormed (state root active gs)
      → AreGroupsSound hs
      → ((x : String) → grouped x hs ≡ grouped x gs)
      → IsWellFormed (state root active hs)
  regroup root active gs hs w sound kept = record {
    tree = w.tree;
    groups = sound;
    filed = λ x. omega (arith, kept x, w.filed x);
  }

  pub move-IsWellFormed :
      (root : Option (SessionPaneNode R)) (active : Option String) (gs : List SessionGroup)
      (x g : String)
      → IsWellFormed (state root active gs)
      → IsWellFormed (move_to_group (state root active gs) x g)
  unfolding move_to_group
  move-IsWellFormed root active gs x g w = elim (Bool-cases (contains_session_id_in_groups gs x)) [
    | inr e ↦ rw (e, move_to_group) w
    | inl e ↦ elim (Bool-cases (any (λ (group : SessionGroup). group.id == g) gs)) [
      | inr d ↦ rw (e, d, move_to_group) w
      | inl d ↦
          let one : group_count g gs ≡ 1 =
            omega (arith, w.groups.ids_unique g, any_group→count gs g d) in
          rw (e, d, move_to_group)
            (regroup root active gs _ w (move-AreGroupsSound gs w.groups g x) (λ y. omega (
              arith,
              grouped-move gs w.groups g x y,
              ap (λ (t : ℕ). same x y * t) (grouped_once root active gs x w e),
              ap (λ (t : ℕ). t * same x y) one,
            )))
    ]
  ]

  pub create-IsWellFormed :
      (to_lower : String → String) (root : Option (SessionPaneNode R)) (active : Option String)
      (gs : List SessionGroup) (g name x : String)
      → IsWellFormed (state root active gs)
      → group_count g gs ≡ 0
      → IsWellFormed (create_group to_lower (state root active gs) g name x)
  unfolding create_group
  create-IsWellFormed to_lower root active gs g name x w free =
      let trimmed = trim name in
      elim (Bool-cases (trimmed == "" || not (contains_session_id_in_groups gs x))) [
        | inl e ↦ rw (e, create_group) w
        | inr e ↦ elim (Bool-cases (is_name_taken to_lower gs trimmed)) [
          | inl d ↦ rw (e, d, create_group) w
          | inr d ↦
              let here = second_of_or (trimmed == "") (contains_session_id_in_groups gs x) e in
              let new : SessionGroup = record {
                id = g;
                name = trimmed;
                session_ids = x ∷ [];
                color = resolve_session_group_color g;
                built_in = false;
              } in
              rw (e, d, create_group)
                (regroup root active gs _ w (with_new-AreGroupsSound gs w.groups new free x) (
                  grouped-with_new gs w.groups new free x refl
                    (grouped_once root active gs x w here)))
        ]
      ]
