-- ===== src/Workspace/Grouping.antt =====
-- How often a session and a group stand in the list of groups.
pub mod Moves
use fluxterm.Base.{
  ℕ, ◌+◌, ◌*◌, ◌≤◌, ◌<◌, String, Bool, true, ◌||◌, ◌≡◌, refl, List, [], ◌∷◌, ◌++◌, map, count, same,
  arith, keep, any, count-concat,
}
use fluxterm.Workspace.Tree.{replace_in_list}
use fluxterm.Workspace.Reshape.{without}
use fluxterm.Workspace.Counts.{count-without, count-replace_in_list}
use fluxterm.Workspace.Groups.{
  SessionGroup, default_session_group_id, is_default, is_nonempty, ensure_default_session_group,
  cleanup_session_groups, with_sessions, concat_in_group,
}

-- The groups' entries for a session.
unfoldable pub grouped : String → List SessionGroup → ℕ
grouped x [] = 0
grouped x (g ∷ gs) = count x g.session_ids + grouped x gs

-- The groups with an id.
unfoldable pub group_count : String → List SessionGroup → ℕ
group_count i [] = 0
group_count i (g ∷ gs) = same g.id i + group_count i gs

pub grouped-append :
    (x : String) (gs hs : List SessionGroup) → grouped x (gs ++ hs) ≡ grouped x gs + grouped x hs
unfolding grouped
grouped-append x [] hs = omega arith
grouped-append x (g ∷ gs) hs = omega (arith, grouped-append x gs hs)

pub group_count-append :
    (i : String) (gs hs : List SessionGroup)
    → group_count i (gs ++ hs) ≡ group_count i gs + group_count i hs
unfolding group_count
group_count-append i [] hs = omega arith
group_count-append i (g ∷ gs) hs = omega (arith, group_count-append i gs hs)

any_default :
    (gs : List SessionGroup)
    → 0 < group_count default_session_group_id gs
    → any is_default gs ≡ true
unfolding group_count same
any_default [] h = elim h [ ]
any_default (g ∷ gs) h = ground (arith, any_default gs)

pub ensure_default_self :
    (gs : List SessionGroup)
    → 0 < group_count default_session_group_id gs
    → ensure_default_session_group gs ≡ gs
unfolding ensure_default_session_group
ensure_default_self gs h = rw (any_default gs h)

-- What the filter of `cleanupSessionGroups` keeps.
abbrev pub is_kept : SessionGroup → Bool
is_kept g = is_default g || is_nonempty g.session_ids

grouped-keep : (x : String) (gs : List SessionGroup) → grouped x (keep is_kept gs) ≡ grouped x gs
unfolding grouped count
grouped-keep x [] = refl
grouped-keep x (g ∷ gs) = ground (arith, grouped-keep x gs)

group_count-keep-le :
    (i : String) (gs : List SessionGroup) → group_count i (keep is_kept gs) ≤ group_count i gs
unfolding group_count
group_count-keep-le i [] = omega arith
group_count-keep-le i (g ∷ gs) = ground (arith, group_count-keep-le i gs)

group_count-keep_default :
    (gs : List SessionGroup)
    → group_count default_session_group_id (keep is_kept gs)
      ≡ group_count default_session_group_id gs
unfolding group_count same
group_count-keep_default [] = refl
group_count-keep_default (g ∷ gs) = ground (arith, group_count-keep_default gs)

module _ (f : List String → List String) where
  pub group_count-with_sessions :
      (i : String) (gs : List SessionGroup)
      → group_count i (map (with_sessions f) gs) ≡ group_count i gs
  unfolding group_count
  group_count-with_sessions i [] = refl
  group_count-with_sessions i (g ∷ gs) = omega (arith, group_count-with_sessions i gs)

pub grouped-without :
    (s : String) (gs : List SessionGroup) (x : String)
    → grouped x (map (with_sessions (without s)) gs) + same s x * grouped s gs ≡ grouped x gs
unfolding grouped
grouped-without s [] x = omega arith
grouped-without s (g ∷ gs) x =
    omega (arith, count-without s g.session_ids x, grouped-without s gs x)

pub grouped-replace :
    (o n : String) (gs : List SessionGroup) (x : String)
    → grouped x (map (with_sessions (replace_in_list o n)) gs) + same o x * grouped o gs
      ≡ grouped x gs + same n x * grouped o gs
unfolding grouped
grouped-replace o n [] x = omega arith
grouped-replace o n (g ∷ gs) x =
    omega (arith, count-replace_in_list o n g.session_ids x, grouped-replace o n gs x)

pub grouped-concat :
    (i s : String) (gs : List SessionGroup) (x : String)
    → grouped x (map (concat_in_group i s) gs) ≡ grouped x gs + group_count i gs * same s x
unfolding grouped group_count concat_in_group same
grouped-concat i s [] x = omega arith
grouped-concat i s (g ∷ gs) x =
    ground (arith, count-concat x g.session_ids s, grouped-concat i s gs x)

pub group_count-concat :
    (i s : String) (gs : List SessionGroup) (j : String)
    → group_count j (map (concat_in_group i s) gs) ≡ group_count j gs
unfolding group_count concat_in_group
group_count-concat i s [] j = refl
group_count-concat i s (g ∷ gs) j = ground (arith, group_count-concat i s gs j)

-- The clean-up of groups that hold the default group.
module _ (gs : List SessionGroup) (h : 0 < group_count default_session_group_id gs) where
  pub grouped-cleanup : (x : String) → grouped x (cleanup_session_groups gs) ≡ grouped x gs
  unfolding cleanup_session_groups
  grouped-cleanup x = rw (any_default gs h) (grouped-keep x gs)

  pub group_count-cleanup-le :
      (i : String) → group_count i (cleanup_session_groups gs) ≤ group_count i gs
  unfolding cleanup_session_groups
  group_count-cleanup-le i = rw (any_default gs h) (group_count-keep-le i gs)

  pub group_count-cleanup_default :
      group_count default_session_group_id (cleanup_session_groups gs)
      ≡ group_count default_session_group_id gs
  unfolding cleanup_session_groups
  group_count-cleanup_default = rw (any_default gs h) (group_count-keep_default gs)
