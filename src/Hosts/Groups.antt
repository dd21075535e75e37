-- ===== src/Hosts/Groups.antt =====
-- src/widgets/profiles/components/hostWidgetModel.ts. `before` tells of two texts whether the first
-- may stand before the second (`localeCompare(...) <= 0`) and `same_place` whether neither does
-- (`=== 0`); `to_lower` is `toLowerCase`.
use fluxterm.Base.{
  sort_by, String, Bool, ◌==◌, Option, List, [], ◌∷◌, ◌++◌, map, keep, head?, trim, or_default,
  if◌then◌else◌, ◌>>=◌,
}
use mathlib.Core.Option
use fluxterm.Base.Dict.{Dict, get, put}

-- The fields of a profile that the list reads.
pub record HostProfile : Type 0 where
  pub id : String
  pub name : String
  pub host : String
  pub tags : Option (List String)

pub record HostProfileGroup : Type 0 where
  pub label : String
  pub items : List HostProfile

-- `localeCompare` in the list's language.
pub record Collation : Type 0 where
  pub before : String → String → Bool
  pub same_place : String → String → Bool

unfoldable pub resolve_host_profile_display_name : HostProfile → String
resolve_host_profile_display_name profile =
    if profile.name == ""
    then if profile.host == "" then profile.id else profile.host
    else profile.name

unfoldable pub normalize_host_profile_group_name : HostProfile → String
normalize_host_profile_group_name profile =
    or_default (Option.map trim (profile.tags >>= λ tags. head? tags)) ""

abbrev pub values : {V : Type 0} → Dict V → List V
values [] = []
values ((key, value) ∷ d) = value ∷ values d

module _ (collation : Collation) where
  -- `compareHostProfiles(left, right) <= 0`
  unfoldable pub compare_host_profiles : HostProfile → HostProfile → Bool
  compare_host_profiles left right =
      let left_name = resolve_host_profile_display_name left in
      let right_name = resolve_host_profile_display_name right in
      if collation.same_place left_name right_name
      then collation.before left.id right.id
      else collation.before left_name right_name

  unfoldable pub compare_host_groups : HostProfileGroup → HostProfileGroup → Bool
  compare_host_groups left right = collation.before left.label right.label

  -- The hosts without a group.
  unfoldable pub get_root_host_profiles : List HostProfile → List HostProfile
  get_root_host_profiles profiles =
      sort_by compare_host_profiles
        (keep (λ profile. normalize_host_profile_group_name profile == "") profiles)

module _ (to_lower : String → String) where
  -- The groups that the user has made, empty.
  unfoldable pub empty_groups : Dict HostProfileGroup → List String → Dict HostProfileGroup
  empty_groups groups [] = groups
  empty_groups groups (group ∷ ssh_groups) =
      let label = trim group in
      if label == ""
      then empty_groups groups ssh_groups
      else empty_groups (put groups (to_lower label) (record { label = label; items = [] }))
          ssh_groups

  unfoldable pub add_to_group : Dict HostProfileGroup → HostProfile → Dict HostProfileGroup
  add_to_group groups profile =
      let label = normalize_host_profile_group_name profile in
      if label == ""
      then groups
      else let group =
          or_default (get groups (to_lower label)) (record { label = label; items = [] }) in
        put groups (to_lower label) (record group { items = group.items ++ profile ∷ [] })

  unfoldable pub add_all : Dict HostProfileGroup → List HostProfile → Dict HostProfileGroup
  add_all groups [] = groups
  add_all groups (profile ∷ profiles) = add_all (add_to_group groups profile) profiles

module _ (collation : Collation) (to_lower : String → String) where
  abbrev pub sort_items : HostProfileGroup → HostProfileGroup
  sort_items group = record group { items = sort_by (compare_host_profiles collation) group.items }

  unfoldable pub build_host_profile_groups : List HostProfile → List String → List HostProfileGroup
  build_host_profile_groups profiles ssh_groups =
      sort_by (compare_host_groups collation)
        (map sort_items (values (add_all to_lower (empty_groups to_lower [] ssh_groups) profiles)))
