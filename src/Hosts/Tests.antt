-- ===== src/Hosts/Tests.antt =====
-- A small list of hosts, and the theorem at it.
use fluxterm.Base.{
  insert_by, sort_by, if◌then◌else◌, ◌+◌, String, true, ◌≡◌, refl, some, none, [], ◌∷◌, ◌==◌, trim,
}
use fluxterm.Base.Dict.{get, put}
use fluxterm.Hosts.Groups.{
  HostProfile, Collation, get_root_host_profiles, build_host_profile_groups, empty_groups, add_all,
  add_to_group, normalize_host_profile_group_name,
}
use fluxterm.Hosts.Shown.{hosts_with, grouped_with, hosts_with-shown}

-- Every text may stand before every other one.
abbrev as_given : Collation
as_given = record { before = λ a b. true; same_place = λ a b. a == b }

abbrev lower : String → String
lower text = if text == "Lab" then "lab" else text

abbrev alone : HostProfile
alone = record { id = "1"; name = "alone"; host = "a.example"; tags = none }

abbrev tagged : HostProfile
tagged = record { id = "2"; name = ""; host = "b.example"; tags = some (" Lab " ∷ []) }

hosts_with-shown_example :
    hosts_with "2" (get_root_host_profiles as_given (alone ∷ tagged ∷ []))
      + grouped_with "2"
          (build_host_profile_groups as_given lower (alone ∷ tagged ∷ []) ("lab" ∷ []))
    ≡ hosts_with "2" (alone ∷ tagged ∷ [])
hosts_with-shown_example = hosts_with-shown as_given lower (alone ∷ tagged ∷ []) ("lab" ∷ []) "2"

grouping_runs :
    build_host_profile_groups as_given lower (alone ∷ tagged ∷ []) ("lab" ∷ [])
    ≡ record { label = "lab"; items = tagged ∷ [] } ∷ []
unfolding build_host_profile_groups sort_by insert_by empty_groups add_all add_to_group
    normalize_host_profile_group_name get put trim
grouping_runs = refl
