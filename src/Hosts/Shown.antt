-- ===== src/Hosts/Shown.antt =====
-- Every host is shown once in the list of hosts
-- (src/widgets/profiles/components/hostWidgetModel.ts).
use fluxterm.Base.{
  insert_by, sort_by, ℕ, ◌+◌, String, Bool, ◌==◌, ◌≡◌, refl, ap, Option, none, some, List, [], ◌∷◌,
  ◌++◌, map, keep, trim, same, arith, Bool-cases, Option-cases, inl, inr, if◌then◌else◌,
}
use fluxterm.Base.Dict.{Dict, get, put}
use fluxterm.Hosts.Groups.{
  HostProfile, HostProfileGroup, Collation, normalize_host_profile_group_name, values,
  compare_host_profiles, compare_host_groups, get_root_host_profiles, empty_groups, add_to_group,
  add_all, sort_items, build_host_profile_groups,
}

-- How many of the hosts have this id.
unfoldable pub hosts_with : String → List HostProfile → ℕ
hosts_with x [] = 0
hosts_with x (profile ∷ profiles) = same profile.id x + hosts_with x profiles

-- How many of the hosts of all groups.
unfoldable pub grouped_with : String → List HostProfileGroup → ℕ
grouped_with x [] = 0
grouped_with x (group ∷ groups) = hosts_with x group.items + grouped_with x groups

hosts_with-concat :
    (x : String) (ps : List HostProfile) (p : HostProfile)
    → hosts_with x (ps ++ p ∷ []) ≡ hosts_with x ps + same p.id x
unfolding hosts_with
hosts_with-concat x [] p = omega arith
hosts_with-concat x (q ∷ ps) p = omega (arith, hosts_with-concat x ps p)

hosts_with-insert :
    (before : HostProfile → HostProfile → Bool) (x : String) (p : HostProfile)
    (ps : List HostProfile)
    → hosts_with x (insert_by before p ps) ≡ same p.id x + hosts_with x ps
unfolding hosts_with insert_by
hosts_with-insert before x p [] = refl
hosts_with-insert before x p (q ∷ ps) = ground (arith, hosts_with-insert before x p ps)

hosts_with-sort :
    (before : HostProfile → HostProfile → Bool) (x : String) (ps : List HostProfile)
    → hosts_with x (sort_by before ps) ≡ hosts_with x ps
unfolding hosts_with sort_by
hosts_with-sort before x [] = refl
hosts_with-sort before x (p ∷ ps) =
    omega (arith, hosts_with-insert before x p (sort_by before ps), hosts_with-sort before x ps)

grouped_with-insert :
    (before : HostProfileGroup → HostProfileGroup → Bool) (x : String) (g : HostProfileGroup)
    (gs : List HostProfileGroup)
    → grouped_with x (insert_by before g gs) ≡ hosts_with x g.items + grouped_with x gs
unfolding grouped_with insert_by
grouped_with-insert before x g [] = refl
grouped_with-insert before x g (h ∷ gs) = ground (arith, grouped_with-insert before x g gs)

grouped_with-sort :
    (before : HostProfileGroup → HostProfileGroup → Bool) (x : String) (gs : List HostProfileGroup)
    → grouped_with x (sort_by before gs) ≡ grouped_with x gs
unfolding grouped_with sort_by
grouped_with-sort before x [] = refl
grouped_with-sort before x (g ∷ gs) =
    omega (arith, grouped_with-insert before x g (sort_by before gs), grouped_with-sort before x gs)

module _ (collation : Collation) where
  grouped_with-sort_items :
      (x : String) (to_lower : String → String) (gs : List HostProfileGroup)
      → grouped_with x (map (sort_items collation to_lower) gs) ≡ grouped_with x gs
  unfolding grouped_with
  grouped_with-sort_items x to_lower [] = refl
  grouped_with-sort_items x to_lower (g ∷ gs) = omega (
    arith,
    hosts_with-sort (compare_host_profiles collation) x g.items,
    grouped_with-sort_items x to_lower gs,
  )

items_in : Option HostProfileGroup → List HostProfile
items_in none = []
items_in (some group) = group.items

-- Writing a group exchanges the hosts of the one that was there.
grouped_with-put :
    (d : Dict HostProfileGroup) (key x : String) (g : HostProfileGroup)
    → grouped_with x (values (put d key g)) + hosts_with x (items_in (get d key))
      ≡ grouped_with x (values d) + hosts_with x g.items
unfolding put get grouped_with hosts_with items_in
grouped_with-put [] key x g = omega arith
grouped_with-put ((other, h) ∷ d) key x g = elim (Bool-cases (other == key)) [
  | inl e ↦ rw e (omega arith)
  | inr e ↦ rw e (omega (arith, grouped_with-put d key x g))
]

module _ (to_lower : String → String) where
  all_empty :
      (d : Dict HostProfileGroup) (labels : List String) (x : String)
      → grouped_with x (values d) ≡ 0
      → grouped_with x (values (empty_groups to_lower d labels)) ≡ 0
  unfolding empty_groups hosts_with
  all_empty d [] x none_yet = none_yet
  all_empty d (group ∷ labels) x none_yet = elim (Bool-cases (trim group == "")) [
    | inl e ↦ rw (e, empty_groups) (all_empty d labels x none_yet)
    | inr e ↦
        let made : HostProfileGroup = record { label = trim group; items = [] } in
        rw (e, empty_groups)
          (all_empty (put d (to_lower (trim group)) made) labels x
            (omega (arith, none_yet, grouped_with-put d (to_lower (trim group)) x made)))
  ]

  -- A host with a group counts once more.
  one_more :
      (d : Dict HostProfileGroup) (p : HostProfile) (x : String)
      → grouped_with x (values (add_to_group to_lower d p))
        ≡ grouped_with x (values d)
          + (if normalize_host_profile_group_name p == "" then 0 else same p.id x)
  unfolding add_to_group items_in hosts_with
  one_more d p x =
      let label = normalize_host_profile_group_name p in
      let key = to_lower label in
      elim (Bool-cases (label == "")) [
        | inl e ↦ rw (e, add_to_group) (omega arith)
        | inr e ↦ elim (Option-cases (get d key)) [
          | inl f ↦
              rw (e, f, add_to_group)
                (omega (
                  arith,
                  grouped_with-put d key x (record { label = label; items = p ∷ [] }),
                  ap (λ (o : Option HostProfileGroup). hosts_with x (items_in o)) f,
                ))
          | inr (g, f) ↦
              rw (e, f, add_to_group)
                (omega (
                  arith,
                  grouped_with-put d key x (record g { items = g.items ++ p ∷ [] }),
                  ap (λ (o : Option HostProfileGroup). hosts_with x (items_in o)) f,
                  hosts_with-concat x g.items p,
                ))
        ]
      ]

  -- The hosts that have no group.
  abbrev rootless : List HostProfile → List HostProfile
  rootless ps = keep (λ profile. normalize_host_profile_group_name profile == "") ps

  all_counted :
      (d : Dict HostProfileGroup) (ps : List HostProfile) (x : String)
      → grouped_with x (values (add_all to_lower d ps)) + hosts_with x (rootless ps)
        ≡ grouped_with x (values d) + hosts_with x ps
  unfolding add_all hosts_with
  all_counted d [] x = refl
  all_counted d (p ∷ ps) x =
      ground (arith, all_counted (add_to_group to_lower d p) ps x, one_more d p x)

-- Every host is shown as often as it is in the list of profiles: at the root, or in one of the
-- groups, and not in both; whatever groups there are, and however texts compare.
pub hosts_with-shown :
    (collation : Collation) (to_lower : String → String) (profiles : List HostProfile)
    (ssh_groups : List String) (x : String)
    → hosts_with x (get_root_host_profiles collation profiles)
        + grouped_with x (build_host_profile_groups collation to_lower profiles ssh_groups)
      ≡ hosts_with x profiles
unfolding get_root_host_profiles build_host_profile_groups grouped_with
hosts_with-shown collation to_lower profiles ssh_groups x =
    let made = empty_groups to_lower [] ssh_groups in
    let groups = values (add_all to_lower made profiles) in
    omega (
      arith,
      hosts_with-sort (compare_host_profiles collation) x (rootless to_lower profiles),
      grouped_with-sort (compare_host_groups collation) x
          (map (sort_items collation to_lower) groups),
      grouped_with-sort_items collation x to_lower groups,
      all_counted to_lower made profiles x,
      all_empty to_lower [] ssh_groups x refl,
    )
