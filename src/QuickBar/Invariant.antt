-- ===== src/QuickBar/Invariant.antt =====
-- The changing, adding and renaming of groups keep the state of the quick command bar well formed.
use fluxterm.Base.{
  includes-append, ℕ, ◌+◌, ◌≡◌, refl, ap, ◌∙◌, String, true, false, ◌==◌, List, [], ◌∷◌, ◌++◌, some,
  none, count, count-concat, same, same_le, same_ne, eq_iff, includes, not_includes→count, arith,
  Bool-cases, inl, inr, All, length, trim,
}
use fluxterm.QuickBar.Model.{
  default_group_id, QuickCommandGroup, QuickCommandItem, QuickBarConfig, Locale, group_ids,
  is_duplicate_group_name, IsNumbered, IsGrouped, IsWellFormed,
}
use fluxterm.QuickBar.Actions.{change_group, with_name, add_group, rename_group}
use fluxterm.QuickBar.Ids.{group_ids-append}

-- Groups that are changed elsewhere than in their ids and orders.
group_ids-change_group :
    (change : QuickCommandGroup ℕ → QuickCommandGroup ℕ) (id : String)
    (groups : List (QuickCommandGroup ℕ))
    → ((g : QuickCommandGroup ℕ) → (change g).id ≡ g.id)
    → group_ids (change_group change id groups) ≡ group_ids groups
unfolding change_group
group_ids-change_group change id [] h = refl
group_ids-change_group change id (g ∷ groups) h = elim (Bool-cases (g.id == id)) [
  | inl this ↦ rw (this, h g) (ap (λ ids. g.id ∷ ids) (group_ids-change_group change id groups h))
  | inr other ↦ rw other (ap (λ ids. g.id ∷ ids) (group_ids-change_group change id groups h))
]

change_group-IsNumbered :
    (change : QuickCommandGroup ℕ → QuickCommandGroup ℕ) (id : String)
    (groups : List (QuickCommandGroup ℕ)) (i : ℕ)
    → ((g : QuickCommandGroup ℕ) → (change g).order ≡ g.order)
    → IsNumbered groups i
    → IsNumbered (change_group change id groups) i
unfolding change_group
change_group-IsNumbered change id [] i h n = tt
change_group-IsNumbered change id (g ∷ groups) i h (here, n) = elim (Bool-cases (g.id == id)) [
  | inl this ↦ rw this (h g ∙ here, change_group-IsNumbered change id groups (i + 1) h n)
  | inr other ↦ rw other (here, change_group-IsNumbered change id groups (i + 1) h n)
]

pub change_group-IsWellFormed :
    (change : QuickCommandGroup ℕ → QuickCommandGroup ℕ) (id : String) (q : QuickBarConfig)
    → ((g : QuickCommandGroup ℕ) → (change g).id ≡ g.id)
    → ((g : QuickCommandGroup ℕ) → (change g).order ≡ g.order)
    → IsWellFormed q
    → IsWellFormed (record q { groups = change_group change id q.groups })
change_group-IsWellFormed change id q ids orders w =
    let e = group_ids-change_group change id q.groups ids in
    record {
      default_once = ap (count default_group_id) e ∙ w.default_once;
      groups_once = λ x. rw e (w.groups_once x);
      numbered = change_group-IsNumbered change id q.groups 0 orders w.numbered;
      commands_once = w.commands_once;
      grouped = rw e w.grouped;
    }

grouped_mono :
    (ids larger : List String) (items : List QuickCommandItem)
    → ((x : String) → includes ids x ≡ true → includes larger x ≡ true)
    → All (IsGrouped ids) items
    → All (IsGrouped larger) items
grouped_mono ids larger [] h g = tt
grouped_mono ids larger (c ∷ items) h (here, g) =
    (h c.group_id here, grouped_mono ids larger items h g)

append-IsNumbered :
    (groups : List (QuickCommandGroup ℕ)) (g : QuickCommandGroup ℕ) (i : ℕ)
    → IsNumbered groups i
    → g.order ≡ i + length groups
    → IsNumbered (groups ++ g ∷ []) i
append-IsNumbered [] g i n e = (omega (arith, e), tt)
append-IsNumbered (h ∷ groups) g i (here, n) e =
    (here, append-IsNumbered groups g (i + 1) n (omega (arith, e)))

append_group-IsWellFormed :
    (q : QuickBarConfig) (name new_id : String)
    → includes (group_ids q.groups) new_id ≡ false
    → IsWellFormed q
    → IsWellFormed (record q {
      groups =
          q.groups
          ++ record { id = new_id; name = name; order = length q.groups; visible = false } ∷ [];
    })
append_group-IsWellFormed q name new_id fresh w =
    let g : QuickCommandGroup ℕ = record {
      id = new_id;
      name = name;
      order = length q.groups;
      visible = false;
    } in
    let e = group_ids-append q.groups (g ∷ []) in
    let counted : (x : String)
        → count x (group_ids (q.groups ++ g ∷ [])) ≡ count x (group_ids q.groups) + same new_id x =
      λ x. ap (count x) e ∙ count-concat x (group_ids q.groups) new_id in
    let absent = not_includes→count (group_ids q.groups) new_id fresh in
    record {
      default_once = ground (
        arith,
        counted default_group_id,
        w.default_once,
        absent,
        same_ne new_id default_group_id,
        eq_iff new_id default_group_id,
      );
      groups_once = λ x. ground (
        arith,
        counted x,
        w.groups_once x,
        absent,
        same_le new_id x,
        same_ne new_id x,
        eq_iff new_id x,
      );
      numbered = append-IsNumbered q.groups g 0 w.numbered (omega arith);
      commands_once = w.commands_once;
      grouped = rw e (
          grouped_mono (group_ids q.groups) (group_ids q.groups ++ new_id ∷ []) q.commands
            (λ x h. includes-append (group_ids q.groups) (new_id ∷ []) x ∙ ground (arith, h))
            w.grouped);
    }

pub add_group-IsWellFormed :
    (locale : Locale) (q : QuickBarConfig) (name new_id : String)
    → includes (group_ids q.groups) new_id ≡ false
    → IsWellFormed q
    → IsWellFormed (add_group locale q name new_id).1
unfolding add_group
add_group-IsWellFormed locale q name new_id fresh w = elim (Bool-cases (trim name == "")) [
  | inl empty ↦ rw (empty, add_group) w
  | inr named ↦ elim (Bool-cases (is_duplicate_group_name locale q.groups (trim name) none)) [
    | inl taken ↦ rw (named, taken, add_group) w
    | inr free ↦
        rw (named, free, add_group) (append_group-IsWellFormed q (trim name) new_id fresh w)
  ]
]

pub rename_group-IsWellFormed :
    (locale : Locale) (q : QuickBarConfig) (id name : String)
    → IsWellFormed q
    → IsWellFormed (rename_group locale q id name).1
unfolding rename_group
rename_group-IsWellFormed locale q id name w = elim (Bool-cases (trim name == "")) [
  | inl empty ↦ rw (empty, rename_group) w
  | inr named ↦ elim (Bool-cases (is_duplicate_group_name locale q.groups (trim name) (some id))) [
    | inl taken ↦ rw (named, taken, rename_group) w
    | inr free ↦
        rw (named, free, rename_group)
          (change_group-IsWellFormed (with_name (trim name)) id q (λ g. refl) (λ g. refl) w)
  ]
]
