-- ===== src/QuickBar/Places.antt =====
-- `reorderCommands`: the places of a group, and those of the other groups.
use fluxterm.Base.{
  ◌≡◌, refl, ap, String, true, not, ◌==◌, List, [], ◌∷◌, eq_iff, arith, Bool-cases, inl, inr, All,
  keep, length,
}
use fluxterm.QuickBar.Model.{QuickCommandItem}
use fluxterm.QuickBar.Actions.{in_group, fill_places}

abbrev pub AllIn : String → List QuickCommandItem → Type 0
AllIn group_id items = All (λ (c : QuickCommandItem). c.group_id == group_id ≡ true) items

pub keep-AllIn :
    (group_id : String) (items : List QuickCommandItem)
    → AllIn group_id (keep (in_group group_id) items)
keep-AllIn group_id [] = tt
keep-AllIn group_id (c ∷ items) = elim (Bool-cases (c.group_id == group_id)) [
  | inl there ↦ rw there (there, keep-AllIn group_id items)
  | inr other ↦ rw other (keep-AllIn group_id items)
]

-- The places of the group take the given commands, in their order.
pub keep-fill_places :
    (group_id : String) (items next : List QuickCommandItem)
    → AllIn group_id next
    → length next ≡ length (keep (in_group group_id) items)
    → keep (in_group group_id) (fill_places group_id items next) ≡ next
unfolding fill_places
keep-fill_places group_id [] [] h e = refl
keep-fill_places group_id [] (n ∷ next) h e = absurd (omega arith)
keep-fill_places group_id (c ∷ items) [] h e = elim (Bool-cases (c.group_id == group_id)) [
  | inl there ↦ absurd (ground arith)
  | inr other ↦ rw (other, other) (keep-fill_places group_id items [] tt (ground arith))
]
keep-fill_places group_id (c ∷ items) (n ∷ next) (here, h) e =
    elim (Bool-cases (c.group_id == group_id)) [
      | inl there ↦
          rw (there, here)
            (ap (λ rest. n ∷ rest) (keep-fill_places group_id items next h (ground arith)))
      | inr other ↦
          rw (other, other) (keep-fill_places group_id items (n ∷ next) (here, h) (ground arith))
    ]

-- Every other place keeps its command.
abbrev pub outside : String → List QuickCommandItem → List QuickCommandItem
outside group_id items = keep (λ (c : QuickCommandItem). not (c.group_id == group_id)) items

pub outside-fill_places :
    (group_id : String) (items next : List QuickCommandItem)
    → AllIn group_id next
    → outside group_id (fill_places group_id items next) ≡ outside group_id items
unfolding fill_places
outside-fill_places group_id [] next h = refl
outside-fill_places group_id (c ∷ items) [] h = elim (Bool-cases (c.group_id == group_id)) [
  | inl there ↦ rw (there, there) (outside-fill_places group_id items [] tt)
  | inr other ↦ rw (other, other) (ap (λ rest. c ∷ rest) (outside-fill_places group_id items [] tt))
]
outside-fill_places group_id (c ∷ items) (n ∷ next) (here, h) =
    elim (Bool-cases (c.group_id == group_id)) [
      | inl there ↦ rw (there, here) (outside-fill_places group_id items next h)
      | inr other ↦
          rw (other, other)
            (ap (λ rest. c ∷ rest) (outside-fill_places group_id items (n ∷ next) (here, h)))
    ]

-- The places of each group are as they were.
abbrev pub group_places : List QuickCommandItem → List String
group_places [] = []
group_places (c ∷ items) = c.group_id ∷ group_places items

pub group_places-fill_places :
    (group_id : String) (items next : List QuickCommandItem)
    → AllIn group_id next
    → group_places (fill_places group_id items next) ≡ group_places items
unfolding fill_places
group_places-fill_places group_id [] next h = refl
group_places-fill_places group_id (c ∷ items) [] h = elim (Bool-cases (c.group_id == group_id)) [
  | inl there ↦
      rw there (ap (λ rest. c.group_id ∷ rest) (group_places-fill_places group_id items [] tt))
  | inr other ↦
      rw other (ap (λ rest. c.group_id ∷ rest) (group_places-fill_places group_id items [] tt))
]
group_places-fill_places group_id (c ∷ items) (n ∷ next) (here, h) =
    elim (Bool-cases (c.group_id == group_id)) [
      | inl there ↦
          let same_place : n.group_id ≡ c.group_id =
            ground (arith, eq_iff n.group_id group_id, eq_iff c.group_id group_id) in
          rw (there, same_place)
            (ap (λ rest. c.group_id ∷ rest) (group_places-fill_places group_id items next h))
      | inr other ↦ rw other (
          ap (λ rest. c.group_id ∷ rest)
            (group_places-fill_places group_id items (n ∷ next) (here, h)))
    ]
