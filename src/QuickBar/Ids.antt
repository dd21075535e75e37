-- ===== src/QuickBar/Ids.antt =====
-- How often an id stands in the lists that the quick command bar's operations build.
use fluxterm.Base.{
  ℕ, ◌+◌, ◌≤◌, ◌≡◌, refl, ap, String, Bool, not, ◌==◌, List, [], ◌∷◌, ◌++◌, keep, if◌then◌else◌,
  count, same, eq_iff, arith,
}
use fluxterm.QuickBar.Model.{
  QuickCommandGroup, QuickCommandItem, group_ids, command_ids, renumber, IsNumbered,
}

pub group_ids-renumber :
    {O : Type 0} (groups : List (QuickCommandGroup O)) (i : ℕ)
    → group_ids (renumber groups i) ≡ group_ids groups
group_ids-renumber [] i = refl
group_ids-renumber (g ∷ groups) i = ap (λ ids. g.id ∷ ids) (group_ids-renumber groups (i + 1))

pub renumber-IsNumbered :
    {O : Type 0} (groups : List (QuickCommandGroup O)) (i : ℕ) → IsNumbered (renumber groups i) i
renumber-IsNumbered [] i = tt
renumber-IsNumbered (g ∷ groups) i = (refl, renumber-IsNumbered groups (i + 1))

pub group_ids-append :
    {O : Type 0} (xs ys : List (QuickCommandGroup O))
    → group_ids (xs ++ ys) ≡ group_ids xs ++ group_ids ys
group_ids-append [] ys = refl
group_ids-append (g ∷ xs) ys = ap (λ ids. g.id ∷ ids) (group_ids-append xs ys)

pub command_ids-append :
    (xs ys : List QuickCommandItem) → command_ids (xs ++ ys) ≡ command_ids xs ++ command_ids ys
command_ids-append [] ys = refl
command_ids-append (c ∷ xs) ys = ap (λ ids. c.id ∷ ids) (command_ids-append xs ys)

-- Leaving out a group, and leaving out commands.
pub count-keep_group :
    (groups : List (QuickCommandGroup ℕ)) (id x : String)
    → count x (group_ids (keep (λ (g : QuickCommandGroup ℕ). not (g.id == id)) groups))
      ≡ (if id == x then 0 else count x (group_ids groups))
unfolding count same
count-keep_group [] id x = ground arith
count-keep_group (g ∷ groups) id x =
    ground (arith, count-keep_group groups id x, eq_iff g.id id, eq_iff g.id x, eq_iff id x)

pub count-keep_command-le :
    (p : QuickCommandItem → Bool) (items : List QuickCommandItem) (x : String)
    → count x (command_ids (keep p items)) ≤ count x (command_ids items)
unfolding count
count-keep_command-le p [] x = omega arith
count-keep_command-le p (c ∷ items) x = ground (arith, count-keep_command-le p items x)

-- The commands of a test and the others make up the list.
pub count-keep_split :
    (p : QuickCommandItem → Bool) (items : List QuickCommandItem) (x : String)
    → count x (command_ids (keep p items)) + count x (command_ids (keep (λ c. not (p c)) items))
      ≡ count x (command_ids items)
unfolding count
count-keep_split p [] x = omega arith
count-keep_split p (c ∷ items) x = ground (arith, count-keep_split p items x)
