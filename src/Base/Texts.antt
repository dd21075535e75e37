-- ===== src/Base/Texts.antt =====
-- Lists of texts: membership, occurrences and positions.
use Prim.Native.Nat.{ℕ, suc, ◌+◌, ◌≤◌, ◌<◌}
use Prim.Native.String.{String}
use mathlib.Core.Path.{◌≡◌, refl}
use mathlib.Core.Bool.{Bool, true, false, ◌||◌}
use mathlib.Core.List.{List, [], ◌∷◌, ◌++◌}
use mathlib.Core.Option.{Option, none, some}
use mathlib.Core.Option
use native.Mathlib.Omega.{arith}
use text.Mathlib.Text.{◌==◌}
use text.Mathlib.TextEquality.{eq_iff}
use fluxterm.Base.Tests.{if◌then◌else◌}

-- `xs.includes(x)`
abbrev pub includes : List String → String → Bool
includes [] x = false
includes (y ∷ ys) x = y == x || includes ys x

-- `xs.indexOf(x)`, `none` for -1
abbrev pub index_of : List String → String → Option ℕ
index_of [] x = none
index_of (y ∷ ys) x = let rest = Option.map suc (index_of ys x) in if y == x then some 0 else rest

-- 1 where the two texts are the same, 0 elsewhere
unfoldable pub same : String → String → ℕ
same x y = if x == y then 1 else 0

-- How often a text stands in a list.
unfoldable pub count : String → List String → ℕ
count x [] = 0
count x (y ∷ ys) = same y x + count x ys

pub same_self : (x : String) → same x x ≡ 1
unfolding same
same_self x = ground (arith, eq_iff x x)

pub same_le : (x y : String) → same x y ≤ 1
unfolding same
same_le x y = ground arith

pub eq_of_same : (x y : String) → 0 < same x y → x ≡ y
unfolding same
eq_of_same x y h = ground (arith, eq_iff x y)

pub same_ne : (x y : String) → ((x == y) ≡ false) → same x y ≡ 0
unfolding same
same_ne x y h = ground arith

pub same_eq : (x y : String) → ((x == y) ≡ true) → same x y ≡ 1
unfolding same
same_eq x y h = ground arith

pub count-append : (x : String) (xs ys : List String) → count x (xs ++ ys) ≡ count x xs + count x ys
unfolding count
count-append x [] ys = omega arith
count-append x (y ∷ xs) ys = omega (arith, count-append x xs ys)

pub includes→count : (xs : List String) (x : String) → includes xs x ≡ true → 0 < count x xs
unfolding count same
includes→count [] x h = ground arith
includes→count (y ∷ ys) x h = ground (arith, includes→count ys x)

pub count→includes : (xs : List String) (x : String) → 0 < count x xs → includes xs x ≡ true
unfolding count same
count→includes [] x h = ground arith
count→includes (y ∷ ys) x h = ground (arith, count→includes ys x)

pub not_includes→count : (xs : List String) (x : String) → includes xs x ≡ false → count x xs ≡ 0
unfolding count same
not_includes→count [] x h = ground arith
not_includes→count (y ∷ ys) x h = ground (arith, not_includes→count ys x)

pub count-concat :
    (x : String) (xs : List String) (y : String) → count x (xs ++ y ∷ []) ≡ count x xs + same y x
unfolding count
count-concat x xs y = omega (arith, count-append x xs (y ∷ []))

pub same_of_ne : (x y : String) → (x ≡ y → ⊥) → same x y ≡ 0
unfolding same
same_of_ne x y h = ground (arith, eq_iff x y, h)

pub includes-append :
    (xs ys : List String) (x : String) → includes (xs ++ ys) x ≡ (includes xs x || includes ys x)
includes-append [] ys x = refl
includes-append (y ∷ xs) ys x = ground (arith, includes-append xs ys x)
