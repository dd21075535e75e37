-- ===== src/Base/Spaces.antt =====
-- `trim`, and the words of a text, by JavaScript's white space.
use Prim.Native.Nat.{ℕ}
use Prim.Native.Char.{code}
use Prim.Native.String.{String, [], ◌∷◌}
use mathlib.Core.Path.{◌≡◌, refl}
use mathlib.Core.Bool.{Bool, ◌&&◌, ◌||◌}
use mathlib.Core.List.{List}
use fluxterm.Base.Tests.{if◌then◌else◌, leb, eqb}

abbrev between : ℕ → ℕ → ℕ → Bool
between lo hi c = leb lo c && leb c hi

-- The white space and line terminators of JavaScript.
unfoldable pub is_space : ℕ → Bool
is_space c =
    between 0x9 0xd c
    || eqb c 0x20
    || eqb c 0xa0
    || eqb c 0x1680
    || between 0x2000 0x200a c
    || between 0x2028 0x2029 c
    || eqb c 0x202f
    || eqb c 0x205f
    || eqb c 0x3000
    || eqb c 0xfeff

unfoldable pub trim_start : String → String
unfolding is_space
trim_start [] = []
trim_start (c ∷ s) = let rest = trim_start s in if is_space (code c) then rest else c ∷ s

unfoldable pub trim_end : String → String
unfolding is_space
trim_end [] = []
trim_end (c ∷ s) =
    let rest = trim_end s in
    elim rest [ [] ↦ if is_space (code c) then [] else c ∷ [] | d ∷ t ↦ c ∷ d ∷ t ]

unfoldable pub trim : String → String
unfolding trim_start trim_end
trim s = trim_end (trim_start s)

-- `s.trim().split(/\s+/).filter(Boolean)`: the runs of characters between white space.
unfoldable pub words : String → List String
unfolding is_space
words [] = List.[]
words (c ∷ s) =
    let rest = words s in
    if is_space (code c) then rest else elim s [
      | [] ↦ List.◌∷◌ (c ∷ []) List.[]
      | d ∷ t ↦ if is_space (code d) then List.◌∷◌ (c ∷ []) rest else elim rest [
        | List.[] ↦ List.◌∷◌ (c ∷ []) List.[]
        | List.◌∷◌ w ws ↦ List.◌∷◌ (c ∷ w) ws
      ]
    ]

words_runs :
    words "  sudo\treboot now " ≡ List.◌∷◌ "sudo" (List.◌∷◌ "reboot" (List.◌∷◌ "now" List.[]))
unfolding words
words_runs = refl

trim_runs : trim " a b \n" ≡ "a b"
unfolding trim
trim_runs = refl
