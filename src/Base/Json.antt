-- ===== src/Base/Json.antt =====
-- What `JSON.parse` returns, with the numbers of a type `N`, and the checks that the program makes
-- of such a value. A number's operations are those of JavaScript's numbers that the code calls.
use fluxterm.Base.Tests.{if◌then◌else◌}
use Prim.Native.Nat.{ℕ}
use Prim.Native.String.{String}
use mathlib.Core.Bool.{Bool}
use mathlib.Core.Option.{Option, none, some}
use mathlib.Core.List.{List, [], ◌∷◌}
use text.Mathlib.Text.{◌==◌}

mutual
  pub data Json (N : Type 0) : Type 0 where
    null : Json N
    boolean : Bool → Json N
    number : N → Json N
    string : String → Json N
    array : Items N → Json N
    object : Fields N → Json N

  pub data Items (N : Type 0) : Type 0 where
    no_items : Items N
    item : Json N → Items N → Items N

  pub data Fields (N : Type 0) : Type 0 where
    no_fields : Fields N
    field : String → Json N → Fields N → Fields N

pub record Numbers (N : Type 0) : Type 0 where
  pub from_index : ℕ → N
  pub minus_one : N
  pub is_finite : N → Bool
  pub lt : N → N → Bool

module _ {N : Type 0} where
  abbrev pub get_field : Fields N → String → Option (Json N)
  get_field no_fields key = none
  get_field (field name value rest) key =
      let later = get_field rest key in if name == key then some value else later

  -- `value[key]` on an object; no other value has a key of its own that the program asks for.
  abbrev pub at_key : Json N → String → Option (Json N)
  at_key (object fields) key = get_field fields key
  at_key value key = none

  abbrev pub as_text : Option (Json N) → Option String
  as_text (some (string s)) = some s
  as_text value = none

  abbrev pub as_boolean : Option (Json N) → Option Bool
  as_boolean (some (boolean b)) = some b
  as_boolean value = none

  abbrev pub as_number : Option (Json N) → Option N
  as_number (some (number n)) = some n
  as_number value = none

  abbrev to_list : Items N → List (Json N)
  to_list no_items = []
  to_list (item value rest) = value ∷ to_list rest

  -- the elements, where the value is an array
  abbrev pub as_list : Option (Json N) → List (Json N)
  as_list (some (array items)) = to_list items
  as_list value = []
