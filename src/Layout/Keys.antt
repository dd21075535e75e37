-- ===== src/Layout/Keys.antt =====
-- The keys of the slots that `normalizeSideSlotStructure` makes, and that the loop of
-- `dedupeActiveWidgets` goes over each of them.
use fluxterm.Base.{
  includes-append, ℕ, zero, suc, ◌+◌, ◌≤◌, ◌<◌, ◌≡◌, ◌⊎◌, refl, ap, ◌∙◌, sym, String, Bool, true,
  false, ◌==◌, ◌||◌, some, List, [], ◌∷◌, map, eqb, includes, or_default, arith, eq_iff, eq_refl,
  Bool-cases, Option-cases, inl, inr,
}
use fluxterm.Base.Dict.{Dict, get, put}
use fluxterm.Layout.Slots.{
  WidgetSide, left, right, WidgetGroup, Slots, max_side_slots, create_empty_group, side_slot_key,
  parse_side_slot_key,
}
use fluxterm.Layout.Structure.{
  LayoutNumbers, Sides, keys, side_indices, insert_index, sort_indices, get_side_slot_keys,
  ordered_keys,
}
use fluxterm.Layout.Stored.{fill_side, normalize_side_slot_structure}
use fluxterm.Layout.Moves.{parse-side_slot_key}
use fluxterm.Layout.Dedupe.{text_at}

keys-put :
    {V : Type 0} (d : Dict V) (key other : String) (value : V)
    → includes (keys (put d key value)) other ≡ (includes (keys d) other || key == other)
unfolding put
keys-put [] key other value = ground arith
keys-put ((k, v) ∷ d) key other value =
    ground (arith, keys-put d key other value, eq_iff k key, eq_iff k other, eq_iff key other)

get→keys :
    {V : Type 0} (d : Dict V) (key : String) (value : V)
    → get d key ≡ some value
    → includes (keys d) key ≡ true
unfolding get
get→keys [] key value e = absurd (ground (arith, e))
get→keys ((k, v) ∷ d) key value e = elim (Bool-cases (k == key)) [
  | inl this ↦ rw this refl
  | inr other ↦ rw other (get→keys d key value (rw other at e))
]

pub text_at→keys :
    (slots : Slots) (slot widget : String)
    → text_at slots slot ≡ some widget
    → includes (keys slots) slot ≡ true
unfolding text_at
text_at→keys slots slot widget e = elim (Option-cases (get slots slot)) [
  | inl missing ↦ absurd (ground (arith, rw (missing, text_at) at e))
  | inr (group, there) ↦ get→keys slots slot group there
]

-- The keys that the loops write.
abbrev pub IsSlotKey : String → Type 0
IsSlotKey key =
    (key ≡ "bottom")
    ⊎ ((side : WidgetSide) × (index : ℕ) × (index < max_side_slots)
        × (key ≡ side_slot_key side index))

abbrev pub HasSlotKeys : Slots → Type 0
HasSlotKeys slots = (key : String) → includes (keys slots) key ≡ true → IsSlotKey key

pub put-HasSlotKeys :
    (slots : Slots) (key : String) (group : WidgetGroup)
    → IsSlotKey key
    → HasSlotKeys slots
    → HasSlotKeys (put slots key group)
put-HasSlotKeys slots key group good h other there = elim (Bool-cases (key == other)) [
  | inl this ↦ let e : key ≡ other = ground (arith, this, eq_iff key other) in rw (← e) good
  | inr apart ↦ h other (ground (arith, there, keys-put slots key other group, apart))
]

module _ {N : Type 0} (numbers : LayoutNumbers N) where
  fill_side-HasSlotKeys :
      (fuel : ℕ) (slots : Slots) (side : WidgetSide) (count : N) (index : ℕ) (sources : List String)
      (next : Slots)
      → index + fuel ≤ max_side_slots
      → HasSlotKeys next
      → HasSlotKeys (fill_side numbers fuel slots side count index sources next)
  unfolding fill_side
  fill_side-HasSlotKeys zero slots side count index sources next l h = h
  fill_side-HasSlotKeys (suc fuel) slots side count index [] next l h =
      elim (Bool-cases (numbers.lt (numbers.from index) count)) [
        | inr done ↦ rw (done, fill_side) h
        | inl more ↦
            rw (more, fill_side)
              (fill_side-HasSlotKeys fuel slots side count (index + 1) []
                (put next (side_slot_key side index) create_empty_group) (omega (arith, l))
                (put-HasSlotKeys next (side_slot_key side index) create_empty_group
                  (inr (side, index, omega (arith, l), refl)) h))
      ]
  fill_side-HasSlotKeys (suc fuel) slots side count index (source ∷ others) next l h =
      let group = or_default (get slots source) create_empty_group in
      elim (Bool-cases (numbers.lt (numbers.from index) count)) [
        | inr done ↦ rw (done, fill_side) h
        | inl more ↦
            rw (more, fill_side)
              (fill_side-HasSlotKeys fuel slots side count (index + 1) others
                (put next (side_slot_key side index) group) (omega (arith, l))
                (put-HasSlotKeys next (side_slot_key side index) group
                  (inr (side, index, omega (arith, l), refl)) h))
      ]

  pub structure-HasSlotKeys :
      (slots : Slots) (counts : Sides N)
      → HasSlotKeys (normalize_side_slot_structure numbers slots counts).0
  unfolding normalize_side_slot_structure
  structure-HasSlotKeys slots counts = put-HasSlotKeys _ "bottom" _ (inl refl) (
      fill_side-HasSlotKeys max_side_slots slots right _ 0 (get_side_slot_keys slots right) _
        (omega arith)
        (fill_side-HasSlotKeys max_side_slots slots left _ 0 (get_side_slot_keys slots left) []
          (omega arith) (λ key there. absurd (ground (arith, there)))))

-- Indices in a list.
abbrev has : List ℕ → ℕ → Bool
has [] i = false
has (j ∷ rest) i = eqb j i || has rest i

has-insert_index : (i j : ℕ) (rest : List ℕ) → has (insert_index i rest) j ≡ (eqb i j || has rest j)
unfolding insert_index
has-insert_index i j [] = refl
has-insert_index i j (k ∷ rest) = ground (arith, has-insert_index i j rest)

has-sort_indices : (indices : List ℕ) (j : ℕ) → has (sort_indices indices) j ≡ has indices j
unfolding sort_indices
has-sort_indices [] j = refl
has-sort_indices (i ∷ rest) j =
    ground (arith, has-insert_index i j (sort_indices rest), has-sort_indices rest j)

-- One more key adds at most its own index.
abbrev with_key : WidgetSide → ℕ → WidgetSide → List ℕ → List ℕ
with_key left index left later = index ∷ later
with_key left index right later = later
with_key right index left later = later
with_key right index right later = index ∷ later

side_indices_key :
    (k : String) (ks : List String) (side found : WidgetSide) (index : ℕ)
    → parse_side_slot_key k ≡ some (found, index)
    → side_indices (k ∷ ks) side ≡ with_key found index side (side_indices ks side)
unfolding side_indices
side_indices_key k ks left left index e = rw (e, side_indices) refl
side_indices_key k ks left right index e = rw (e, side_indices) refl
side_indices_key k ks right left index e = rw (e, side_indices) refl
side_indices_key k ks right right index e = rw (e, side_indices) refl

has-with_key :
    (found side : WidgetSide) (i index : ℕ) (later : List ℕ)
    → has later index ≡ true
    → has (with_key found i side later) index ≡ true
has-with_key left left i index later h = ground (arith, h)
has-with_key left right i index later h = h
has-with_key right left i index later h = h
has-with_key right right i index later h = ground (arith, h)

has-own_key :
    (side : WidgetSide) (index : ℕ) (later : List ℕ)
    → has (with_key side index side later) index ≡ true
has-own_key left index later = ground arith
has-own_key right index later = ground arith

has-side_tail :
    (k : String) (ks : List String) (side : WidgetSide) (index : ℕ)
    → has (side_indices ks side) index ≡ true
    → has (side_indices (k ∷ ks) side) index ≡ true
unfolding side_indices
has-side_tail k ks side index h = elim (Option-cases (parse_side_slot_key k)) [
  | inl no_key ↦ rw (no_key, side_indices) h
  | inr ((found, i), there) ↦
      rw (side_indices_key k ks side found i there)
        (has-with_key found side i index (side_indices ks side) h)
]

has-side_indices :
    (ks : List String) (side : WidgetSide) (index : ℕ)
    → index < max_side_slots
    → includes ks (side_slot_key side index) ≡ true
    → has (side_indices ks side) index ≡ true
has-side_indices [] side index l h = absurd (ground (arith, h))
has-side_indices (k ∷ ks) side index l h = elim (Bool-cases (k == side_slot_key side index)) [
  | inl this ↦
      let key : k ≡ side_slot_key side index =
        ground (arith, this, eq_iff k (side_slot_key side index)) in
      rw
        (side_indices_key k ks side side index
          (ap parse_side_slot_key key ∙ parse-side_slot_key side index l))
        (has-own_key side index (side_indices ks side))
  | inr other ↦
      has-side_tail k ks side index (has-side_indices ks side index l (ground (arith, h, other)))
]

includes-map :
    (side : WidgetSide) (indices : List ℕ) (index : ℕ)
    → has indices index ≡ true
    → includes (map (side_slot_key side) indices) (side_slot_key side index) ≡ true
includes-map side [] index h = absurd (ground (arith, h))
includes-map side (i ∷ indices) index h = elim (Bool-cases (eqb i index)) [
  | inl this ↦
      let e : i ≡ index = ground (arith, this) in
      rw e (rw (eq_refl (side_slot_key side index)) refl)
  | inr other ↦ ground (arith, includes-map side indices index (ground (arith, h, other)))
]

on_side :
    (slots : Slots) (side : WidgetSide) (key : String) (index : ℕ)
    → index < max_side_slots
    → key ≡ side_slot_key side index
    → includes (keys slots) key ≡ true
    → includes (get_side_slot_keys slots side) key ≡ true
unfolding get_side_slot_keys
on_side slots side key index l e there = rw e (
    includes-map side (sort_indices (side_indices (keys slots) side)) index (
      has-sort_indices (side_indices (keys slots) side) index
      ∙ has-side_indices (keys slots) side index l (ap (includes (keys slots)) (sym e) ∙ there)))

-- The loop goes over every slot there is.
pub all_ordered :
    (slots : Slots) (key : String)
    → IsSlotKey key
    → includes (keys slots) key ≡ true
    → includes (ordered_keys slots) key ≡ true
unfolding ordered_keys
all_ordered slots key (inl bottom) there =
    rw (includes-append, includes-append, bottom) (ground arith)
all_ordered slots key (inr (left, index, l, e)) there =
    rw (includes-append, includes-append) (ground (arith, on_side slots left key index l e there))
all_ordered slots key (inr (right, index, l, e)) there =
    rw (includes-append, includes-append) (ground (arith, on_side slots right key index l e there))
