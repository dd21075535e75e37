-- ===== src/Layout/Shifting.antt =====
-- Where the entries of slots go when a slot of a side is closed (src/main/hooks/useLayoutState.ts).
use fluxterm.Base.{
  ◌-◌, ◌+◌, ltb, if◌then◌else◌, ℕ, ◌<◌, String, Bool, true, false, ◌==◌, ◌≡◌, refl, ◌∙◌, sym, none,
  some, [], ◌∷◌, includes, eqb, or_else, arith, eq_iff, eq_refl, Bool-cases, Option-cases, inl, inr,
}
use fluxterm.Base.Dict.{get, put, get-put}
use fluxterm.Layout.Slots.{WidgetSide, left, right, Slots, side_slot_key}
use fluxterm.Layout.Structure.{keys}
use fluxterm.Layout.Keys.{IsSlotKey}
use fluxterm.Layout.Hook.{moved_index, is_side, shifted_key, shift_slots}
use fluxterm.Layout.SlotKeys.{
  match-side_slot_key, side_not_bottom, is_side-eq, is_side_refl, key_eq,
}

-- No two entries have the same key.
abbrev pub IsDistinct : Slots → Type 0
IsDistinct [] = Unit
IsDistinct ((key, group) ∷ slots) = (get slots key ≡ none) × IsDistinct slots

-- The entry of `key` is moved to the key `target`.
abbrev pub moves_to : WidgetSide → ℕ → String → String → Bool
moves_to side index key target = elim (shifted_key side index key) [
  | none ↦ false
  | some moved ↦ moved == target
]

pub get-shift :
    (side : WidgetSide) (index : ℕ) (slots next : Slots) (source target : String)
    → IsDistinct slots
    → ((key : String)
        → includes (keys slots) key ≡ true
        → moves_to side index key target ≡ (key == source))
    → get (shift_slots side index next slots) target ≡ or_else (get slots source) (get next target)
unfolding shift_slots get
get-shift side index [] next source target distinct law = refl
get-shift side index ((key, group) ∷ slots) next source target (once, distinct) law =
    let here : moves_to side index key target ≡ (key == source) =
      law key (ground (arith, eq_refl key)) in
    let later = λ (k : String). λ (e : includes (keys slots) k ≡ true). law k (ground arith) in
    elim (Option-cases (shifted_key side index key)) [
      | inl e ↦
          let gone : (key == source) ≡ false = sym (rw (e, moves_to) at here) in
          rw (e, shift_slots, gone) (get-shift side index slots next source target distinct later)
      | inr (moved, e) ↦
          let rest =
            get-shift side index slots (put next moved group) source target distinct later in
          let hit : (moved == target) ≡ (key == source) = rw (e, moves_to) at here in
          elim (Bool-cases (key == source)) [
            | inl f ↦
                let missing : get slots source ≡ none = rw (← (eq_iff key source).0 f) once in
                rw (e, shift_slots, f) (rest ∙ rw (missing, get-put, hit ∙ f) refl)
            | inr f ↦ rw (e, shift_slots, f) (rest ∙ rw (get-put, hit ∙ f) refl)
          ]
    ]

shifted_side :
    (side s : WidgetSide) (index i : ℕ)
    → i < 10
    → shifted_key side index (side_slot_key s i) ≡ (
        if is_side s side
        then elim (moved_index index i) [
          | none ↦ none
          | some target ↦ some (side_slot_key side target)
        ]
        else some (side_slot_key s i))
unfolding shifted_key
shifted_side side s index i small =
    rw (side_not_bottom s i small, match-side_slot_key s i small, shifted_key) refl

-- The slot of which the entry comes to stand at `j`.
abbrev pub from_index : ℕ → ℕ → ℕ
from_index index j = if ltb j index then j else j + 1

abbrev target_index : ℕ → ℕ → ℕ
target_index index i = if ltb index i then i - 1 else i

shifted_gone :
    (side : WidgetSide) (index i : ℕ)
    → i < 10
    → eqb i index ≡ true
    → shifted_key side index (side_slot_key side i) ≡ none
unfolding moved_index
shifted_gone side index i small e =
    rw (shifted_side side side index i small, is_side_refl, moved_index, e) refl

shifted_moved :
    (side : WidgetSide) (index i : ℕ)
    → i < 10
    → eqb i index ≡ false
    → shifted_key side index (side_slot_key side i)
      ≡ some (side_slot_key side (target_index index i))
unfolding moved_index
shifted_moved side index i small e =
    rw (shifted_side side side index i small, is_side_refl, moved_index, e) refl

shifted_other :
    (side s : WidgetSide) (index i : ℕ)
    → i < 10
    → is_side s side ≡ false
    → shifted_key side index (side_slot_key s i) ≡ some (side_slot_key s i)
shifted_other side s index i small e = rw (shifted_side side s index i small, e) refl

shifted_bottom : (side : WidgetSide) (index : ℕ) → shifted_key side index "bottom" ≡ some "bottom"
unfolding shifted_key
shifted_bottom side index = refl

moved_lem :
    (side : WidgetSide) (index i j : ℕ)
    → index < 10
    → i < 10
    → j < 9
    → moves_to side index (side_slot_key side i) (side_slot_key side j)
      ≡ (side_slot_key side i == side_slot_key side (from_index index j))
moved_lem side index i j small_index small_i small_j =
    let small_from : from_index index j < 10 = ground arith in
    let small_target : target_index index i < 10 = ground arith in
    let small : j < 10 = omega arith in
    elim (Bool-cases (eqb i index)) [
      | inl e ↦
          rw
            (
              shifted_gone side index i small_i e,
              moves_to,
              key_eq side side i (from_index index j) small_i small_from,
              is_side_refl,
            )
            (ground arith)
      | inr e ↦
          rw
            (
              shifted_moved side index i small_i e,
              moves_to,
              key_eq side side (target_index index i) j small_target small,
              key_eq side side i (from_index index j) small_i small_from,
              is_side_refl,
            )
            (ground arith)
    ]

bottom_not_side :
    (side : WidgetSide) (index : ℕ) → index < 10 → ("bottom" == side_slot_key side index) ≡ false
bottom_not_side side index small = ground (
  arith,
  side_not_bottom side index small,
  eq_iff (side_slot_key side index) "bottom",
  eq_iff "bottom" (side_slot_key side index),
)

pub law_here :
    (side : WidgetSide) (index j : ℕ)
    → index < 10
    → j < 9
    → (key : String) → IsSlotKey key
    → moves_to side index key (side_slot_key side j)
      ≡ (key == side_slot_key side (from_index index j))
law_here side index j small_index small_j key (inl e) =
    let small_from : from_index index j < 10 = ground arith in
    let small : j < 10 = omega arith in
    rw
      (
        e,
        shifted_bottom side index,
        moves_to,
        bottom_not_side side j small,
        bottom_not_side side (from_index index j) small_from,
      )
      refl
law_here side index j small_index small_j key (inr (s, i, small_i, e)) =
    let small_from : from_index index j < 10 = ground arith in
    let small : j < 10 = omega arith in
    rw e (elim (Bool-cases (is_side s side)) [
      | inl f ↦ rw (is_side-eq s side f) (moved_lem side index i j small_index small_i small_j)
      | inr f ↦
          rw
            (
              shifted_other side s index i small_i f,
              moves_to,
              key_eq s side i j small_i small,
              key_eq s side i (from_index index j) small_i small_from,
              f,
            )
            refl
    ])

pub is_side-sym : (s t : WidgetSide) → is_side s t ≡ false → is_side t s ≡ false
is_side-sym left left h = h
is_side-sym left right h = refl
is_side-sym right left h = refl
is_side-sym right right h = h

pub law_elsewhere :
    (side t : WidgetSide) (index j : ℕ)
    → j < 10
    → index < 10
    → is_side t side ≡ false
    → (key : String) → IsSlotKey key
    → moves_to side index key (side_slot_key t j) ≡ (key == side_slot_key t j)
law_elsewhere side t index j small small_index other key (inl e) =
    rw (e, shifted_bottom side index, moves_to) refl
law_elsewhere side t index j small small_index other key (inr (s, i, small_i, e)) =
    let small_target : target_index index i < 10 = ground arith in
    let apart = is_side-sym t side other in
    rw e (elim (Bool-cases (is_side s side)) [
      | inl f ↦ rw (is_side-eq s side f) (elim (Bool-cases (eqb i index)) [
        | inl g ↦
            rw
              (
                shifted_gone side index i small_i g,
                moves_to,
                key_eq side t i j small_i small,
                apart,
              )
              refl
        | inr g ↦
            rw
              (
                shifted_moved side index i small_i g,
                moves_to,
                key_eq side t (target_index index i) j small_target small,
                key_eq side t i j small_i small,
                apart,
              )
              refl
      ])
      | inr f ↦ rw (shifted_other side s index i small_i f, moves_to) refl
    ])

pub law_bottom :
    (side : WidgetSide) (index : ℕ) (key : String)
    → index < 10
    → IsSlotKey key
    → moves_to side index key "bottom" ≡ (key == "bottom")
law_bottom side index key small_index (inl e) = rw (e, shifted_bottom side index, moves_to) refl
law_bottom side index key small_index (inr (s, i, small_i, e)) =
    let small_target : target_index index i < 10 = ground arith in
    rw e (elim (Bool-cases (is_side s side)) [
      | inl f ↦ rw (is_side-eq s side f) (elim (Bool-cases (eqb i index)) [
        | inl g ↦
            rw (shifted_gone side index i small_i g, moves_to, side_not_bottom side i small_i) refl
        | inr g ↦
            rw
              (
                shifted_moved side index i small_i g,
                moves_to,
                side_not_bottom side (target_index index i) small_target,
                side_not_bottom side i small_i,
              )
              refl
      ])
      | inr f ↦ rw (shifted_other side s index i small_i f, moves_to) refl
    ])
