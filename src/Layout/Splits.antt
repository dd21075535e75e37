-- ===== src/Layout/Splits.antt =====
-- Splitting a side and closing a slot of it (src/main/hooks/useLayoutState.ts).
use fluxterm.Base.{
  leb, ◌≤◌, ◌-◌, ◌+◌, ltb, if◌then◌else◌, ℕ, ◌<◌, String, true, false, ◌==◌, ◌≡◌, refl, ap, ◌∙◌,
  Option, none, some, [], ◌∷◌, eqb, ◌&&◌, or_else, arith, eq_iff, Bool-cases, inl, inr,
}
use fluxterm.Base.Dict.{get, put, get-put}
use fluxterm.Layout.Slots.{
  WidgetGroup, increase_side_slots, create_empty_group, WidgetSide, left, right, Slots,
  side_slot_key,
}
use fluxterm.Layout.Structure.{Sides}
use fluxterm.Layout.Keys.{put-HasSlotKeys, IsSlotKey, HasSlotKeys}
use fluxterm.Layout.Hook.{
  handle_toggle_split, one_less, set_count, count_of, LayoutHook, handle_close_slot, is_side,
  shift_slots,
}
use fluxterm.Layout.SlotKeys.{key_eq, match-side_slot_key, side_not_bottom}
use fluxterm.Layout.Shifting.{
  is_side-sym, IsDistinct, moves_to, from_index, get-shift, law_here, law_elsewhere, law_bottom,
}

-- A side has more than one slot, and at most ten, and the slot is one of them.
abbrev pub CanClose : LayoutHook → WidgetSide → ℕ → Type 0
CanClose h side index =
    (index < count_of h.side_slot_counts side)
    × (2 ≤ count_of h.side_slot_counts side)
    × (count_of h.side_slot_counts side ≤ 10)

closed :
    (h : LayoutHook) (side : WidgetSide) (index : ℕ)
    → CanClose h side index
    → handle_close_slot h (side_slot_key side index) ≡ record h {
      slots = shift_slots side index [] h.slots;
      side_slot_counts =
          set_count h.side_slot_counts side (one_less (count_of h.side_slot_counts side));
    }
unfolding handle_close_slot
closed h side index (inside, several, few) =
    let small : index < 10 = omega arith in
    let seen : leb (count_of h.side_slot_counts side) index ≡ false = ground arith in
    let more : leb (count_of h.side_slot_counts side) 1 ≡ false = ground arith in
    rw
      (
        side_not_bottom side index small,
        match-side_slot_key side index small,
        handle_close_slot,
        seen,
        more,
      )
      refl

one_less_lem : (n : ℕ) → 2 ≤ n → one_less n + 1 ≡ n
one_less_lem n several = ground arith

or_else-none {ℓ} : {A : Type ℓ} (o : Option A) → or_else o none ≡ o
or_else-none none = refl
or_else-none (some a) = refl

count-set_count :
    (counts : Sides ℕ) (side : WidgetSide) (n : ℕ) → count_of (set_count counts side n) side ≡ n
count-set_count counts left n = refl
count-set_count counts right n = refl

-- Closing one of several slots of a side takes away one slot: the slots before it keep their
-- widgets, each later one moves up by one, and the slots of the other side and the bottom are as
-- they were; where the slots have the keys of slots, each of them once.
pub handle_close_slot_lem :
    (h : LayoutHook) (side t : WidgetSide) (index j i : ℕ)
    → HasSlotKeys h.slots
    → IsDistinct h.slots
    → CanClose h side index
    → j < 9
    → i < 10
    → is_side t side ≡ false
    → let after = handle_close_slot h (side_slot_key side index) in
      (get after.slots (side_slot_key side j)
        ≡ get h.slots (side_slot_key side (if ltb j index then j else j + 1)))
      × (get after.slots (side_slot_key t i) ≡ get h.slots (side_slot_key t i))
      × (get after.slots "bottom" ≡ get h.slots "bottom")
      × (count_of after.side_slot_counts side + 1 ≡ count_of h.side_slot_counts side)
unfolding get
handle_close_slot_lem h side t index j i slot_keys distinct can small_j small_i other =
    let small : index < 10 = omega (arith, can.0, can.2) in
    let kept =
      λ (source target : String)
          (law : (key : String) → IsSlotKey key → moves_to side index key target ≡ (key == source)).
        get-shift side index h.slots [] source target distinct
          (λ key there. law key (slot_keys key there))
        ∙ or_else-none (get h.slots source) in
    rw (closed h side index can) (
      kept (side_slot_key side (from_index index j)) (side_slot_key side j)
          (law_here side index j small small_j),
      kept (side_slot_key t i) (side_slot_key t i)
          (law_elsewhere side t index i small_i small other),
      kept "bottom" "bottom" (λ key good. law_bottom side index key small good),
      omega (
        arith,
        count-set_count h.side_slot_counts side (one_less (count_of h.side_slot_counts side)),
        one_less_lem (count_of h.side_slot_counts side) can.1,
      ),
    )

put-IsDistinct :
    (slots : Slots) (key : String) (group : WidgetGroup)
    → IsDistinct slots
    → IsDistinct (put slots key group)
unfolding put get
put-IsDistinct [] key group distinct = (refl, tt)
put-IsDistinct ((other, g) ∷ slots) key group (once, distinct) = elim (Bool-cases (other == key)) [
  | inl e ↦ rw e (once, distinct)
  | inr e ↦ rw e (
    ground (arith, get-put slots key other group, once, eq_iff key other, eq_iff other key),
    put-IsDistinct slots key group distinct,
  )
]

increase_below :
    (slots : Slots) (side : WidgetSide) (n : ℕ)
    → n < 10
    → increase_side_slots slots side n
      ≡ (put slots (side_slot_key side n) create_empty_group, n + 1)
unfolding increase_side_slots
increase_below slots side n few =
    let fits : leb (n + 1) 10 ≡ true = ground arith in
    let grows : eqb (n + 1) n ≡ false = ground arith in
    let back : n + 1 - 1 ≡ n = omega arith in rw (fits, grows, back) refl

split_result :
    (h : LayoutHook) (side : WidgetSide)
    → count_of h.side_slot_counts side < 10
    → handle_toggle_split h side ≡ record h {
      slots =
          put h.slots (side_slot_key side (count_of h.side_slot_counts side)) create_empty_group;
      side_slot_counts = set_count h.side_slot_counts side (count_of h.side_slot_counts side + 1);
    }
unfolding handle_toggle_split
split_result h side few =
    rw (increase_below h.slots side (count_of h.side_slot_counts side) few, handle_toggle_split)
      refl

put_kept :
    (slots : Slots) (side t : WidgetSide) (n i : ℕ)
    → n < 10
    → i < 10
    → (is_side side t && eqb n i) ≡ false
    → get (put slots (side_slot_key side n) create_empty_group) (side_slot_key t i)
      ≡ get slots (side_slot_key t i)
put_kept slots side t n i small_n small_i other =
    rw (get-put, key_eq side t n i small_n small_i, other) refl

-- Splitting a side that has less than ten slots and closing the new slot again leaves the side
-- with as many slots as before, and every slot with the widget that it had; where the slots have
-- the keys of slots, each of them once.
pub handle_close_slot-split :
    (h : LayoutHook) (side t : WidgetSide) (j i : ℕ)
    → HasSlotKeys h.slots
    → IsDistinct h.slots
    → 1 ≤ count_of h.side_slot_counts side
    → count_of h.side_slot_counts side < 10
    → j < count_of h.side_slot_counts side
    → i < 10
    → is_side t side ≡ false
    → let after =
        handle_close_slot
          (handle_toggle_split h side)
          (side_slot_key side (count_of h.side_slot_counts side)) in
      (get after.slots (side_slot_key side j) ≡ get h.slots (side_slot_key side j))
      × (get after.slots (side_slot_key t i) ≡ get h.slots (side_slot_key t i))
      × (get after.slots "bottom" ≡ get h.slots "bottom")
      × (count_of after.side_slot_counts side ≡ count_of h.side_slot_counts side)
handle_close_slot-split h side t j i slot_keys distinct some_slot few inside small_i other =
    let n = count_of h.side_slot_counts side in
    let new_key = side_slot_key side n in
    let split = handle_toggle_split h side in
    let split_is = split_result h side few in
    let count_is : count_of split.side_slot_counts side ≡ n + 1 =
      ap (λ (k : LayoutHook). count_of k.side_slot_counts side) split_is
      ∙ count-set_count h.side_slot_counts side (n + 1) in
    let small_j : j < 10 = omega arith in
    let before : ltb j n ≡ true = ground arith in
    let closed =
      handle_close_slot_lem split side t n j i
        (rw split_is
          (put-HasSlotKeys h.slots new_key create_empty_group (inr (side, n, few, refl)) slot_keys))
        (rw split_is (put-IsDistinct h.slots new_key create_empty_group distinct))
        (omega (arith, count_is), omega (arith, count_is), omega (arith, count_is)) (omega arith)
        small_i other in
    (
      closed.0 ∙ rw (before, split_is) (put_kept h.slots side side n j few small_j (ground arith)),
      closed.1
          ∙ rw split_is
              (put_kept h.slots side t n i few small_i (ground (arith, is_side-sym t side other))),
      closed.2 ∙ rw split_is (rw (get-put, side_not_bottom side n few) refl),
      omega (arith, closed.3, count_is),
    )
