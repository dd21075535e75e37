-- ===== src/Layout/Dedupe.antt =====
-- After the duplicates are cleared, no two slots hold the same widget; the widgets that float are
-- in no slot.
use fluxterm.Base.{
  ◌≢◌, ◌≡◌, refl, ap, ◌∙◌, sym, String, true, false, ◌==◌, Option, none, some, List, [], ◌∷◌,
  if◌then◌else◌, includes, arith, eq_iff, eq_refl, Bool-cases, Option-cases, inl, inr,
}
use fluxterm.Base.Json.{Json}
use fluxterm.Base.Dict.{Dict, get, put, get-put}
use fluxterm.Layout.Slots.{key_text, normalize_widget_key, Slots, create_empty_group}
use fluxterm.Layout.Structure.{dedupe_slots, normalize_origin, normalize_floating}

-- The text of the widget in a slot.
unfoldable pub text_at : Slots → String → Option String
text_at slots slot = elim (get slots slot) [
  | none ↦ none
  | some group ↦ elim group.active [ none ↦ none | some widget ↦ some (key_text widget) ]
]

-- The slots after one turn of the loop, and the texts seen.
abbrev next_slots : String → Slots → List String → Slots
next_slots slot next used = elim (text_at next slot) [
  | none ↦ next
  | some widget ↦ if includes used widget then put next slot create_empty_group else next
]

abbrev next_used : String → Slots → List String → List String
next_used slot next used = elim (text_at next slot) [
  | none ↦ used
  | some widget ↦ if includes used widget then used else widget ∷ used
]

turn :
    (slot : String) (rest : List String) (next : Slots) (used : List String)
    → dedupe_slots (slot ∷ rest) next used
      ≡ dedupe_slots rest (next_slots slot next used) (next_used slot next used)
unfolding dedupe_slots text_at
turn slot rest next used = elim (Option-cases (get next slot)) [
  | inl missing ↦ rw (missing, dedupe_slots, next_slots, next_used, text_at) refl
  | inr (group, there) ↦ elim (Option-cases group.active) [
    | inl empty ↦ rw (there, empty, dedupe_slots, next_slots, next_used, text_at) refl
    | inr (widget, active) ↦ rw (there, active, dedupe_slots, next_slots, next_used, text_at) refl
  ]
]

text_at-cleared :
    (next : Slots) (slot other : String)
    → text_at (put next slot create_empty_group) other
      ≡ (if slot == other then none else text_at next other)
unfolding text_at
text_at-cleared next slot other = elim (Bool-cases (slot == other)) [
  | inl here ↦ rw (get-put next slot other create_empty_group, here, text_at) refl
  | inr elsewhere ↦ rw (get-put next slot other create_empty_group, elsewhere, text_at) refl
]

text_at-next_slots :
    (slot other : String) (next : Slots) (used : List String)
    → (slot == other) ≡ false
    → text_at (next_slots slot next used) other ≡ text_at next other
text_at-next_slots slot other next used apart = elim (Option-cases (text_at next slot)) [
  | inl empty ↦ rw (empty, next_slots) refl
  | inr (widget, there) ↦ elim (Bool-cases (includes used widget)) [
    | inl seen ↦ rw (there, seen, text_at-cleared next slot other, apart, next_slots) refl
    | inr new ↦ rw (there, new, next_slots) refl
  ]
]

seen_after :
    (slot : String) (next : Slots) (used : List String) (widget : String)
    → text_at (next_slots slot next used) slot ≡ some widget
    → (includes used widget ≡ false) × (includes (next_used slot next used) widget ≡ true)
seen_after slot next used widget h = elim (Option-cases (text_at next slot)) [
  | inl empty ↦ absurd (ground (arith, rw (empty, next_slots) at h, empty))
  | inr (found, there) ↦ elim (Bool-cases (includes used found)) [
    | inl seen ↦ absurd (
        ground (
          arith,
          sym (text_at-cleared next slot slot) ∙ rw (there, seen, next_slots) at h,
          eq_refl slot,
        ))
    | inr new ↦
        let unchanged : next_slots slot next used ≡ next = rw (there, new, next_slots) refl in
        let found_it : some found ≡ some widget =
          sym there ∙ ap (λ slots. text_at slots slot) (sym unchanged) ∙ h in
        rw (there, new, next_used)
          (ground (arith, found_it, new), ground (arith, found_it, eq_iff found widget))
  ]
]

still_seen :
    (slot : String) (next : Slots) (used : List String) (widget : String)
    → includes used widget ≡ true
    → includes (next_used slot next used) widget ≡ true
still_seen slot next used widget h = elim (Option-cases (text_at next slot)) [
  | inl empty ↦ rw (empty, next_used) h
  | inr (found, there) ↦ elim (Bool-cases (includes used found)) [
    | inl seen ↦ rw (there, seen, next_used) h
    | inr new ↦ rw (there, new, next_used) (ground (arith, h))
  ]
]

pub dedupe_apart :
    (slots : List String) (next : Slots) (used : List String) (slot : String)
    → includes slots slot ≡ false
    → text_at (dedupe_slots slots next used) slot ≡ text_at next slot
unfolding dedupe_slots
dedupe_apart [] next used slot h = refl
dedupe_apart (first ∷ slots) next used slot h =
    ap (λ after. text_at after slot) (turn first slots next used)
    ∙ dedupe_apart slots (next_slots first next used) (next_used first next used) slot
        (ground (arith, h))
    ∙ text_at-next_slots first slot next used (ground (arith, h))

-- A widget that was seen before the loop is in none of the loop's slots after it.
dedupe_seen :
    (slots : List String) (next : Slots) (used : List String) (slot widget : String)
    → includes slots slot ≡ true
    → includes used widget ≡ true
    → text_at (dedupe_slots slots next used) slot ≡ some widget
    → ⊥
dedupe_seen [] next used slot widget h seen e = absurd (ground (arith, h))
dedupe_seen (first ∷ slots) next used slot widget h seen e =
    let after_e : text_at
          (dedupe_slots slots (next_slots first next used) (next_used first next used)) slot
        ≡ some widget =
      ap (λ after. text_at after slot) (sym (turn first slots next used)) ∙ e in
    elim (Bool-cases (includes slots slot)) [
      | inl later ↦
          dedupe_seen slots (next_slots first next used) (next_used first next used) slot widget
            later (still_seen first next used widget seen) after_e
      | inr last ↦
          let here : slot ≡ first = ground (arith, h, last, eq_iff first slot) in
          let first_e : text_at (next_slots first next used) first ≡ some widget =
            ap (text_at (next_slots first next used)) (sym here)
            ∙ sym (
                dedupe_apart slots (next_slots first next used) (next_used first next used) slot
                  last)
            ∙ after_e in
          ground (arith, (seen_after first next used widget first_e).0, seen)
    ]

-- A widget that the first slot keeps is in no later slot.
first_keeps :
    (first : String) (slots : List String) (next : Slots) (used : List String)
    (slot other widget : String)
    → includes (first ∷ slots) slot ≡ true
    → includes slots slot ≡ false
    → includes slots other ≡ true
    → text_at (dedupe_slots (first ∷ slots) next used) slot ≡ some widget
    → text_at (dedupe_slots (first ∷ slots) next used) other ≡ some widget
    → ⊥
first_keeps first slots next used slot other widget h last later e f =
    let after = next_slots first next used in
    let seen = next_used first next used in
    let here : slot ≡ first = ground (arith, h, last, eq_iff first slot) in
    let first_e : text_at after first ≡ some widget =
      ap (text_at after) (sym here)
      ∙ sym (dedupe_apart slots after seen slot last)
      ∙ ap (λ final. text_at final slot) (sym (turn first slots next used))
      ∙ e in
    dedupe_seen slots after seen other widget later (seen_after first next used widget first_e).1
      (ap (λ final. text_at final other) (sym (turn first slots next used)) ∙ f)

-- After the loop over some slots, no widget is in two of them.
pub dedupe_slots_lem :
    (slots : List String) (next : Slots) (used : List String) (slot other widget : String)
    → includes slots slot ≡ true
    → includes slots other ≡ true
    → slot ≢ other
    → text_at (dedupe_slots slots next used) slot ≡ some widget
    → text_at (dedupe_slots slots next used) other ≢ some widget
dedupe_slots_lem [] next used slot other widget h k apart e f = absurd (ground (arith, h))
dedupe_slots_lem (first ∷ slots) next used slot other widget h k apart e f =
    elim (Bool-cases (includes slots slot)) [
      | inr last ↦ elim (Bool-cases (includes slots other)) [
        | inl later ↦ first_keeps first slots next used slot other widget h last later e f
        | inr both ↦ apart (ground (arith, h, k, last, both, eq_iff first slot, eq_iff first other))
      ]
      | inl there ↦ elim (Bool-cases (includes slots other)) [
        | inr last ↦ first_keeps first slots next used other slot widget k last there f e
        | inl later ↦
            dedupe_slots_lem slots (next_slots first next used) (next_used first next used) slot
              other widget there later apart
              (ap (λ final. text_at final slot) (sym (turn first slots next used)) ∙ e)
              (ap (λ final. text_at final other) (sym (turn first slots next used)) ∙ f)
      ]
    ]

module _ {N : Type 0} where
  pub floats_apart :
      (active : List String) (entries : List (String × Json N)) (next : Dict String)
      (widget : String)
      → includes active widget ≡ true
      → get next widget ≡ none
      → get (normalize_floating active entries next) widget ≡ none
  unfolding normalize_floating
  floats_apart active [] next widget h e = e
  floats_apart active ((key, value) ∷ rest) next widget h e =
      elim (Option-cases (normalize_widget_key key)) [
        | inl unknown ↦ rw (unknown, normalize_floating) (floats_apart active rest next widget h e)
        | inr (found, known) ↦ elim (Option-cases (normalize_origin value)) [
          | inl nowhere ↦
              rw (known, nowhere, normalize_floating) (floats_apart active rest next widget h e)
          | inr (origin, there) ↦ elim (Bool-cases (includes active (key_text found))) [
            | inl docked ↦
                rw (known, there, docked, normalize_floating)
                  (floats_apart active rest next widget h e)
            | inr free ↦
                rw (known, there, free, normalize_floating)
                  (floats_apart active rest (put next (key_text found) origin) widget h (
                    get-put next (key_text found) widget origin
                    ∙ ground (arith, h, free, e, eq_iff (key_text found) widget)))
          ]
        ]
      ]
