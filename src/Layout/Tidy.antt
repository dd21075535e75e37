-- ===== src/Layout/Tidy.antt =====
-- What `normalizeWidgetLayout` makes of a stored layout has each widget in one place.
use fluxterm.Base.{
  ◌==◌, eq_iff, or_default, ◌≡◌, ◌≢◌, refl, ap, ◌∙◌, sym, String, true, none, some, [], ◌∷◌,
  includes, arith, Bool-cases, Option-cases, inl, inr,
}
use fluxterm.Base.Json.{Json}
use fluxterm.Base.Dict.{get, get-empty}
use fluxterm.Layout.Slots.{Slots, key_text}
use fluxterm.Layout.Structure.{
  LayoutNumbers, WidgetLayout, ordered_keys, dedupe_active_widgets, active_texts,
}
use fluxterm.Layout.Stored.{is_refused, checked_layout, normalize_widget_layout}
use fluxterm.Layout.Keys.{HasSlotKeys, text_at→keys, structure-HasSlotKeys, all_ordered}
use fluxterm.Layout.Dedupe.{text_at, dedupe_apart, dedupe_slots_lem, floats_apart}

-- A slot with a widget is one that the loop went over.
ordered_if :
    (slots : Slots) (slot widget : String)
    → HasSlotKeys slots
    → text_at (dedupe_active_widgets slots) slot ≡ some widget
    → includes (ordered_keys slots) slot ≡ true
unfolding dedupe_active_widgets
ordered_if slots slot widget h e = elim (Bool-cases (includes (ordered_keys slots) slot)) [
  | inl there ↦ there
  | inr missing ↦
      let key =
        text_at→keys slots slot widget
          (sym (dedupe_apart (ordered_keys slots) slots [] slot missing) ∙ e) in
      all_ordered slots slot (h slot key) key
]

text_at→active_texts :
    (slots : Slots) (slot widget : String)
    → text_at slots slot ≡ some widget
    → includes (active_texts slots) widget ≡ true
unfolding text_at get active_texts
text_at→active_texts [] slot widget e = absurd (ground (arith, e))
text_at→active_texts ((k, group) ∷ slots) slot widget e = elim (Bool-cases (k == slot)) [
  | inl this ↦ elim (Option-cases group.active) [
    | inl empty ↦
        let none_there : text_at ((k, group) ∷ slots) slot ≡ none =
          rw (this, empty, text_at) refl in
        absurd (ground (arith, none_there, e))
    | inr (found, active) ↦
        let found_there : text_at ((k, group) ∷ slots) slot ≡ some (key_text found) =
          rw (this, active, text_at) refl in
        rw (active, active_texts) (ground (arith, found_there, e, eq_iff (key_text found) widget))
  ]
  | inr other ↦
      let skipped : text_at ((k, group) ∷ slots) slot ≡ text_at slots slot =
        rw (other, text_at) refl in
      let later = text_at→active_texts slots slot widget (sym skipped ∙ e) in
      elim (Option-cases group.active) [
        | inl empty ↦ rw (empty, active_texts) later
        | inr (found, active) ↦ rw (active, active_texts) (ground (arith, later))
      ]
]

-- Each widget is in at most one slot, and a widget that is in a slot does not float.
pub record IsTidy {N : Type 0} (layout : WidgetLayout N) : Type 0 where
  pub in_one_slot :
      (slot other widget : String)
      → slot ≢ other
      → text_at layout.slots slot ≡ some widget
      → text_at layout.slots other ≢ some widget
  pub in_slot_or_floating :
      (slot widget : String)
      → text_at layout.slots slot ≡ some widget
      → get layout.floating widget ≡ none

module _ {N : Type 0} (numbers : LayoutNumbers N) where
  deduped_once :
      (slots : Slots) (slot other widget : String)
      → HasSlotKeys slots
      → slot ≢ other
      → text_at (dedupe_active_widgets slots) slot ≡ some widget
      → text_at (dedupe_active_widgets slots) other ≢ some widget
  unfolding dedupe_active_widgets
  deduped_once slots slot other widget h apart e f =
      dedupe_slots_lem (ordered_keys slots) slots [] slot other widget
        (ordered_if slots slot widget h e) (ordered_if slots other widget h f) apart e f

  checked_layout-IsTidy : (value : Json N) → IsTidy (checked_layout numbers value)
  unfolding checked_layout
  checked_layout-IsTidy value = record {
    in_one_slot = λ slot other widget apart e f.
        deduped_once _ slot other widget (structure-HasSlotKeys numbers _ _) apart e f;
    in_slot_or_floating = λ slot widget e.
        floats_apart _ _ [] widget (text_at→active_texts _ slot widget e) (get-empty widget);
  }

  -- In a layout that is made of a stored one, each widget is in at most one slot, and a widget
  -- that is in a slot does not float.
  pub normalize_widget_layout-IsTidy :
      (value : Json N) (layout : WidgetLayout N)
      → normalize_widget_layout numbers value ≡ some layout
      → IsTidy layout
  unfolding normalize_widget_layout
  normalize_widget_layout-IsTidy value layout e = elim (Bool-cases (is_refused numbers value)) [
    | inl refused ↦
        let nothing : normalize_widget_layout numbers value ≡ none =
          rw (refused, normalize_widget_layout) refl in
        absurd (ground (arith, nothing, e))
    | inr passed ↦
        let made : normalize_widget_layout numbers value ≡ some (checked_layout numbers value) =
          rw (passed, normalize_widget_layout) refl in
        let made_it : checked_layout numbers value ≡ layout =
          ap (λ o. or_default o layout) (sym made ∙ e) in
        rw (← made_it) (checked_layout-IsTidy value)
  ]
