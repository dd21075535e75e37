-- ===== src/History/Removal.antt =====
-- A command that is removed from the global history is gone from it, and nothing else is.
use fluxterm.Base.{
  eq_refl, ℕ, ◌≡◌, refl, String, Bool, false, not, ◌==◌, List, [], ◌∷◌, if◌then◌else◌, eqb, length,
  trim, keep, length-keep-le, count, same, arith, eq_iff, Bool-cases, Option-cases, inl, inr,
}
use fluxterm.Base.Dict.{get, get-put_self}
use fluxterm.History.Buckets.{
  CommandHistoryItem, CommandHistory, global_scope_key, items_of, remove_global_command,
}
use fluxterm.History.Bounds.{commands}

abbrev differs : String → CommandHistoryItem → Bool
differs command item = not (item.command == command)

count-keep-differs :
    (command x : String) (items : List CommandHistoryItem)
    → count x (commands (keep (differs command) items))
      ≡ (if command == x then 0 else count x (commands items))
unfolding count same
count-keep-differs command x [] = ground arith
count-keep-differs command x (a ∷ items) = ground (
  arith,
  count-keep-differs command x items,
  eq_iff a.command command,
  eq_iff a.command x,
  eq_iff command x,
)

none_kept_away :
    (command : String) (items : List CommandHistoryItem)
    → length (keep (differs command) items) ≡ length items
    → count command (commands items) ≡ 0
unfolding count same
none_kept_away command [] e = refl
none_kept_away command (a ∷ items) e =
    ground (arith, none_kept_away command items, length-keep-le (differs command) items)

-- A command that is removed, and is not blank, is no longer in the global history; every other
-- command is in it as often as before.
pub remove_global_command_lem :
    (h : CommandHistory) (text other : String) (now : ℕ)
    → (trim text == "") ≡ false
    → (trim text == other) ≡ false
    → let before = commands (items_of (get h.buckets global_scope_key)) in
      let after =
        commands (items_of (get (remove_global_command h text now).buckets global_scope_key)) in
      (count (trim text) after ≡ 0) × (count other after ≡ count other before)
unfolding remove_global_command count
remove_global_command_lem h text other now given apart =
    elim (Option-cases (get h.buckets global_scope_key)) [
      | inl missing ↦ rw (given, missing, missing) (refl, refl)
      | inr (bucket, there) ↦
          let rest = keep (differs (trim text)) bucket.items in
          elim (Bool-cases (eqb (length rest) (length bucket.items))) [
            | inl unchanged ↦
                rw (given, there, unchanged, there)
                  (none_kept_away (trim text) bucket.items (ground (arith, unchanged)), refl)
            | inr shorter ↦
                rw (given, there, shorter, get-put_self)
                  (
                    ground (
                      arith,
                      count-keep-differs (trim text) (trim text) bucket.items,
                      eq_refl (trim text),
                    ),
                    ground (arith, count-keep-differs (trim text) other bucket.items, apart),
                  )
          ]
    ]
