-- ===== src/History/Bounds.antt =====
-- A bucket names each command once and holds at most 300 of them.
use fluxterm.Base.{
  ℕ, zero, suc, ◌+◌, ◌≤◌, ◌≡◌, refl, ap, ◌∙◌, sym, String, Bool, false, ◌==◌, Option, some, List,
  [], ◌∷◌, length, take, trim, keep, length-take, count, same, same_le, same_ne, arith, eq_iff,
  Bool-cases, Option-cases, inl, inr,
}
use fluxterm.Base.Dict.{Dict, get, put, get-put}
use fluxterm.History.Buckets.{
  CommandHistorySource, CommandHistoryItem, CommandHistoryBucket, CommandHistory,
  history_items_limit, global_scope_key, insert_item, sort_items, trim_history_items, use_again,
  has_command, items_of, upsert_history_bucket, record_command,
}

abbrev pub commands : List CommandHistoryItem → List String
commands [] = []
commands (item ∷ items) = item.command ∷ commands items

count-insert_item :
    (a : CommandHistoryItem) (items : List CommandHistoryItem) (x : String)
    → count x (commands (insert_item a items)) ≡ same a.command x + count x (commands items)
unfolding count insert_item
count-insert_item a [] x = omega arith
count-insert_item a (b ∷ items) x = ground (arith, count-insert_item a items x)

count-sort_items :
    (items : List CommandHistoryItem) (x : String)
    → count x (commands (sort_items items)) ≡ count x (commands items)
unfolding count sort_items
count-sort_items [] x = refl
count-sort_items (a ∷ items) x =
    omega (arith, count-insert_item a (sort_items items) x, count-sort_items items x)

count-take-le :
    (n : ℕ) (items : List CommandHistoryItem) (x : String)
    → count x (commands (take n items)) ≤ count x (commands items)
unfolding count
count-take-le zero items x = omega arith
count-take-le (suc n) [] x = omega arith
count-take-le (suc n) (a ∷ items) x = omega (arith, count-take-le n items x)

count-keep-le :
    (p : CommandHistoryItem → Bool) (items : List CommandHistoryItem) (x : String)
    → count x (commands (keep p items)) ≤ count x (commands items)
unfolding count
count-keep-le p [] x = omega arith
count-keep-le p (a ∷ items) x = ground (arith, count-keep-le p items x)

commands-use_again :
    (command : String) (source : CommandHistorySource) (now : ℕ) (items : List CommandHistoryItem)
    → commands (use_again command source now items) ≡ commands items
unfolding use_again
commands-use_again command source now [] = refl
commands-use_again command source now (a ∷ items) = elim (Bool-cases (a.command == command)) [
  | inl this ↦ rw this refl
  | inr other ↦
      rw other (ap (λ rest. a.command ∷ rest) (commands-use_again command source now items))
]

not_had :
    (items : List CommandHistoryItem) (command : String)
    → has_command items command ≡ false
    → count command (commands items) ≡ 0
unfolding count same
not_had [] command h = refl
not_had (a ∷ items) command h = ground (arith, not_had items command)

-- Each command once, and at most 300 of them.
pub record IsTidy (items : List CommandHistoryItem) : Type 0 where
  pub once : (x : String) → count x (commands items) ≤ 1
  pub bounded : length items ≤ 300

trim-IsTidy :
    (items : List CommandHistoryItem)
    → ((x : String) → count x (commands items) ≤ 1)
    → IsTidy (trim_history_items items history_items_limit)
unfolding trim_history_items
trim-IsTidy items h = record {
  once = λ x. omega (arith, count-take-le 300 (sort_items items) x, count-sort_items items x, h x);
  bounded = omega (arith, length-take 300 (sort_items items));
}

module _ (create_id : String → ℕ → String) where
  upsert-IsTidy :
      (bucket : Option CommandHistoryBucket) (command : String) (source : CommandHistorySource)
      (now : ℕ)
      → ((x : String) → count x (commands (items_of bucket)) ≤ 1)
      → IsTidy (upsert_history_bucket create_id bucket command source now).items
  unfolding upsert_history_bucket count
  upsert-IsTidy bucket command source now h =
      elim (Bool-cases (has_command (items_of bucket) command)) [
        | inl known ↦ rw known (
            trim-IsTidy (use_again command source now (items_of bucket))
              (λ x. rw (commands-use_again command source now (items_of bucket)) (h x)))
        | inr new ↦
            let absent = not_had (items_of bucket) command new in
            rw new (
              trim-IsTidy _ (λ x.
                ground
                  (arith, h x, absent, same_le command x, same_ne command x, eq_iff command x)))
      ]

-- Every bucket is tidy.
abbrev AllTidy : Dict CommandHistoryBucket → Type 0
AllTidy buckets =
    (key : String) (bucket : CommandHistoryBucket)
    → get buckets key ≡ some bucket
    → IsTidy bucket.items

pub record IsWellFormed (h : CommandHistory) : Type 0 where
  pub global_buckets : AllTidy h.buckets
  pub run_buckets : AllTidy h.session_buckets

put-AllTidy :
    (buckets : Dict CommandHistoryBucket) (key : String) (bucket : CommandHistoryBucket)
    → IsTidy bucket.items
    → AllTidy buckets
    → AllTidy (put buckets key bucket)
put-AllTidy buckets key bucket tidy h other found e =
    let step = sym (get-put buckets key other bucket) ∙ e in
    elim (Bool-cases (key == other)) [
      | inl this ↦
          let same_bucket : bucket ≡ found = ground (arith, step, this) in rw (← same_bucket) tidy
      | inr apart ↦ h other found (ground (arith, step, apart))
    ]

once_of :
    (buckets : Dict CommandHistoryBucket) (key : String)
    → AllTidy buckets
    → (x : String) → count x (commands (items_of (get buckets key))) ≤ 1
unfolding count
once_of buckets key h x = elim (Option-cases (get buckets key)) [
  | inl missing ↦ rw missing (omega arith)
  | inr (bucket, there) ↦ rw there ((h key bucket there).once x)
]

module _ (create_id : String → ℕ → String) where
  record_bucket :
      (buckets : Dict CommandHistoryBucket) (key command : String) (source : CommandHistorySource)
      (now : ℕ)
      → AllTidy buckets
      → AllTidy
          (put buckets key (upsert_history_bucket create_id (get buckets key) command source now))
  record_bucket buckets key command source now h =
      put-AllTidy buckets key (upsert_history_bucket create_id (get buckets key) command source now)
        (upsert-IsTidy create_id (get buckets key) command source now (once_of buckets key h)) h

  -- A recorded command keeps every bucket to 300 commands, each of them once.
  pub record_command-IsWellFormed :
      (h : CommandHistory) (session_id : Option String) (text : String)
      (source : CommandHistorySource) (now : ℕ)
      → IsWellFormed h
      → IsWellFormed (record_command create_id h session_id text source now)
  unfolding record_command
  record_command-IsWellFormed h session_id text source now w =
      let recorded =
        record_bucket h.buckets global_scope_key (trim text) source now w.global_buckets in
      elim (Bool-cases (trim text == "")) [
        | inl empty ↦ rw empty w
        | inr given ↦ elim (Option-cases session_id) [
          | inl nobody ↦
              rw (given, nobody) (record { global_buckets = recorded; run_buckets = w.run_buckets })
          | inr (id, somebody) ↦ elim (Bool-cases (id == "")) [
            | inl unnamed ↦
                rw (given, somebody, unnamed)
                  (record { global_buckets = recorded; run_buckets = w.run_buckets })
            | inr named ↦
                rw (given, somebody, named)
                  (record {
                    global_buckets = recorded;
                    run_buckets =
                        record_bucket h.session_buckets id (trim text) source now w.run_buckets;
                  })
          ]
        ]
      ]
