-- ===== src/Reconnect/Policy.antt =====
-- src/features/session/core/reconnectPolicy.ts. An attempt's number is a natural number.
use fluxterm.Base.{
  ℕ, zero, suc, ◌-◌, ◌≤◌, ◌<◌, min, ◌≡◌, refl, Option, none, some, List, [], ◌∷◌, arith, length,
  get_elem?, if◌then◌else◌, eqb, ◌||◌,
}

pub data DisconnectReason : Type 0 where
  exit poweroff reboot network unknown : DisconnectReason

abbrev pub reconnect_delay_table_ms : DisconnectReason → List ℕ
reconnect_delay_table_ms exit = []
reconnect_delay_table_ms poweroff = 20_000 ∷ 30_000 ∷ 45_000 ∷ 60_000 ∷ 90_000 ∷ []
reconnect_delay_table_ms reboot = 10_000 ∷ 20_000 ∷ 30_000 ∷ 45_000 ∷ 60_000 ∷ []
reconnect_delay_table_ms network = 2_000 ∷ 4_000 ∷ 8_000 ∷ []
reconnect_delay_table_ms unknown = []

unfoldable pub get_reconnect_delay_plan_ms : DisconnectReason → List ℕ
get_reconnect_delay_plan_ms reason = reconnect_delay_table_ms reason

unfoldable pub get_max_reconnect_attempts : DisconnectReason → ℕ
unfolding get_reconnect_delay_plan_ms
get_max_reconnect_attempts reason = length (get_reconnect_delay_plan_ms reason)

unfoldable pub compute_reconnect_delay_ms : DisconnectReason → ℕ → Option ℕ
unfolding get_reconnect_delay_plan_ms
compute_reconnect_delay_ms reason attempt =
    let plan = get_reconnect_delay_plan_ms reason in
    if eqb (length plan) 0 || eqb attempt 0
    then none
    else get_elem? plan (min (attempt - 1) (length plan - 1))

inside : (xs : List ℕ) (i : ℕ) → i < length xs → (x : ℕ) × (get_elem? xs i ≡ some x)
inside [] i h = elim h [ ]
inside (x ∷ xs) zero h = (x, refl)
inside (x ∷ xs) (suc i) h = inside xs i (omega arith)

-- There is a delay exactly for attempts from the first on, for reasons that are retried at all.
pub compute_reconnect_delay_ms_total :
    (reason : DisconnectReason) (attempt : ℕ)
    → 0 < get_max_reconnect_attempts reason
    → 0 < attempt
    → (d : ℕ) × (compute_reconnect_delay_ms reason attempt ≡ some d)
unfolding compute_reconnect_delay_ms get_max_reconnect_attempts
compute_reconnect_delay_ms_total reason attempt h k =
    let plan = reconnect_delay_table_ms reason in
    let (d, e) = inside plan (min (attempt - 1) (length plan - 1)) (omega arith) in
    (d, ground (arith, e))

abbrev LowerBound : ℕ → List ℕ → Type 0
LowerBound low [] = Unit
LowerBound low (x ∷ xs) = (low ≤ x) × LowerBound low xs

abbrev IsSorted : List ℕ → Type 0
IsSorted [] = Unit
IsSorted (x ∷ xs) = LowerBound x xs × IsSorted xs

LowerBound-get : (xs : List ℕ) (low i d : ℕ) → LowerBound low xs → get_elem? xs i ≡ some d → low ≤ d
LowerBound-get [] low i d h e = absurd (ground arith)
LowerBound-get (x ∷ xs) low zero d h e = ground arith
LowerBound-get (x ∷ xs) low (suc i) d (_, h) e = LowerBound-get xs low i d h e

sorted_get :
    (xs : List ℕ) (i j d e : ℕ)
    → IsSorted xs
    → i ≤ j
    → get_elem? xs i ≡ some d
    → get_elem? xs j ≡ some e
    → d ≤ e
sorted_get [] i j d e h le p q = absurd (ground arith)
sorted_get (x ∷ xs) zero zero d e h le p q = ground arith
sorted_get (x ∷ xs) zero (suc j) d e (low, h) le p q =
    let same_value : x ≡ d = ground arith in rw (← same_value) (LowerBound-get xs x j e low q)
sorted_get (x ∷ xs) (suc i) zero d e h le p q = absurd (omega arith)
sorted_get (x ∷ xs) (suc i) (suc j) d e (_, h) le p q = sorted_get xs i j d e h (omega arith) p q

table-IsSorted : (reason : DisconnectReason) → IsSorted (reconnect_delay_table_ms reason)
table-IsSorted exit = tt
table-IsSorted poweroff = omega arith
table-IsSorted reboot = omega arith
table-IsSorted network = omega arith
table-IsSorted unknown = tt

plan_entry :
    (reason : DisconnectReason) (attempt d : ℕ)
    → compute_reconnect_delay_ms reason attempt ≡ some d
    → (get_elem?
          (reconnect_delay_table_ms reason)
          (min (attempt - 1) (length (reconnect_delay_table_ms reason) - 1))
        ≡ some d)
      × (0 < attempt)
      × (0 < length (reconnect_delay_table_ms reason))
unfolding compute_reconnect_delay_ms
plan_entry reason attempt d h = ground arith

-- The waits never get shorter from one attempt to a later one.
pub compute_reconnect_delay_ms_mono :
    (reason : DisconnectReason) (a b d e : ℕ)
    → a ≤ b
    → compute_reconnect_delay_ms reason a ≡ some d
    → compute_reconnect_delay_ms reason b ≡ some e
    → d ≤ e
compute_reconnect_delay_ms_mono reason a b d e le p q =
    sorted_get (reconnect_delay_table_ms reason)
      (min (a - 1) (length (reconnect_delay_table_ms reason) - 1))
      (min (b - 1) (length (reconnect_delay_table_ms reason) - 1)) d e (table-IsSorted reason)
      (omega arith) (plan_entry reason a d p).0 (plan_entry reason b e q).0
