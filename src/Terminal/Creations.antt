-- ===== src/Terminal/Creations.antt =====
-- How often a request creates a terminal.
use fluxterm.Base.{
  ℕ, ◌+◌, ◌≤◌, ◌≡◌, refl, String, true, List, [], ◌∷◌, eqb, if◌then◌else◌, arith, Bool-cases,
  Option-cases, inl, inr,
}
use fluxterm.Base.Dict.{get}
use fluxterm.Terminal.Gate.{
  Request, Gate, in_flight, done_with, ensure, on_loaded, on_failed, on_settled, cancel, clear,
  IsReachable, starts, ensures, cancels, clears, loads, fails, settles,
}

-- How often a number stands in a list, and among requests.
abbrev pub times : ℕ → List ℕ → ℕ
times n [] = 0
times n (m ∷ rest) = (if eqb m n then 1 else 0) + times n rest

abbrev pub requests_of : ℕ → List Request → ℕ
requests_of n [] = 0
requests_of n (r ∷ rest) = (if eqb r.number n then 1 else 0) + requests_of n rest

requests_of-done_with-le :
    (n : ℕ) (r : Request) (rest : List Request)
    → requests_of n (done_with r rest) ≤ requests_of n rest
requests_of-done_with-le n r [] = omega arith
requests_of-done_with-le n r (q ∷ rest) = ground (arith, requests_of-done_with-le n r rest)

done_with_less :
    (r : Request) (rest : List Request)
    → in_flight rest r ≡ true
    → requests_of r.number (done_with r rest) + 1 ≤ requests_of r.number rest
done_with_less r [] h = ground (arith, h)
done_with_less r (q ∷ rest) h =
    ground (arith, done_with_less r rest, requests_of-done_with-le r.number r rest)

-- The requests of a gate: each creates at most once, and numbers from the next on are unused.
record IsSound (g : Gate) : Type 0 where
  once : (n : ℕ) → times n g.created + requests_of n g.loading ≤ 1
  unused : (n : ℕ) → g.next ≤ n → times n g.created + requests_of n g.loading ≡ 0

ensure-IsSound : (g : Gate) (s : String) → IsSound g → IsSound (ensure g s)
unfolding ensure
ensure-IsSound g s w = elim (Option-cases (get g.pending s)) [
  | inr (number, there) ↦ rw (there, ensure) w
  | inl missing ↦
      rw (missing, ensure)
        (record {
          once = λ n. ground (arith, w.once n, w.unused n);
          unused = λ n later. ground (arith, w.unused n, later);
        })
]

leave-IsSound :
    (g : Gate) (r : Request) (created : List ℕ)
    → in_flight g.loading r ≡ true
    → ((n : ℕ) → times n created ≤ times n g.created + (if eqb r.number n then 1 else 0))
    → IsSound g
    → IsSound
        (record g { loading = done_with r g.loading; settling = r ∷ g.settling; created = created })
leave-IsSound g r created h more w =
    let less = done_with_less r g.loading h in
    let bound : (n : ℕ)
        → times n created + requests_of n (done_with r g.loading)
          ≤ times n g.created + requests_of n g.loading =
      λ n. elim (Bool-cases (eqb r.number n)) [
        | inl this ↦
            let e : r.number ≡ n = ground (arith, this) in
            let less_n : requests_of n (done_with r g.loading) + 1 ≤ requests_of n g.loading =
              rw (← e) less in
            ground (arith, more n, this, less_n)
        | inr other ↦ ground (arith, more n, other, requests_of-done_with-le n r g.loading)
      ] in
    record {
      once = λ n. omega (arith, bound n, w.once n);
      unused = λ n later. omega (arith, bound n, w.unused n later);
    }

-- In every state that calls and answers lead to, in any order, no request has created more than one
-- terminal, and one that has created is no longer loading.
IsReachable-IsSound : (g : Gate) → IsReachable g → IsSound g
unfolding cancel clear on_loaded on_failed on_settled
IsReachable-IsSound g starts = record { once = λ n. omega arith; unused = λ n later. refl }
IsReachable-IsSound g (ensures p s r) = ensure-IsSound p s (IsReachable-IsSound p r)
IsReachable-IsSound g (cancels p s r) =
    let w = IsReachable-IsSound p r in record { once = w.once; unused = w.unused }
IsReachable-IsSound g (clears p r) =
    let w = IsReachable-IsSound p r in record { once = w.once; unused = w.unused }
IsReachable-IsSound g (loads p q is_live has_container r h) =
    leave-IsSound p q _ h (λ n. ground arith) (IsReachable-IsSound p r)
IsReachable-IsSound g (fails p q r h) =
    leave-IsSound p q p.created h (λ n. ground arith) (IsReachable-IsSound p r)
IsReachable-IsSound g (settles p q r h) =
    let w = IsReachable-IsSound p r in record { once = w.once; unused = w.unused }
