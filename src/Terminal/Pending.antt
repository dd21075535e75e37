-- ===== src/Terminal/Pending.antt =====
-- A pending request is in flight: it loads, or it will be settled.
use fluxterm.Base.{
  ℕ, ◌≡◌, sym, ap, ◌∙◌, String, true, false, ◌==◌, ◌||◌, some, List, [], ◌∷◌, eqb, if◌then◌else◌,
  arith, eq_iff, Bool-cases, Option-cases, inl, inr,
}
use fluxterm.Base.Dict.{get, delete, get-put, get-delete, get-empty}
use fluxterm.Terminal.Gate.{
  Request, Gate, same_request, in_flight, done_with, is_pending, ensure, on_loaded, on_failed,
  on_settled, cancel, clear, IsReachable, starts, ensures, cancels, clears, loads, fails, settles,
}

abbrev request : String → ℕ → Request
request session_id number = record { session_id = session_id; number = number }

in_flight-done_with :
    (q r : Request) (rest : List Request)
    → in_flight (done_with q rest) r ≡ (if same_request q r then false else in_flight rest r)
in_flight-done_with q r [] = ground arith
in_flight-done_with q r (x ∷ rest) = ground (
  arith,
  in_flight-done_with q r rest,
  eq_iff x.session_id q.session_id,
  eq_iff x.session_id r.session_id,
  eq_iff q.session_id r.session_id,
)

-- A pending request loads or is to be settled.
abbrev pub PendingInFlight : Gate → Type 0
PendingInFlight g =
    (s : String) (n : ℕ)
    → get g.pending s ≡ some n
    → (in_flight g.loading (request s n) || in_flight g.settling (request s n)) ≡ true

moved :
    (g : Gate) (q : Request) (created : List ℕ)
    → PendingInFlight g
    → PendingInFlight
        (record g { loading = done_with q g.loading; settling = q ∷ g.settling; created = created })
moved g q created w s n e = ground (arith, w s n e, in_flight-done_with q (request s n) g.loading)

pub pending_after_delete :
    (g : Gate) (session_id s : String) (n : ℕ)
    → get (delete g.pending session_id) s ≡ some n
    → ((session_id == s) ≡ false) × (get g.pending s ≡ some n)
pending_after_delete g session_id s n e =
    let step = sym (get-delete g.pending session_id s) ∙ e in
    elim (Bool-cases (session_id == s)) [
      | inl this ↦ absurd (ground (arith, step, this))
      | inr other ↦ (other, ground (arith, step, other))
    ]

not_replaced :
    (g : Gate) (q : Request) (s : String) (n : ℕ)
    → is_pending g q ≡ false
    → get g.pending s ≡ some n
    → same_request q (request s n) ≡ false
not_replaced g q s n replaced e = elim (Bool-cases (same_request q (request s n))) [
  | inr differ ↦ differ
  | inl alike ↦
      let same_session : q.session_id ≡ s = ground (arith, alike, eq_iff q.session_id s) in
      let there : get g.pending q.session_id ≡ some n = ap (get g.pending) same_session ∙ e in
      let other_number : eqb n q.number ≡ false = rw (there, is_pending) at replaced in
      absurd (ground (arith, alike, other_number))
]

settled : (g : Gate) (q : Request) → PendingInFlight g → PendingInFlight (on_settled g q)
unfolding on_settled
settled g q w s n = elim (Bool-cases (is_pending g q)) [
  | inl pending ↦
      rw (pending, on_settled)
        (λ e.
          let (other, before) = pending_after_delete g q.session_id s n e in
          ground (arith, w s n before, other, in_flight-done_with q (request s n) g.settling))
  | inr replaced ↦
      rw (replaced, on_settled)
        (λ e. ground (
          arith,
          w s n e,
          in_flight-done_with q (request s n) g.settling,
          not_replaced g q s n replaced e,
        ))
]

started :
    (g : Gate) (session_id : String) → PendingInFlight g → PendingInFlight (ensure g session_id)
unfolding ensure
started g session_id w s n = elim (Option-cases (get g.pending session_id)) [
  | inr (number, there) ↦ rw (there, ensure) (w s n)
  | inl missing ↦
      rw (missing, ensure)
        (λ e.
          let step = sym (get-put g.pending session_id s g.next) ∙ e in
          elim (Bool-cases (session_id == s)) [
            | inl this ↦
                let number : g.next ≡ n = ground (arith, step, this) in ground (arith, this, number)
            | inr other ↦
                let before : get g.pending s ≡ some n = ground (arith, step, other) in
                ground (arith, w s n before)
          ])
]

-- In every state that calls and answers lead to, in any order, a request that is pending loads or
-- is to be settled, so that no session is kept from a new request by one that is gone.
pub IsReachable-PendingInFlight : (g : Gate) → IsReachable g → PendingInFlight g
unfolding cancel clear on_loaded on_failed
IsReachable-PendingInFlight g starts = λ s n e. absurd (ground (arith, e, get-empty {V = ℕ} s))
IsReachable-PendingInFlight g (ensures p session_id r) =
    started p session_id (IsReachable-PendingInFlight p r)
IsReachable-PendingInFlight g (cancels p session_id r) =
    λ s n e. IsReachable-PendingInFlight p r s n (pending_after_delete p session_id s n e).1
IsReachable-PendingInFlight g (clears p r) =
    λ s n e. absurd (ground (arith, e, get-empty {V = ℕ} s))
IsReachable-PendingInFlight g (loads p q is_live has_container r h) =
    moved p q (on_loaded p q is_live has_container).created (IsReachable-PendingInFlight p r)
IsReachable-PendingInFlight g (fails p q r h) =
    moved p q p.created (IsReachable-PendingInFlight p r)
IsReachable-PendingInFlight g (settles p q r h) = settled p q (IsReachable-PendingInFlight p r)
