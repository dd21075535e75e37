-- ===== src/Sessions/InputOrder.antt =====
-- The inputs of a session are sent in the order of the calls, one at a time
-- (src/hooks/useSessionStateCore.ts).
use fluxterm.Base.{
  ◌⊎◌, ◌⊎◌, ℕ, ◌<◌, ◌≤◌, String, Bool, true, ◌==◌, ◌≡◌, ap, ◌∙◌, sym, Option, none, some, eqb,
  arith, eq_iff, Bool-cases, Option-cases, inl, inr,
}
use fluxterm.Base.Dict.{get, delete, get-delete}
use fluxterm.Sessions.Inputs.{
  leave, left_queue, Inputs, set, no_inputs, is_ready, dispatch, drop_tail, settle, IsReachable,
  start, called, sent, settled,
}
use fluxterm.Sessions.Queueing.{IsOrdered, enqueue-IsOrdered}

keeps_true : (f : ℕ → Bool) (n m : ℕ) → f m ≡ true → set f n true m ≡ true
unfolding set
keeps_true f n m h = ground (arith, h)

cases_true : (f : ℕ → Bool) (n m : ℕ) → set f n true m ≡ true → (m ≡ n) ⊎ (f m ≡ true)
unfolding set
cases_true f n m h = elim (Bool-cases (eqb m n)) [
  | inl e ↦ inl (ground (arith, e))
  | inr e ↦ inr (ground (arith, e, h))
]

module _ (x : Inputs) (ok : IsOrdered x) (n : ℕ) where
  -- What a ready input waits for is done, and so is all before it.
  ready_all :
      n < x.next
      → is_ready x n ≡ true
      → (a : ℕ) → a < n
      → x.session_of a ≡ x.session_of n
      → x.is_done a ≡ true
  unfolding is_ready
  ready_all inside ready a below own = elim (Option-cases (x.waits_for n)) [
    | inl e ↦ ok.waits_none a n below inside own e
    | inr (p, e) ↦
        let done : x.is_done p ≡ true = rw (e, is_ready) at ready in
        let (before, same_session) = ok.waits_own n p inside e in
        let last : a ≤ p = ok.waits_some a n p below inside own e in
        let inside_p : p < x.next = omega (arith, before, inside) in
        elim (Bool-cases (eqb a p)) [
          | inl f ↦ let here : a ≡ p = ground (arith, f) in rw here done
          | inr f ↦
              ok.ordered a p (ground (arith, f, last)) inside_p (own ∙ sym same_session)
                (ok.done_sent p inside_p done)
        ]
  ]

  dispatch-IsOrdered : n < x.next → is_ready x n ≡ true → IsOrdered (dispatch x n)
  unfolding dispatch
  dispatch-IsOrdered inside ready = record {
    ordered = λ a b below inside_b own was_sent. elim (cases_true x.is_sent n b was_sent) [
      | inl here ↦
          ready_all inside ready a (omega (arith, here, below)) (own ∙ ap x.session_of here)
      | inr before ↦ ok.ordered a b below inside_b own before
    ];
    done_sent = λ m inside_m done. keeps_true x.is_sent n m (ok.done_sent m inside_m done);
    waits_none = ok.waits_none;
    waits_some = ok.waits_some;
    waits_own = ok.waits_own;
    no_tail = ok.no_tail;
    tail_own = ok.tail_own;
    tail_last = ok.tail_last;
  }

  -- The queue of a session is dropped only when its last input is done.
  dropped_cases :
      (t : String) (o : Option ℕ)
      → get (drop_tail x.tails (x.session_of n) n) t ≡ o
      → (get x.tails t ≡ o) ⊎ ((o ≡ none) × (get x.tails t ≡ some n))
  unfolding drop_tail
  dropped_cases t o e =
      let q = x.session_of n in
      elim (Option-cases (get x.tails q)) [
        | inl none_there ↦ inl (rw (none_there, drop_tail) at e)
        | inr (tail, there) ↦ elim (Bool-cases (eqb tail n)) [
          | inr other ↦ inl (rw (there, drop_tail, other) at e)
          | inl this ↦
              let deleted : get (delete x.tails q) t ≡ o = rw (there, drop_tail, this) at e in
              elim (Bool-cases (q == t)) [
                | inl here ↦
                    let same_session : q ≡ t = (eq_iff q t).0 here in
                    let same_tail : tail ≡ n = ground (arith, this) in
                    inr (
                      ground (arith, get-delete x.tails q t, here, deleted),
                      rw (← same_session) (there ∙ ap some same_tail),
                    )
                | inr apart ↦ inl (ground (arith, get-delete x.tails q t, apart, deleted))
              ]
        ]
      ]

  settle-IsOrdered : x.is_sent n ≡ true → IsOrdered (settle x n)
  unfolding settle
  settle-IsOrdered was_sent = record {
    ordered = λ a b below inside_b own sent_b.
        keeps_true x.is_done n a (ok.ordered a b below inside_b own sent_b);
    done_sent = λ m inside_m done. elim (cases_true x.is_done n m done) [
      | inl here ↦ rw here was_sent
      | inr before ↦ ok.done_sent m inside_m before
    ];
    waits_none = λ a b below inside_b own waits.
        keeps_true x.is_done n a (ok.waits_none a b below inside_b own waits);
    waits_some = ok.waits_some;
    waits_own = ok.waits_own;
    no_tail =
        λ t a missing inside_a own. keeps_true x.is_done n a (ok.no_tail t a missing inside_a own);
    tail_own = ok.tail_own;
    tail_last = ok.tail_last;
  }

  leave-IsOrdered : n < x.next → x.is_done n ≡ true → IsOrdered (leave x n)
  unfolding leave
  leave-IsOrdered inside was_done = record {
    ordered = ok.ordered;
    done_sent = ok.done_sent;
    waits_none = ok.waits_none;
    waits_some = ok.waits_some;
    waits_own = ok.waits_own;
    no_tail = λ t a missing inside_a own. elim (dropped_cases t none missing) [
      | inl old ↦ ok.no_tail t a old inside_a own
      | inr (nothing, tail) ↦
          let last : a ≤ n = ok.tail_last t n a tail inside_a own in
          elim (Bool-cases (eqb a n)) [
            | inl here ↦ let same_input : a ≡ n = ground (arith, here) in rw same_input was_done
            | inr other ↦
                ok.ordered a n (ground (arith, other, last)) inside
                  (own ∙ sym (ok.tail_own t n tail).1) (ok.done_sent n inside was_done)
          ]
    ];
    tail_own = λ t p there. elim (dropped_cases t (some p) there) [
      | inl old ↦ ok.tail_own t p old
      | inr (nothing, tail) ↦ absurd (ground (arith, nothing))
    ];
    tail_last = λ t p a there inside_a own. elim (dropped_cases t (some p) there) [
      | inl old ↦ ok.tail_last t p a old inside_a own
      | inr (nothing, tail) ↦ absurd (ground (arith, nothing))
    ];
  }

no_inputs-IsOrdered : IsOrdered no_inputs
unfolding get
no_inputs-IsOrdered = record {
  ordered = λ a b below inside. absurd (omega arith);
  done_sent = λ n inside. absurd (omega arith);
  waits_none = λ a b below inside. absurd (omega arith);
  waits_some = λ a b p below inside. absurd (omega arith);
  waits_own = λ b p inside. absurd (omega arith);
  no_tail = λ s a missing inside. absurd (omega arith);
  tail_own = λ s p there. absurd (ground (arith, there));
  tail_last = λ s p a there inside. absurd (omega arith);
}

IsReachable-IsOrdered : {x : Inputs} → IsReachable x → IsOrdered x
IsReachable-IsOrdered start = no_inputs-IsOrdered
IsReachable-IsOrdered (called x s r) = enqueue-IsOrdered x (IsReachable-IsOrdered r) s
IsReachable-IsOrdered (sent x n r inside ready) =
    dispatch-IsOrdered x (IsReachable-IsOrdered r) n inside ready
IsReachable-IsOrdered (settled x n r inside was_sent) =
    settle-IsOrdered x (IsReachable-IsOrdered r) n was_sent
IsReachable-IsOrdered (left_queue x n r inside was_done) =
    leave-IsOrdered x (IsReachable-IsOrdered r) n inside was_done

-- In every state that calls and answers lead to, in any order: when an input of a session has been
-- sent to the back end, every earlier input of that session has been answered. So a session's
-- inputs are sent one at a time, in the order of the calls.
pub IsReachable-sent_in_order :
    (x : Inputs) (a b : ℕ)
    → IsReachable x
    → a < b
    → b < x.next
    → x.session_of a ≡ x.session_of b
    → x.is_sent b ≡ true
    → x.is_done a ≡ true
IsReachable-sent_in_order x a b r below inside own was_sent =
    (IsReachable-IsOrdered r).ordered a b below inside own was_sent
