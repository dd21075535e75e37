-- ===== src/Terminal/Cancelled.antt =====
-- A request that was cancelled, or whose gate was cleared, creates no terminal any more, however
-- late its load answers.
use fluxterm.Base.{
  ◌⊎◌, ℕ, ◌<◌, ◌≡◌, ◌≢◌, refl, sym, ◌∙◌, String, true, false, ◌==◌, ◌&&◌, Bool, some, eqb, arith,
  eq_iff, Bool-cases, Option-cases, inl, inr,
}
use fluxterm.Base.Dict.{get, put, delete, get-put, get-empty}
use fluxterm.Terminal.Gate.{
  Request, Gate, in_flight, is_pending, ensure, on_loaded, on_failed, on_settled, cancel, clear,
  IsReachable, starts, ensures, cancels, clears, loads, fails, settles,
}
use fluxterm.Terminal.Creations.{times}
use fluxterm.Terminal.Pending.{pending_after_delete}

-- The states that calls and answers lead to from a state, in any order.
pub data Leads (g : Gate) : Gate → Type 0 where
  stays : Leads g g
  then_ensures : (h : Gate) (s : String) → Leads g h → Leads g (ensure h s)
  then_cancels : (h : Gate) (s : String) → Leads g h → Leads g (cancel h s)
  then_clears : (h : Gate) → Leads g h → Leads g (clear h)
  then_loads :
      (h : Gate) (r : Request) (is_live has_container : Bool)
      → Leads g h
      → in_flight h.loading r ≡ true
      → Leads g (on_loaded h r is_live has_container)
  then_fails :
      (h : Gate) (r : Request) → Leads g h → in_flight h.loading r ≡ true → Leads g (on_failed h r)
  then_settles :
      (h : Gate) (r : Request)
      → Leads g h
      → in_flight h.settling r ≡ true
      → Leads g (on_settled h r)

-- Each pending number was handed out, to one session.
pub record IsNumbered (g : Gate) : Type 0 where
  pub handed_out : (s : String) (n : ℕ) → get g.pending s ≡ some n → n < g.next
  pub own : (s t : String) (n : ℕ) → get g.pending s ≡ some n → get g.pending t ≡ some n → s ≡ t

-- What is pending once a session's request was made.
put_cases :
    (g : Gate) (k s : String) (n : ℕ)
    → get (put g.pending k g.next) s ≡ some n
    → ((k ≡ s) × (n ≡ g.next)) ⊎ (get g.pending s ≡ some n)
put_cases g k s n e =
    let step = sym (get-put g.pending k s g.next) ∙ e in
    elim (Bool-cases (k == s)) [
      | inl this ↦
          let number : n ≡ g.next = ground (arith, step, this) in inl ((eq_iff k s).0 this, number)
      | inr other ↦ inr (ground (arith, step, other))
    ]

ensure-IsNumbered : (g : Gate) (k : String) → IsNumbered g → IsNumbered (ensure g k)
unfolding ensure
ensure-IsNumbered g k w = elim (Option-cases (get g.pending k)) [
  | inr (number, there) ↦ rw (there, ensure) w
  | inl missing ↦
      rw (missing, ensure)
        (record {
          handed_out = λ s n e. elim (put_cases g k s n e) [
            | inl (this, number) ↦ omega (arith, number)
            | inr before ↦ omega (arith, w.handed_out s n before)
          ];
          own = λ s t n e f. elim (put_cases g k s n e) [
            | inl (this, number) ↦ elim (put_cases g k t n f) [
              | inl (that, same_number) ↦ sym this ∙ that
              | inr before ↦ absurd (omega (arith, w.handed_out t n before, number))
            ]
            | inr before ↦ elim (put_cases g k t n f) [
              | inl (that, number) ↦ absurd (omega (arith, w.handed_out s n before, number))
              | inr later ↦ w.own s t n before later
            ]
          ];
        })
]

delete-IsNumbered :
    (g : Gate) (k : String) → IsNumbered g → IsNumbered (record g { pending = delete g.pending k })
delete-IsNumbered g k w = record {
  handed_out = λ s n e. w.handed_out s n (pending_after_delete g k s n e).1;
  own = λ s t n e f.
      w.own s t n (pending_after_delete g k s n e).1 (pending_after_delete g k t n f).1;
}

settled-IsNumbered : (g : Gate) (r : Request) → IsNumbered g → IsNumbered (on_settled g r)
unfolding on_settled
settled-IsNumbered g r w =
    let left = delete-IsNumbered g r.session_id w in
    elim (Bool-cases (is_pending g r)) [
      | inl e ↦ rw (e, on_settled) (record { handed_out = left.handed_out; own = left.own })
      | inr e ↦ rw (e, on_settled) (record { handed_out = w.handed_out; own = w.own })
    ]

IsReachable-IsNumbered : (g : Gate) → IsReachable g → IsNumbered g
unfolding cancel clear on_loaded on_failed
IsReachable-IsNumbered g starts = record {
  handed_out = λ s n e. absurd (ground (arith, e, get-empty {V = ℕ} s));
  own = λ s t n e f. absurd (ground (arith, e, get-empty {V = ℕ} s));
}
IsReachable-IsNumbered g (ensures p s r) = ensure-IsNumbered p s (IsReachable-IsNumbered p r)
IsReachable-IsNumbered g (cancels p s r) = delete-IsNumbered p s (IsReachable-IsNumbered p r)
IsReachable-IsNumbered g (clears p r) = record {
  handed_out = λ s n e. absurd (ground (arith, e, get-empty {V = ℕ} s));
  own = λ s t n e f. absurd (ground (arith, e, get-empty {V = ℕ} s));
}
IsReachable-IsNumbered g (loads p q is_live has_container r h) =
    let w = IsReachable-IsNumbered p r in record { handed_out = w.handed_out; own = w.own }
IsReachable-IsNumbered g (fails p q r h) =
    let w = IsReachable-IsNumbered p r in record { handed_out = w.handed_out; own = w.own }
IsReachable-IsNumbered g (settles p q r h) = settled-IsNumbered p q (IsReachable-IsNumbered p r)

-- A number that was handed out, is pending no more, and has created so many terminals.
pub record IsGone (n made : ℕ) (g : Gate) : Type 0 where
  pub old : n < g.next
  pub dropped : (s : String) → get g.pending s ≢ some n
  pub kept : times n g.created ≡ made

ensure-IsGone : (g : Gate) (k : String) (n made : ℕ) → IsGone n made g → IsGone n made (ensure g k)
unfolding ensure
ensure-IsGone g k n made w = elim (Option-cases (get g.pending k)) [
  | inr (number, there) ↦ rw (there, ensure) w
  | inl missing ↦
      rw (missing, ensure)
        (record {
          old = omega (arith, w.old);
          dropped = λ s e. elim (put_cases g k s n e) [
            | inl (this, number) ↦ absurd (omega (arith, w.old, number))
            | inr before ↦ w.dropped s before
          ];
          kept = w.kept;
        })
]

delete-IsGone :
    (g : Gate) (k : String) (n made : ℕ)
    → IsGone n made g
    → IsGone n made (record g { pending = delete g.pending k })
delete-IsGone g k n made w = record {
  old = w.old;
  dropped = λ s e. w.dropped s (pending_after_delete g k s n e).1;
  kept = w.kept;
}

-- The request with a number that is pending no more is not the pending one of its session.
other_number :
    (g : Gate) (r : Request) (n made : ℕ)
    → IsGone n made g
    → is_pending g r ≡ true
    → eqb r.number n ≡ false
other_number g r n made w e = elim (Option-cases (get g.pending r.session_id)) [
  | inl missing ↦ absurd (ground (arith, rw (missing, is_pending) at e))
  | inr (number, there) ↦
      let same_number : eqb number r.number ≡ true = rw (there, is_pending) at e in
      elim (Bool-cases (eqb r.number n)) [
        | inr differ ↦ differ
        | inl alike ↦
            let found : number ≡ n = ground (arith, same_number, alike) in
            absurd (w.dropped r.session_id (rw (← found) there))
      ]
]

loaded-IsGone :
    (g : Gate) (r : Request) (is_live has_container : Bool) (n made : ℕ)
    → IsGone n made g
    → IsGone n made (on_loaded g r is_live has_container)
unfolding on_loaded
loaded-IsGone g r is_live has_container n made w = record {
  old = w.old;
  dropped = w.dropped;
  kept = elim (Bool-cases (is_pending g r && (is_live && has_container))) [
    | inr e ↦ rw (e, on_loaded) w.kept
    | inl e ↦
        rw (e, on_loaded) (ground (arith, w.kept, other_number g r n made w (ground (arith, e))))
  ];
}

settled-IsGone :
    (g : Gate) (r : Request) (n made : ℕ) → IsGone n made g → IsGone n made (on_settled g r)
unfolding on_settled
settled-IsGone g r n made w =
    let left = delete-IsGone g r.session_id n made w in
    elim (Bool-cases (is_pending g r)) [
      | inl e ↦
          rw (e, on_settled) (record { old = left.old; dropped = left.dropped; kept = left.kept })
      | inr e ↦ rw (e, on_settled) (record { old = w.old; dropped = w.dropped; kept = w.kept })
    ]

Leads-IsGone : (g h : Gate) (n made : ℕ) → IsGone n made g → Leads g h → IsGone n made h
unfolding cancel clear on_failed
Leads-IsGone g h n made w stays = w
Leads-IsGone g h n made w (then_ensures p s r) =
    ensure-IsGone p s n made (Leads-IsGone g p n made w r)
Leads-IsGone g h n made w (then_cancels p s r) =
    delete-IsGone p s n made (Leads-IsGone g p n made w r)
Leads-IsGone g h n made w (then_clears p r) =
    let before = Leads-IsGone g p n made w r in
    record {
      old = before.old;
      dropped = λ s e. absurd (ground (arith, e, get-empty {V = ℕ} s));
      kept = before.kept;
    }
Leads-IsGone g h n made w (then_loads p q is_live has_container r f) =
    loaded-IsGone p q is_live has_container n made (Leads-IsGone g p n made w r)
Leads-IsGone g h n made w (then_fails p q r f) =
    let before = Leads-IsGone g p n made w r in
    record { old = before.old; dropped = before.dropped; kept = before.kept }
Leads-IsGone g h n made w (then_settles p q r f) =
    settled-IsGone p q n made (Leads-IsGone g p n made w r)

-- A load that answers when the session is gone, or has no container, creates nothing.
unwanted :
    (g : Gate) (r : Request) (answer : Bool)
    → ((on_loaded g r false answer).created ≡ g.created)
      × ((on_loaded g r answer false).created ≡ g.created)
unfolding on_loaded
unwanted g r answer = (ground arith, ground arith)

-- When the pending request of a session is cancelled, it creates no terminal from then on,
-- whatever is called and answered afterwards, in any order: neither when its load answers late,
-- nor while a new request of the session is pending. And no request creates one when its load
-- answers and its session is not live or has no container.
pub cancel-quiet :
    (g h : Gate) (s : String) (n : ℕ) (r : Request) (answer : Bool)
    → IsReachable g
    → get g.pending s ≡ some n
    → Leads (cancel g s) h
    → (times n h.created ≡ times n g.created)
      × ((on_loaded h r false answer).created ≡ h.created)
      × ((on_loaded h r answer false).created ≡ h.created)
unfolding cancel
cancel-quiet g h s n r answer reached there later =
    let w = IsReachable-IsNumbered g reached in
    let gone : IsGone n (times n g.created) (cancel g s) = record {
      old = w.handed_out s n there;
      dropped = λ t e.
          let (other, before) = pending_after_delete g s t n e in
          absurd (ground (arith, other, eq_iff s t, w.own s t n there before));
      kept = refl;
    } in
    let (not_live, no_container) = unwanted h r answer in
    ((Leads-IsGone (cancel g s) h n (times n g.created) gone later).kept, not_live, no_container)
