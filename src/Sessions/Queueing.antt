-- ===== src/Sessions/Queueing.antt =====
-- The order of the input queues of src/hooks/useSessionStateCore.ts, and a new input at the end
-- of its queue.
use fluxterm.Base.{
  ◌⊎◌, ◌⊎◌, ℕ, ◌+◌, ◌<◌, ◌≤◌, String, Bool, true, false, ◌==◌, ◌≡◌, refl, ap, ◌∙◌, sym, Option,
  none, some, eqb, ltb, arith, eq_iff, Bool-cases, inl, inr,
}
use fluxterm.Base.Dict.{get, put, get-put}
use fluxterm.Sessions.Inputs.{Inputs, set, enqueue}

pub record IsOrdered (x : Inputs) : Type 0 where
  pub ordered :
      (a b : ℕ)
      → a < b
      → b < x.next
      → x.session_of a ≡ x.session_of b
      → x.is_sent b ≡ true
      → x.is_done a ≡ true
  pub done_sent : (n : ℕ) → n < x.next → x.is_done n ≡ true → x.is_sent n ≡ true
  pub waits_none :
      (a b : ℕ)
      → a < b
      → b < x.next
      → x.session_of a ≡ x.session_of b
      → x.waits_for b ≡ none
      → x.is_done a ≡ true
  pub waits_some :
      (a b p : ℕ)
      → a < b
      → b < x.next
      → x.session_of a ≡ x.session_of b
      → x.waits_for b ≡ some p
      → a ≤ p
  pub waits_own :
      (b p : ℕ) → b < x.next → x.waits_for b ≡ some p → (p < b) × (x.session_of p ≡ x.session_of b)
  pub no_tail :
      (s : String) (a : ℕ)
      → get x.tails s ≡ none
      → a < x.next
      → x.session_of a ≡ s
      → x.is_done a ≡ true
  pub tail_own : (s : String) (p : ℕ) → get x.tails s ≡ some p → (p < x.next) × (x.session_of p ≡ s)
  pub tail_last :
      (s : String) (p a : ℕ) → get x.tails s ≡ some p → a < x.next → x.session_of a ≡ s → a ≤ p

pub set_below {ℓ} : {A : Type ℓ} (f : ℕ → A) (n m : ℕ) (v : A) → m < n → set f n v m ≡ f m
unfolding set
set_below f n m v h = let other : eqb m n ≡ false = ground arith in rw other refl

pub set_self {ℓ} : {A : Type ℓ} (f : ℕ → A) (n : ℕ) (v : A) → set f n v n ≡ v
unfolding set
set_self f n v = let same_index : eqb n n ≡ true = ground arith in rw same_index refl

-- An index below the next one is an old one or the last.
pub old_or_last : (n next : ℕ) → n < next + 1 → (n < next) ⊎ (n ≡ next)
old_or_last n next h = elim (Bool-cases (ltb n next)) [
  | inl e ↦ inl (ground (arith, e))
  | inr e ↦ inr (ground (arith, e))
]

some_eq {ℓ} : {A : Type ℓ} (a b : A) → some a ≡ some b → a ≡ b
some_eq a b e = ground (arith, e)

module _ (x : Inputs) (ok : IsOrdered x) (s : String) where
  old_session : (m : ℕ) → m < x.next → set x.session_of x.next s m ≡ x.session_of m
  old_session m h = set_below x.session_of x.next m s h

  old_pair :
      (a b : ℕ)
      → a < x.next
      → b < x.next
      → set x.session_of x.next s a ≡ set x.session_of x.next s b
      → x.session_of a ≡ x.session_of b
  old_pair a b ha hb own = sym (old_session a ha) ∙ own ∙ old_session b hb

  last_session :
      (a b : ℕ)
      → a < x.next
      → b ≡ x.next
      → set x.session_of x.next s a ≡ set x.session_of x.next s b
      → x.session_of a ≡ s
  last_session a b ha last own =
      sym (old_session a ha)
      ∙ own
      ∙ ap (set x.session_of x.next s) last
      ∙ set_self x.session_of x.next s

  last_wait :
      (b : ℕ) (o : Option ℕ)
      → b ≡ x.next
      → set x.waits_for x.next (get x.tails s) b ≡ o
      → get x.tails s ≡ o
  last_wait b o last waits =
      sym (set_self x.waits_for x.next (get x.tails s))
      ∙ ap (set x.waits_for x.next (get x.tails s)) (sym last)
      ∙ waits

  old_wait :
      (b : ℕ) (o : Option ℕ)
      → b < x.next
      → set x.waits_for x.next (get x.tails s) b ≡ o
      → x.waits_for b ≡ o
  old_wait b o hb waits = sym (set_below x.waits_for x.next b (get x.tails s) hb) ∙ waits

  last_false : (f : ℕ → Bool) (b : ℕ) → b ≡ x.next → set f x.next false b ≡ true → ⊥
  last_false f b last e = absurd (ground (arith, rw last at e, set_self f x.next false))

  tail_cases :
      (t : String) (o : Option ℕ)
      → get (put x.tails s x.next) t ≡ o
      → ((s ≡ t) × (some x.next ≡ o)) ⊎ (((s == t) ≡ false) × (get x.tails t ≡ o))
  tail_cases t o e = elim (Bool-cases (s == t)) [
    | inl here ↦ inl ((eq_iff s t).0 here, ground (arith, get-put x.tails s t x.next, here, e))
    | inr apart ↦ inr (apart, ground (arith, get-put x.tails s t x.next, apart, e))
  ]

  not_last :
      (a : ℕ) (t : String)
      → (s == t) ≡ false
      → a < x.next + 1
      → set x.session_of x.next s a ≡ t
      → (a < x.next) × (x.session_of a ≡ t)
  not_last a t apart inside own = elim (old_or_last a x.next inside) [
    | inl ha ↦ (ha, sym (old_session a ha) ∙ own)
    | inr last ↦
        let here : s ≡ t =
          sym (set_self x.session_of x.next s) ∙ ap (set x.session_of x.next s) (sym last) ∙ own in
        absurd (ground (arith, apart, eq_iff s t, here))
  ]

  pub enqueue-IsOrdered : IsOrdered (enqueue x s)
  unfolding enqueue
  enqueue-IsOrdered = record {
    ordered = λ a b below inside own was_sent. elim (old_or_last b x.next inside) [
      | inl hb ↦
          let ha : a < x.next = omega arith in
          set_below x.is_done x.next a false ha
          ∙ ok.ordered a b below hb (old_pair a b ha hb own)
              (sym (set_below x.is_sent x.next b false hb) ∙ was_sent)
      | inr last ↦ absurd (last_false x.is_sent b last was_sent)
    ];
    done_sent = λ n inside was_done. elim (old_or_last n x.next inside) [
      | inl hn ↦
          set_below x.is_sent x.next n false hn
          ∙ ok.done_sent n hn (sym (set_below x.is_done x.next n false hn) ∙ was_done)
      | inr last ↦ absurd (last_false x.is_done n last was_done)
    ];
    waits_none = λ a b below inside own waits.
        let ha : a < x.next = omega arith in
        set_below x.is_done x.next a false ha ∙ elim (old_or_last b x.next inside) [
          | inl hb ↦ ok.waits_none a b below hb (old_pair a b ha hb own) (old_wait b none hb waits)
          | inr last ↦
              ok.no_tail s a (last_wait b none last waits) ha (last_session a b ha last own)
        ];
    waits_some = λ a b p below inside own waits.
        let ha : a < x.next = omega arith in
        elim (old_or_last b x.next inside) [
          | inl hb ↦
              ok.waits_some a b p below hb (old_pair a b ha hb own) (old_wait b (some p) hb waits)
          | inr last ↦
              ok.tail_last s p a (last_wait b (some p) last waits) ha (last_session a b ha last own)
        ];
    waits_own = λ b p inside waits. elim (old_or_last b x.next inside) [
      | inl hb ↦
          let (below, own) = ok.waits_own b p hb (old_wait b (some p) hb waits) in
          (below, old_session p (omega (arith, below, hb)) ∙ own ∙ sym (old_session b hb))
      | inr last ↦
          let (below, own) = ok.tail_own s p (last_wait b (some p) last waits) in
          (
            omega (arith, below, last),
            old_session p below
                ∙ own
                ∙ sym (set_self x.session_of x.next s)
                ∙ ap (set x.session_of x.next s) (sym last),
          )
    ];
    no_tail = λ t a missing inside own. elim (tail_cases t none missing) [
      | inl (here, there) ↦ absurd (ground (arith, there))
      | inr (apart, old) ↦
          let (ha, own_a) = not_last a t apart inside own in
          set_below x.is_done x.next a false ha ∙ ok.no_tail t a old ha own_a
    ];
    tail_own = λ t p there. elim (tail_cases t (some p) there) [
      | inl (here, e) ↦
          let last = some_eq x.next p e in
          (
            omega (arith, last),
            ap (set x.session_of x.next s) (sym last) ∙ set_self x.session_of x.next s ∙ here,
          )
      | inr (apart, old) ↦
          let (below, own) = ok.tail_own t p old in
          (omega (arith, below), old_session p below ∙ own)
    ];
    tail_last = λ t p a there inside own. elim (tail_cases t (some p) there) [
      | inl (here, e) ↦ omega (arith, some_eq x.next p e)
      | inr (apart, old) ↦
          let (ha, own_a) = not_last a t apart inside own in ok.tail_last t p a old ha own_a
    ];
  }
