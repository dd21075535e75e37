-- ===== src/Sessions/Inputs.antt =====
-- The queue of a session's inputs, in `sendSessionInput` of src/hooks/useSessionStateCore.ts: its
-- promises as steps. Inputs are numbered in the order of the calls. An input waits for the one that
-- was the last of its session's queue; when that is settled, well or not, it is sent.
use fluxterm.Base.{
  [], ℕ, ◌+◌, ◌<◌, String, Bool, true, false, ◌≡◌, Option, none, some, eqb, if◌then◌else◌,
}
use fluxterm.Base.Dict.{Dict, get, put, delete}

pub record Inputs : Type 0 where
  pub next : ℕ
  pub session_of : ℕ → String
  pub waits_for : ℕ → Option ℕ
  pub is_sent : ℕ → Bool
  pub is_done : ℕ → Bool
  -- `sessionInputQueueRef`: the last input of each queue
  pub tails : Dict ℕ

unfoldable pub set {ℓ} : {A : Type ℓ} → (ℕ → A) → ℕ → A → ℕ → A
set f n value m = if eqb m n then value else f m

abbrev pub no_inputs : Inputs
no_inputs = record {
  next = 0;
  session_of = λ n. "";
  waits_for = λ n. none;
  is_sent = λ n. false;
  is_done = λ n. false;
  tails = [];
}

-- The call, up to its first `await`.
unfoldable pub enqueue : Inputs → String → Inputs
enqueue x session_id = record {
  next = x.next + 1;
  session_of = set x.session_of x.next session_id;
  waits_for = set x.waits_for x.next (get x.tails session_id);
  is_sent = set x.is_sent x.next false;
  is_done = set x.is_done x.next false;
  tails = put x.tails session_id x.next;
}

-- The input that is waited for is settled, or there is none.
unfoldable pub is_ready : Inputs → ℕ → Bool
is_ready x n = elim (x.waits_for n) [ none ↦ true | some p ↦ x.is_done p ]

unfoldable pub dispatch : Inputs → ℕ → Inputs
dispatch x n = record x { is_sent = set x.is_sent n true }

-- `if (queue[sessionId] === queueTail) delete queue[sessionId]`
unfoldable pub drop_tail : Dict ℕ → String → ℕ → Dict ℕ
drop_tail tails session_id n = elim (get tails session_id) [
  | none ↦ tails
  | some tail ↦ if eqb tail n then delete tails session_id else tails
]

-- The back end has answered, well or not: the promise of the queue is settled.
unfoldable pub settle : Inputs → ℕ → Inputs
settle x n = record x { is_done = set x.is_done n true }

-- The call's `finally`, which runs after that.
unfoldable pub leave : Inputs → ℕ → Inputs
leave x n = record x { tails = drop_tail x.tails (x.session_of n) n }

pub data IsReachable : Inputs → Type 0 where
  start : IsReachable no_inputs
  called : (x : Inputs) (session_id : String) → IsReachable x → IsReachable (enqueue x session_id)
  sent :
      (x : Inputs) (n : ℕ)
      → IsReachable x
      → n < x.next
      → is_ready x n ≡ true
      → IsReachable (dispatch x n)
  settled :
      (x : Inputs) (n : ℕ)
      → IsReachable x
      → n < x.next
      → x.is_sent n ≡ true
      → IsReachable (settle x n)
  left_queue :
      (x : Inputs) (n : ℕ)
      → IsReachable x
      → n < x.next
      → x.is_done n ≡ true
      → IsReachable (leave x n)
