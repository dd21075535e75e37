-- ===== src/Terminal/Gate.antt =====
-- `createTerminalCreationGate` of src/features/terminal/core/runtimeLifecycle.ts. A request object is
-- a number; the promises in flight are the requests that load and those that have loaded or failed
-- and whose `finally` is still to run. What `load`, `isLive` and `getContainer` answer is an
-- argument of a step.
use fluxterm.Base.{
  ℕ, ◌+◌, String, Bool, true, false, not, ◌==◌, ◌&&◌, ◌≡◌, none, some, List, [], ◌∷◌, keep, any,
  eqb, if◌then◌else◌,
}
use fluxterm.Base.Dict.{Dict, get, put, delete}

pub record Request : Type 0 where
  pub session_id : String
  pub number : ℕ

-- `created` lists the requests that have called `create`, the last one first.
pub record Gate : Type 0 where
  pub pending : Dict ℕ
  pub loading : List Request
  pub settling : List Request
  pub created : List ℕ
  pub next : ℕ

abbrev pub same_request : Request → Request → Bool
same_request a b = a.session_id == b.session_id && eqb a.number b.number

abbrev pub in_flight : List Request → Request → Bool
in_flight requests request = any (λ (r : Request). same_request r request) requests

abbrev pub done_with : Request → List Request → List Request
done_with request requests = keep (λ (r : Request). not (same_request r request)) requests

-- `pending.get(sessionId) === request`
abbrev pub is_pending : Gate → Request → Bool
is_pending gate request = elim (get gate.pending request.session_id) [
  | none ↦ false
  | some number ↦ eqb number request.number
]

abbrev pub create_terminal_creation_gate : Gate
create_terminal_creation_gate = record {
  pending = [];
  loading = [];
  settling = [];
  created = [];
  next = 0;
}

unfoldable pub ensure : Gate → String → Gate
ensure gate session_id = elim (get gate.pending session_id) [
  | some existing ↦ gate
  | none ↦ record gate {
    pending = put gate.pending session_id gate.next;
    loading = record { session_id = session_id; number = gate.next } ∷ gate.loading;
    next = gate.next + 1;
  }
]

-- The callback after `load` has answered.
unfoldable pub on_loaded : Gate → Request → Bool → Bool → Gate
on_loaded gate request is_live has_container = record gate {
  loading = done_with request gate.loading;
  settling = request ∷ gate.settling;
  created =
      (if is_pending gate request && (is_live && has_container)
        then request.number ∷ gate.created
        else gate.created);
}

-- `load` has thrown.
unfoldable pub on_failed : Gate → Request → Gate
on_failed gate request = record gate {
  loading = done_with request gate.loading;
  settling = request ∷ gate.settling;
}

-- `finally`
unfoldable pub on_settled : Gate → Request → Gate
on_settled gate request = record gate {
  settling = done_with request gate.settling;
  pending =
      (if is_pending gate request then delete gate.pending request.session_id else gate.pending);
}

unfoldable pub cancel : Gate → String → Gate
cancel gate session_id = record gate { pending = delete gate.pending session_id }

unfoldable pub clear : Gate → Gate
clear gate = record gate { pending = [] }

-- The states that calls and answers lead to, in any order.
pub data IsReachable : Gate → Type 0 where
  starts : IsReachable create_terminal_creation_gate
  ensures : (g : Gate) (session_id : String) → IsReachable g → IsReachable (ensure g session_id)
  cancels : (g : Gate) (session_id : String) → IsReachable g → IsReachable (cancel g session_id)
  clears : (g : Gate) → IsReachable g → IsReachable (clear g)
  loads :
      (g : Gate) (r : Request) (is_live has_container : Bool)
      → IsReachable g
      → in_flight g.loading r ≡ true
      → IsReachable (on_loaded g r is_live has_container)
  fails :
      (g : Gate) (r : Request)
      → IsReachable g
      → in_flight g.loading r ≡ true
      → IsReachable (on_failed g r)
  settles :
      (g : Gate) (r : Request)
      → IsReachable g
      → in_flight g.settling r ≡ true
      → IsReachable (on_settled g r)
