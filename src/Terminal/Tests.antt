-- ===== src/Terminal/Tests.antt =====
-- A run of the gate, and each theorem at it: a request is cancelled and made again while it loads.
use fluxterm.Base.{false, ◌≡◌, refl, true, []}
use fluxterm.Base.Dict.{get, put, delete}
use fluxterm.Terminal.Gate.{
  Request, Gate, create_terminal_creation_gate, ensure, cancel, on_loaded, starts, ensures, cancels,
  loads, IsReachable,
}
use fluxterm.Terminal.Creations.{times}
use fluxterm.Terminal.Cancelled.{stays, then_ensures, then_loads, cancel-quiet}
use fluxterm.Terminal.Pending.{PendingInFlight, IsReachable-PendingInFlight}

abbrev first : Gate
first = ensure create_terminal_creation_gate "s"

abbrev second : Gate
second = ensure (cancel first "s") "s"

abbrev old_request : Request
old_request = record { session_id = "s"; number = 0 }

abbrev new_request : Request
new_request = record { session_id = "s"; number = 1 }

abbrev late : Gate
late = on_loaded second old_request true true

late_runs : late.created ≡ []
unfolding ensure cancel on_loaded get put delete
late_runs = refl

late-IsReachable : IsReachable late
unfolding ensure cancel get put delete
late-IsReachable =
    loads second old_request true true
      (ensures (cancel first "s") "s"
        (cancels first "s" (ensures create_terminal_creation_gate "s" starts)))
      refl

cancel-quiet_example :
    (times 0 late.created ≡ times 0 first.created)
    × ((on_loaded late new_request false true).created ≡ late.created)
    × ((on_loaded late new_request true false).created ≡ late.created)
unfolding ensure cancel get put delete
cancel-quiet_example =
    cancel-quiet first late "s" 0 new_request true
      (ensures create_terminal_creation_gate "s" starts) refl
      (then_loads second old_request true true (then_ensures (cancel first "s") "s" stays) refl)

IsReachable-PendingInFlight_example : PendingInFlight late
IsReachable-PendingInFlight_example = IsReachable-PendingInFlight late late-IsReachable
