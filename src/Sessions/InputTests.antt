-- ===== src/Sessions/InputTests.antt =====
-- A run of a session's queue of inputs, and the theorem at it.
use fluxterm.Base.{◌≡◌, refl, true, false, arith}
use fluxterm.Base.Dict.{get, put, delete}
use fluxterm.Sessions.Inputs.{
  leave, left_queue, Inputs, set, no_inputs, enqueue, is_ready, dispatch, drop_tail, settle,
  IsReachable, start, called, sent, settled,
}
use fluxterm.Sessions.InputOrder.{IsReachable-sent_in_order}

abbrev two_called : Inputs
two_called = enqueue (enqueue no_inputs "a") "a"

abbrev one_settled : Inputs
one_settled = leave (settle (dispatch two_called 0) 0) 0

abbrev both_sent : Inputs
both_sent = dispatch one_settled 1

queue_runs : Unit {0}
unfolding enqueue dispatch settle leave is_ready set drop_tail get put delete
queue_runs = tt

second_waits : is_ready two_called 1 ≡ false
unfolding queue_runs
second_waits = refl

both_sent-IsReachable : IsReachable both_sent
unfolding queue_runs
both_sent-IsReachable =
    sent one_settled 1
      (left_queue (settle (dispatch two_called 0) 0) 0
        (settled (dispatch two_called 0) 0
          (sent two_called 0 (called (enqueue no_inputs "a") "a" (called no_inputs "a" start))
            (omega arith) refl)
          (omega arith) refl)
        (omega arith) refl)
      (omega arith) refl

IsReachable-sent_in_order_example : both_sent.is_done 0 ≡ true
unfolding queue_runs
IsReachable-sent_in_order_example =
    IsReachable-sent_in_order both_sent 0 1 both_sent-IsReachable (omega arith) (omega arith) refl
      refl
