-- ===== src/Examples/FenceRuns.antt =====
-- A producer of asyncengine/strategy.go that returns after the stop was signalled.
use pit_go.Base.{◌≡◌, refl, true, arith}
use pit_go.Fence.{
  Fence, new_fence, begin_submit, end_submit_decrement, end_submit_test, signal_stop_close,
  signal_stop_test,
}
use pit_go.Fence.Protocol.{begins, decrements, tests, stop_closes, stop_tests, Reach, start, next}
use pit_go.Fence.Drain.{fence-reached, fence-drained}

drained_after_stop : (f : Fence) × Reach f
unfolding new_fence begin_submit end_submit_decrement signal_stop_close signal_stop_test
drained_after_stop = (
  _,
  next
      (next (next (next (next start (begins refl)) (stop_closes refl)) (stop_tests refl))
        (decrements (omega arith)))
      (tests (omega arith)),
)

fence-reached_example : drained_after_stop.0.fence_closed ≡ true
unfolding drained_after_stop new_fence begin_submit end_submit_decrement end_submit_test
    signal_stop_close signal_stop_test
fence-reached_example = fence-reached drained_after_stop.1 refl refl refl

fence-drained_example : drained_after_stop.0.in_flight ≡ 0
unfolding drained_after_stop new_fence begin_submit end_submit_decrement end_submit_test
    signal_stop_close signal_stop_test
fence-drained_example = fence-drained drained_after_stop.1 refl refl
