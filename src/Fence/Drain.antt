-- ===== src/Fence/Drain.antt =====
-- What the submit fence of asyncengine/strategy.go promises, and where it does not.
use pit_go.Base.{◌≡◌, refl, true, false, arith}
use pit_go.Fence.{
  finished, Fence, new_fence, begin_submit, end_submit_decrement, end_submit_test,
  signal_stop_close, signal_stop_test,
}
use pit_go.Fence.Protocol.{
  begins, decrements, tests, stop_closes, stop_tests, Reach, start, next, Reach-Inv,
}

module _ {f : Fence} (reach : Reach f) where
  -- Once `signalStopOnce` has returned and every producer has returned, the fence is closed: a stop
  -- that waits for it goes on.
  pub fence-reached : f.stopper ≡ finished → f.in_flight ≡ 0 → f.testing ≡ 0 → f.fence_closed ≡ true
  fence-reached done none_flies none_tests = ground (arith, (Reach-Inv reach).reached)

  -- If no `endSubmit` stood between its decrement and its test when `stopCh` was closed, then a closed
  -- fence means that every registered producer has returned.
  pub fence-drained : f.raced ≡ false → f.fence_closed ≡ true → f.in_flight ≡ 0
  fence-drained clean closed =
      let i = Reach-Inv reach in
      ground (arith, i.after_stop closed, i.drained (i.after_stop closed) clean)

-- A producer returns and reads zero; a second one is let in; stop closes `stopCh` and counts one
-- producer; then the first tests `stopCh` and closes the fence.
racing : (f : Fence) × Reach f
unfolding new_fence begin_submit end_submit_decrement signal_stop_close signal_stop_test
racing = (
  _,
  next
      (next
        (next (next (next (next start (begins refl)) (decrements (omega arith))) (begins refl))
          (stop_closes refl))
        (stop_tests refl))
      (tests (omega arith)),
)

-- Without that condition it does not hold: there is an interleaving in which the fence is closed while a
-- registered producer is still in its send.
pub fence-not_drained : ¬ ((f : Fence) → Reach f → f.fence_closed ≡ true → f.in_flight ≡ 0)
unfolding racing new_fence begin_submit end_submit_decrement signal_stop_close signal_stop_test
    end_submit_test
fence-not_drained always =
    let drained : 1 ≡ 0 = always racing.0 racing.1 refl in omega (arith, drained)
