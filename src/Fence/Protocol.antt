-- ===== src/Fence/Protocol.antt =====
-- The interleavings of producers and the stop at the submit fence of asyncengine/strategy.go.
use pit_go.Base.{◌+◌, ◌<◌, ◌≡◌, refl, sym, subst, ◌⊎◌, inl, Bool, true, false, arith}
use pit_go.Fence.{
  Stopper, not_called, in_lock, finished, Fence, new_fence, begin_submit, end_submit_decrement,
  end_submit_test, signal_stop_close, signal_stop_test,
}

pub data Step (f : Fence) : Fence → Type 0 where
  begins : {g : Fence} → begin_submit f ≡ (g, true) → Step f g
  decrements : 0 < f.in_flight → Step f (end_submit_decrement f)
  tests : 0 < f.testing → Step f (end_submit_test f)
  stop_closes : f.stopper ≡ not_called → Step f (signal_stop_close f)
  stop_tests : f.stopper ≡ in_lock → Step f (signal_stop_test f)

pub data Reach : Fence → Type 0 where
  start : Reach new_fence
  next : {f g : Fence} → Reach f → Step f g → Reach g

abbrev pub is_called : Stopper → Bool
is_called not_called = false
is_called _ = true

abbrev pub is_finished : Stopper → Bool
is_finished finished = true
is_finished _ = false

pub record Inv (f : Fence) : Type 0 where
  pub called : f.stopped ≡ is_called f.stopper
  pub after_stop : f.fence_closed ≡ true → f.stopped ≡ true
  pub reached :
      is_finished f.stopper ≡ true → (f.fence_closed ≡ true) ⊎ (0 < f.in_flight + f.testing)
  pub drained :
      f.stopped ≡ true
      → f.raced ≡ false
      → (f.in_flight ≡ 0) ⊎ ((f.testing ≡ 0) × (f.fence_closed ≡ false))

-- A producer that is let in came before the stop.
pub begin_submit-admitted :
    (f : Fence) {g : Fence}
    → begin_submit f ≡ (g, true)
    → (f.stopped ≡ false) × (g ≡ record f { in_flight = f.in_flight + 1 })
unfolding begin_submit
begin_submit-admitted f h = ground arith

begins-Inv : {f g : Fence} → begin_submit f ≡ (g, true) → Inv f → Inv g
begins-Inv {f} h i =
    let (running, now) = begin_submit-admitted f h in
    subst Inv (sym now) (record {
      called = i.called;
      after_stop = i.after_stop;
      reached = λ done. ground (arith, i.reached done);
      drained = λ stopped clean. ground (arith, running);
    })

pub Step-Inv : {f g : Fence} → Step f g → Inv f → Inv g
unfolding end_submit_decrement end_submit_test signal_stop_close signal_stop_test
Step-Inv {f} (begins h) i = begins-Inv h i
Step-Inv {f} (decrements some_producer) i = record {
  called = i.called;
  after_stop = i.after_stop;
  reached = λ done. ground (arith, i.reached done);
  drained = λ stopped clean. ground (arith, i.drained stopped clean);
}
Step-Inv {f} (tests some_test) i = record {
  called = i.called;
  after_stop = λ closed. ground (arith, i.after_stop);
  reached = λ done. ground (arith, i.reached done, i.called);
  drained = λ stopped clean. ground (arith, i.drained stopped clean);
}
Step-Inv {f} (stop_closes at) i = record {
  called = refl;
  after_stop = λ closed. refl;
  reached = λ done. ground arith;
  drained = λ stopped clean. ground (arith, i.called, i.after_stop);
}
Step-Inv {f} (stop_tests at) i = record {
  called = ground (arith, i.called);
  after_stop = λ closed. ground (arith, i.called);
  reached = λ done. ground arith;
  drained = λ stopped clean. ground (arith, i.drained stopped clean);
}

pub Reach-Inv : {f : Fence} → Reach f → Inv f
unfolding new_fence
Reach-Inv start = record {
  called = refl;
  after_stop = λ closed. ground arith;
  reached = λ done. ground arith;
  drained = λ stopped clean. inl refl;
}
Reach-Inv (next r s) = Step-Inv s (Reach-Inv r)
