-- ===== src/Fence.antt =====
-- The submit fence of `base` of asyncengine/strategy.go: `beginSubmit`, `endSubmit`, `signalStopOnce`.
-- An interleaving is made of atomic steps: `beginSubmit` holds `submitMu` for reading, `signalStopOnce`
-- for writing, and `endSubmit` takes no lock, so its decrement and its test of `stopCh` are two steps.
pub mod Protocol
pub mod Drain
use pit_go.Base.{ℕ, ◌+◌, ◌-◌, Bool, true, false, ◌==◌, if◌then◌else◌}

-- Where the call of `signalStopOnce` stands; `sync.Once` lets one in.
pub data Stopper : Type 0 where
  not_called in_lock finished : Stopper

-- `stopCh` closed, `inFlightSubmits`, `submitFenceCh` closed. `testing` counts the calls of `endSubmit`
-- that got zero from their decrement and have not tested `stopCh`; `raced` says that there was one when
-- `stopCh` was closed: no step reads it.
pub record Fence : Type 0 where
  pub stopped : Bool
  pub in_flight : ℕ
  pub fence_closed : Bool
  pub stopper : Stopper
  pub testing : ℕ
  pub raced : Bool

unfoldable pub new_fence : Fence
new_fence = record {
  stopped = false;
  in_flight = 0;
  fence_closed = false;
  stopper = not_called;
  testing = 0;
  raced = false;
}

unfoldable pub begin_submit : Fence → Fence × Bool
begin_submit f = if f.stopped then (f, false) else (record f { in_flight = f.in_flight + 1 }, true)

-- `b.inFlightSubmits.Add(-1) == 0` of `endSubmit`.
unfoldable pub end_submit_decrement : Fence → Fence
end_submit_decrement f =
    let in_flight = f.in_flight - 1 in
    record f {
      in_flight = in_flight;
      testing = if in_flight == 0 then f.testing + 1 else f.testing;
    }

-- `b.isStopped()` of `endSubmit`, and the close that follows.
unfoldable pub end_submit_test : Fence → Fence
end_submit_test f = record f {
  testing = f.testing - 1;
  fence_closed = if f.stopped then true else f.fence_closed;
}

-- `close(b.stopCh)` of `signalStopOnce`, and the rest of it.
unfoldable pub signal_stop_close : Fence → Fence
signal_stop_close f = record f {
  stopped = true;
  stopper = in_lock;
  raced = if f.testing == 0 then false else true;
}

unfoldable pub signal_stop_test : Fence → Fence
signal_stop_test f = record f {
  stopper = finished;
  fence_closed = if f.in_flight == 0 then true else f.fence_closed;
}
