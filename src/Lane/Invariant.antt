-- ===== src/Lane/Invariant.antt =====
-- What holds in every reachable state of a lane of asyncengine/strategy.go: its counters, its flags
-- and the worker's place in its loop.
use pit_go.Base.{
  ℕ, ◌+◌, ◌≡◌, ◌⊎◌, Bool, true, not, [], ◌∷◌, arith, length, is_empty, length-append, length-map,
  is_empty-map, Picks-length,
}
use pit_go.Lane.Queue.{
  drain_from, KeyQueue, new_key_queue, settle, admit_task, mark_sent, try_send, unmark_sent,
  enqueue_mandatory, wake_worker, finish_worker, take_mandatory_cleanup, after_task,
  drain_and_abort, close_channel, retire_if_idle, raise_target, new_entry, ready, not_ready,
}
use pit_go.Lane.System.{
  Worker, running, cleaning, exited, Lane, in_hand, new_lane, Step, Reach, admit, send, abandon,
  queue_cleanup, announce, signal, take, receive, wake, see_fence, see_closed, see_quit, exit,
  handle, settle_task, clean, signal_stop, signal_hard_stop, close_fence, close, retire, start,
  next,
}

-- 1 while `handleTask` or `handleBarrier` has a task whose `pending` it has not taken back.
abbrev pub occupied : Worker → ℕ
occupied (running _) = 1
occupied (cleaning _) = 1
occupied _ = 0

pub record Inv (tracks_idle : Bool) (l : Lane) : Type 0 where
  pub conserved :
      l.queue.admitted
      ≡ l.queue.settled + length l.flights + length (in_hand l.worker) + length l.queue.ch
  pub pending_exact :
      tracks_idle ≡ true
      → l.queue.pending
        ≡ length l.flights + length l.queue.ch + length l.queue.mandatory + occupied l.worker
  pub mirrored : l.queue.mandatory_queued ≡ not (is_empty l.queue.mandatory)
  pub closed_flights : tracks_idle ≡ true → l.queue.closed ≡ true → l.flights ≡ []
  pub ch_closed_closed : l.queue.ch_closed ≡ true → l.queue.closed ≡ true
  pub quit_retired : l.queue.quit_closed ≡ true → l.queue.retired ≡ true
  pub retired_empty :
      l.queue.retired ≡ true
      → (l.queue.closed ≡ true)
        × (l.queue.ch ≡ [])
        × (l.queue.mandatory ≡ [])
        × (tracks_idle ≡ true)
  pub sealed_empty :
      l.sealed ≡ true
      → (l.queue.closed ≡ true)
        × (l.queue.ch ≡ [])
        × ((l.queue.ch_closed ≡ true) ⊎ (l.queue.retired ≡ true))
  pub exited_empty :
      l.worker ≡ exited
      → (l.queue.worker_exited ≡ true) × (l.queue.mandatory ≡ []) × (l.sealed ≡ true)

pub drain_lem : (tracks_idle : Bool) (q : KeyQueue) → q.ch ≡ [] → drain_and_abort tracks_idle q ≡ q
unfolding drain_and_abort
drain_lem tracks_idle q e = rw (e, drain_from)

module _ (tracks_idle : Bool) where
  new_lane-Inv : (capacity now : ℕ) → Inv tracks_idle (new_lane capacity now)
  unfolding new_lane new_key_queue
  new_lane-Inv capacity now = ground arith

  Step-Inv : {l m : Lane} → Step tracks_idle l m → Inv tracks_idle l → Inv tracks_idle m
  unfolding take_mandatory_cleanup admit_task mark_sent try_send unmark_sent enqueue_mandatory
      wake_worker finish_worker settle after_task close_channel retire_if_idle
  Step-Inv (admit qt live) v = ground arith
  Step-Inv {l} (send f now p u e) v =
      ground (arith, Picks-length p, length-append l.queue.ch (f.task ∷ []))
  Step-Inv {l} (abandon f p) v = ground (
    arith,
    Picks-length p,
    length-map (raise_target f.ticket) l.queue.mandatory,
    is_empty-map (raise_target f.ticket) l.queue.mandatory,
  )
  Step-Inv {l} (queue_cleanup qt waits e) v =
      ground (arith, length-append l.queue.mandatory (new_entry l.queue qt waits ∷ []))
  Step-Inv (announce now h) v = ground arith
  Step-Inv (signal h) v = ground arith
  Step-Inv (take {t = ready qt} w e) v = ground arith
  Step-Inv (take {t = not_ready waits} w e) v = ground arith
  Step-Inv (receive qt w s e) v = ground arith
  Step-Inv (wake w e) v = ground arith
  Step-Inv (see_fence w e) v = ground arith
  Step-Inv (see_closed w s c e) v = ground arith
  Step-Inv {l} (see_quit w s e) v =
      let empty = v.retired_empty (v.quit_retired e) in
      ground (arith, drain_lem tracks_idle l.queue empty.1)
  Step-Inv (exit w s e) v = ground arith
  Step-Inv (handle qt now w) v = ground arith
  Step-Inv (settle_task qt w) v = ground arith
  Step-Inv (clean qt now w) v = ground arith
  Step-Inv signal_stop v = ground arith
  Step-Inv signal_hard_stop v = ground arith
  Step-Inv (close_fence s) v = ground arith
  Step-Inv (close e free) v = ground arith
  Step-Inv (retire cutoff gate_free t e) v = ground arith

  -- The invariant holds in every reachable state.
  pub Reach-Inv :
      {capacity now : ℕ} {l : Lane} → Reach tracks_idle capacity now l → Inv tracks_idle l
  Reach-Inv {capacity} {now} start = new_lane-Inv capacity now
  Reach-Inv (next r st) = Step-Inv st (Reach-Inv r)
