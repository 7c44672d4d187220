-- ===== src/Lane/Fifo.antt =====
-- The order in which a lane of asyncengine/strategy.go runs its channel tasks.
use pit_go.Base.{ℕ, ◌≡◌, refl, Bool, List, [], ◌∷◌, ◌++◌, append_assoc, append-nil, arith}
use pit_go.Lane.Queue.{
  QueuedTask, new_key_queue, settle, admit_task, mark_sent, try_send, unmark_sent,
  enqueue_mandatory, wake_worker, finish_worker, take_mandatory_cleanup, after_task, close_channel,
  retire_if_idle, ready, not_ready,
}
use pit_go.Lane.System.{
  Worker, running, Lane, new_lane, Step, Reach, admit, send, abandon, queue_cleanup, announce,
  signal, take, receive, wake, see_fence, see_closed, see_quit, exit, handle, settle_task, clean,
  signal_stop, signal_hard_stop, close_fence, close, retire, start, next,
}
use pit_go.Lane.Invariant.{Inv, Reach-Inv, drain_lem}

-- The channel task that the worker has taken and not finished.
abbrev pub unfinished : Worker → List QueuedTask
unfinished (running qt) = qt ∷ []
unfinished _ = []

abbrev pub Ordered : Lane → Type 0
Ordered l = l.accepted ≡ l.finished ++ (unfinished l.worker ++ l.queue.ch)

module _ (tracks_idle : Bool) where
  Step-Ordered : {l m : Lane} → Step tracks_idle l m → Inv tracks_idle l → Ordered l → Ordered m
  unfolding take_mandatory_cleanup admit_task mark_sent try_send unmark_sent enqueue_mandatory
      wake_worker finish_worker settle after_task close_channel retire_if_idle
  Step-Ordered (admit qt live) v h = h
  Step-Ordered {l} (send f now p u e) v h = ground (
    arith,
    append_assoc (unfinished l.worker) l.queue.ch (f.task ∷ []),
    append_assoc l.finished (unfinished l.worker ++ l.queue.ch) (f.task ∷ []),
  )
  Step-Ordered (abandon f p) v h = h
  Step-Ordered (queue_cleanup qt waits e) v h = ground arith
  Step-Ordered (announce now k) v h = ground arith
  Step-Ordered (signal k) v h = h
  Step-Ordered (take {t = ready qt} w e) v h = ground arith
  Step-Ordered (take {t = not_ready waits} w e) v h = ground arith
  Step-Ordered (receive qt w s e) v h = ground arith
  Step-Ordered (wake w e) v h = ground arith
  Step-Ordered (see_fence w e) v h = ground arith
  Step-Ordered (see_closed w s c e) v h = ground arith
  Step-Ordered {l} (see_quit w s e) v h =
      let empty = v.retired_empty (v.quit_retired e) in
      ground (arith, drain_lem tracks_idle l.queue empty.1, append-nil l.finished)
  Step-Ordered (exit w s e) v h = ground arith
  Step-Ordered {l} (handle qt now w) v h =
      ground (arith, append_assoc l.finished (qt ∷ []) l.queue.ch)
  Step-Ordered (settle_task qt w) v h = ground arith
  Step-Ordered (clean qt now w) v h = ground arith
  Step-Ordered signal_stop v h = h
  Step-Ordered signal_hard_stop v h = h
  Step-Ordered (close_fence s) v h = h
  Step-Ordered (close e free) v h = ground arith
  Step-Ordered (retire cutoff gate_free t e) v h = ground arith

  pub Reach-Ordered : {capacity now : ℕ} {l : Lane} → Reach tracks_idle capacity now l → Ordered l
  unfolding new_lane new_key_queue
  Reach-Ordered start = refl
  Reach-Ordered (next r st) = Step-Ordered st (Reach-Inv tracks_idle r) (Reach-Ordered r)
