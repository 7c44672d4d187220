-- ===== src/Lane/Wakeup.antt =====
-- The wakeups of a parked worker of asyncengine/strategy.go.
use pit_go.Base.{
  ℕ, ◌<◌, ◌+◌, ◌≡◌, refl, ◌≢◌, ◌⊎◌, inl, inr, Bool, true, false, List, [], ◌∷◌, ◌++◌, arith,
}
use pit_go.Lane.Queue.{
  KeyQueue, Entry, QueuedTask, Taken, settle, admit_task, mark_sent, try_send, unmark_sent,
  enqueue_mandatory, wake_worker, finish_worker, take_mandatory_cleanup, after_task, close_channel,
  retire_if_idle, ready,
}
use pit_go.Lane.System.{
  parked, after_take, Lane, new_lane, Step, Reach, admit, send, abandon, queue_cleanup, announce,
  signal, take, receive, wake, see_fence, see_closed, see_quit, exit, handle, settle_task, clean,
  signal_stop, signal_hard_stop, close_fence, close, retire, start, next,
}
use pit_go.Lane.Taking.{Outcome, nothing, fenced, behind, released, take-Outcome}
use pit_go.Lane.Invariant.{Inv, Reach-Inv}

-- Why the head of the backlog is not runnable: it waits for a fence that the worker listens to, or
-- for tasks to settle.
abbrev Blocked : Bool → Bool → ℕ → List Entry → Type 0
Blocked waits fence_closed settled [] = Unit
Blocked waits fence_closed settled (e ∷ _) =
    ((e.wait_submit_fence ≡ true) × (waits ≡ true) × (fence_closed ≡ false))
    ⊎ ((e.wait_submit_fence ≡ false) × (settled < e.settle_target))

abbrev Woken : Bool → Lane → Type 0
Woken waits l =
    (l.queue.mandatory_wake ≡ true)
    ⊎ (((waits ≡ true) × (l.fence_closed ≡ true)) ⊎ (0 < l.announcing + l.waking))

abbrev Watched : Lane → Type 0
Watched l =
    (waits : Bool)
    → l.worker ≡ parked waits
    → Woken waits l ⊎ Blocked waits l.fence_closed l.queue.settled l.queue.mandatory

Blocked-append :
    (waits fence_closed : Bool) (settled : ℕ) (es : List Entry) (e : Entry)
    → es ≢ []
    → Blocked waits fence_closed settled es
    → Blocked waits fence_closed settled (es ++ e ∷ [])
Blocked-append waits fence_closed settled [] e n h = absurd (n refl)
Blocked-append waits fence_closed settled (_ ∷ _) e n h = h

module _ (tracks_idle : Bool) where
  take-Watched :
      (l : Lane) (q : KeyQueue) (t : Taken)
      → Outcome l.fence_closed l.queue q t
      → Watched (after_take tracks_idle l q t)
  take-Watched l q t (nothing m q_eq t_eq) = rw (q_eq, t_eq) (λ waits w. inr (rw m tt))
  take-Watched l q t (fenced e es m f c q_eq t_eq) =
      rw (q_eq, t_eq) (λ waits w. inr (rw m (inl (f, cc, c))))
  take-Watched l q t (behind e es m f b q_eq t_eq) = rw (q_eq, t_eq) (λ waits w. ground arith)
  take-Watched l q t (released e es m f b q_eq t_eq) = rw (q_eq, t_eq) (λ waits w. absurd cc)

  Step-Watched : {l m : Lane} → Step tracks_idle l m → Inv tracks_idle l → Watched l → Watched m
  unfolding admit_task mark_sent try_send unmark_sent enqueue_mandatory wake_worker finish_worker
      settle after_task close_channel retire_if_idle
  Step-Watched (admit qt live) v h waits w = h waits w
  Step-Watched (send f now p u e) v h waits w = ground (arith, h waits w)
  Step-Watched {l} (abandon f p) v h waits w = ground (arith, h waits w)
  Step-Watched (queue_cleanup qt wf e) v h waits w = ground (arith, h waits w)
  Step-Watched {l} (announce now k) v h waits w = ground (arith, h waits w)
  Step-Watched {l} (signal k) v h waits w = inl (inl refl)
  Step-Watched {l} (take {q} {t} w e) v h waits p =
      take-Watched l q t (take-Outcome l.fence_closed l.queue v.mirrored e) waits p
  Step-Watched (receive qt w s e) v h waits p = absurd (cc)
  Step-Watched (wake w e) v h waits p = absurd (cc)
  Step-Watched (see_fence w e) v h waits p = absurd (cc)
  Step-Watched (see_closed w s c e) v h waits p = absurd (cc)
  Step-Watched (see_quit w s e) v h waits p = absurd (cc)
  Step-Watched (exit w s e) v h waits p = absurd (cc)
  Step-Watched (handle qt now w) v h waits p = absurd (cc)
  Step-Watched (settle_task qt w) v h waits p = absurd (cc)
  Step-Watched (clean qt now w) v h waits p = absurd (cc)
  Step-Watched signal_stop v h waits w = h waits w
  Step-Watched signal_hard_stop v h waits w = h waits w
  Step-Watched (close_fence s) v h waits w = ground (arith, h waits w)
  Step-Watched (close e free) v h waits w = ground (arith, h waits w)
  Step-Watched (retire cutoff gate_free t e) v h waits w = ground (arith, h waits w)

  Reach-Watched : {capacity now : ℕ} {l : Lane} → Reach tracks_idle capacity now l → Watched l
  unfolding new_lane
  Reach-Watched start waits w = absurd cc
  Reach-Watched (next r st) waits w =
      Step-Watched st (Reach-Inv tracks_idle r) (Reach-Watched r) waits w

  -- Whenever the worker of a reachable lane is parked while `takeMandatoryCleanup` would hand it a
  -- task, a token waits in `mandatoryWake`, or the worker listens to the submit fence and it is
  -- closed, so that the `select` has a ready case, or a call that changed the backlog is still to send
  -- the token: no wakeup is lost.
  pub parked-wakes :
      {capacity now : ℕ} {l : Lane} {waits : Bool} {q : KeyQueue} {qt : QueuedTask}
      → Reach tracks_idle capacity now l
      → l.worker ≡ parked waits
      → take_mandatory_cleanup l.fence_closed l.queue ≡ (q, ready qt)
      → (l.queue.mandatory_wake ≡ true)
        ⊎ (((waits ≡ true) × (l.fence_closed ≡ true)) ⊎ (0 < l.announcing + l.waking))
  unfolding take_mandatory_cleanup
  parked-wakes {l} {waits} r w e = ground (arith, Reach-Watched r waits w)
