-- ===== src/Lane/Guarantees.antt =====
-- The guarantees of a lane of asyncengine/strategy.go: the order of its tasks, its cleanup, its end.
use pit_go.Base.{
  ap, ℕ, ◌≤◌, ◌≡◌, refl, ◌⊎◌, Bool, true, false, List, [], ◌∷◌, ◌++◌, arith, length, length-append,
  Bool-cases, append-nil,
}
use pit_go.Lane.Queue.{
  KeyQueue, Entry, QueuedTask, Taken, enqueue_mandatory, take_mandatory_cleanup, retire_if_idle,
  ready,
}
use pit_go.Lane.System.{polling, exited, Lane, Reach, remark}
use pit_go.Lane.Taking.{Outcome, nothing, fenced, behind, released, take-Outcome, seen}
use pit_go.Lane.Invariant.{Reach-Inv, occupied}
use pit_go.Lane.Fifo.{unfinished, Reach-Ordered}
use pit_go.Lane.Backlog.{EntryInv, Backlog-head, head_mark}
use pit_go.Lane.Ordering.{Reach-Owes, taken-Backlog}

-- Whether the head of the backlog, as `takeMandatoryCleanup` sees it, has its tasks settled.
abbrev pub considered_marks : Lane → List ℕ
considered_marks l = remark l.fence_closed (length l.accepted) l.queue.mandatory l.marks

module _ (tracks_idle : Bool) {capacity now : ℕ} {l : Lane}
    (r : Reach tracks_idle capacity now l) where
  -- In every reachable state the tasks accepted into the channel are, in the order of their sends,
  -- those finished, then the one that the worker runs, then those buffered: each accepted task is
  -- run or aborted exactly once, and in acceptance order.
  pub accepted-in_order : l.accepted ≡ l.finished ++ (unfinished l.worker ++ l.queue.ch)
  accepted-in_order = Reach-Ordered tracks_idle r

  done-finished : l.worker ≡ polling → (Reach-Owes tracks_idle r).done ≡ length l.finished
  done-finished w = ground (
    arith,
    (Reach-Owes tracks_idle r).done_exact,
    ap length accepted-in_order,
    length-append l.finished l.queue.ch,
  )

  -- The head of the backlog and its mark, as the worker has looked at them.
  head-EntryInv :
      l.worker ≡ polling
      → (e : Entry) (es : List Entry) → l.queue.mandatory ≡ e ∷ es
      → EntryInv l.queue.admitted l.queue.settled l.flights
          (length l.finished)
          (seen l.fence_closed l.queue.admitted e)
          (head_mark (considered_marks l))
  head-EntryInv w e es m =
      rw (m, ← done-finished w)
        (Backlog-head l.queue.admitted l.queue.settled (Reach-Owes tracks_idle r).done l.flights _
          es _
          (taken-Backlog tracks_idle l w (Reach-Inv tracks_idle r) (Reach-Owes tracks_idle r) e es
            m))

  mark-le-finished :
      {q : KeyQueue} {qt : QueuedTask}
      → l.worker ≡ polling
      → Outcome l.fence_closed l.queue q (ready qt)
      → head_mark (considered_marks l) ≤ length l.finished
  mark-le-finished w (nothing m q_eq t_eq) = absurd (cc)
  mark-le-finished w (fenced e es m f c q_eq t_eq) = absurd (cc)
  mark-le-finished w (behind e es m f b q_eq t_eq) = absurd (cc)
  mark-le-finished w (released e es m f b q_eq t_eq) =
      ground (arith, (head-EntryInv w e es m).holds_back)

  -- Whenever the worker takes a cleanup from the backlog, all the tasks that had been accepted when
  -- that cleanup was queued (for one that waited for the submit fence: all that are accepted by
  -- now) have been run or aborted.
  pub cleanup-behind_accepted :
      {q : KeyQueue} {qt : QueuedTask}
      → l.worker ≡ polling
      → take_mandatory_cleanup l.fence_closed l.queue ≡ (q, ready qt)
      → (head_mark (considered_marks l) ≤ length l.finished)
        × (l.accepted ≡ l.finished ++ l.queue.ch)
  cleanup-behind_accepted w e = (
    mark-le-finished w (take-Outcome l.fence_closed l.queue (Reach-Inv tracks_idle r).mirrored e),
    ground (arith, accepted-in_order),
  )

  progress_of_Outcome :
      {q : KeyQueue} {t : Taken}
      → l.worker ≡ polling
      → l.flights ≡ []
      → l.queue.ch ≡ []
      → (e : Entry) (es : List Entry) → l.queue.mandatory ≡ e ∷ es
      → (e.wait_submit_fence ≡ false) ⊎ (l.fence_closed ≡ true)
      → Outcome l.fence_closed l.queue q t
      → t ≡ ready e.task
  progress_of_Outcome w f c e es m a (nothing m' q_eq t_eq) = absurd (cc)
  progress_of_Outcome w f c e es m a (fenced e' es' m' f' c' q_eq t_eq) = ground arith
  progress_of_Outcome w f c e es m a (behind e' es' m' f' b q_eq t_eq) =
      absurd
        (ground (arith, (Reach-Inv tracks_idle r).conserved, (head-EntryInv w e' es' m').reachable))
  progress_of_Outcome w f c e es m a (released e' es' m' f' b q_eq t_eq) = ground arith

  -- When no producer is in flight, the channel is empty and the worker is at the head of its loop,
  -- the oldest cleanup is handed to it, unless that one waits for a submit fence that is open: the
  -- settle target of an entry is always reached.
  pub cleanup-progress :
      (e : Entry) (es : List Entry)
      → l.worker ≡ polling
      → l.flights ≡ []
      → l.queue.ch ≡ []
      → l.queue.mandatory ≡ e ∷ es
      → (e.wait_submit_fence ≡ false) ⊎ (l.fence_closed ≡ true)
      → (take_mandatory_cleanup l.fence_closed l.queue).1 ≡ ready e.task
  cleanup-progress e es w f c m a =
      progress_of_Outcome w f c e es m a
        (take-Outcome l.fence_closed l.queue (Reach-Inv tracks_idle r).mirrored refl)

  -- A worker that has ended left nothing behind: the channel and the backlog are empty, every
  -- accepted task was run or aborted in order, the lane refuses any later cleanup, and, if the strategy
  -- tracks idleness, no producer holds a ticket.
  pub exited_complete :
      (qt : QueuedTask) (wait_submit_fence : Bool)
      → l.worker ≡ exited
      → (l.queue.ch ≡ [])
        × (l.queue.mandatory ≡ [])
        × ((tracks_idle ≡ false) ⊎ (l.flights ≡ []))
        × (l.accepted ≡ l.finished)
        × (enqueue_mandatory tracks_idle l.queue qt wait_submit_fence ≡ (l.queue, false))
  unfolding enqueue_mandatory
  exited_complete qt wait_submit_fence w = ground (
    arith,
    Reach-Inv tracks_idle r,
    Bool-cases tracks_idle,
    accepted-in_order,
    append-nil l.finished,
  )

-- Retiring an idle lane, by a strategy that tracks idleness, loses nothing: no producer holds a
-- ticket, the channel and the backlog are empty, the worker has no task in its hands, and every
-- accepted task was run or aborted; afterwards the lane refuses cleanup and new sends.
pub retire-lossless :
    {capacity now : ℕ} {l : Lane} {q : KeyQueue}
    → Reach true capacity now l
    → (cutoff : ℕ) (gate_free : Bool) (qt : QueuedTask) (wait_submit_fence : Bool)
    → retire_if_idle cutoff gate_free l.queue ≡ (q, true)
    → (l.flights ≡ [])
      × (l.queue.ch ≡ [])
      × (l.queue.mandatory ≡ [])
      × (occupied l.worker ≡ 0)
      × (l.accepted ≡ l.finished)
      × (q.closed ≡ true)
      × (enqueue_mandatory true q qt wait_submit_fence ≡ (q, false))
unfolding retire_if_idle enqueue_mandatory
retire-lossless {l} r cutoff gate_free qt wait_submit_fence e = ground (
  arith,
  Reach-Inv true r,
  (Reach-Inv true r).pending_exact refl,
  accepted-in_order true r,
  append-nil l.finished,
)
