-- ===== src/Examples/LaneRuns.antt =====
-- A lane of asyncengine/strategy.go with two producers and one cleanup.
use pit_go.Base.{
  ◌≤◌, ◌≡◌, refl, ◌⊎◌, inl, inr, ◌<◌, ◌+◌, Bool, true, false, [], ◌∷◌, ◌++◌, length, here,
}
use pit_go.Routing.{RoutingKey, account}
use pit_go.Lane.Queue.{
  QueuedTask, new_key_queue, settle, admit_task, mark_sent, try_send, unmark_sent,
  enqueue_mandatory, finish_worker, take_mandatory_cleanup, after_task, close_channel,
  retire_if_idle, ready,
}
use pit_go.Lane.System.{
  Lane, new_lane, Reach, admit, send, abandon, queue_cleanup, take, receive, see_closed, exit,
  handle, settle_task, clean, signal_stop, close_fence, close, start, next,
}
use pit_go.Lane.Invariant.{occupied}
use pit_go.Lane.Fifo.{unfinished}
use pit_go.Lane.Backlog.{head_mark}
use pit_go.Lane.Guarantees.{
  considered_marks, accepted-in_order, cleanup-behind_accepted, cleanup-progress, exited_complete,
  retire-lossless,
}
use pit_go.Lane.Wakeup.{parked-wakes}

abbrev key_7 : RoutingKey
key_7 = record { kind = account; id = 7 }

abbrev task_1 : QueuedTask
task_1 = record { key = key_7; task = 1 }

abbrev task_2 : QueuedTask
task_2 = record { key = key_7; task = 2 }

abbrev cleanup_3 : QueuedTask
cleanup_3 = record { key = key_7; task = 3 }

-- One task is accepted, a second producer holds a ticket, and a cleanup is queued behind the first.
queued : (l : Lane) × Reach true 4 0 l
unfolding new_lane new_key_queue admit_task mark_sent try_send enqueue_mandatory
queued = (
  _,
  next
      (next
        (next (next start (admit task_1 (inr refl)))
          (send (record { ticket = 1; task = task_1 }) 5 here refl refl))
        (admit task_2 (inr refl)))
      (queue_cleanup cleanup_3 false refl),
)

-- The first task is settled and the second producer has given up.
runnable : (l : Lane) × Reach true 4 0 l
unfolding queued take_mandatory_cleanup settle after_task unmark_sent
runnable = (
  _,
  next
      (next
        (next (next (next queued.1 (take refl refl)) (receive task_1 refl refl refl))
          (handle task_1 8 refl))
        (settle_task task_1 refl))
      (abandon (record { ticket = 2; task = task_2 }) here),
)

-- The cleanup has run, the strategy is stopped and the worker has ended.
ended : (l : Lane) × Reach true 4 0 l
unfolding runnable close_channel finish_worker
ended = (
  _,
  next
      (next
        (next
          (next
            (next
              (next
                (next (next (next runnable.1 (take refl refl)) (clean cleanup_3 9 refl))
                  signal_stop)
                (close_fence refl))
              (close refl (inr refl)))
            (take refl refl))
          (see_closed refl refl refl refl))
        (take refl refl))
      (exit refl refl refl),
)

-- The worker is parked when the producer ahead of the cleanup gives up.
roused : (l : Lane) × Reach true 4 0 l
unfolding new_lane new_key_queue admit_task enqueue_mandatory mark_sent take_mandatory_cleanup
    unmark_sent
roused = (
  _,
  next
      (next (next (next start (admit task_2 (inr refl))) (queue_cleanup cleanup_3 false refl))
        (take refl refl))
      (abandon (record { ticket = 1; task = task_2 }) here),
)

-- The lane of `runnable` after its cleanup, idle since time 9.
idle : (l : Lane) × Reach true 4 0 l
unfolding runnable
idle = (_, next (next runnable.1 (take refl refl)) (clean cleanup_3 9 refl))

accepted-in_order_example :
    queued.0.accepted ≡ queued.0.finished ++ (unfinished queued.0.worker ++ queued.0.queue.ch)
accepted-in_order_example = accepted-in_order true queued.1

cleanup-behind_accepted_example :
    (head_mark (considered_marks runnable.0) ≤ length runnable.0.finished)
    × (runnable.0.accepted ≡ runnable.0.finished ++ runnable.0.queue.ch)
unfolding runnable
cleanup-behind_accepted_example = cleanup-behind_accepted true runnable.1 refl refl

cleanup-progress_example :
    (take_mandatory_cleanup runnable.0.fence_closed runnable.0.queue).1 ≡ ready cleanup_3
unfolding runnable
cleanup-progress_example =
    cleanup-progress true runnable.1
      (record {
        task = cleanup_3;
        admitted_cutoff = 2;
        settle_target = 2;
        wait_submit_fence = false;
      })
      [] refl refl refl refl (inl refl)

exited_complete_example :
    (ended.0.queue.ch ≡ [])
    × (ended.0.queue.mandatory ≡ [])
    × (◌≡◌ {A = Bool} true false ⊎ (ended.0.flights ≡ []))
    × (ended.0.accepted ≡ ended.0.finished)
    × (enqueue_mandatory true ended.0.queue cleanup_3 true ≡ (ended.0.queue, false))
unfolding ended
exited_complete_example = exited_complete true ended.1 cleanup_3 true refl

parked-wakes_example :
    (roused.0.queue.mandatory_wake ≡ true)
    ⊎ ((◌≡◌ {A = Bool} false true × (roused.0.fence_closed ≡ true))
        ⊎ (0 < roused.0.announcing + roused.0.waking))
unfolding roused
parked-wakes_example = parked-wakes true roused.1 refl refl

retire-lossless_example :
    (idle.0.flights ≡ [])
    × (idle.0.queue.ch ≡ [])
    × (idle.0.queue.mandatory ≡ [])
    × (occupied idle.0.worker ≡ 0)
    × (idle.0.accepted ≡ idle.0.finished)
    × ((retire_if_idle 20 true idle.0.queue).0.closed ≡ true)
    × (enqueue_mandatory true (retire_if_idle 20 true idle.0.queue).0 cleanup_3 false
        ≡ ((retire_if_idle 20 true idle.0.queue).0, false))
unfolding idle retire_if_idle
retire-lossless_example = retire-lossless idle.1 20 true cleanup_3 false refl

-- After the two tasks are settled the mark of the cleanup is met exactly.
runnable_finished : runnable.0.finished ≡ task_1 ∷ []
unfolding runnable
runnable_finished = refl
