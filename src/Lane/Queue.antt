-- ===== src/Lane/Queue.antt =====
-- `keyQueue` of asyncengine/strategy.go and the operations of `base` on it. A channel is the list
-- of its buffered values and a flag for `close`; an atomic counter is a number. Each operation is
-- one atomic change of the record: the code makes it under `mandatoryMu`, under `gate`, or with
-- the atomics in the order that keeps the fields consistent for a reader of `gate`.
use pit_go.Base.{
  ℕ, ◌+◌, ◌-◌, Bool, true, false, not, ◌&&◌, ◌||◌, Option, none, some, List, [], ◌∷◌, ◌++◌, map,
  ltb, leb, ◌==◌, if◌then◌else◌, length, is_empty,
}
use pit_go.Routing.{RoutingKey, same_key}

-- `queuedTask`; `task` is the identity of the pending task.
pub record QueuedTask : Type 0 where
  pub key : RoutingKey
  pub task : ℕ

-- `submitFailureCleanupEntry`.
pub record Entry : Type 0 where
  pub task : QueuedTask
  pub admitted_cutoff : ℕ
  pub settle_target : ℕ
  pub wait_submit_fence : Bool

pub record KeyQueue : Type 0 where
  pub capacity : ℕ
  pub ch : List QueuedTask
  pub ch_closed : Bool
  pub quit_closed : Bool
  pub mandatory_wake : Bool  -- the one place of its buffer is taken
  pub mandatory : List Entry
  pub mandatory_queued : Bool
  pub retired : Bool
  pub worker_exited : Bool
  pub closed : Bool
  pub last_active : ℕ
  pub pending : ℕ
  pub admitted : ℕ
  pub settled : ℕ

unfoldable pub new_key_queue : ℕ → ℕ → KeyQueue
new_key_queue capacity now = record {
  capacity = capacity;
  ch = [];
  ch_closed = false;
  quit_closed = false;
  mandatory_wake = false;
  mandatory = [];
  mandatory_queued = false;
  retired = false;
  worker_exited = false;
  closed = false;
  last_active = now;
  pending = 0;
  admitted = 0;
  settled = 0;
}

unfoldable pub settle : KeyQueue → KeyQueue
settle q = record q { settled = q.settled + 1 }

-- Refused while cleanup is queued.
unfoldable pub mark_retired : KeyQueue → KeyQueue × Bool
mark_retired q = if is_empty q.mandatory then (record q { retired = true }, true) else (q, false)

-- `pendingCleanupForLocked`.
unfoldable pub pending_cleanup_for : RoutingKey → List Entry → Option Entry
pending_cleanup_for key [] = none
pending_cleanup_for key (entry ∷ rest) =
    if same_key entry.task.key key then some entry else pending_cleanup_for key rest

-- The ticket is the new value of `admitted`.
unfoldable pub admit_task : Bool → KeyQueue → KeyQueue × ℕ
admit_task tracks_idle q = (
  record q {
    admitted = q.admitted + 1;
    pending = if tracks_idle then q.pending + 1 else q.pending;
  },
  q.admitted + 1,
)

unfoldable pub mark_sent : Bool → ℕ → KeyQueue → KeyQueue
mark_sent tracks_idle now q = if tracks_idle then record q { last_active = now } else q

-- The non-blocking `q.ch <- qt`: `none` when the buffer is full.
unfoldable pub try_send : QueuedTask → KeyQueue → Option KeyQueue
try_send qt q =
    if ltb (length q.ch) q.capacity then some (record q { ch = q.ch ++ qt ∷ [] }) else none

abbrev pub raise_target : ℕ → Entry → Entry
raise_target ticket e =
    if ltb e.admitted_cutoff ticket then record e { settle_target = e.settle_target + 1 } else e

-- The `select` that sends on `mandatoryWake` or does nothing leaves its place taken.
unfoldable pub wake_worker : KeyQueue → KeyQueue
wake_worker q = record q { mandatory_wake = true }

-- `unmarkSent` up to its wake, which follows if the backlog is not empty. No reader of `pending` comes
-- between: the caller holds `gate`.
unfoldable pub unmark_sent : Bool → ℕ → KeyQueue → KeyQueue
unmark_sent tracks_idle ticket q = record q {
  settled = q.settled + 1;
  mandatory = map (raise_target ticket) q.mandatory;
  pending = if tracks_idle then q.pending - 1 else q.pending;
}

abbrev pub new_entry : KeyQueue → QueuedTask → Bool → Entry
new_entry q qt wait_submit_fence = record {
  task = qt;
  admitted_cutoff = q.admitted;
  settle_target = q.admitted;
  wait_submit_fence = wait_submit_fence;
}

-- `enqueueMandatory` under `mandatoryMu`; `markSent` and the wake follow after it.
unfoldable pub enqueue_mandatory : Bool → KeyQueue → QueuedTask → Bool → KeyQueue × Bool
enqueue_mandatory tracks_idle q qt wait_submit_fence =
    if q.retired || q.worker_exited then (q, false) else (
      record q {
        pending = if tracks_idle then q.pending + 1 else q.pending;
        mandatory = q.mandatory ++ new_entry q qt wait_submit_fence ∷ [];
        mandatory_queued = true;
      },
      true,
    )

unfoldable pub finish_worker : KeyQueue → KeyQueue × Bool
finish_worker q =
    if is_empty q.mandatory then (record q { worker_exited = true }, true) else (q, false)

-- What `takeMandatoryCleanup` reports: `ready` with the task, or not, and then whether the head
-- waits for the submit fence.
pub data Taken : Type 0 where
  ready : QueuedTask → Taken
  not_ready : Bool → Taken

-- The boundary of an entry that waited for the fence is taken anew.
abbrev pub recapture : ℕ → Entry → Entry
recapture admitted e = record e {
  wait_submit_fence = false;
  admitted_cutoff = admitted;
  settle_target = admitted;
}

unfoldable pub release_head : KeyQueue → Entry → List Entry → KeyQueue × Taken
release_head q e rest =
    if ltb q.settled e.settle_target
    then (record q { mandatory = e ∷ rest }, not_ready false)
    else (record q { mandatory = rest; mandatory_queued = not (is_empty rest) }, ready e.task)

unfoldable pub take_head : Bool → KeyQueue → List Entry → KeyQueue × Taken
unfolding release_head
take_head fence_closed q [] = (q, not_ready false)
take_head fence_closed q (e ∷ rest) =
    if e.wait_submit_fence
    then (if fence_closed
        then release_head q (recapture q.admitted e) rest
        else (q, not_ready true))
    else release_head q e rest

unfoldable pub take_mandatory_cleanup : Bool → KeyQueue → KeyQueue × Taken
unfolding take_head
take_mandatory_cleanup fence_closed q =
    if q.mandatory_queued then take_head fence_closed q q.mandatory else (q, not_ready false)

-- The end of `handleTask` and `handleBarrier`: the deferred decrement of `pending`, and `touch`
-- unless the task was aborted by a hard stop.
unfoldable pub after_task : Bool → Bool → ℕ → KeyQueue → KeyQueue
after_task tracks_idle hard_stopped now q =
    if tracks_idle
    then record q {
      pending = q.pending - 1;
      last_active = if hard_stopped then q.last_active else now;
    }
    else q

unfoldable pub drain_from : Bool → List QueuedTask → KeyQueue → KeyQueue
drain_from tracks_idle [] q = record q { ch = [] }
drain_from tracks_idle (qt ∷ rest) q = drain_from tracks_idle rest (record q {
  pending = if tracks_idle then q.pending - 1 else q.pending;
  settled = q.settled + 1;
})

unfoldable pub drain_and_abort : Bool → KeyQueue → KeyQueue
unfolding drain_from
drain_and_abort tracks_idle q = drain_from tracks_idle q.ch q

-- One queue of `closeQueueChannels`.
unfoldable pub close_channel : KeyQueue → KeyQueue
close_channel q = if q.closed then q else record q { closed = true; ch_closed = true }

-- The idle test that `cleanupIdle` and `retireIfIdle` of dynamic.go make.
abbrev pub is_idle : ℕ → KeyQueue → Bool
is_idle cutoff q = q.pending == 0 && is_empty q.ch && leb q.last_active cutoff

-- `retireIfIdle` of dynamic.go on the lane that the map still holds, outside a section; `gate_free`
-- is what `gate.TryLock` returns.
unfoldable pub retire_if_idle : ℕ → Bool → KeyQueue → KeyQueue × Bool
unfolding mark_retired
retire_if_idle cutoff gate_free q =
    if is_idle cutoff q && gate_free
    then (let (sealed, done) = mark_retired q in
        if done then (record sealed { closed = true; quit_closed = true }, true) else (q, false))
    else (q, false)
