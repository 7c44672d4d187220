-- ===== src/Lane/System.antt =====
-- One lane of asyncengine/strategy.go as a transition system: the queue, the producers between
-- `admitTask` and the end of their send, the worker's place in its loop, and the stop signals.
-- `accepted`, `finished` and `marks` are the history that the properties speak of: no step reads
-- them.
use pit_go.Base.{
  length, ℕ, ◌≡◌, Bool, ◌&&◌, true, false, some, List, [], ◌∷◌, ◌++◌, if◌then◌else◌, Picks, suc,
  ◌+◌, ◌-◌, ◌<◌, ◌⊎◌, is_empty,
}
use pit_go.Lane.Queue.{
  Entry, KeyQueue, QueuedTask, Taken, ready, not_ready, new_key_queue, settle, admit_task,
  mark_sent, try_send, unmark_sent, enqueue_mandatory, wake_worker, finish_worker,
  take_mandatory_cleanup, after_task, drain_and_abort, close_channel, retire_if_idle,
}

-- A producer in `sendToQueue` that has its ticket.
pub record Flight : Type 0 where
  pub ticket : ℕ
  pub task : QueuedTask

-- Where the worker stands in its loop.
pub data Worker : Type 0 where
  polling : Worker  -- before `takeMandatoryCleanup`
  parked : Bool → Worker  -- in a `select`; the flag says that it listens to the submit fence
  running : QueuedTask → Worker  -- in `handleTask`, for a channel task
  settling : QueuedTask → Worker  -- before `q.settle()`
  cleaning : QueuedTask → Worker  -- in `handleTask` or `handleBarrier`, for a backlog task
  exited : Worker

pub record Lane : Type 0 where
  pub queue : KeyQueue
  pub flights : List Flight
  pub announcing : ℕ  -- calls that have queued a cleanup and are before `markSent`
  pub waking : ℕ  -- calls before their send on `mandatoryWake`
  pub worker : Worker
  pub sealed : Bool  -- `channelClosed || laneRetired`
  pub stopped : Bool
  pub hard_stopped : Bool
  pub fence_closed : Bool
  pub accepted : List QueuedTask  -- every task sent into the channel, in order
  pub finished : List QueuedTask  -- every channel task run or aborted, in order
  pub marks : List ℕ  -- for each backlog entry, how many tasks had been accepted before it

-- The channel task in the worker's hands that is not settled yet.
abbrev pub in_hand : Worker → List QueuedTask
in_hand (running qt) = qt ∷ []
in_hand (settling qt) = qt ∷ []
in_hand _ = []

abbrev pub drop_head {ℓ} : {A : Type ℓ} → List A → List A
drop_head [] = []
drop_head (_ ∷ xs) = xs

-- The marks after `takeMandatoryCleanup` has looked at the head: an entry that waited for the fence
-- is held to all that was accepted by then.
abbrev pub remark : Bool → ℕ → List Entry → List ℕ → List ℕ
remark fence_closed now [] ns = ns
remark fence_closed now (e ∷ es) [] = []
remark fence_closed now (e ∷ es) (n ∷ ns) =
    (if e.wait_submit_fence && fence_closed then now else n) ∷ ns

unfoldable pub new_lane : ℕ → ℕ → Lane
new_lane capacity now = record {
  queue = new_key_queue capacity now;
  flights = [];
  announcing = 0;
  waking = 0;
  worker = polling;
  sealed = false;
  stopped = false;
  hard_stopped = false;
  fence_closed = false;
  accepted = [];
  finished = [];
  marks = [];
}

-- The lane after each kind of step; the premises stand in `Step`.
module _ (tracks_idle : Bool) where
  abbrev pub after_admit : Lane → QueuedTask → Lane
  after_admit l qt =
      let (q, ticket) = admit_task tracks_idle l.queue in
      record l { queue = q; flights = record { ticket = ticket; task = qt } ∷ l.flights }

  abbrev pub after_send : Lane → Flight → List Flight → ℕ → KeyQueue → Lane
  after_send l f rest now q = record l {
    queue = mark_sent tracks_idle now q;
    flights = rest;
    accepted = l.accepted ++ f.task ∷ [];
  }

  abbrev pub after_abandon : Lane → Flight → List Flight → Lane
  after_abandon l f rest = record l {
    queue = unmark_sent tracks_idle f.ticket l.queue;
    flights = rest;
    waking = (if is_empty l.queue.mandatory then 0 else 1) + l.waking;
  }

  abbrev pub after_cleanup_queued : Lane → KeyQueue → Lane
  after_cleanup_queued l q = record l {
    queue = q;
    announcing = suc l.announcing;
    marks = l.marks ++ length l.accepted ∷ [];
  }

  abbrev pub after_announce : Lane → ℕ → Lane
  after_announce l now = record l {
    queue = mark_sent tracks_idle now l.queue;
    announcing = l.announcing - 1;
    waking = suc l.waking;
  }

  abbrev pub after_signal : Lane → Lane
  after_signal l = record l { queue = wake_worker l.queue; waking = l.waking - 1 }

  -- `takeMandatoryCleanup` by the worker, which holds no task.
  abbrev pub after_take : Lane → KeyQueue → Taken → Lane
  after_take l q (ready qt) = record l {
    queue = q;
    worker = cleaning qt;
    marks = drop_head (remark l.fence_closed (length l.accepted) l.queue.mandatory l.marks);
  }
  after_take l q (not_ready waits) = record l {
    queue = q;
    worker = parked waits;
    marks = remark l.fence_closed (length l.accepted) l.queue.mandatory l.marks;
  }

  abbrev pub after_handle : Lane → QueuedTask → ℕ → Lane
  after_handle l qt now = record l {
    queue = after_task tracks_idle l.hard_stopped now l.queue;
    worker = settling qt;
    finished = l.finished ++ qt ∷ [];
  }

  abbrev pub after_settle : Lane → Lane
  after_settle l = record l { queue = settle l.queue; worker = polling }

  abbrev pub after_clean : Lane → ℕ → Lane
  after_clean l now = record l {
    queue = after_task tracks_idle l.hard_stopped now l.queue;
    worker = polling;
  }

  abbrev pub after_quit : Lane → Lane
  after_quit l = record l {
    queue = drain_and_abort tracks_idle l.queue;
    worker = polling;
    sealed = true;
    finished = l.finished ++ l.queue.ch;
  }

  -- A Dynamic producer holds `gate` from its look at `closed` to the end of its send, and `close` takes
  -- it; a Sharded one takes neither. The fence may close with a producer in flight. To send on a closed
  -- channel panics and ends the process: there is no such step.
  pub data Step (l : Lane) : Lane → Type 0 where
    admit :
        (qt : QueuedTask)
        → (tracks_idle ≡ false) ⊎ (l.queue.closed ≡ false)
        → Step l (after_admit l qt)
    send :
        (f : Flight) {rest : List Flight} {q : KeyQueue} (now : ℕ)
        → Picks f l.flights rest
        → l.queue.ch_closed ≡ false
        → try_send f.task l.queue ≡ some q
        → Step l (after_send l f rest now q)
    abandon :
        (f : Flight) {rest : List Flight} → Picks f l.flights rest → Step l (after_abandon l f rest)
    queue_cleanup :
        (qt : QueuedTask) (wait_submit_fence : Bool) {q : KeyQueue}
        → enqueue_mandatory tracks_idle l.queue qt wait_submit_fence ≡ (q, true)
        → Step l (after_cleanup_queued l q)
    announce : (now : ℕ) → 0 < l.announcing → Step l (after_announce l now)
    signal : 0 < l.waking → Step l (after_signal l)
    take :
        {q : KeyQueue} {t : Taken}
        → l.worker ≡ polling
        → take_mandatory_cleanup l.fence_closed l.queue ≡ (q, t)
        → Step l (after_take l q t)
    receive :
        (qt : QueuedTask) {rest : List QueuedTask} {waits : Bool}
        → l.worker ≡ parked waits
        → l.sealed ≡ false
        → l.queue.ch ≡ qt ∷ rest
        → Step l (record l { queue = record l.queue { ch = rest }; worker = running qt })
    wake :
        {waits : Bool}
        → l.worker ≡ parked waits
        → l.queue.mandatory_wake ≡ true
        → Step l (record l { queue = record l.queue { mandatory_wake = false }; worker = polling })
    see_fence :
        l.worker ≡ parked true → l.fence_closed ≡ true → Step l (record l { worker = polling })
    see_closed :
        {waits : Bool}
        → l.worker ≡ parked waits
        → l.sealed ≡ false
        → l.queue.ch ≡ []
        → l.queue.ch_closed ≡ true
        → Step l (record l { worker = polling; sealed = true })
    see_quit :
        {waits : Bool}
        → l.worker ≡ parked waits
        → l.sealed ≡ false
        → l.queue.quit_closed ≡ true
        → Step l (after_quit l)
    exit :
        {waits : Bool} {q : KeyQueue}
        → l.worker ≡ parked waits
        → l.sealed ≡ true
        → finish_worker l.queue ≡ (q, true)
        → Step l (record l { queue = q; worker = exited })
    handle : (qt : QueuedTask) (now : ℕ) → l.worker ≡ running qt → Step l (after_handle l qt now)
    settle_task : (qt : QueuedTask) → l.worker ≡ settling qt → Step l (after_settle l)
    clean : (qt : QueuedTask) (now : ℕ) → l.worker ≡ cleaning qt → Step l (after_clean l now)
    signal_stop : Step l (record l { stopped = true })
    signal_hard_stop : Step l (record l { hard_stopped = true })
    close_fence : l.stopped ≡ true → Step l (record l { fence_closed = true })
    close :
        l.fence_closed ≡ true
        → (tracks_idle ≡ false) ⊎ (l.flights ≡ [])
        → Step l (record l { queue = close_channel l.queue })
    retire :
        (cutoff : ℕ) (gate_free : Bool) {q : KeyQueue}
        → tracks_idle ≡ true
        → retire_if_idle cutoff gate_free l.queue ≡ (q, true)
        → Step l (record l { queue = q })

  -- The states of a lane that starts empty.
  pub data Reach (capacity now : ℕ) : Lane → Type 0 where
    start : Reach capacity now (new_lane capacity now)
    next : {l m : Lane} → Reach capacity now l → Step l m → Reach capacity now m
