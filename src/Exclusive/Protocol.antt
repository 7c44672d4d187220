-- ===== src/Exclusive/Protocol.antt =====
-- The interleavings of the workers, the section of asyncengine/exclusive.go in progress, the off-lane
-- cleanups, the creation and retirement of lanes, and the stops.
use pit_go.Base.{
  ℕ, zero, suc, ◌+◌, ◌-◌, ◌≤◌, ◌<◌, ◌≡◌, ◌⊎◌, Bool, true, false, not, ◌||◌, if◌then◌else◌, Option,
  List, [], ◌∷◌,
}
use pit_go.Exclusive.{
  Stage, starting, idle, busy, sending, parked, leaving, exited, Lane, Phase, absent, registered,
  waiting, enqueuing, collecting, checking, running, ending, withdrawn, Engine, is_installed,
  install_exclusive, is_done, takes_barrier, offer_barrier, meet_barrier, release_lanes,
  withdraw_exclusive, new_lane, create_lane, begin_cleanup, end_cleanup,
}
use pit_go.Exclusive.Lanes.{Replaces, all}

abbrev pub at_loop : Stage → Bool
at_loop starting = true
at_loop idle = true
at_loop _ = false

-- What a worker does by itself. A barrier of an ended section returns at once, run or aborted. A lane
-- that stop closed still hands over its buffered tasks; a retired one has none.
pub data Works (l : Lane) : Lane → Type 0 where
  starts : l.stage ≡ starting → l.barrier ≡ false → Works l (record l { stage = idle })
  takes : l.stage ≡ idle → l.retired ≡ false → Works l (record l { stage = busy })
  finishes : l.stage ≡ busy → Works l (record l { stage = idle })
  leaves : l.stage ≡ leaving → Works l (record l { stage = idle })
  drops : {n : ℕ} → at_loop l.stage ≡ true → l.spent ≡ suc n → Works l (record l { spent = n })
  exits :
      l.stage ≡ idle
      → l.barrier ≡ false
      → l.spent ≡ 0
      → l.closed ≡ true
      → Works l (record l { stage = exited })

-- The phases that a cancelled context or a stop ends before the function runs.
abbrev pub can_fail : Phase → Bool
can_fail waiting = true
can_fail collecting = true
can_fail checking = true
can_fail _ = false

pub data Step (e : Engine) : Engine → Type 0 where
  -- Workers.
  works :
      {l l' : Lane} {ls : List Lane}
      → Works l l'
      → Replaces l l' e.lanes ls
      → Step e (record e { lanes = ls })
  meets :
      {l : Lane} {ls : List Lane}
      → at_loop l.stage ≡ true
      → l.barrier ≡ true
      → l.spent ≡ 0
      → Replaces l (meet_barrier e.hard_stopped l) e.lanes ls
      → Step e (record e { lanes = ls; aborted = e.aborted || e.hard_stopped })
  parks :
      {l : Lane} {ls : List Lane}
      → e.phase ≡ collecting
      → l.stage ≡ sending
      → Replaces l (record l { stage = parked }) e.lanes ls
      → Step e (record e { lanes = ls; arrived = e.arrived + 1 })
  -- Lanes.
  creates : e.dynamic ≡ true → Step e (create_lane e)
  retires :
      {l : Lane} {ls : List Lane}
      → e.dynamic ≡ true
      → is_installed e.phase ≡ false
      → at_loop l.stage ≡ true
      → l.barrier ≡ false
      → l.spent ≡ 0
      → Replaces l (record l { retired = true; closed = true }) e.lanes ls
      → Step e (record e { lanes = ls })
  closes :
      {l : Lane} {ls : List Lane}
      → e.stopped ≡ true
      → Replaces l (record l { closed = true }) e.lanes ls
      → Step e (record e { lanes = ls })
  -- Off-lane cleanups.
  begins : (k : Option ℕ) → Step e (begin_cleanup k e)
  ends : (k : Option ℕ) → Step e (end_cleanup k e)
  -- Stops and the context of the call in progress.
  stops : Step e (record e { stopped = true })
  hard_stops : Step e (record e { hard_stopped = true })
  cancels : Step e (record e { cancelled = true })
  -- The section.
  registers :
      e.phase ≡ absent
      → e.stopped ≡ false
      → Step e (record e { phase = registered; cancelled = false })
  installs : e.phase ≡ registered → Step e (install_exclusive e)
  awaits :
      {k : Option ℕ} {ks : List (Option ℕ)}
      → e.phase ≡ waiting
      → e.awaited ≡ k ∷ ks
      → is_done k e.barriers e.lifecycle ≡ true
      → Step e (record e { awaited = ks })
  waited : e.phase ≡ waiting → e.awaited ≡ [] → Step e (record e { phase = enqueuing })
  offers :
      {l : Lane} {ls : List Lane}
      → e.phase ≡ enqueuing
      → l.owed ≡ true
      → Replaces l (offer_barrier l) e.lanes ls
      → Step e (record e {
        lanes = ls;
        expected = (if takes_barrier l.stage then 1 else 0) + e.expected;
      })
  offered :
      e.phase ≡ enqueuing
      → all (λ l. not l.owed) e.lanes ≡ true
      → Step e (record e { phase = collecting })
  collected : e.phase ≡ collecting → e.expected ≤ e.arrived → Step e (record e { phase = checking })
  runs :
      e.phase ≡ checking
      → e.stopped ≡ false
      → e.cancelled ≡ false
      → Step e (record e { phase = running })
  fails :
      can_fail e.phase ≡ true
      → (e.stopped ≡ true) ⊎ ((e.cancelled ≡ true) ⊎ (e.aborted ≡ true))
      → Step e (record e { phase = ending })
  returns : e.phase ≡ running → Step e (record e { phase = ending })
  withdraws : e.phase ≡ ending → e.handed ≡ 0 → Step e (withdraw_exclusive e)
  drains : e.phase ≡ ending → 0 < e.handed → Step e (record e { handed = e.handed - 1 })
  releases : e.phase ≡ withdrawn → Step e (release_lanes e)

-- An engine with its shards, or with no lane yet.
abbrev pub new_engine : Bool → List Lane → Engine
new_engine dynamic lanes = record {
  dynamic = dynamic;
  lanes = lanes;
  phase = absent;
  expected = 0;
  arrived = 0;
  aborted = false;
  deferred = 0;
  handed = 0;
  barriers = [];
  lifecycle = 0;
  awaited = [];
  cancelled = false;
  stopped = false;
  hard_stopped = false;
}

abbrev pub shards : ℕ → List Lane
shards zero = []
shards (suc n) = new_lane false ∷ shards n

pub data Reach : Engine → Type 0 where
  dynamic_start : Reach (new_engine true [])
  sharded_start : (n : ℕ) → Reach (new_engine false (shards n))
  next : {e f : Engine} → Reach e → Step e f → Reach f
