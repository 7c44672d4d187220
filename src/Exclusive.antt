-- ===== src/Exclusive.antt =====
-- Exclusive sections of asyncengine/exclusive.go, with `installExclusive` and `withdrawExclusive` of
-- asyncengine/dynamic.go and asyncengine/sharded.go. A lane is what a section sees of it: what its
-- worker does and whether a barrier of the section waits in its backlog.
pub mod Protocol
pub mod Lanes
pub mod Invariant
pub mod Alone
use pit_go.Base.{
  ℕ, zero, suc, ◌+◌, ◌-◌, Bool, true, false, not, ◌&&◌, ◌||◌, Option, none, some, List, [], ◌∷◌,
  ◌++◌, map, ◌==◌, if◌then◌else◌,
}

-- What a worker does. `starting`: it has not looked at its lane yet. `sending`: it runs a barrier and
-- offers `parked`. `parked`: the section has received it. `holding`: it aborts a barrier. `leaving`: the
-- section of its barrier has closed `release`, and it has not gone on yet.
pub data Stage : Type 0 where
  starting idle busy sending parked holding leaving exited : Stage

-- `owed`: the lane is in the snapshot of the section and has not been offered its barrier.
-- `barrier`: a barrier of the section in progress waits in the backlog. `spent` counts the barriers of
-- ended sections that still do, ahead of it. `retired` is set by the retirement of an idle lane,
-- `closed` by that and by a stop.
pub record Lane : Type 0 where
  pub stage : Stage
  pub owed : Bool
  pub barrier : Bool
  pub spent : ℕ
  pub retired : Bool
  pub closed : Bool

-- Where the call of `runExclusive` stands that holds `exclusiveTurn`. `absent`: there is none.
-- `registered`: `beginSection` has let it in. `waiting`: for the off-lane cleanups that were running.
-- `withdrawn`: the section is out of the slow paths and its `release` is not closed yet.
pub data Phase : Type 0 where
  absent registered waiting enqueuing collecting checking running ending withdrawn : Phase

-- The engine. `barriers` are the keys with an off-lane cleanup in progress, and `lifecycle` is how many
-- others run. `awaited` is what the section still has to wait for: the channel of a key, or `none` for
-- `lifecycleCleanupDone`. `deferred` counts postponed cleanups, `handed` those handed over and not run.
-- `arrived` is the local variable `parked` of `runExclusive`.
pub record Engine : Type 0 where
  pub dynamic : Bool
  pub lanes : List Lane
  pub phase : Phase
  pub expected : ℕ
  pub arrived : ℕ
  pub aborted : Bool
  pub deferred : ℕ
  pub handed : ℕ
  pub barriers : List ℕ
  pub lifecycle : ℕ
  pub awaited : List (Option ℕ)
  pub cancelled : Bool
  pub stopped : Bool
  pub hard_stopped : Bool

-- Whether `activeSection` is set.
abbrev pub is_installed : Phase → Bool
is_installed absent = false
is_installed registered = false
is_installed withdrawn = false
is_installed _ = true

abbrev pub contains : ℕ → List ℕ → Bool
contains k [] = false
contains k (j ∷ js) = k == j || contains k js

abbrev pub remove : ℕ → List ℕ → List ℕ
remove k [] = []
remove k (j ∷ js) = let rest = remove k js in if k == j then rest else j ∷ rest

-- `installExclusive` of either strategy: Sharded takes every shard, Dynamic skips closed lanes.
abbrev pub snapshot_lane : Bool → Lane → Lane
snapshot_lane dynamic l = record l { owed = if dynamic then not l.closed else true }

abbrev pub running_cleanups : List ℕ → ℕ → List (Option ℕ)
running_cleanups barriers lifecycle =
    map (λ k. some k) barriers ++ (if lifecycle == 0 then [] else none ∷ [])

unfoldable pub install_exclusive : Engine → Engine
install_exclusive e = record e {
  phase = waiting;
  lanes = map (snapshot_lane e.dynamic) e.lanes;
  awaited = running_cleanups e.barriers e.lifecycle;
  expected = 0;
  arrived = 0;
  aborted = false;
}

-- A receive from a channel of `running` is ready once its cleanups have ended.
abbrev pub is_done : Option ℕ → List ℕ → ℕ → Bool
is_done (some k) barriers lifecycle = not (contains k barriers)
is_done none barriers lifecycle = lifecycle == 0

-- `enqueueBarrier`: a worker that has exited takes nothing, and no lane of the snapshot is retired.
abbrev pub takes_barrier : Stage → Bool
takes_barrier exited = false
takes_barrier _ = true

abbrev pub offer_barrier : Lane → Lane
offer_barrier l = record l { owed = false; barrier = takes_barrier l.stage }

-- `exclusiveBarrierTask.run` up to its offer, and `abort`; `handleBarrier` chooses.
abbrev pub meet_barrier : Bool → Lane → Lane
meet_barrier hard l = record l { stage = if hard then holding else sending; barrier = false }

-- `close(section.release)`: a worker at a barrier of the section can go on, and a barrier that waits in a
-- backlog stays there.
abbrev pub free_stage : Stage → Stage
free_stage sending = leaving
free_stage parked = leaving
free_stage holding = leaving
free_stage g = g

abbrev pub free_lane : Lane → Lane
free_lane l = record l {
  stage = free_stage l.stage;
  barrier = false;
  spent = (if l.barrier then 1 else 0) + l.spent;
  owed = false;
}

unfoldable pub release_lanes : Engine → Engine
release_lanes e = record e {
  phase = absent;
  lanes = map free_lane e.lanes;
  expected = 0;
  arrived = 0;
  aborted = false;
  awaited = [];
}

-- One turn of the loop of the deferred function: the section is withdrawn if nothing was postponed,
-- and else the postponed cleanups are handed over.
unfoldable pub withdraw_exclusive : Engine → Engine
withdraw_exclusive e =
    if e.deferred == 0
    then record e { phase = withdrawn }
    else record e { handed = e.deferred; deferred = 0 }

-- The lane that `getOrCreate` starts: with the barrier of the section in progress.
abbrev pub new_lane : Bool → Lane
new_lane barred = record {
  stage = starting;
  owed = false;
  barrier = barred;
  spent = 0;
  retired = false;
  closed = false;
}

unfoldable pub create_lane : Engine → Engine
create_lane e = record e {
  lanes = new_lane (is_installed e.phase) ∷ e.lanes;
  expected = (if is_installed e.phase then 1 else 0) + e.expected;
}

-- An off-lane cleanup of a key (`cleanupWithoutLiveLane`) or of none (`beginLifecycleCleanup`).
unfoldable pub begin_cleanup : Option ℕ → Engine → Engine
begin_cleanup (some k) e =
    if is_installed e.phase
    then record e { deferred = e.deferred + 1 }
    else record e { barriers = k ∷ e.barriers }
begin_cleanup none e =
    if is_installed e.phase
    then record e { deferred = e.deferred + 1 }
    else record e { lifecycle = e.lifecycle + 1 }

unfoldable pub end_cleanup : Option ℕ → Engine → Engine
end_cleanup (some k) e = record e { barriers = remove k e.barriers }
end_cleanup none e = record e { lifecycle = e.lifecycle - 1 }
