-- ===== src/Exclusive/Invariant/Record.antt =====
-- The invariant of an engine with a section of asyncengine/exclusive.go, and how a step of one lane or a
-- change of the phase keeps it.
use pit_go.Base.{ℕ, ◌+◌, ◌≡◌, subst, Bool, true, false, Option, List, arith, count, if◌then◌else◌}
use pit_go.Exclusive.{
  Lane, Phase, absent, registered, waiting, enqueuing, collecting, checking, running, Engine,
  is_done,
}
use pit_go.Exclusive.Lanes.{Replaces, all, Replaces-count, Replaces-old, Replaces-all, all-impl}
use pit_go.Exclusive.Invariant.Single.{barriered, has_parked, lane_ok}
use pit_go.Exclusive.Invariant.Cleanups.{awaits_end}

-- Before a section is installed.
abbrev pub is_before : Phase → Bool
is_before absent = true
is_before registered = true
is_before _ = false

-- After the wait for the off-lane cleanups, up to the end of the function.
abbrev pub has_waited : Phase → Bool
has_waited enqueuing = true
has_waited collecting = true
has_waited checking = true
has_waited running = true
has_waited _ = false

abbrev pub is_waiting : Phase → Bool
is_waiting waiting = true
is_waiting _ = false

-- `tallied`: a barrier is expected for each lane that has one. `met`: as many have been reported as
-- workers stand parked.
pub record Inv (e : Engine) : Type 0 where
  pub tallied : e.expected ≡ count barriered e.lanes
  pub met : e.arrived ≡ count has_parked e.lanes
  pub each : all (lane_ok e.phase e.stopped) e.lanes ≡ true
  pub unused : is_before e.phase ≡ true → e.expected ≡ 0
  pub awaiting :
      is_waiting e.phase ≡ true
      → (k : Option ℕ) → is_done k e.barriers e.lifecycle ≡ false
      → awaits_end k e.awaited ≡ true
  pub quiet : has_waited e.phase ≡ true → (k : Option ℕ) → is_done k e.barriers e.lifecycle ≡ true

-- A step of one lane that keeps the tallies, the phase and the cleanups.
pub replace-Inv :
    (e : Engine) {l l' : Lane} {ls : List Lane} (expected arrived : ℕ) (aborted : Bool)
    → Inv e
    → Replaces l l' e.lanes ls
    → expected + (if barriered l then 1 else 0) ≡ e.expected + (if barriered l' then 1 else 0)
    → arrived + (if has_parked l then 1 else 0) ≡ e.arrived + (if has_parked l' then 1 else 0)
    → (lane_ok e.phase e.stopped l ≡ true → lane_ok e.phase e.stopped l' ≡ true)
    → (is_before e.phase ≡ true → expected ≡ 0)
    → Inv (record e { lanes = ls; expected = expected; arrived = arrived; aborted = aborted })
replace-Inv e expected arrived aborted i r t m k u = record {
  tallied = omega (arith, i.tallied, Replaces-count barriered r);
  met = omega (arith, i.met, Replaces-count has_parked r);
  each = let p = lane_ok e.phase e.stopped in Replaces-all p r i.each (k (Replaces-old p r i.each));
  unused = u;
  awaiting = i.awaiting;
  quiet = i.quiet;
}

pub each_at :
    {e : Engine} (p : Phase) → e.phase ≡ p → Inv e → all (lane_ok p e.stopped) e.lanes ≡ true
each_at {e} p at i = subst (λ q. all (lane_ok q e.stopped) e.lanes ≡ true) at i.each

-- The invariant at a phase that is known.
pub move-Inv :
    (e : Engine) (q p : Phase) (cancelled : Bool)
    → e.phase ≡ q
    → Inv e
    → ((l : Lane) → lane_ok q e.stopped l ≡ true → lane_ok p e.stopped l ≡ true)
    → (is_before p ≡ true → is_before q ≡ true)
    → is_waiting p ≡ false
    → (has_waited p ≡ true → has_waited q ≡ true)
    → Inv (record e { phase = p; cancelled = cancelled })
move-Inv e q p cancelled at i k before out after = record {
  tallied = i.tallied;
  met = i.met;
  each = all-impl (lane_ok q e.stopped) (lane_ok p e.stopped) e.lanes k (each_at q at i);
  unused = λ h. i.unused (rw at (before h));
  awaiting = λ h. cc;
  quiet = λ h. i.quiet (rw at (after h));
}
