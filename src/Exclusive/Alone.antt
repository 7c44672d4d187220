-- ===== src/Exclusive/Alone.antt =====
-- What a section of asyncengine/exclusive.go is for: its function runs alone, the wait for the lanes
-- ends, and the lanes go on after it.
use pit_go.Base.{
  ℕ, ◌≤◌, ◌≡◌, refl, ap, Bool, true, false, not, ◌||◌, Option, none, some, List, [], ◌∷◌, arith,
  count, Bool-cases, inl, inr, ◌==◌,
}
use pit_go.Exclusive.{
  Lane, Phase, collecting, running, ending, Engine, is_installed, contains, is_done,
  install_exclusive, release_lanes, withdraw_exclusive, create_lane, begin_cleanup, end_cleanup,
}
use pit_go.Exclusive.Protocol.{
  Step, works, meets, parks, creates, retires, closes, begins, ends, stops, hard_stops, cancels,
  registers, installs, awaits, waited, offers, offered, collected, runs, fails, returns, withdraws,
  drains, releases, Reach, dynamic_start, sharded_start, next,
}
use pit_go.Exclusive.Lanes.{all, all-impl}
use pit_go.Exclusive.Invariant.Single.{is_busy, barriered, has_parked, lane_ok}
use pit_go.Exclusive.Invariant.Record.{each_at}
use pit_go.Exclusive.Invariant.Steps.{Reach-Inv}

none-contained : (ks : List ℕ) → ((k : ℕ) → contains k ks ≡ false) → ks ≡ []
none-contained [] f = refl
none-contained (k ∷ ks) f = ground (arith, f k)

-- While the function of a section runs, no worker runs or aborts a task and no off-lane cleanup is in
-- progress, also if a stop is signalled or a lane is created meanwhile.
pub running-alone :
    {e : Engine}
    → Reach e
    → e.phase ≡ running
    → (all (λ l. not (is_busy l.stage)) e.lanes ≡ true) × (e.barriers ≡ []) × (e.lifecycle ≡ 0)
running-alone {e} r at =
    let i = Reach-Inv r in
    let quiet : (k : Option ℕ) → is_done k e.barriers e.lifecycle ≡ true = i.quiet (rw at refl) in
    (
      all-impl (lane_ok running e.stopped) (λ l. not (is_busy l.stage)) e.lanes
          (λ l k. ground arith) (each_at running at i),
      none-contained e.barriers (λ k. ground (arith, quiet (some k))),
      ground (arith, quiet none),
    )

parked-all :
    (ls : List Lane)
    → all (λ l. not (barriered l) || has_parked l) ls ≡ true
    → count barriered ls ≤ count has_parked ls
parked-all [] h = omega arith
parked-all (l ∷ ls) h = ground (arith, parked-all ls)

-- The section stops waiting for the lanes as soon as no barrier of it waits in a backlog and every worker
-- at one has been received from.
pub collecting-ends :
    {e : Engine}
    → Reach e
    → e.phase ≡ collecting
    → all (λ l. not (barriered l) || has_parked l) e.lanes ≡ true
    → e.expected ≤ e.arrived
collecting-ends {e} r at h =
    let i = Reach-Inv r in omega (arith, i.tallied, i.met, parked-all e.lanes h)

abbrev is_ending : Phase → Bool
is_ending ending = true
is_ending _ = false

not-ending : (p : Phase) → is_installed p ≡ false → is_ending p ≡ false
not-ending p out = ground arith

-- `postponed`: cleanups are postponed to a section that is installed only.
record Owed (e : Engine) : Type 0 where
  postponed : is_installed e.phase ≡ false → e.deferred ≡ 0
  handed_over : is_ending e.phase ≡ false → e.handed ≡ 0

begins-Owed : (e : Engine) (k : Option ℕ) → Owed e → Owed (begin_cleanup k e)
unfolding begin_cleanup
begins-Owed e (some k) o = elim (Bool-cases (is_installed e.phase)) [
  | inl h ↦ rw h (record { postponed = λ out. cc (h, out); handed_over = o.handed_over })
  | inr h ↦ rw h (record { postponed = o.postponed; handed_over = o.handed_over })
]
begins-Owed e none o = elim (Bool-cases (is_installed e.phase)) [
  | inl h ↦ rw h (record { postponed = λ out. cc (h, out); handed_over = o.handed_over })
  | inr h ↦ rw h (record { postponed = o.postponed; handed_over = o.handed_over })
]

ends-Owed : (e : Engine) (k : Option ℕ) → Owed e → Owed (end_cleanup k e)
unfolding end_cleanup
ends-Owed e (some k) o = record { postponed = o.postponed; handed_over = o.handed_over }
ends-Owed e none o = record { postponed = o.postponed; handed_over = o.handed_over }

withdraws-Owed :
    (e : Engine) → e.phase ≡ ending → e.handed ≡ 0 → Owed e → Owed (withdraw_exclusive e)
unfolding withdraw_exclusive
withdraws-Owed e at h o = elim (Bool-cases (e.deferred == 0)) [
  | inl k ↦ rw k (record { postponed = λ out. ground arith; handed_over = λ out. h })
  | inr k ↦ rw k (record { postponed = λ out. refl; handed_over = λ out. cc (ap is_ending at) })
]

Step-Owed : {e f : Engine} → Step e f → Owed e → Owed f
unfolding install_exclusive release_lanes create_lane
Step-Owed {e} (works w r) o = record { postponed = o.postponed; handed_over = o.handed_over }
Step-Owed {e} (meets a b s r) o = record { postponed = o.postponed; handed_over = o.handed_over }
Step-Owed {e} (parks a b r) o = record { postponed = o.postponed; handed_over = o.handed_over }
Step-Owed {e} (retires d out a b s r) o = record {
  postponed = o.postponed;
  handed_over = o.handed_over;
}
Step-Owed {e} (closes st r) o = record { postponed = o.postponed; handed_over = o.handed_over }
Step-Owed {e} (ends k) o = ends-Owed e k o
Step-Owed {e} stops o = record { postponed = o.postponed; handed_over = o.handed_over }
Step-Owed {e} hard_stops o = record { postponed = o.postponed; handed_over = o.handed_over }
Step-Owed {e} cancels o = record { postponed = o.postponed; handed_over = o.handed_over }
Step-Owed {e} (registers at st) o = record {
  postponed = λ out. o.postponed (rw at refl);
  handed_over = λ out. o.handed_over (rw at refl);
}
Step-Owed {e} (installs at) o = record {
  postponed = λ out. cc;
  handed_over = λ out. o.handed_over (rw at refl);
}
Step-Owed {e} (awaits at h d) o = record { postponed = o.postponed; handed_over = o.handed_over }
Step-Owed {e} (waited at h) o = record {
  postponed = λ out. cc;
  handed_over = λ out. o.handed_over (rw at refl);
}
Step-Owed {e} (offers at owed r) o = record { postponed = o.postponed; handed_over = o.handed_over }
Step-Owed {e} (offered at h) o = record {
  postponed = λ out. cc;
  handed_over = λ out. o.handed_over (rw at refl);
}
Step-Owed {e} (collected at h) o = record {
  postponed = λ out. cc;
  handed_over = λ out. o.handed_over (rw at refl);
}
Step-Owed {e} (runs at st c) o = record {
  postponed = λ out. cc;
  handed_over = λ out. o.handed_over (rw at refl);
}
Step-Owed {e} (fails at h) o = record { postponed = λ out. cc; handed_over = λ out. cc }
Step-Owed {e} (returns at) o = record { postponed = λ out. cc; handed_over = λ out. cc }
Step-Owed {e} (withdraws at h) o = withdraws-Owed e at h o
Step-Owed {e} (drains at h) o = record {
  postponed = o.postponed;
  handed_over = λ out. cc (ap is_ending at);
}
Step-Owed {e} (releases at) o = record {
  postponed = λ out. o.postponed (rw at refl);
  handed_over = λ out. o.handed_over (rw at refl);
}
Step-Owed {e} (creates d) o = record { postponed = o.postponed; handed_over = o.handed_over }
Step-Owed {e} (begins k) o = begins-Owed e k o

Reach-Owed : {e : Engine} → Reach e → Owed e
Reach-Owed dynamic_start = record { postponed = λ h. refl; handed_over = λ h. refl }
Reach-Owed (sharded_start n) = record { postponed = λ h. refl; handed_over = λ h. refl }
Reach-Owed (next r s) = Step-Owed s (Reach-Owed r)

-- When no section is installed, and so from the moment at which one is withdrawn, before it lets its
-- lanes go, every off-lane cleanup that was postponed has been handed over and run.
pub withdrawn-settled :
    {e : Engine} → Reach e → is_installed e.phase ≡ false → (e.deferred ≡ 0) × (e.handed ≡ 0)
withdrawn-settled {e} r out =
    let o = Reach-Owed r in (o.postponed out, o.handed_over (not-ending e.phase out))
