-- ===== src/Exclusive/Invariant/Steps.antt =====
-- Every step of an engine with a section of asyncengine/exclusive.go keeps the invariant.
use pit_go.Base.{
  ℕ, zero, suc, ◌+◌, ◌-◌, ◌≡◌, refl, sym, inl, inr, Bool, true, false, Bool-cases, ◌||◌, Option,
  none, some, List, ◌∷◌, arith, count, ◌==◌, if◌then◌else◌,
}
use pit_go.Exclusive.{
  Lane, Phase, absent, registered, checking, running, ending, withdrawn, Engine, is_installed,
  remove, is_done, withdraw_exclusive, new_lane, create_lane, begin_cleanup, end_cleanup,
}
use pit_go.Exclusive.Protocol.{
  Step, new_engine, shards, Reach, works, meets, parks, creates, retires, closes, begins, ends,
  stops, hard_stops, cancels, registers, installs, awaits, waited, offers, offered, collected, runs,
  fails, returns, withdraws, drains, releases, dynamic_start, sharded_start, next,
}
use pit_go.Exclusive.Lanes.{all, all-impl}
use pit_go.Exclusive.Invariant.Single.{
  barriered, has_parked, lane_ok, Works-barriered, Works-parked, Works-lane_ok, meet-barriered,
  meet-parked, meet-lane_ok, park-lane_ok, retire-lane_ok, close-lane_ok, stop-lane_ok, new-lane_ok,
}
use pit_go.Exclusive.Invariant.Cleanups.{contains-remove}
use pit_go.Exclusive.Invariant.Phases.{
  installs-Inv, awaits-Inv, waited-Inv, offers-Inv, offered-Inv, collected-Inv, releases-Inv,
}
use pit_go.Exclusive.Invariant.Record.{
  is_before, has_waited, is_waiting, Inv, replace-Inv, move-Inv,
}

creates-unused :
    (p : Phase) (expected : ℕ)
    → is_before p ≡ true
    → expected ≡ 0
    → (if is_installed p then 1 else 0) + expected ≡ 0
creates-unused absent expected h k = omega arith
creates-unused p expected h k = ground arith

postpones-Inv : (e : Engine) → Inv e → Inv (record e { deferred = e.deferred + 1 })
postpones-Inv e i = record {
  tallied = i.tallied;
  met = i.met;
  each = i.each;
  unused = i.unused;
  awaiting = i.awaiting;
  quiet = i.quiet;
}

not_waiting : (p : Phase) → is_installed p ≡ false → (is_waiting p ≡ false) × (has_waited p ≡ false)
not_waiting absent h = (refl, refl)
not_waiting p h = (ground arith, ground arith)

outside-Inv :
    (e : Engine) (barriers : List ℕ) (lifecycle : ℕ)
    → is_installed e.phase ≡ false
    → Inv e
    → Inv (record e { barriers = barriers; lifecycle = lifecycle })
outside-Inv e barriers lifecycle out i =
    let (a, b) = not_waiting e.phase out in
    record {
      tallied = i.tallied;
      met = i.met;
      each = i.each;
      unused = i.unused;
      awaiting = λ h. cc (a, h);
      quiet = λ h. cc (b, h);
    }

creates-Inv : (e : Engine) → Inv e → Inv (create_lane e)
unfolding create_lane
creates-Inv e i = record {
  tallied = ground (arith, i.tallied);
  met = omega (arith, i.met);
  each = ground (arith, i.each, new-lane_ok e.phase e.stopped);
  unused = λ h. creates-unused e.phase e.expected h (i.unused h);
  awaiting = i.awaiting;
  quiet = i.quiet;
}

begins-Inv : (e : Engine) (k : Option ℕ) → Inv e → Inv (begin_cleanup k e)
unfolding begin_cleanup
begins-Inv e (some k) i = elim (Bool-cases (is_installed e.phase)) [
  | inl h ↦ rw h (postpones-Inv e i)
  | inr h ↦ rw h (outside-Inv e (k ∷ e.barriers) e.lifecycle h i)
]
begins-Inv e none i = elim (Bool-cases (is_installed e.phase)) [
  | inl h ↦ rw h (postpones-Inv e i)
  | inr h ↦ rw h (outside-Inv e e.barriers (e.lifecycle + 1) h i)
]

-- Cleanups in progress only end.
shrinks-Inv :
    (e : Engine) (barriers : List ℕ) (lifecycle : ℕ)
    → ((j : Option ℕ)
        → is_done j e.barriers e.lifecycle ≡ true
        → is_done j barriers lifecycle ≡ true)
    → Inv e
    → Inv (record e { barriers = barriers; lifecycle = lifecycle })
shrinks-Inv e barriers lifecycle f i = record {
  tallied = i.tallied;
  met = i.met;
  each = i.each;
  unused = i.unused;
  awaiting = λ at j running.
      i.awaiting at j
        (elim (Bool-cases (is_done j e.barriers e.lifecycle)) [ inl h ↦ cc (f j h) | inr h ↦ h ]);
  quiet = λ at j. f j (i.quiet at j);
}

removes-done :
    (k : ℕ) (barriers : List ℕ) (lifecycle : ℕ) (j : Option ℕ)
    → is_done j barriers lifecycle ≡ true
    → is_done j (remove k barriers) lifecycle ≡ true
removes-done k barriers lifecycle (some j) h = ground (arith, contains-remove j k barriers)
removes-done k barriers lifecycle none h = h

drops-done :
    (barriers : List ℕ) (lifecycle : ℕ) (j : Option ℕ)
    → is_done j barriers lifecycle ≡ true
    → is_done j barriers (lifecycle - 1) ≡ true
drops-done barriers lifecycle (some j) h = h
drops-done barriers lifecycle none h = ground arith

ends-Inv : (e : Engine) (k : Option ℕ) → Inv e → Inv (end_cleanup k e)
unfolding end_cleanup
ends-Inv e (some k) i =
    shrinks-Inv e (remove k e.barriers) e.lifecycle (removes-done k e.barriers e.lifecycle) i
ends-Inv e none i = shrinks-Inv e e.barriers (e.lifecycle - 1) (drops-done e.barriers e.lifecycle) i

-- From any phase, the section can come to its end.
fails-Inv : (e : Engine) → Inv e → Inv (record e { phase = ending })
fails-Inv e i = record {
  tallied = i.tallied;
  met = i.met;
  each =
      all-impl (lane_ok e.phase e.stopped) (lane_ok ending e.stopped) e.lanes (λ l k. ground arith)
        i.each;
  unused = λ h. cc;
  awaiting = λ h. cc;
  quiet = λ h. cc;
}

hands-Inv : (e : Engine) → Inv e → Inv (record e { handed = e.deferred; deferred = 0 })
hands-Inv e i = record {
  tallied = i.tallied;
  met = i.met;
  each = i.each;
  unused = i.unused;
  awaiting = i.awaiting;
  quiet = i.quiet;
}

withdraws-Inv : (e : Engine) → e.phase ≡ ending → Inv e → Inv (withdraw_exclusive e)
unfolding withdraw_exclusive
withdraws-Inv e at i = elim (Bool-cases (e.deferred == 0)) [
  | inl h ↦ rw h (move-Inv e ending withdrawn e.cancelled at i (λ l k. k) (λ h. h) refl (λ h. h))
  | inr h ↦ rw h (hands-Inv e i)
]

pub Step-Inv : {e f : Engine} → Step e f → Inv e → Inv f
Step-Inv {e} (works w r) i =
    replace-Inv e e.expected e.arrived e.aborted i r (rw (Works-barriered w) refl)
      (rw (Works-parked w) refl) (Works-lane_ok e.phase e.stopped w) i.unused
Step-Inv {e} (meets {l} a b s r) i =
    replace-Inv e e.expected e.arrived (e.aborted || e.hard_stopped) i r
      (rw (meet-barriered e.hard_stopped l b) refl) (rw (meet-parked e.hard_stopped l a) refl)
      (meet-lane_ok e.phase e.stopped e.hard_stopped l b) i.unused
Step-Inv {e} (parks {l} at h r) i =
    replace-Inv e e.expected (e.arrived + 1) e.aborted i r (ground arith) (ground arith)
      (park-lane_ok e.phase e.stopped l h) i.unused
Step-Inv {e} (creates d) i = creates-Inv e i
Step-Inv {e} (retires {l} d out a b s r) i =
    replace-Inv e e.expected e.arrived e.aborted i r refl refl
      (retire-lane_ok e.phase e.stopped l a) i.unused
Step-Inv {e} (closes {l} st r) i =
    replace-Inv e e.expected e.arrived e.aborted i r refl refl
      (close-lane_ok e.phase e.stopped l st) i.unused
Step-Inv {e} (begins k) i = begins-Inv e k i
Step-Inv {e} (ends k) i = ends-Inv e k i
Step-Inv {e} stops i = record {
  tallied = i.tallied;
  met = i.met;
  each =
      all-impl (lane_ok e.phase e.stopped) (lane_ok e.phase true) e.lanes
        (stop-lane_ok e.phase e.stopped) i.each;
  unused = i.unused;
  awaiting = i.awaiting;
  quiet = i.quiet;
}
Step-Inv {e} hard_stops i = record {
  tallied = i.tallied;
  met = i.met;
  each = i.each;
  unused = i.unused;
  awaiting = i.awaiting;
  quiet = i.quiet;
}
Step-Inv {e} cancels i = record {
  tallied = i.tallied;
  met = i.met;
  each = i.each;
  unused = i.unused;
  awaiting = i.awaiting;
  quiet = i.quiet;
}
Step-Inv {e} (registers at st) i =
    move-Inv e absent registered false at i (λ l k. k) (λ h. h) refl (λ h. h)
Step-Inv {e} (installs at) i = installs-Inv e at i
Step-Inv {e} (awaits at h done) i = awaits-Inv e h done i
Step-Inv {e} (waited at h) i = waited-Inv e at h i
Step-Inv {e} (offers {l} at o r) i = offers-Inv e at o r i
Step-Inv {e} (offered at h) i = offered-Inv e at h i
Step-Inv {e} (collected at h) i = collected-Inv e at h i
Step-Inv {e} (runs at s c) i =
    move-Inv e checking running e.cancelled at i (λ l k. ground arith) (λ h. h) refl (λ h. h)
Step-Inv {e} (fails at h) i = fails-Inv e i
Step-Inv {e} (returns at) i = fails-Inv e i
Step-Inv {e} (withdraws at h) i = withdraws-Inv e at i
Step-Inv {e} (drains at h) i = record {
  tallied = i.tallied;
  met = i.met;
  each = i.each;
  unused = i.unused;
  awaiting = i.awaiting;
  quiet = i.quiet;
}
Step-Inv {e} (releases at) i = releases-Inv e at i

shards-none : (p : Lane → Bool) (n : ℕ) → p (new_lane false) ≡ false → count p (shards n) ≡ 0
shards-none p zero h = refl
shards-none p (suc n) h = rw (h, shards-none p n h) refl

shards-each : (n : ℕ) → all (lane_ok absent false) (shards n) ≡ true
shards-each zero = refl
shards-each (suc n) = shards-each n

shards-Inv : (n : ℕ) → Inv (new_engine false (shards n))
shards-Inv n = record {
  tallied = sym (shards-none barriered n refl);
  met = sym (shards-none has_parked n refl);
  each = shards-each n;
  unused = λ h. refl;
  awaiting = λ h. cc;
  quiet = λ h. cc;
}

pub Reach-Inv : {e : Engine} → Reach e → Inv e
Reach-Inv dynamic_start = record {
  tallied = refl;
  met = refl;
  each = refl;
  unused = λ h. refl;
  awaiting = λ h. cc;
  quiet = λ h. cc;
}
Reach-Inv (sharded_start n) = shards-Inv n
Reach-Inv (next r s) = Step-Inv s (Reach-Inv r)
