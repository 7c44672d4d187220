-- ===== src/Exclusive/Invariant/Phases.antt =====
-- The steps of the section of asyncengine/exclusive.go itself keep the invariant.
use pit_go.Base.{
  ℕ, ◌+◌, ◌≤◌, ◌≡◌, refl, subst, ap, sym, ◌∙◌, Bool, true, false, not, ◌&&◌, ◌||◌, Option, List, [],
  ◌∷◌, map, arith, count, if◌then◌else◌,
}
use pit_go.Exclusive.{
  Lane, absent, registered, waiting, enqueuing, collecting, checking, withdrawn, Engine,
  install_exclusive, is_done, snapshot_lane, takes_barrier, offer_barrier, free_lane, release_lanes,
}
use pit_go.Exclusive.Lanes.{
  Replaces, all, Replaces-old, all-and, all-impl, all-map, count-none, count-eq_zero, count-full,
}
use pit_go.Exclusive.Invariant.Single.{
  barriered, has_parked, lane_ok, offer-lane_ok, offer-barriered, snapshot-lane_ok, free-lane_ok,
}
use pit_go.Exclusive.Invariant.Cleanups.{awaits_end, running-awaited, awaited-tail}
use pit_go.Exclusive.Invariant.Record.{Inv, replace-Inv, each_at}

unbarriered :
    (e : Engine) → e.phase ≡ registered → Inv e → all (λ l. not (barriered l)) e.lanes ≡ true
unbarriered e at i = count-eq_zero barriered e.lanes (sym i.tallied ∙ i.unused (rw at refl))

pub installs-Inv : (e : Engine) → e.phase ≡ registered → Inv e → Inv (install_exclusive e)
unfolding install_exclusive
installs-Inv e at i = record {
  tallied = sym (
      count-none barriered (map (snapshot_lane e.dynamic) e.lanes) (
        all-map (snapshot_lane e.dynamic) (λ l. not (barriered l)) (λ l. not (barriered l)) e.lanes
          (λ l k. k) (unbarriered e at i)));
  met = sym (
      count-none has_parked (map (snapshot_lane e.dynamic) e.lanes) (
        all-map (snapshot_lane e.dynamic) (λ l. not (barriered l)) (λ l. not (has_parked l)) e.lanes
          (λ l k. ground arith) (unbarriered e at i)));
  each =
      all-map (snapshot_lane e.dynamic) (λ l. not (barriered l) && lane_ok registered e.stopped l)
        (lane_ok waiting e.stopped) e.lanes
        (λ l k. snapshot-lane_ok e.dynamic e.stopped l (ground arith) (ground arith))
        (all-and (λ l. not (barriered l)) (lane_ok registered e.stopped) e.lanes
          (unbarriered e at i) (each_at registered at i));
  unused = λ h. refl;
  awaiting = λ h k. running-awaited k e.barriers e.lifecycle;
  quiet = λ h. cc;
}

pub awaits-Inv :
    (e : Engine) {k : Option ℕ} {ks : List (Option ℕ)}
    → e.awaited ≡ k ∷ ks
    → is_done k e.barriers e.lifecycle ≡ true
    → Inv e
    → Inv (record e { awaited = ks })
awaits-Inv e {k} {ks} h done i = record {
  tallied = i.tallied;
  met = i.met;
  each = i.each;
  unused = i.unused;
  awaiting = λ at j running.
      awaited-tail j k ks e.barriers e.lifecycle done running
        (subst (λ xs. awaits_end j xs ≡ true) h (i.awaiting at j running));
  quiet = i.quiet;
}

pub waited-Inv :
    (e : Engine) → e.phase ≡ waiting → e.awaited ≡ [] → Inv e → Inv (record e { phase = enqueuing })
waited-Inv e at h i = record {
  tallied = i.tallied;
  met = i.met;
  each =
      all-impl (lane_ok waiting e.stopped) (lane_ok enqueuing e.stopped) e.lanes (λ l k. k)
        (each_at waiting at i);
  unused = λ h. cc;
  awaiting = λ h. cc;
  quiet = λ _ k. ground (arith, i.awaiting (rw at refl) k, ap (awaits_end k) h);
}

pub offers-Inv :
    (e : Engine) {l : Lane} {ls : List Lane}
    → e.phase ≡ enqueuing
    → l.owed ≡ true
    → Replaces l (offer_barrier l) e.lanes ls
    → Inv e
    → Inv
        (record e { lanes = ls; expected = (if takes_barrier l.stage then 1 else 0) + e.expected })
offers-Inv e {l} at o r i =
    let p = lane_ok e.phase e.stopped in
    let (unbarred, taken) = offer-barriered e.phase e.stopped l o (Replaces-old p r i.each) in
    replace-Inv e ((if takes_barrier l.stage then 1 else 0) + e.expected) e.arrived e.aborted i r
      (rw (unbarred, taken) (omega arith)) refl (offer-lane_ok e.phase e.stopped l)
      (λ h. ground (arith, at))

pub offered-Inv :
    (e : Engine)
    → e.phase ≡ enqueuing
    → all (λ l. not l.owed) e.lanes ≡ true
    → Inv e
    → Inv (record e { phase = collecting })
offered-Inv e at h i = record {
  tallied = i.tallied;
  met = i.met;
  each =
      all-impl (λ l. not l.owed && lane_ok enqueuing e.stopped l) (lane_ok collecting e.stopped)
        e.lanes (λ l k. ground arith)
        (all-and (λ l. not l.owed) (lane_ok enqueuing e.stopped) e.lanes h
          (each_at enqueuing at i));
  unused = λ h. cc;
  awaiting = λ h. cc;
  quiet = λ _. i.quiet (rw at refl);
}

-- All barriers have been reported: every lane that has one stands parked.
pub collected-Inv :
    (e : Engine)
    → e.phase ≡ collecting
    → e.expected ≤ e.arrived
    → Inv e
    → Inv (record e { phase = checking })
collected-Inv e at h i = record {
  tallied = i.tallied;
  met = i.met;
  each =
      let reported =
        count-full has_parked barriered e.lanes (λ l k. ground arith)
          (omega (arith, i.tallied, i.met)) in
      all-impl (λ l. (not (barriered l) || has_parked l) && lane_ok collecting e.stopped l)
        (lane_ok checking e.stopped) e.lanes (λ l k. ground arith)
        (all-and (λ l. not (barriered l) || has_parked l) (lane_ok collecting e.stopped) e.lanes
          reported (each_at collecting at i));
  unused = λ h. cc;
  awaiting = λ h. cc;
  quiet = λ _. i.quiet (rw at refl);
}

free-barriered : (l : Lane) → barriered (free_lane l) ≡ false
free-barriered l = ground arith

free-parked : (l : Lane) → has_parked (free_lane l) ≡ false
free-parked l = ground arith

count-free :
    (p : Lane → Bool) (ls : List Lane)
    → ((l : Lane) → p (free_lane l) ≡ false)
    → count p (map free_lane ls) ≡ 0
count-free p [] f = refl
count-free p (l ∷ ls) f = rw (f l, count-free p ls f) refl

pub releases-Inv : (e : Engine) → e.phase ≡ withdrawn → Inv e → Inv (release_lanes e)
unfolding release_lanes
releases-Inv e at i = record {
  tallied = sym (count-free barriered e.lanes (λ l. free-barriered l));
  met = sym (count-free has_parked e.lanes (λ l. free-parked l));
  each =
      all-map free_lane (lane_ok withdrawn e.stopped) (lane_ok absent e.stopped) e.lanes
        (free-lane_ok e.stopped) (each_at withdrawn at i);
  unused = λ h. refl;
  awaiting = λ h. cc;
  quiet = λ h. cc;
}
