-- ===== src/Lifecycle/Sealing.antt =====
-- What the cleanups without a lane of asyncengine/strategy.go promise to a stop and to a section.
use pit_go.Base.{◌≤◌, ◌≡◌, refl, sym, subst, Bool, true, false, not, ◌||◌, arith, ◌==◌}
use pit_go.Lifecycle.{
  admit_by, begin_lifecycle_cleanup, end_lifecycle_cleanup, finish_lifecycle_cleanups,
  install_section, withdraw_section,
}
use pit_go.Lifecycle.Protocol.{
  System, after_begin, Step, begins, ends, finishes, installs, withdraws, Reach, next, Reach-Inv,
}

-- No step of the cleanups is tracked in a section.
begins-section :
    (s : System) (sealed : Bool)
    → (after_begin s (admit_by sealed true s.lifecycle)).running ≡ s.running
begins-section s true = refl
begins-section s false = refl

sealed-kept :
    (s : System)
    → s.lifecycle.sealed ≡ true
    → (section : Bool) → (after_begin s (admit_by true section s.lifecycle)).lifecycle.sealed ≡ true
sealed-kept s at section = at

Step-sealed : {s t : System} → Step s t → s.lifecycle.sealed ≡ true → t.lifecycle.sealed ≡ true
unfolding begin_lifecycle_cleanup end_lifecycle_cleanup finish_lifecycle_cleanups install_section
    withdraw_section
Step-sealed {s} begins at =
    subst
      (λ b. (after_begin s (admit_by b s.lifecycle.section s.lifecycle)).lifecycle.sealed ≡ true)
      (sym at) (sealed-kept s at s.lifecycle.section)
Step-sealed (ends some_cleanup) at = ground (arith, at)
Step-sealed finishes at = ground (arith, at)
Step-sealed (installs out) at = at
Step-sealed (withdraws inside) at = ground (arith, at)

module _ {s : System} (reach : Reach s) where
  -- `finishLifecycleCleanups` returns exactly if no tracked cleanup is running, and has sealed the
  -- registration then; otherwise there is a channel to wait on.
  finish_lifecycle_cleanups_lem :
      ((finish_lifecycle_cleanups s.lifecycle).1 ≡ (s.running == 0))
      × ((finish_lifecycle_cleanups s.lifecycle).0.sealed
          ≡ ((s.running == 0) || s.lifecycle.sealed))
      × (s.lifecycle.done_exists ≡ not (s.running == 0))
  unfolding finish_lifecycle_cleanups
  finish_lifecycle_cleanups_lem = let i = Reach-Inv reach in ground (arith, i.counted, i.done_eq)

  -- Once a stop has sealed the registration, it stays sealed and no tracked cleanup runs again.
  sealed-runs_none :
      {t : System}
      → Step s t
      → s.lifecycle.sealed ≡ true
      → (t.lifecycle.sealed ≡ true) × (t.running ≡ 0)
  sealed-runs_none step at =
      let now = Step-sealed step at in (now, (Reach-Inv (next reach step)).sealed_idle now)

  -- A section is withdrawn only when every cleanup that it postponed has been handed over.
  withdraw-owes_none : (withdraw_section s.lifecycle).1 ≡ true → s.owed ≡ 0
  unfolding withdraw_section
  withdraw-owes_none done = let i = Reach-Inv reach in ground (arith, i.deferred)

-- While a section is installed no cleanup without a lane starts.
section-starts_none : {s t : System} → Step s t → s.lifecycle.section ≡ true → t.running ≤ s.running
unfolding begin_lifecycle_cleanup
section-starts_none {s} begins inside =
    subst (λ b. (after_begin s (admit_by s.lifecycle.sealed b s.lifecycle)).running ≤ s.running)
      (sym inside) (omega (arith, begins-section s s.lifecycle.sealed))
section-starts_none (ends some_cleanup) inside = omega arith
section-starts_none finishes inside = omega arith
section-starts_none (installs out) inside = omega arith
section-starts_none (withdraws _) inside = omega arith
