-- ===== src/Lifecycle/Protocol.antt =====
-- The interleavings of cleanups without a lane, sections and the stop of asyncengine/strategy.go.
use pit_go.Base.{ℕ, ◌+◌, ◌-◌, ◌<◌, ◌≡◌, refl, Bool, true, false, not, arith, ◌==◌}
use pit_go.Lifecycle.{
  Lifecycle, new_lifecycle, Admission, tracked, untracked, postponed, admit_by,
  begin_lifecycle_cleanup, end_lifecycle_cleanup, finish_lifecycle_cleanups, install_section,
  withdraw_section,
}

-- `running` counts the tracked cleanups between their begin and their end, and `owed` those that a
-- section has postponed and not handed over: no step reads them.
pub record System : Type 0 where
  pub lifecycle : Lifecycle
  pub running : ℕ
  pub owed : ℕ

abbrev pub after_begin : System → Lifecycle × Admission → System
after_begin s (l, tracked) = record s { lifecycle = l; running = s.running + 1 }
after_begin s (l, untracked) = record s { lifecycle = l }
after_begin s (l, postponed) = record s { lifecycle = l; owed = s.owed + 1 }

pub data Step (s : System) : System → Type 0 where
  begins : Step s (after_begin s (begin_lifecycle_cleanup s.lifecycle))
  ends :
      0 < s.running
      → Step s (record s { lifecycle = end_lifecycle_cleanup s.lifecycle; running = s.running - 1 })
  finishes : Step s (record s { lifecycle = (finish_lifecycle_cleanups s.lifecycle).0 })
  installs :
      s.lifecycle.section ≡ false → Step s (record s { lifecycle = install_section s.lifecycle })
  withdraws :
      s.lifecycle.section ≡ true
      → Step s (record s { lifecycle = (withdraw_section s.lifecycle).0; owed = 0 })

pub data Reach : System → Type 0 where
  start : Reach (record { lifecycle = new_lifecycle; running = 0; owed = 0 })
  next : {s t : System} → Reach s → Step s t → Reach t

pub record Inv (s : System) : Type 0 where
  pub counted : s.lifecycle.count ≡ s.running
  pub done_eq : s.lifecycle.done_exists ≡ not (s.lifecycle.count == 0)
  pub sealed_idle : s.lifecycle.sealed ≡ true → s.running ≡ 0
  pub deferred : s.lifecycle.postponed ≡ s.owed
  pub unsectioned : s.lifecycle.section ≡ false → s.owed ≡ 0

begins-Inv :
    (s : System) (sealed section : Bool)
    → s.lifecycle.sealed ≡ sealed
    → s.lifecycle.section ≡ section
    → Inv s
    → Inv (after_begin s (admit_by sealed section s.lifecycle))
begins-Inv s true section a b i = record {
  counted = i.counted;
  done_eq = i.done_eq;
  sealed_idle = i.sealed_idle;
  deferred = i.deferred;
  unsectioned = i.unsectioned;
}
begins-Inv s false true a b i = record {
  counted = i.counted;
  done_eq = i.done_eq;
  sealed_idle = i.sealed_idle;
  deferred = omega (arith, i.deferred);
  unsectioned = λ out. ground (arith, b);
}
begins-Inv s false false a b i = record {
  counted = omega (arith, i.counted);
  done_eq = ground arith;
  sealed_idle = λ at. ground (arith, a);
  deferred = i.deferred;
  unsectioned = i.unsectioned;
}

pub Step-Inv : {s t : System} → Step s t → Inv s → Inv t
unfolding begin_lifecycle_cleanup end_lifecycle_cleanup finish_lifecycle_cleanups install_section
    withdraw_section
Step-Inv {s} begins i = begins-Inv s s.lifecycle.sealed s.lifecycle.section refl refl i
Step-Inv {s} (ends some_cleanup) i = record {
  counted = ground (arith, i.counted);
  done_eq = ground (arith, i.counted, i.done_eq);
  sealed_idle = λ at. ground (arith, i.sealed_idle);
  deferred = ground (arith, i.deferred);
  unsectioned = λ out. ground (arith, i.unsectioned);
}
Step-Inv {s} finishes i = record {
  counted = ground (arith, i.counted);
  done_eq = ground (arith, i.done_eq);
  sealed_idle = λ at. ground (arith, i.sealed_idle, i.counted);
  deferred = ground (arith, i.deferred);
  unsectioned = λ out. ground (arith, i.unsectioned);
}
Step-Inv {s} (installs out) i = record {
  counted = i.counted;
  done_eq = i.done_eq;
  sealed_idle = i.sealed_idle;
  deferred = i.deferred;
  unsectioned = λ at. ground arith;
}
Step-Inv {s} (withdraws inside) i = record {
  counted = ground (arith, i.counted);
  done_eq = ground (arith, i.done_eq);
  sealed_idle = λ at. ground (arith, i.sealed_idle);
  deferred = ground (arith, i.deferred);
  unsectioned = λ out. refl;
}

pub Reach-Inv : {s : System} → Reach s → Inv s
unfolding new_lifecycle
Reach-Inv start = record {
  counted = refl;
  done_eq = ground arith;
  sealed_idle = λ at. refl;
  deferred = refl;
  unsectioned = λ out. refl;
}
Reach-Inv (next r s) = Step-Inv s (Reach-Inv r)
