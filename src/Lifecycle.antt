-- ===== src/Lifecycle.antt =====
-- Cleanups without a lane, in asyncengine/strategy.go, and the section of asyncengine/exclusive.go that
-- postpones them. What is done under `lifecycleCleanupMu` is one atomic change.
pub mod Protocol
pub mod Sealing
use pit_go.Base.{ℕ, ◌+◌, ◌-◌, Bool, true, false, ◌==◌, if◌then◌else◌}

pub record Lifecycle : Type 0 where
  pub count : ℕ
  pub done_exists : Bool  -- `lifecycleCleanupDone` is not nil
  pub sealed : Bool
  pub section : Bool  -- `activeSection` is not nil
  pub postponed : ℕ  -- the length of `deferred`

unfoldable pub new_lifecycle : Lifecycle
new_lifecycle = record {
  count = 0;
  done_exists = false;
  sealed = false;
  section = false;
  postponed = 0;
}

-- `lifecycleCleanupAdmission`.
pub data Admission : Type 0 where
  tracked untracked postponed : Admission

abbrev pub admit_by : Bool → Bool → Lifecycle → Lifecycle × Admission
admit_by true section l = (l, untracked)
admit_by false true l = (record l { postponed = l.postponed + 1 }, postponed)
admit_by false false l = (record l { count = l.count + 1; done_exists = true }, tracked)

unfoldable pub begin_lifecycle_cleanup : Lifecycle → Lifecycle × Admission
begin_lifecycle_cleanup l = admit_by l.sealed l.section l

abbrev pub drop_count : ℕ → Lifecycle → Lifecycle
drop_count count l = record l {
  count = count;
  done_exists = if count == 0 then false else l.done_exists;
}

unfoldable pub end_lifecycle_cleanup : Lifecycle → Lifecycle
end_lifecycle_cleanup l = if l.count == 0 then l else drop_count (l.count - 1) l

-- One turn of `finishLifecycleCleanups`: whether it returns; else it waits for `done`.
unfoldable pub finish_lifecycle_cleanups : Lifecycle → Lifecycle × Bool
finish_lifecycle_cleanups l =
    if l.count == 0 then (record l { sealed = true }, true) else (l, false)

-- `installExclusive` and `withdrawExclusive`: whether the section is withdrawn; else the postponed
-- cleanups are handed over.
unfoldable pub install_section : Lifecycle → Lifecycle
install_section l = record l { section = true }

unfoldable pub withdraw_section : Lifecycle → Lifecycle × Bool
withdraw_section l =
    if l.postponed == 0
    then (record l { section = false }, true)
    else (record l { postponed = 0 }, false)
