-- ===== src/Chain/RetryUnsafe.antt =====
-- The mark of a run that is unsafe to retry: `retryUnsafe` of asyncengine/scenario.go.
use pit_go.Base.{inl, ◌≡◌, refl, sym, ap, ◌∙◌, Bool, true, false, ◌||◌, [], ◌∷◌}
use pit_go.Chain.Run.{
  Event, engine_entered, nil_dereferenced, finally_entered, report_opened, log, changes, History,
  Run, M, with_result, ChainOutcome,
}
use pit_go.Chain.Env.{Env, Report}
use pit_go.Chain.Plan.{ChainPlan}
use pit_go.Chain.Check.{closing_report}
use pit_go.Chain.Task.{execute}
use pit_go.Chain.Keeps.{Keeps, Closed, HookClosed, check_report-Keeps}
use pit_go.Chain.Outcome.{execute-Consistent}
use pit_go.Chain.Steady.{lax-AllGiven}
use pit_go.Chain.Whole.{Whole, execute-Keeps}

-- The calls that leave a mark: a driver call that can change state, or the fault before one.
abbrev pub touches : Event → Bool
touches (engine_entered call) = changes call
touches nil_dereferenced = true
touches _ = false

abbrev pub touched : History → Bool
touched [] = false
touched (e ∷ h) = touches e || touched h

abbrev pub Flagged : Run → Type 0
Flagged r = r.retry_unsafe ≡ touched r.history

with_result-Flagged : {A : Type 0} (m : M A) → Keeps Flagged m → Keeps Flagged (with_result m)
unfolding with_result
with_result-Flagged m k = record { run = λ r h. k.run (record r { result_available = true }) h }

hooks : HookClosed (Unit {0}) Flagged
unfolding log
hooks = record { hook = λ kind r h. h; nil_hook = λ lax kind r h. h; result = with_result-Flagged }

closing_report-Flagged :
    {A : Type 0} (env : Env) (report : Report) {body : M A}
    → Keeps Flagged body
    → Keeps Flagged (closing_report env report body)
unfolding closing_report log
closing_report-Flagged env report {body} k = record {
  run = λ r h. k.run (log (report_opened report.id) r) h;
}

closed : Closed (Unit {0}) Flagged
unfolding log
closed = record {
  hooks = hooks;
  mutating = λ call r changed h. sym (ap (λ b. b || touched r.history) changed);
  dry_run = λ r h. h;
  nil_group = λ lax r h. refl;
  report = λ env on_checked state err report given.
      closing_report-Flagged env report
        (check_report-Keeps hooks env on_checked state err report (inl tt));
}

final-Flagged :
    (outcome : ChainOutcome) (r : Run) → Flagged r → Flagged (log (finally_entered outcome) r)
unfolding log
final-Flagged outcome r h = h

whole : Whole (Unit {0}) Flagged
unfolding log
whole = record {
  closed = closed;
  missing_order = λ lax r h. h;
  pending = λ p r h. h;
  handle_opened = λ handle r h. h;
  commit_entered = λ handle r h. h;
  rollback_entered = λ handle r h. h;
  finalizer_returned = λ handle r h. h;
}

-- The outcome of a run is marked unsafe to retry exactly if the run entered a driver call that can
-- change the engine's state, or faulted right before one: a run of hooks and dry runs alone is safe.
pub execute-retry_unsafe :
    {State : Type 0} (env : Env) (plan : ChainPlan State)
    → (execute env plan).0.0.retry_unsafe ≡ touched (execute env plan).1.history
execute-retry_unsafe env plan =
    (execute-Consistent env plan).1
    ∙ execute-Keeps whole (λ r h. h) (λ outcome r h. final-Flagged outcome r h) env plan (inl tt)
        (lax-AllGiven plan plan.steps tt) refl
