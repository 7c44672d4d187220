-- ===== src/Chain/Reports.antt =====
-- The dry-run reports of a chain of asyncengine/scenario.go: `defer report.Close()`.
use pit_go.Base.{inl, ℕ, ◌≡◌, refl, ap, ◌∙◌, true, Option, [], ◌∷◌, ◌==◌, arith, if◌then◌else◌}
use pit_go.Errors.{Error}
use pit_go.Chain.Run.{
  Event, finally_entered, report_opened, report_closed, log, History, Run, M, with_result, Hook,
  ChainOutcome,
}
use pit_go.Chain.Env.{Env, Report}
use pit_go.Chain.Plan.{ChainPlan, OrderCheck, Void}
use pit_go.Chain.Check.{closing_report, check_report}
use pit_go.Chain.Task.{execute}
use pit_go.Chain.Keeps.{Given, Keeps, HookClosed, check_report-Keeps}
use pit_go.Chain.Steady.{lax-AllGiven}
use pit_go.Chain.Whole.{Whole, execute-Keeps}

-- The report that is open; `misused` is a second open report, or the end of one that is not open.
pub data OpenReport : Type 0 where
  no_report misused : OpenReport
  open_report : ℕ → OpenReport

abbrev start_report : OpenReport → ℕ → OpenReport
start_report no_report n = open_report n
start_report _ n = misused

abbrev end_report : OpenReport → ℕ → OpenReport
end_report (open_report m) n = if m == n then no_report else misused
end_report _ n = misused

abbrev follow_report : OpenReport → Event → OpenReport
follow_report o (report_opened n) = start_report o n
follow_report o (report_closed n) = end_report o n
follow_report o _ = o

abbrev pub reports : History → OpenReport
reports [] = no_report
reports (e ∷ h) = follow_report (reports h) e

pub record Open (o : OpenReport) (r : Run) : Type 0 where
  pub eq : reports r.history ≡ o

with_result-Open :
    {o : OpenReport} {A : Type 0} (m : M A) → Keeps (Open o) m → Keeps (Open o) (with_result m)
unfolding with_result
with_result-Open m k = record {
  run = λ r h. record {
    eq = (k.run (record r { result_available = true }) (record { eq = h.eq })).eq;
  };
}

hooks : {o : OpenReport} → HookClosed (Unit {0}) (Open o)
unfolding log
hooks = record {
  hook = λ kind r h. record { eq = h.eq };
  nil_hook = λ lax kind r h. record { eq = h.eq };
  result = with_result-Open;
}

end-same : (n : ℕ) → end_report (open_report n) n ≡ no_report
end-same n = ground arith

-- However its body and `Close` end, a report that was opened is closed.
closing_report-Open :
    {State : Type 0} (env : Env) (on_checked : Hook State OrderCheck Void) (state : State)
    (err : Option Error) (report : Report)
    → Given (Unit {0}) on_checked
    → Keeps
        (Open no_report)
        (closing_report env report (check_report env on_checked state err report))
unfolding closing_report log
closing_report-Open env on_checked state err report given = record {
  run = λ r h.
      let inside =
        (check_report-Keeps hooks env on_checked state err report given).run
          (log (report_opened report.id) r)
          (record { eq = ap (λ o. start_report o report.id) h.eq }) in
      record { eq = ap (λ o. end_report o report.id) inside.eq ∙ end-same report.id };
}

whole : Whole (Unit {0}) (Open no_report)
unfolding log
whole = record {
  closed = record {
    hooks = hooks;
    mutating = λ call r changed h. record { eq = h.eq };
    dry_run = λ r h. record { eq = h.eq };
    nil_group = λ lax r h. record { eq = h.eq };
    report = closing_report-Open;
  };
  missing_order = λ lax r h. record { eq = h.eq };
  pending = λ p r h. record { eq = h.eq };
  handle_opened = λ handle r h. record { eq = h.eq };
  commit_entered = λ handle r h. record { eq = h.eq };
  rollback_entered = λ handle r h. record { eq = h.eq };
  finalizer_returned = λ handle r h. record { eq = h.eq };
}

final-Open :
    (outcome : ChainOutcome) (r : Run)
    → Open no_report r
    → Open no_report (log (finally_entered outcome) r)
unfolding log
final-Open outcome r h = record { eq = h.eq }

-- Whatever the hooks, the driver and the report do, panics included, every dry-run report that a run
-- gets is closed exactly once, before the next one is taken and before the run ends.
pub execute-reports_closed :
    {State : Type 0} (env : Env) (plan : ChainPlan State)
    → reports (execute env plan).1.history ≡ no_report
execute-reports_closed env plan =
    (execute-Keeps whole (λ r h. h) final-Open env plan (inl tt) (lax-AllGiven plan plan.steps tt)
      (record { eq = refl })).eq
