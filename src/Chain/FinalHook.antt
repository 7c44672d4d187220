-- ===== src/Chain/FinalHook.antt =====
-- The final hook of a chain of asyncengine/scenario.go: when it runs.
use pit_go.Base.{inl, not, ◌||◌, ◌≡◌, refl, Bool, true, false, ◌&&◌, Option, none, some, [], ◌∷◌}
use pit_go.Errors.{Error, wrap}
use pit_go.Chain.Run.{
  Event, finally_entered, log, History, Run, M, Hook, HookKind, call_hook, ChainOutcome, Reply, ok,
  fail, panics, Status, with_result,
}
use pit_go.Chain.Env.{Env, Report}
use pit_go.Chain.Plan.{ChainPlan, OrderCheck, Void, is_nil}
use pit_go.Chain.Check.{closing_report, check_report}
use pit_go.Chain.Task.{
  execute, clean_up, finish, conclude, after_begin, run_steps, call_finally, fresh_run,
}
use pit_go.Chain.Keeps.{Given, Keeps, HookClosed, check_report-Keeps, call_hook-Keeps}
use pit_go.Chain.Steady.{lax-AllGiven}
use pit_go.Chain.Whole.{Whole, body-Keeps, clean_up-Keeps}

abbrev is_final : Event → Bool
is_final (finally_entered _) = true
is_final _ = false

-- Whether a final hook was entered.
abbrev pub finals : History → Bool
finals [] = false
finals (e ∷ h) = is_final e || finals h

-- Whether the final hook is to run: there is one, and `begin` returned a state.
abbrev pub has_state : {State : Type 0} → Reply State → Bool
has_state (ok _) = true
has_state _ = false

abbrev pub expects_finally : {State : Type 0} → ChainPlan State → Bool
expects_finally plan =
    not (is_nil plan.finally) && has_state (call_hook HookKind.begin plan.begin tt tt fresh_run).0

-- The final hook ran once, at the end; or not at all.
abbrev pub FinallyRan : Bool → History → Type 0
FinallyRan true (finally_entered _ ∷ h) = finals h ≡ false
FinallyRan true _ = ⊥
FinallyRan false h = finals h ≡ false

pub record NoFinal (r : Run) : Type 0 where
  pub eq : finals r.history ≡ false

with_result-NoFinal : {A : Type 0} (m : M A) → Keeps NoFinal m → Keeps NoFinal (with_result m)
unfolding with_result
with_result-NoFinal m k = record {
  run = λ r h. record {
    eq = (k.run (record r { result_available = true }) (record { eq = h.eq })).eq;
  };
}

hooks : HookClosed (Unit {0}) NoFinal
unfolding log
hooks = record {
  hook = λ kind r h. record { eq = h.eq };
  nil_hook = λ lax kind r h. record { eq = h.eq };
  result = with_result-NoFinal;
}

closing_report-NoFinal :
    {State : Type 0} (env : Env) (on_checked : Hook State OrderCheck Void) (state : State)
    (err : Option Error) (report : Report)
    → Given (Unit {0}) on_checked
    → Keeps NoFinal (closing_report env report (check_report env on_checked state err report))
unfolding closing_report log
closing_report-NoFinal env on_checked state err report given = record {
  run = λ r h.
      let inside =
        (check_report-Keeps hooks env on_checked state err report given).run
          (log (Event.report_opened report.id) r) (record { eq = h.eq }) in
      record { eq = inside.eq };
}

whole : Whole (Unit {0}) NoFinal
unfolding log
whole = record {
  closed = record {
    hooks = hooks;
    mutating = λ call r changed h. record { eq = h.eq };
    dry_run = λ r h. record { eq = h.eq };
    nil_group = λ lax r h. record { eq = h.eq };
    report = closing_report-NoFinal;
  };
  missing_order = λ lax r h. record { eq = h.eq };
  pending = λ p r h. record { eq = h.eq };
  handle_opened = λ handle r h. record { eq = h.eq };
  commit_entered = λ handle r h. record { eq = h.eq };
  rollback_entered = λ handle r h. record { eq = h.eq };
  finalizer_returned = λ handle r h. record { eq = h.eq };
}

finish-FinallyRan :
    {State : Type 0} (finally : Hook State ChainOutcome Void) (state : Option State)
    (status : Status) (err : Option Error) (r : Run)
    → NoFinal r
    → FinallyRan
        (not (is_nil finally) && not (is_nil state))
        (finish finally state status err r).1.history
unfolding finish call_finally log
finish-FinallyRan none none status err r k = k.eq
finish-FinallyRan (some finally) none status err r k = k.eq
finish-FinallyRan none (some state) status err r k = k.eq
finish-FinallyRan (some finally) (some state) status err r k = k.eq

conclude-FinallyRan :
    {State : Type 0} (env : Env) (plan : ChainPlan State) (state : Option State)
    (reply : Reply Status) (r : Run)
    → NoFinal (clean_up env r).1
    → FinallyRan
        (not (is_nil plan.finally) && not (is_nil state))
        (conclude env plan state (reply, r)).1.history
unfolding conclude
conclude-FinallyRan env plan state reply r k = finish-FinallyRan plan.finally state _ _ _ k

after_begin-FinallyRan :
    {State : Type 0} (env : Env) (plan : ChainPlan State) (reply : Reply State) (r : Run)
    → NoFinal r
    → FinallyRan
        (not (is_nil plan.finally) && has_state reply)
        (after_begin env plan (reply, r)).1.history
unfolding after_begin
after_begin-FinallyRan env plan (ok state) r k =
    let body = run_steps env plan plan.steps state r in
    conclude-FinallyRan env plan (some state) body.0 body.1
      (body-Keeps whole env plan state r (lax-AllGiven plan plan.steps tt) k)
after_begin-FinallyRan env plan (fail e) r k =
    conclude-FinallyRan env plan none (fail (wrap "async chain begin" e)) r
      (clean_up-Keeps whole env r k)
after_begin-FinallyRan env plan (panics p) r k =
    conclude-FinallyRan env plan none (panics p) r (clean_up-Keeps whole env r k)

-- Whatever the hooks, the driver and the handles do, panics included, a final hook runs exactly once
-- and after everything else in the run if `Begin` returned a state, and never if it did not.
pub execute-finally :
    {State : Type 0} (env : Env) (plan : ChainPlan State)
    → FinallyRan (expects_finally plan) (execute env plan).1.history
unfolding execute
execute-finally env plan =
    let begun = call_hook HookKind.begin plan.begin tt tt fresh_run in
    after_begin-FinallyRan env plan begun.0 begun.1 (
      (call_hook-Keeps hooks HookKind.begin plan.begin tt tt (inl tt)).run fresh_run
        (record { eq = refl }))
