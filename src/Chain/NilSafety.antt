-- ===== src/Chain/NilSafety.antt =====
-- Nil hooks, orders and account groups in the runs of chains of asyncengine/scenario.go.
use pit_go.Base.{◌≡◌, refl, inr, Bool, true, false, not, ◌&&◌, ◌||◌, Option, List, [], ◌∷◌, arith}
use pit_go.Errors.{Error}
use pit_go.Chain.Run.{
  Event, nil_called, nil_dereferenced, nil_order, finally_entered, log, History, Run, M,
  with_result, Hook, ChainOutcome,
}
use pit_go.Chain.Env.{Env, Report}
use pit_go.Chain.Plan.{
  ChainPlan, OrderCheck, Void, Step, then_step, pre_trade, drop_copy_step, check_order,
  execution_report, account_adjustment, block_account, unblock_account, block_account_group,
  unblock_account_group, set_account_currency, clear_account_currency, set_account_pnl,
}
use pit_go.Chain.Check.{closing_report, check_report}
use pit_go.Chain.Task.{execute}
use pit_go.Chain.Admission.{ready, all_ready}
use pit_go.Chain.Route.{acceptable, kind_of, source_complete}
use pit_go.Chain.Keeps.{Given, Keeps, HookClosed, check_report-Keeps}
use pit_go.Chain.Steady.{StepGiven, AllGiven}
use pit_go.Chain.Whole.{Whole, execute-Keeps}

abbrev is_nil_event : Event → Bool
is_nil_event (nil_called _) = true
is_nil_event nil_dereferenced = true
is_nil_event nil_order = true
is_nil_event _ = false

-- A nil hook was called, or a nil order or group was read.
abbrev pub met_nil : History → Bool
met_nil [] = false
met_nil (e ∷ h) = is_nil_event e || met_nil h

record NoNil (r : Run) : Type 0 where
  pub eq : met_nil r.history ≡ false

with_result-NoNil : {A : Type 0} (m : M A) → Keeps NoNil m → Keeps NoNil (with_result m)
unfolding with_result
with_result-NoNil m k = record {
  run = λ r h. record {
    eq = (k.run (record r { result_available = true }) (record { eq = h.eq })).eq;
  };
}

hooks : HookClosed ⊥ NoNil
unfolding log
hooks = record {
  hook = λ kind r h. record { eq = h.eq };
  nil_hook = λ lax kind r h. elim lax [ ];
  result = with_result-NoNil;
}

closing_report-NoNil :
    {State : Type 0} (env : Env) (on_checked : Hook State OrderCheck Void) (state : State)
    (err : Option Error) (report : Report)
    → Given ⊥ on_checked
    → Keeps NoNil (closing_report env report (check_report env on_checked state err report))
unfolding closing_report log
closing_report-NoNil env on_checked state err report given = record {
  run = λ r h.
      let inside =
        (check_report-Keeps hooks env on_checked state err report given).run
          (log (Event.report_opened report.id) r) (record { eq = h.eq }) in
      record { eq = inside.eq };
}

whole : Whole ⊥ NoNil
unfolding log
whole = record {
  closed = record {
    hooks = hooks;
    mutating = λ call r changed h. record { eq = h.eq };
    dry_run = λ r h. record { eq = h.eq };
    nil_group = λ lax r h. elim lax [ ];
    report = closing_report-NoNil;
  };
  missing_order = λ lax r h. elim lax [ ];
  pending = λ p r h. record { eq = h.eq };
  handle_opened = λ handle r h. record { eq = h.eq };
  commit_entered = λ handle r h. record { eq = h.eq };
  rollback_entered = λ handle r h. record { eq = h.eq };
  finalizer_returned = λ handle r h. record { eq = h.eq };
}

final-NoNil : (outcome : ChainOutcome) (r : Run) → NoNil r → NoNil (log (finally_entered outcome) r)
unfolding log
final-NoNil outcome r h = record { eq = h.eq }

ready-StepGiven :
    {State : Type 0} (plan : ChainPlan State) (step : Step State)
    → ready (kind_of plan.order plan.group_id) step ≡ true
    → StepGiven ⊥ plan step
ready-StepGiven plan (then_step fn) h = inr (ground (arith, h))
ready-StepGiven plan (pre_trade a b) h =
    (inr (ground (arith, h)), inr (ground (arith, h)), inr (ground (arith, h)))
ready-StepGiven plan (drop_copy_step a b) h =
    (inr (ground (arith, h)), inr (ground (arith, h)), inr (ground (arith, h)))
ready-StepGiven plan (check_order a) h = (inr (ground (arith, h)), inr (ground (arith, h)))
ready-StepGiven plan (execution_report a b) h = (inr (ground (arith, h)), inr (ground (arith, h)))
ready-StepGiven plan (account_adjustment a b) h = (inr (ground (arith, h)), inr (ground (arith, h)))
ready-StepGiven plan (block_account a b) h = (inr (ground (arith, h)), inr (ground (arith, h)))
ready-StepGiven plan (unblock_account a) h = inr (ground (arith, h))
ready-StepGiven plan (block_account_group a b) h =
    (inr (ground (arith, h)), inr (ground (arith, h)), inr (ground (arith, h)))
ready-StepGiven plan (unblock_account_group a) h =
    (inr (ground (arith, h)), inr (ground (arith, h)))
ready-StepGiven plan (set_account_currency a b) h =
    (inr (ground (arith, h)), inr (ground (arith, h)))
ready-StepGiven plan (clear_account_currency a) h = inr (ground (arith, h))
ready-StepGiven plan (set_account_pnl a b) h = (inr (ground (arith, h)), inr (ground (arith, h)))

and-left : (a b : Bool) → (a && b) ≡ true → a ≡ true
and-left a b h = ground arith

and-right : (a b : Bool) → (a && b) ≡ true → b ≡ true
and-right a b h = ground arith

all_ready-AllGiven :
    {State : Type 0} (plan : ChainPlan State) (steps : List (Step State))
    → all_ready (kind_of plan.order plan.group_id) steps ≡ true
    → AllGiven ⊥ plan steps
all_ready-AllGiven plan [] h = tt
all_ready-AllGiven plan (step ∷ rest) h =
    (ready-StepGiven plan step (and-left _ _ h), all_ready-AllGiven plan rest (and-right _ _ h))

not-false : (b : Bool) → not b ≡ true → b ≡ false
not-false b h = ground arith

-- A run of a plan that `validate` accepts never calls a nil hook and never reads a nil order or a nil
-- account group, whatever the hooks, the driver and the handles do.
pub acceptable-never_nil :
    {State : Type 0} (env : Env) (plan : ChainPlan State)
    → acceptable plan ≡ true
    → met_nil (execute env plan).1.history ≡ false
acceptable-never_nil env plan accepted =
    let begun = not-false _ (and-left _ _ accepted) in
    let steps = and-right (source_complete plan.order plan.group_id) _ (and-right _ _ accepted) in
    (execute-Keeps whole (λ r h. h) final-NoNil env plan (inr begun)
      (all_ready-AllGiven plan plan.steps steps) (record { eq = refl })).eq
