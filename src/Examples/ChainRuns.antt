-- ===== src/Examples/ChainRuns.antt =====
-- Concrete chains of asyncengine/scenario.go: a pre-trade check whose reservation is committed, after
-- a dry run and before a report.
use pit_go.Base.{false, ℕ, ◌≡◌, refl, true, none, some, [], ◌∷◌}
use pit_go.Errors.{external}
use pit_go.Chain.Run.{
  failed, reservation, Handle, History, ok, fail, Called, returned, monad_operations,
}
use pit_go.Chain.Env.{Env}
use pit_go.Chain.Plan.{
  commit, pre_trade, check_order, execution_report, ChainPlan, extract_account_id, validate,
}
use pit_go.Chain.Task.{execute, execute_step, with_order, with_checked_order, continue}
use pit_go.Chain.Steps.{execute_pre_trade}
use pit_go.Chain.Check.{
  closing_report, dry_run_error, read_report, run_check_order, checked_reply, check_report,
  check_rejects,
}
use pit_go.Chain.Apply.{apply_execution_report, check_account}
use pit_go.Chain.Custody.{custody, clear}
use pit_go.Chain.Outcome.{execute-Consistent, Consistent}
use pit_go.Chain.Settlement.{Ends, execute-handles_settled}
use pit_go.Chain.RetryUnsafe.{touched, execute-retry_unsafe}
use pit_go.Chain.Reports.{reports, no_report, execute-reports_closed}
use pit_go.Chain.FinalHook.{FinallyRan, expects_finally, execute-finally}
use pit_go.Chain.Route.{Admitted, validate-Admitted}
use pit_go.Chain.Submit.{runner, run_chain}
use pit_go.Chain.NilSafety.{met_nil, acceptable-never_nil}
use pit_go.Chain.Start.{StartedOk, run_chain-StartedOk}

abbrev the_handle : Handle
the_handle = record { kind = reservation; id = 7; live = true }

abbrev returning : {A : Type 0} → A → History → Called A
returning a _ = returned a

-- The driver reserves, the dry run passes, every other call succeeds.
abbrev env : Env
env = record {
  execute_pre_trade = returning (record { handle = some the_handle; rejects = []; err = none });
  apply_drop_copy = returning (record { handle = none; rejects = 1 ∷ []; err = none });
  execute_pre_trade_dry_run =
      returning (record { report = some (record { id = 3; live = true }); err = none });
  is_pass = λ report h. ok true;
  rejects_of = λ report h. ok none;
  apply_execution_report = λ report h. ok 5;
  apply_account_adjustment = λ account adjustments h. ok 6;
  block = λ account reason h. returned tt;
  unblock = λ account h. returned tt;
  block_group = λ group reason h. ok tt;
  unblock_group = λ group h. ok tt;
  set_currency = λ account currency h. ok tt;
  clear_currency = λ account h. returned tt;
  set_spot_funds_account_pnl = λ account assignment h. ok 8;
  commit_and_close = λ handle h. returned tt;
  rollback_and_close = λ handle h. returned tt;
  close_report = λ report h. returned tt;
}

abbrev plan : ChainPlan ℕ
plan = record {
  steps =
      check_order (some (λ state check h. ok tt))
      ∷ pre_trade (some (λ state rejects h. ok tt)) (some (λ state v h. ok commit))
      ∷ execution_report
          (some (λ state v h. ok (record { operation = some (some 42); content = 1 })))
          (some (λ state result h. fail (external 9)))
      ∷ [];
  begin = some (λ v w h. ok 1);
  finally = some (λ state outcome h. ok tt);
  order = some (record { operation = some (some 42) });
  account_id = 42;
  group_id = none;
}

execute-Consistent_example : Consistent (execute env plan)
execute-Consistent_example = execute-Consistent env plan

execute-handles_settled_example : Ends (execute env plan).0.1 (execute env plan).1.history
execute-handles_settled_example = execute-handles_settled env plan

execute-retry_unsafe_example :
    (execute env plan).0.0.retry_unsafe ≡ touched (execute env plan).1.history
execute-retry_unsafe_example = execute-retry_unsafe env plan

execute-reports_closed_example : reports (execute env plan).1.history ≡ no_report
execute-reports_closed_example = execute-reports_closed env plan

execute-finally_example : FinallyRan (expects_finally plan) (execute env plan).1.history
execute-finally_example = execute-finally env plan

validate-Admitted_example : Admitted plan (validate plan)
validate-Admitted_example = validate-Admitted plan

run_chain-StartedOk_example :
    StartedOk (λ key. none) (runner (some plan)) (run_chain true (λ key. none) (runner (some plan)))
run_chain-StartedOk_example = run_chain-StartedOk true (λ key. none) (runner (some plan))

-- The run commits the reservation, closes the report, fails in the hook that settles the execution
-- report and is unsafe to retry.
plan_status : (execute env plan).0.0.status ≡ failed
unfolding execute execute_step with_order with_checked_order execute_pre_trade run_check_order
    checked_reply check_report check_rejects apply_execution_report check_account monad_operations
    continue closing_report dry_run_error read_report extract_account_id
plan_status = refl

plan_custody : custody (execute env plan).1.history ≡ clear
unfolding execute execute_step with_order with_checked_order execute_pre_trade run_check_order
    checked_reply check_report check_rejects apply_execution_report check_account monad_operations
    continue closing_report dry_run_error read_report extract_account_id
plan_custody = refl

acceptable-never_nil_example : met_nil (execute env plan).1.history ≡ false
acceptable-never_nil_example = acceptable-never_nil env plan refl
