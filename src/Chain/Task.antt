-- ===== src/Chain/Task.antt =====
-- `chainTask` of asyncengine/scenario.go: the loop over the steps, the deferred cleanup, the final
-- hook and the outcome.
use Prim.Native.String.{String}
use pit_go.Base.{Bool, true, false, Option, none, some, List, [], ◌∷◌, if◌then◌else◌}
use pit_go.Errors.{chain_panic_error, join, join_errors, Error, Sentinel, sentinel, wrap}
use pit_go.Chain.Run.{
  nil_dereferenced, nil_order, Status, completed, rejected, failed, ChainOutcome, finally_entered,
  wrap_reply, Handle, HookKind, History, Reply, ok, fail, panics, Hook, Run, M, ◌>>=◌, ◌>>◌, return,
  log, call_hook, nil_func,
}
use pit_go.Chain.Env.{Env}
use pit_go.Chain.Plan.{
  Void, Step, then_step, pre_trade, drop_copy_step, check_order, execution_report,
  account_adjustment, block_account, unblock_account, block_account_group, unblock_account_group,
  set_account_currency, clear_account_currency, set_account_pnl, Order, ChainPlan,
}
use pit_go.Chain.Steps.{execute_pre_trade, apply_drop_copy, rollback_pending}
use pit_go.Chain.Check.{run_check_order}
use pit_go.Chain.Apply.{
  run_then, apply_execution_report, apply_account_adjustment, run_block_account,
  run_unblock_account, run_block_account_group, run_unblock_account_group, run_set_account_currency,
  run_clear_account_currency, run_set_account_pnl,
}

-- A step that never ends the chain.
abbrev pub goes_on : M Void → M Bool
goes_on m = m >> return false

-- `*t.plan.order` on a nil pointer panics: after `retryUnsafe` was set, or in the dry run.
unfoldable pub with_order : Option Order → M Bool → M Bool
unfolding log
with_order none m r = (panics nil_func, log nil_dereferenced (record r { retry_unsafe = true }))
with_order (some order) m r = m r

unfoldable pub with_checked_order : Option Order → M Void → M Void
unfolding log
with_checked_order none m r = (panics nil_func, log nil_order r)
with_checked_order (some order) m r = m r

-- `execute` of each step; `true` ends the chain.
unfoldable pub execute_step : {State : Type 0} → Env → ChainPlan State → Step State → State → M Bool
execute_step env plan (then_step fn) state = goes_on (run_then fn state)
execute_step env plan (pre_trade on_rejected on_reserved) state =
    with_order plan.order (execute_pre_trade env on_rejected on_reserved state)
execute_step env plan (drop_copy_step on_rejected on_applied) state =
    with_order plan.order (apply_drop_copy env on_rejected on_applied state)
execute_step env plan (check_order on_checked) state =
    goes_on (with_checked_order plan.order (run_check_order env on_checked state))
execute_step env plan (execution_report report on_settled) state =
    goes_on (apply_execution_report env plan.account_id report on_settled state)
execute_step env plan (account_adjustment adjustments on_adjusted) state =
    goes_on (apply_account_adjustment env plan.account_id adjustments on_adjusted state)
execute_step env plan (block_account reason on_blocked) state =
    goes_on (run_block_account env plan.account_id reason on_blocked state)
execute_step env plan (unblock_account on_unblocked) state =
    goes_on (run_unblock_account env plan.account_id on_unblocked state)
execute_step env plan (block_account_group reason on_blocked) state =
    goes_on (run_block_account_group env plan.group_id reason on_blocked state)
execute_step env plan (unblock_account_group on_unblocked) state =
    goes_on (run_unblock_account_group env plan.group_id on_unblocked state)
execute_step env plan (set_account_currency currency on_set) state =
    goes_on (run_set_account_currency env plan.account_id currency on_set state)
execute_step env plan (clear_account_currency on_cleared) state =
    goes_on (run_clear_account_currency env plan.account_id on_cleared state)
execute_step env plan (set_account_pnl assignment on_set) state =
    goes_on (run_set_account_pnl env plan.account_id assignment on_set state)

-- What the loop does after a step that returned without an error.
unfoldable pub continue : M Status → Bool → M Status
continue rest true = return rejected
continue rest false = rest

-- The loop over the steps.
unfoldable pub run_steps :
    {State : Type 0} → Env → ChainPlan State → List (Step State) → State → M Status
run_steps env plan [] state = return completed
run_steps env plan (step ∷ rest) state =
    execute_step env plan step state >>= continue (run_steps env plan rest state)

abbrev pub fails : Option Error → Bool
fails none = false
fails (some _) = true

-- `resolvedOutcome`.
unfoldable pub resolved_outcome : Status → Option Error → Bool → ChainOutcome
resolved_outcome status err retry_unsafe = record {
  status = if fails err then failed else status;
  err = err;
  retry_unsafe = retry_unsafe;
}

-- The status and the error of the body when the deferred function starts.
abbrev pub body_status : Reply Status → Status
body_status (ok s) = s
body_status (fail _) = completed
body_status (panics _) = completed

abbrev pub body_error : Reply Status → Option Error
body_error (ok _) = none
body_error (fail e) = some e
body_error (panics p) = some (chain_panic_error "async chain execution panicked" p)

abbrev pub error_of : String → Reply Void → Option Error
error_of message (ok _) = none
error_of message (fail e) = some e
error_of message (panics p) = some (chain_panic_error message p)

-- `rollbackPending` if a finalizer is pending: the error, and the run after it.
unfoldable pub clean_up_pending : Env → Option Handle → Run → Option Error × Run
unfolding rollback_pending
clean_up_pending env none r = (none, r)
clean_up_pending env (some h) r =
    let after = rollback_pending env h r in
    (error_of "async chain native cleanup panicked" after.0, after.1)

unfoldable pub clean_up : Env → Run → Option Error × Run
unfolding clean_up_pending
clean_up env r = clean_up_pending env r.pending r

abbrev pub mark_unsafe : Option Error → Bool → Option Error
mark_unsafe none unsafe = none
mark_unsafe (some e) true = some (join e (sentinel Sentinel.chain_retry_unsafe))
mark_unsafe (some e) false = some e

-- `callFinally`.
unfoldable pub call_finally :
    {State : Type 0}
    → (State → ChainOutcome → History → Reply Void)
    → State
    → ChainOutcome
    → Run
    → Option Error × Run
unfolding log
call_finally finally state outcome r =
    let entered = log (finally_entered outcome) r in
    let reply = finally state outcome entered.history in
    (
      error_of "async chain final hook panicked" (wrap_reply "async chain final hook" reply),
      entered,
    )

-- What is resolved into the future, and the run then.
abbrev pub Resolution : Type 0
Resolution = (ChainOutcome × Option Error) × Run

-- The deferred function from the final hook on.
unfoldable pub finish :
    {State : Type 0}
    → Hook State ChainOutcome Void
    → Option State
    → Status
    → Option Error
    → Run
    → Resolution
unfolding resolved_outcome call_finally
finish finally none status err r = ((resolved_outcome status err r.retry_unsafe, err), r)
finish none (some state) status err r = ((resolved_outcome status err r.retry_unsafe, err), r)
finish (some finally) (some state) status err r =
    let after = call_finally finally state (resolved_outcome status err r.retry_unsafe) r in
    let finally_err = if fails err then after.0 else mark_unsafe after.0 after.1.retry_unsafe in
    let whole = join_errors err finally_err in
    ((resolved_outcome status whole after.1.retry_unsafe, whole), after.1)

-- The deferred function of `execute` on how the body ended.
unfoldable pub conclude :
    {State : Type 0} → Env → ChainPlan State → Option State → Reply Status × Run → Resolution
unfolding clean_up finish
conclude env plan state body =
    let cleaned = clean_up env body.1 in
    finish plan.finally state (body_status body.0)
      (mark_unsafe (join_errors (body_error body.0) cleaned.0) cleaned.1.retry_unsafe) cleaned.1

abbrev pub fresh_run : Run
fresh_run = record { history = []; pending = none; retry_unsafe = false; result_available = false }

-- The body after `begin`.
unfoldable pub after_begin :
    {State : Type 0} → Env → ChainPlan State → Reply State × Run → Resolution
unfolding conclude run_steps
after_begin env plan (ok state, r) =
    conclude env plan (some state) (run_steps env plan plan.steps state r)
after_begin env plan (fail e, r) = conclude env plan none (fail (wrap "async chain begin" e), r)
after_begin env plan (panics p, r) = conclude env plan none (panics p, r)

-- `chainTask.execute`.
unfoldable pub execute : {State : Type 0} → Env → ChainPlan State → Resolution
unfolding after_begin
execute env plan = after_begin env plan (call_hook HookKind.begin plan.begin tt tt fresh_run)

-- `chainTask.abort`.
unfoldable pub abort : Error → Resolution
abort e = ((record { status = failed; err = some e; retry_unsafe = false }, some e), fresh_run)
