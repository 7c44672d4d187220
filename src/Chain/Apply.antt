-- ===== src/Chain/Apply.antt =====
-- The steps of asyncengine/scenario.go and asyncengine/scenario_admin.go that open no handle:
-- reports, adjustments and administration. Each prepares its input by a hook, calls the driver and
-- hands the result to a hook.
use pit_go.Base.{ℕ, true, Option, none, some, List, ◌==◌, if◌then◌else◌}
use pit_go.Errors.{Sentinel, sentinel}
use pit_go.Chain.Run.{
  nil_dereferenced, Call, HookKind, panics, reply_of, Hook, M, ◌>>=◌, ◌>>◌, return, throw, wrapping,
  log, enter_mutating, call_hook, nil_func,
}
use pit_go.Chain.Env.{ExecutionReport, Env}
use pit_go.Chain.Plan.{Void, AccountGroupId, Result, valid, refused, extract_account_id}

unfoldable pub run_then : {State : Type 0} → Hook State Void Void → State → M Void
run_then fn state = wrapping "async chain caller hook" (call_hook HookKind.then_hook fn state tt)

-- The account of a report, which must be that of the lane.
unfoldable pub check_account : ℕ → Result ℕ → M Void
check_account account (refused e) = throw e
check_account account (valid id) =
    if id == account then return tt else throw (sentinel Sentinel.chain_account_mismatch)

-- `applyExecutionReport`, in the lane of `account`.
unfoldable pub apply_execution_report :
    {State : Type 0}
    → Env
    → ℕ
    → Hook State Void ExecutionReport
    → Hook State ℕ Void
    → State
    → M Void
apply_execution_report env account report on_settled state = do
  input ←
      wrapping "async chain execution report input"
        (call_hook HookKind.report_input report state tt)
  check_account account (extract_account_id input.operation)
  result ←
      wrapping "async chain apply execution report"
        (enter_mutating Call.apply_execution_report (env.apply_execution_report input))
  wrapping "async chain settled hook" (call_hook HookKind.on_settled on_settled state result)

unfoldable pub apply_account_adjustment :
    {State : Type 0} → Env → ℕ → Hook State Void (List ℕ) → Hook State ℕ Void → State → M Void
apply_account_adjustment env account adjustments on_adjusted state = do
  input ←
      wrapping "async chain account adjustment input"
        (call_hook HookKind.adjustments_input adjustments state tt)
  result ←
      wrapping "async chain apply account adjustment"
        (enter_mutating Call.apply_account_adjustment (env.apply_account_adjustment account input))
  wrapping "async chain adjusted hook" (call_hook HookKind.on_adjusted on_adjusted state result)

unfoldable pub run_block_account :
    {State : Type 0} → Env → ℕ → Hook State Void ℕ → Hook State Void Void → State → M Void
run_block_account env account reason on_blocked state = do
  input ←
      wrapping "async chain account block input" (call_hook HookKind.reason_input reason state tt)
  enter_mutating Call.block (λ h. reply_of (env.block account input h))
  wrapping "async chain account blocked hook" (call_hook HookKind.on_blocked on_blocked state tt)

unfoldable pub run_unblock_account :
    {State : Type 0} → Env → ℕ → Hook State Void Void → State → M Void
run_unblock_account env account on_unblocked state = do
  enter_mutating Call.unblock (λ h. reply_of (env.unblock account h))
  wrapping "async chain account unblocked hook"
      (call_hook HookKind.on_unblocked on_unblocked state tt)

-- `*t.plan.groupID` on a nil pointer panics, after `retryUnsafe` was set.
unfoldable pub with_group : {A : Type 0} → Option AccountGroupId → (ℕ → M A) → M A
unfolding log
with_group none f r = (panics nil_func, log nil_dereferenced (record r { retry_unsafe = true }))
with_group (some group) f r = f group.id r

unfoldable pub run_block_account_group :
    {State : Type 0}
    → Env
    → Option AccountGroupId
    → Hook State Void ℕ
    → Hook State Void Void
    → State
    → M Void
run_block_account_group env group reason on_blocked state = do
  input ←
      wrapping "async chain account-group block input"
        (call_hook HookKind.reason_input reason state tt)
  with_group group (λ id.
      wrapping "async chain block account group"
        (enter_mutating Call.block_group (env.block_group id input)))
  wrapping "async chain account group blocked hook"
      (call_hook HookKind.on_blocked on_blocked state tt)

unfoldable pub run_unblock_account_group :
    {State : Type 0} → Env → Option AccountGroupId → Hook State Void Void → State → M Void
run_unblock_account_group env group on_unblocked state = do
  with_group group (λ id.
      wrapping "async chain unblock account group"
        (enter_mutating Call.unblock_group (env.unblock_group id)))
  wrapping "async chain account group unblocked hook"
      (call_hook HookKind.on_unblocked on_unblocked state tt)

unfoldable pub run_set_account_currency :
    {State : Type 0} → Env → ℕ → Hook State Void ℕ → Hook State Void Void → State → M Void
run_set_account_currency env account currency on_set state = do
  input ←
      wrapping "async chain account currency input"
        (call_hook HookKind.currency_input currency state tt)
  wrapping "async chain set account currency"
      (enter_mutating Call.set_currency (env.set_currency account input))
  wrapping "async chain account currency set hook" (call_hook HookKind.on_set on_set state tt)

unfoldable pub run_clear_account_currency :
    {State : Type 0} → Env → ℕ → Hook State Void Void → State → M Void
run_clear_account_currency env account on_cleared state = do
  enter_mutating Call.clear_currency (λ h. reply_of (env.clear_currency account h))
  wrapping "async chain account currency cleared hook"
      (call_hook HookKind.on_cleared on_cleared state tt)

unfoldable pub run_set_account_pnl :
    {State : Type 0} → Env → ℕ → Hook State Void ℕ → Hook State ℕ Void → State → M Void
run_set_account_pnl env account assignment on_set state = do
  input ←
      wrapping "async chain SpotFunds account P&L input"
        (call_hook HookKind.assignment_input assignment state tt)
  result ← wrapping "async chain set SpotFunds account P&L" (
      enter_mutating Call.set_spot_funds_account_pnl (env.set_spot_funds_account_pnl account input))
  wrapping "async chain SpotFunds account P&L set hook"
      (call_hook HookKind.on_pnl_set on_set state result)
