-- ===== src/Chain/Plan.antt =====
-- What a chain of asyncengine/scenario.go is built of, and its validation: `chainPlan`, the steps of
-- `ChainBuilder` with their hooks, `validate`, and the routing key that the source selects.
use Prim.Native.String.{String}
use pit_go.Base.{ℕ, Bool, true, false, Option, none, some, List, [], ◌∷◌, if◌then◌else◌}
use pit_go.Errors.{Error, Sentinel, sentinel, wrap}
use pit_go.Routing.{RoutingKey, account_routing_key, group_routing_key}
use pit_go.Chain.Run.{Hook, ChainOutcome}
use pit_go.Chain.Env.{ExecutionReport}

-- `Decision`: any other value of its type is invalid.
pub data Decision : Type 0 where
  commit rollback : Decision
  invalid : ℕ → Decision

-- The verdict that the hook of a dry run reads.
pub record OrderCheck : Type 0 where
  pub passed : Bool
  pub rejects : List ℕ

abbrev pub Void : Type 0
Void = Unit {0}

-- One constructor for each step of the builder, with its hooks in the order of their fields.
pub data Step (State : Type 0) : Type 0 where
  then_step : Hook State Void Void → Step State
  pre_trade : Hook State (List ℕ) Void → Hook State Void Decision → Step State
  drop_copy_step : Hook State (List ℕ) Void → Hook State Void Decision → Step State
  check_order : Hook State OrderCheck Void → Step State
  execution_report : Hook State Void ExecutionReport → Hook State ℕ Void → Step State
  account_adjustment : Hook State Void (List ℕ) → Hook State ℕ Void → Step State
  block_account : Hook State Void ℕ → Hook State Void Void → Step State
  unblock_account : Hook State Void Void → Step State
  block_account_group : Hook State Void ℕ → Hook State Void Void → Step State
  unblock_account_group : Hook State Void Void → Step State
  set_account_currency : Hook State Void ℕ → Hook State Void Void → Step State
  clear_account_currency : Hook State Void Void → Step State
  set_account_pnl : Hook State Void ℕ → Hook State ℕ Void → Step State

-- The order that a chain starts from: its operation, if set, with the account, if set.
pub record Order : Type 0 where
  pub operation : Option (Option ℕ)

-- An account-group id, and whether it was constructed.
pub record AccountGroupId : Type 0 where
  pub id : ℕ
  pub initialized : Bool

pub record ChainPlan (State : Type 0) : Type 0 where
  pub steps : List (Step State)
  pub begin : Hook Void Void State
  pub finally : Hook State ChainOutcome Void
  pub order : Option Order
  pub account_id : ℕ
  pub group_id : Option AccountGroupId

-- `chainSourceKind`.
pub data SourceKind : Type 0 where
  account_source order_source account_group_source : SourceKind

abbrev pub incomplete : String → Error
incomplete what = wrap what (sentinel Sentinel.chain_incomplete)

abbrev pub is_nil {ℓ} : {A : Type ℓ} → Option A → Bool
is_nil none = true
is_nil (some _) = false

-- The checks of a `validate`, in order: the first error is returned.
abbrev pub or_else : Option Error → Option Error → Option Error
or_else (some e) next = some e
or_else none next = next

abbrev pub require_hook {ℓ} : {A : Type ℓ} → Option A → String → Option Error
require_hook (some _) what = none
require_hook none what = some (incomplete what)

abbrev pub require_order_source : SourceKind → Option Error
require_order_source order_source = none
require_order_source _ = some (sentinel Sentinel.chain_order_required)

abbrev pub require_account_source : SourceKind → Option Error
require_account_source account_group_source = some (sentinel Sentinel.chain_account_required)
require_account_source _ = none

abbrev pub require_account_group_source : SourceKind → Option Error
require_account_group_source account_group_source = none
require_account_group_source _ = some (sentinel Sentinel.chain_account_group_required)

-- `validate` of each step.
abbrev pub validate_then : {State : Type 0} → Hook State Void Void → SourceKind → Option Error
validate_then fn kind = require_hook fn "Chain.Then"

abbrev pub validate_pre_trade :
    {State : Type 0}
    → Hook State (List ℕ) Void
    → Hook State Void Decision
    → SourceKind
    → Option Error
validate_pre_trade on_rejected on_reserved kind = or_else (require_order_source kind) (
    or_else (require_hook on_rejected "Chain.ExecutePreTrade.OnRejected")
      (require_hook on_reserved "Chain.ExecutePreTrade.OnReserved"))

abbrev pub validate_drop_copy :
    {State : Type 0}
    → Hook State (List ℕ) Void
    → Hook State Void Decision
    → SourceKind
    → Option Error
validate_drop_copy on_rejected on_applied kind = or_else (require_order_source kind) (
    or_else (require_hook on_rejected "Chain.ApplyDropCopy.OnRejected")
      (require_hook on_applied "Chain.ApplyDropCopy.OnApplied"))

abbrev pub validate_check_order :
    {State : Type 0} → Hook State OrderCheck Void → SourceKind → Option Error
validate_check_order on_checked kind =
    or_else (require_order_source kind) (require_hook on_checked "Chain.CheckOrder")

abbrev pub validate_execution_report :
    {State : Type 0}
    → Hook State Void ExecutionReport
    → Hook State ℕ Void
    → SourceKind
    → Option Error
validate_execution_report report on_settled kind = or_else (require_account_source kind) (
    or_else (require_hook report "Chain.ApplyExecutionReport.Report")
      (require_hook on_settled "Chain.ApplyExecutionReport.OnSettled"))

abbrev pub validate_account_adjustment :
    {State : Type 0} → Hook State Void (List ℕ) → Hook State ℕ Void → SourceKind → Option Error
validate_account_adjustment adjustments on_adjusted kind = or_else (require_account_source kind) (
    or_else (require_hook adjustments "Chain.ApplyAccountAdjustment.Adjustments")
      (require_hook on_adjusted "Chain.ApplyAccountAdjustment.OnAdjusted"))

abbrev pub validate_block_account :
    {State : Type 0} → Hook State Void ℕ → Hook State Void Void → SourceKind → Option Error
validate_block_account reason on_blocked kind = or_else (require_account_source kind) (
    or_else (require_hook reason "Chain.BlockAccount.Reason")
      (require_hook on_blocked "Chain.BlockAccount.OnBlocked"))

abbrev pub validate_unblock_account :
    {State : Type 0} → Hook State Void Void → SourceKind → Option Error
validate_unblock_account on_unblocked kind =
    or_else (require_account_source kind)
      (require_hook on_unblocked "Chain.UnblockAccount.OnUnblocked")

abbrev pub validate_block_account_group :
    {State : Type 0} → Hook State Void ℕ → Hook State Void Void → SourceKind → Option Error
validate_block_account_group reason on_blocked kind = or_else (require_account_group_source kind) (
    or_else (require_hook reason "Chain.BlockAccountGroup.Reason")
      (require_hook on_blocked "Chain.BlockAccountGroup.OnBlocked"))

abbrev pub validate_unblock_account_group :
    {State : Type 0} → Hook State Void Void → SourceKind → Option Error
validate_unblock_account_group on_unblocked kind =
    or_else (require_account_group_source kind)
      (require_hook on_unblocked "Chain.UnblockAccountGroup.OnUnblocked")

abbrev pub validate_set_account_currency :
    {State : Type 0} → Hook State Void ℕ → Hook State Void Void → SourceKind → Option Error
validate_set_account_currency currency on_set kind = or_else (require_account_source kind) (
    or_else (require_hook currency "Chain.SetAccountCurrency.Currency")
      (require_hook on_set "Chain.SetAccountCurrency.OnSet"))

abbrev pub validate_clear_account_currency :
    {State : Type 0} → Hook State Void Void → SourceKind → Option Error
validate_clear_account_currency on_cleared kind =
    or_else (require_account_source kind)
      (require_hook on_cleared "Chain.ClearAccountCurrency.OnCleared")

abbrev pub validate_set_account_pnl :
    {State : Type 0} → Hook State Void ℕ → Hook State ℕ Void → SourceKind → Option Error
validate_set_account_pnl assignment on_set kind = or_else (require_account_source kind) (
    or_else (require_hook assignment "Chain.SetSpotFundsAccountPnl.Assignment")
      (require_hook on_set "Chain.SetSpotFundsAccountPnl.OnSet"))

unfoldable pub validate_step : {State : Type 0} → Step State → SourceKind → Option Error
validate_step (then_step fn) kind = validate_then fn kind
validate_step (pre_trade on_rejected on_reserved) kind =
    validate_pre_trade on_rejected on_reserved kind
validate_step (drop_copy_step on_rejected on_applied) kind =
    validate_drop_copy on_rejected on_applied kind
validate_step (check_order on_checked) kind = validate_check_order on_checked kind
validate_step (execution_report report on_settled) kind =
    validate_execution_report report on_settled kind
validate_step (account_adjustment adjustments on_adjusted) kind =
    validate_account_adjustment adjustments on_adjusted kind
validate_step (block_account reason on_blocked) kind = validate_block_account reason on_blocked kind
validate_step (unblock_account on_unblocked) kind = validate_unblock_account on_unblocked kind
validate_step (block_account_group reason on_blocked) kind =
    validate_block_account_group reason on_blocked kind
validate_step (unblock_account_group on_unblocked) kind =
    validate_unblock_account_group on_unblocked kind
validate_step (set_account_currency currency on_set) kind =
    validate_set_account_currency currency on_set kind
validate_step (clear_account_currency on_cleared) kind =
    validate_clear_account_currency on_cleared kind
validate_step (set_account_pnl assignment on_set) kind =
    validate_set_account_pnl assignment on_set kind

-- The result of a call: a value or an error.
pub data Result (A : Type 0) : Type 0 where
  valid : A → Result A
  refused : Error → Result A

-- `extractOrderAccountID` and `extractReportAccountID` of asyncengine/engine.go.
unfoldable pub extract_account_id : Option (Option ℕ) → Result ℕ
extract_account_id none = refused (sentinel Sentinel.missing_account_id)
extract_account_id (some none) = refused (sentinel Sentinel.missing_account_id)
extract_account_id (some (some id)) = valid id

-- `validateAccountGroupID` of asyncengine/engine.go.
abbrev pub validate_account_group_id : AccountGroupId → Option Error
validate_account_group_id group =
    if group.initialized then none else some (sentinel Sentinel.uninitialized_account_group_id)

pub record Route : Type 0 where
  pub key : RoutingKey
  pub account_id : ℕ
  pub kind : SourceKind

unfoldable pub route_order : Order → Result Route
unfolding extract_account_id
route_order order = elim (extract_account_id order.operation) [
  | valid id ↦ valid (record { key = account_routing_key id; account_id = id; kind = order_source })
  | refused e ↦ refused e
]

unfoldable pub route_group : AccountGroupId → ℕ → Result Route
route_group group account_id = elim (validate_account_group_id group) [
  | none ↦ valid (record {
    key = group_routing_key group.id;
    account_id = account_id;
    kind = account_group_source;
  })
  | some e ↦ refused e
]

-- The lane, the account and the source kind that a plan's source selects.
unfoldable pub route_source : Option Order → Option AccountGroupId → ℕ → Result Route
unfolding route_order route_group
route_source (some order) group account_id = route_order order
route_source none (some group) account_id = route_group group account_id
route_source none none account_id = valid (record {
  key = account_routing_key account_id;
  account_id = account_id;
  kind = account_source;
})

unfoldable pub validate_steps : {State : Type 0} → List (Step State) → SourceKind → Option Error
unfolding validate_step
validate_steps [] kind = none
validate_steps (step ∷ rest) kind = or_else (validate_step step kind) (validate_steps rest kind)

abbrev pub unless_error : {A : Type 0} → Option Error → A → Result A
unless_error none a = valid a
unless_error (some e) a = refused e

unfoldable pub validate_routed : {State : Type 0} → List (Step State) → Result Route → Result Route
unfolding validate_steps
validate_routed steps (refused e) = refused e
validate_routed steps (valid route) = unless_error (validate_steps steps route.kind) route

-- `chainPlan.validate`.
unfoldable pub validate : {State : Type 0} → ChainPlan State → Result Route
unfolding route_source validate_routed
validate plan =
    if is_nil plan.begin
    then refused (incomplete "Chain.Begin")
    else validate_routed plan.steps (route_source plan.order plan.group_id plan.account_id)
