-- ===== src/Model/Adjustment/Whole.antt =====
-- `AccountAdjustment` of model/account_adjustment.go and its C struct in
-- internal/native/account_adjustment.go. Its values, and the calls that change it.
use pit_go.Base.{List, [], ◌∷◌}
use pit_go.Model.Param.{if_some}
use pit_go.Model.Adjustment.Balance
use pit_go.Model.Adjustment.Balance.{BalanceOperation}
use pit_go.Model.Adjustment.Position
use pit_go.Model.Adjustment.Position.{PositionOperation}
use pit_go.Model.Adjustment.Amount
use pit_go.Model.Adjustment.Amount.{Amount}
use pit_go.Model.Adjustment.Bounds
use pit_go.Model.Adjustment.Bounds.{Bounds}
use pit_go.Model.Adjustment.State.{
  AccountAdjustment, AccountPnlOperation, AccountAdjustmentValues, new, reset,
}
use pit_go.Model.Adjustment.Operations.{
  balance_operation, position_operation, account_pnl_operation, ensure_balance_operation_view,
  set_balance_operation, unset_balance_operation, ensure_position_operation_view,
  set_position_operation, unset_position_operation, set_account_pnl_operation,
  unset_account_pnl_operation, through_balance_view, through_position_view,
}
use pit_go.Model.Adjustment.Groups.{
  get_amount, ensure_amount_view, set_amount, unset_amount, through_amount_view, get_bounds,
  ensure_bounds_view, set_bounds, unset_bounds, through_bounds_view,
}

unfoldable pub values : AccountAdjustment → AccountAdjustmentValues
unfolding balance_operation position_operation account_pnl_operation get_amount get_bounds
values a = record {
  balance_operation = balance_operation a;
  position_operation = position_operation a;
  account_pnl_operation = account_pnl_operation a;
  amount = get_amount a;
  bounds = get_bounds a;
}

unfoldable pub apply_values : AccountAdjustmentValues → AccountAdjustment → AccountAdjustment
apply_values v a =
    let a1 = if_some v.balance_operation set_balance_operation a in
    let a2 = if_some v.position_operation set_position_operation a1 in
    let a3 = if_some v.account_pnl_operation set_account_pnl_operation a2 in
    let a4 = if_some v.amount set_amount a3 in if_some v.bounds set_bounds a4

-- `SetValues` and `NewAccountAdjustmentFromValues`, which have no error to return.
unfoldable pub set_values : AccountAdjustmentValues → AccountAdjustment → AccountAdjustment
unfolding reset
set_values v a = apply_values v (reset a)

unfoldable pub new_from_values : AccountAdjustmentValues → AccountAdjustment
unfolding new
new_from_values v = apply_values v new

-- A call that changes the adjustment.
pub data Call : Type 0 where
  resets : Call
  sets_balance : BalanceOperation → Call
  unsets_balance : Call
  ensures_balance : Call
  views_balance : Balance.Call → Call
  sets_position : PositionOperation → Call
  unsets_position : Call
  ensures_position : Call
  views_position : Position.Call → Call
  sets_account_pnl : AccountPnlOperation → Call
  unsets_account_pnl : Call
  sets_amount : Amount → Call
  unsets_amount : Call
  ensures_amount : Call
  views_amount : Amount.Call → Call
  sets_bounds : Bounds → Call
  unsets_bounds : Call
  ensures_bounds : Call
  views_bounds : Bounds.Call → Call

unfoldable pub call : Call → AccountAdjustment → AccountAdjustment
unfolding reset set_balance_operation unset_balance_operation ensure_balance_operation_view
    through_balance_view set_position_operation unset_position_operation
    ensure_position_operation_view through_position_view set_account_pnl_operation
    unset_account_pnl_operation set_amount unset_amount ensure_amount_view through_amount_view
    set_bounds unset_bounds ensure_bounds_view through_bounds_view
call resets a = reset a
call (sets_balance x) a = set_balance_operation x a
call unsets_balance a = unset_balance_operation a
call ensures_balance a = ensure_balance_operation_view a
call (views_balance x) a = through_balance_view x a
call (sets_position x) a = set_position_operation x a
call unsets_position a = unset_position_operation a
call ensures_position a = ensure_position_operation_view a
call (views_position x) a = through_position_view x a
call (sets_account_pnl x) a = set_account_pnl_operation x a
call unsets_account_pnl a = unset_account_pnl_operation a
call (sets_amount x) a = set_amount x a
call unsets_amount a = unset_amount a
call ensures_amount a = ensure_amount_view a
call (views_amount x) a = through_amount_view x a
call (sets_bounds x) a = set_bounds x a
call unsets_bounds a = unset_bounds a
call ensures_bounds a = ensure_bounds_view a
call (views_bounds x) a = through_bounds_view x a

abbrev pub run : List Call → AccountAdjustment → AccountAdjustment
run [] a = a
run (c ∷ cs) a = run cs (call c a)
