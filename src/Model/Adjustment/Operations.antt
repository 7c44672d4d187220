-- ===== src/Model/Adjustment/Operations.antt =====
-- `AccountAdjustment` of model/account_adjustment.go and its C struct in
-- internal/native/account_adjustment.go. Its three operations and their views.
use pit_go.Base.{Option, none, some}
use pit_go.Model.Param.{no_asset, no_instrument, zero_pnl_state}
use pit_go.Model.Native.BalanceOperation as NativeBalance
use pit_go.Model.Native.BalanceOperation.{NativeBalanceOperation}
use pit_go.Model.Adjustment.Balance
use pit_go.Model.Adjustment.Balance.{BalanceOperation}
use pit_go.Model.Native.PositionOperation as NativePosition
use pit_go.Model.Native.PositionOperation.{NativePositionOperation}
use pit_go.Model.Adjustment.Position
use pit_go.Model.Adjustment.Position.{PositionOperation}
use pit_go.Model.Adjustment.State.{
  OperationKind, AccountAdjustment, AccountPnlOperation, no_retain, balance_of, position_of,
}

abbrev pub balance_by : OperationKind → AccountAdjustment → Option BalanceOperation
balance_by OperationKind.balance a = some (balance_of a)
balance_by _ a = none

abbrev pub position_by : OperationKind → AccountAdjustment → Option PositionOperation
position_by OperationKind.position a = some (position_of a)
position_by _ a = none

abbrev pub account_pnl_by : OperationKind → AccountAdjustment → Option AccountPnlOperation
account_pnl_by OperationKind.account_pnl a = some (record { value = a.value.account_pnl })
account_pnl_by _ a = none

unfoldable pub balance_operation : AccountAdjustment → Option BalanceOperation
balance_operation a = balance_by a.value.kind a

unfoldable pub position_operation : AccountAdjustment → Option PositionOperation
position_operation a = position_by a.value.kind a

unfoldable pub account_pnl_operation : AccountAdjustment → Option AccountPnlOperation
account_pnl_operation a = account_pnl_by a.value.kind a

-- `AccountAdjustmentSelect…OperationAndUnsetOtherOperations` keeps the payload of its own kind only.
abbrev pub selected_balance : OperationKind → NativeBalanceOperation → NativeBalanceOperation
selected_balance OperationKind.balance n = n
selected_balance _ n = NativeBalance.new

abbrev pub selected_position : OperationKind → NativePositionOperation → NativePositionOperation
selected_position OperationKind.position n = n
selected_position _ n = NativePosition.new

unfoldable pub ensure_balance_operation_view : AccountAdjustment → AccountAdjustment
unfolding NativeBalance.new NativePosition.new
ensure_balance_operation_view a = record {
  value = record a.value {
    kind = OperationKind.balance;
    balance = selected_balance a.value.kind a.value.balance;
    position = NativePosition.new;
    account_pnl = zero_pnl_state;
  };
  retain = record a.retain {
    position_operation_instrument = no_instrument;
    position_operation_collateral_asset = no_asset;
  };
}

unfoldable pub set_balance_operation : BalanceOperation → AccountAdjustment → AccountAdjustment
unfolding NativePosition.new
set_balance_operation o a = record {
  value = record a.value {
    kind = OperationKind.balance;
    balance = o.value;
    position = NativePosition.new;
    account_pnl = zero_pnl_state;
  };
  retain = record {
    balance_operation_asset = o.retain_asset;
    position_operation_instrument = no_instrument;
    position_operation_collateral_asset = no_asset;
  };
}

abbrev pub without_balance : OperationKind → OperationKind
without_balance OperationKind.balance = OperationKind.absent
without_balance k = k

unfoldable pub unset_balance_operation : AccountAdjustment → AccountAdjustment
unfolding NativeBalance.new
unset_balance_operation a = record {
  value = record a.value { kind = without_balance a.value.kind; balance = NativeBalance.new };
  retain = record a.retain { balance_operation_asset = no_asset };
}

unfoldable pub ensure_position_operation_view : AccountAdjustment → AccountAdjustment
unfolding NativeBalance.new NativePosition.new
ensure_position_operation_view a = record {
  value = record a.value {
    kind = OperationKind.position;
    balance = NativeBalance.new;
    position = selected_position a.value.kind a.value.position;
    account_pnl = zero_pnl_state;
  };
  retain = record a.retain { balance_operation_asset = no_asset };
}

unfoldable pub set_position_operation : PositionOperation → AccountAdjustment → AccountAdjustment
unfolding NativeBalance.new
set_position_operation o a = record {
  value = record a.value {
    kind = OperationKind.position;
    balance = NativeBalance.new;
    position = o.value;
    account_pnl = zero_pnl_state;
  };
  retain = record {
    balance_operation_asset = no_asset;
    position_operation_instrument = o.retain_instrument;
    position_operation_collateral_asset = o.retain_collateral_asset;
  };
}

abbrev pub without_position : OperationKind → OperationKind
without_position OperationKind.position = OperationKind.absent
without_position k = k

unfoldable pub unset_position_operation : AccountAdjustment → AccountAdjustment
unfolding NativePosition.new
unset_position_operation a = record {
  value = record a.value { kind = without_position a.value.kind; position = NativePosition.new };
  retain = record a.retain {
    position_operation_instrument = no_instrument;
    position_operation_collateral_asset = no_asset;
  };
}

unfoldable pub set_account_pnl_operation :
    AccountPnlOperation → AccountAdjustment → AccountAdjustment
unfolding NativeBalance.new NativePosition.new no_retain
set_account_pnl_operation o a = record {
  value = record a.value {
    kind = OperationKind.account_pnl;
    balance = NativeBalance.new;
    position = NativePosition.new;
    account_pnl = o.value;
  };
  retain = no_retain;
}

abbrev pub without_account_pnl : OperationKind → OperationKind
without_account_pnl OperationKind.account_pnl = OperationKind.absent
without_account_pnl k = k

unfoldable pub unset_account_pnl_operation : AccountAdjustment → AccountAdjustment
unset_account_pnl_operation a = record a {
  value = record a.value { kind = without_account_pnl a.value.kind; account_pnl = zero_pnl_state };
}

-- A method of a view, which works on the payload of the adjustment whatever its kind is by then.
unfoldable pub through_balance_view : Balance.Call → AccountAdjustment → AccountAdjustment
unfolding Balance.call
through_balance_view c a =
    let o = Balance.call c (balance_of a) in
    record {
      value = record a.value { balance = o.value };
      retain = record a.retain { balance_operation_asset = o.retain_asset };
    }

unfoldable pub through_position_view : Position.Call → AccountAdjustment → AccountAdjustment
unfolding Position.call
through_position_view c a =
    let o = Position.call c (position_of a) in
    record {
      value = record a.value { position = o.value };
      retain = record a.retain {
        position_operation_instrument = o.retain_instrument;
        position_operation_collateral_asset = o.retain_collateral_asset;
      };
    }
