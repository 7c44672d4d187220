-- ===== src/Model/Adjustment/State.antt =====
-- `AccountAdjustment` of model/account_adjustment.go and its C struct in
-- internal/native/account_adjustment.go. The C struct, the struct over it, and its payloads with what is retained for them.
use pit_go.Base.{false, Option}
use pit_go.Model.Param.{
  Optional, Asset, Instrument, no_asset, no_instrument, PnlState, NativePnlState, pnl_state_handle,
  new_pnl_state_from_handle, zero_pnl_state,
}
use pit_go.Model.Native.BalanceOperation as NativeBalance
use pit_go.Model.Native.BalanceOperation.{NativeBalanceOperation}
use pit_go.Model.Adjustment.Balance.{BalanceOperation}
use pit_go.Model.Native.PositionOperation as NativePosition
use pit_go.Model.Native.PositionOperation.{NativePositionOperation}
use pit_go.Model.Adjustment.Position.{PositionOperation}
use pit_go.Model.Native.AdjustmentAmounts as NativeAmount
use pit_go.Model.Native.AdjustmentAmounts.{NativeAmount}
use pit_go.Model.Adjustment.Amount.{Amount}
use pit_go.Model.Native.AdjustmentBounds as NativeBounds
use pit_go.Model.Native.AdjustmentBounds.{NativeBounds}
use pit_go.Model.Adjustment.Bounds.{Bounds}

pub data OperationKind : Type 0 where
  absent balance position account_pnl : OperationKind

-- The operation is flat: `kind` tells which payload is meant.
pub record NativeAccountAdjustment : Type 0 where
  pub kind : OperationKind
  pub balance : NativeBalanceOperation
  pub position : NativePositionOperation
  pub account_pnl : NativePnlState
  pub amount : Optional NativeAmount
  pub bounds : Optional NativeBounds

pub record RetainAccountAdjustment : Type 0 where
  pub balance_operation_asset : Asset
  pub position_operation_instrument : Instrument
  pub position_operation_collateral_asset : Asset

pub record AccountAdjustment : Type 0 where
  pub value : NativeAccountAdjustment
  pub retain : RetainAccountAdjustment

-- `AccountAdjustmentAccountPnlOperation`.
pub record AccountPnlOperation : Type 0 where
  pub value : NativePnlState

unfoldable pub new_account_pnl_operation : PnlState → AccountPnlOperation
new_account_pnl_operation s = record { value = pnl_state_handle s }

unfoldable pub state : AccountPnlOperation → PnlState
state o = new_pnl_state_from_handle o.value

pub record AccountAdjustmentValues : Type 0 where
  pub balance_operation : Option BalanceOperation
  pub position_operation : Option PositionOperation
  pub account_pnl_operation : Option AccountPnlOperation
  pub amount : Option Amount
  pub bounds : Option Bounds

unfoldable pub new_native : NativeAccountAdjustment
unfolding NativeBalance.new NativePosition.new NativeAmount.new NativeBounds.new
new_native = record {
  kind = OperationKind.absent;
  balance = NativeBalance.new;
  position = NativePosition.new;
  account_pnl = zero_pnl_state;
  amount = record { is_set = false; value = NativeAmount.new };
  bounds = record { is_set = false; value = NativeBounds.new };
}

unfoldable pub no_retain : RetainAccountAdjustment
no_retain = record {
  balance_operation_asset = no_asset;
  position_operation_instrument = no_instrument;
  position_operation_collateral_asset = no_asset;
}

unfoldable pub new : AccountAdjustment
unfolding new_native no_retain
new = record { value = new_native; retain = no_retain }

unfoldable pub reset : AccountAdjustment → AccountAdjustment
unfolding new_native no_retain
reset a = record a { value = new_native; retain = no_retain }

-- The payloads with what is retained for them.
abbrev pub balance_of : AccountAdjustment → BalanceOperation
balance_of a = record { value = a.value.balance; retain_asset = a.retain.balance_operation_asset }

abbrev pub position_of : AccountAdjustment → PositionOperation
position_of a = record {
  value = a.value.position;
  retain_instrument = a.retain.position_operation_instrument;
  retain_collateral_asset = a.retain.position_operation_collateral_asset;
}

abbrev pub amount_of : AccountAdjustment → Amount
amount_of a = record { value = a.value.amount.value }

abbrev pub bounds_of : AccountAdjustment → Bounds
bounds_of a = record { value = a.value.bounds.value }
