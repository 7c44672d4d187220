-- ===== src/Model/Adjustment/Balance.antt =====
-- `AccountAdjustmentBalanceOperation` of model/account_adjustment.go with its view.
pub mod Spec
use pit_go.Base.{ℕ, Option, List}
use pit_go.Model.Param.{
  option_of, if_some, Asset, no_asset, asset_handle, new_asset_from_handle, PnlState,
  pnl_state_handle, pnl_option,
}
use pit_go.Model.Native.BalanceOperation as NativeBalanceOperation
use pit_go.Model.Native.BalanceOperation.{NativeBalanceOperation}

pub record BalanceOperation : Type 0 where
  pub value : NativeBalanceOperation
  pub retain_asset : Asset

-- The optional fields, with what stands for an instrument or an asset.
pub record BalanceOperationValues (A : Type 0) : Type 0 where
  pub asset : Option A
  pub average_entry_price : Option ℕ
  pub realized_pnl : Option PnlState

unfoldable pub new : BalanceOperation
unfolding NativeBalanceOperation.new
new = record { value = NativeBalanceOperation.new; retain_asset = no_asset }

unfoldable pub reset : BalanceOperation → BalanceOperation
unfolding NativeBalanceOperation.new
reset o = record { value = NativeBalanceOperation.new; retain_asset = no_asset }

unfoldable pub set_asset : Asset → BalanceOperation → BalanceOperation
unfolding NativeBalanceOperation.set_asset
set_asset v o = record o {
  value = NativeBalanceOperation.set_asset (asset_handle v) o.value;
  retain_asset = v;
}

unfoldable pub unset_asset : BalanceOperation → BalanceOperation
unfolding NativeBalanceOperation.unset_asset
unset_asset o = record o {
  value = NativeBalanceOperation.unset_asset o.value;
  retain_asset = no_asset;
}

unfoldable pub get_asset : BalanceOperation → Option (List ℕ)
get_asset o = new_asset_from_handle o.value.asset

unfoldable pub set_average_entry_price : ℕ → BalanceOperation → BalanceOperation
unfolding NativeBalanceOperation.set_average_entry_price
set_average_entry_price v o = record o {
  value = NativeBalanceOperation.set_average_entry_price v o.value;
}

unfoldable pub unset_average_entry_price : BalanceOperation → BalanceOperation
unfolding NativeBalanceOperation.unset_average_entry_price
unset_average_entry_price o = record o {
  value = NativeBalanceOperation.unset_average_entry_price o.value;
}

unfoldable pub get_average_entry_price : BalanceOperation → Option ℕ
get_average_entry_price o = option_of o.value.average_entry_price

unfoldable pub set_realized_pnl : PnlState → BalanceOperation → BalanceOperation
unfolding NativeBalanceOperation.set_realized_pnl
set_realized_pnl v o = record o {
  value = NativeBalanceOperation.set_realized_pnl (pnl_state_handle v) o.value;
}

unfoldable pub unset_realized_pnl : BalanceOperation → BalanceOperation
unfolding NativeBalanceOperation.unset_realized_pnl
unset_realized_pnl o = record o { value = NativeBalanceOperation.unset_realized_pnl o.value }

unfoldable pub get_realized_pnl : BalanceOperation → Option PnlState
get_realized_pnl o = pnl_option (option_of o.value.realized_pnl)

unfoldable pub values : BalanceOperation → BalanceOperationValues (List ℕ)
unfolding get_asset get_average_entry_price get_realized_pnl
values o = record {
  asset = get_asset o;
  average_entry_price = get_average_entry_price o;
  realized_pnl = get_realized_pnl o;
}

-- `setValues`: the fields in the order of the source.
unfoldable pub apply_values : BalanceOperationValues Asset → BalanceOperation → BalanceOperation
apply_values v o =
    let o1 = if_some v.asset set_asset o in
    let o2 = if_some v.average_entry_price set_average_entry_price o1 in
    if_some v.realized_pnl set_realized_pnl o2

unfoldable pub set_values : BalanceOperationValues Asset → BalanceOperation → BalanceOperation
set_values v o = apply_values v (reset o)

unfoldable pub new_from_values : BalanceOperationValues Asset → BalanceOperation
new_from_values v = apply_values v new

-- A call of a method that changes the struct; its view has the same methods.
pub data Call : Type 0 where
  resets : Call
  sets_asset : Asset → Call
  unsets_asset : Call
  sets_average_entry_price : ℕ → Call
  unsets_average_entry_price : Call
  sets_realized_pnl : PnlState → Call
  unsets_realized_pnl : Call

unfoldable pub call : Call → BalanceOperation → BalanceOperation
unfolding reset set_asset unset_asset set_average_entry_price unset_average_entry_price
    set_realized_pnl unset_realized_pnl
call resets o = reset o
call (sets_asset v) o = set_asset v o
call unsets_asset o = unset_asset o
call (sets_average_entry_price v) o = set_average_entry_price v o
call unsets_average_entry_price o = unset_average_entry_price o
call (sets_realized_pnl v) o = set_realized_pnl v o
call unsets_realized_pnl o = unset_realized_pnl o
