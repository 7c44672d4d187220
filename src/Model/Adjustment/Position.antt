-- ===== src/Model/Adjustment/Position.antt =====
-- `AccountAdjustmentPositionOperation` of model/account_adjustment.go with its view.
pub mod Spec
use pit_go.Base.{ℕ, Option, List}
use pit_go.Model.Param.{
  option_of, if_some, Asset, Instrument, no_asset, no_instrument, asset_handle, instrument_handle,
  new_asset_from_handle, new_instrument_from_handle, PositionMode, new_position_mode_from_handle,
  position_mode_handle, new_leverage_option_from_handle,
}
use pit_go.Model.Native.PositionOperation as NativePositionOperation
use pit_go.Model.Native.PositionOperation.{NativePositionOperation}

pub record PositionOperation : Type 0 where
  pub value : NativePositionOperation
  pub retain_instrument : Instrument
  pub retain_collateral_asset : Asset

-- The optional fields, with what stands for an instrument or an asset.
pub record PositionOperationValues (I : Type 0) (A : Type 0) : Type 0 where
  pub instrument : Option I
  pub collateral_asset : Option A
  pub average_entry_price : Option ℕ
  pub leverage : Option ℕ
  pub mode : Option PositionMode

unfoldable pub new : PositionOperation
unfolding NativePositionOperation.new
new = record {
  value = NativePositionOperation.new;
  retain_instrument = no_instrument;
  retain_collateral_asset = no_asset;
}

unfoldable pub reset : PositionOperation → PositionOperation
unfolding NativePositionOperation.new
reset o = record {
  value = NativePositionOperation.new;
  retain_instrument = no_instrument;
  retain_collateral_asset = no_asset;
}

unfoldable pub set_instrument : Instrument → PositionOperation → PositionOperation
unfolding NativePositionOperation.set_instrument
set_instrument v o = record o {
  value = NativePositionOperation.set_instrument (instrument_handle v) o.value;
  retain_instrument = v;
}

unfoldable pub unset_instrument : PositionOperation → PositionOperation
unfolding NativePositionOperation.unset_instrument
unset_instrument o = record o {
  value = NativePositionOperation.unset_instrument o.value;
  retain_instrument = no_instrument;
}

unfoldable pub get_instrument : PositionOperation → Option (List ℕ × List ℕ)
get_instrument o = new_instrument_from_handle o.value.instrument

unfoldable pub set_collateral_asset : Asset → PositionOperation → PositionOperation
unfolding NativePositionOperation.set_collateral_asset
set_collateral_asset v o = record o {
  value = NativePositionOperation.set_collateral_asset (asset_handle v) o.value;
  retain_collateral_asset = v;
}

unfoldable pub unset_collateral_asset : PositionOperation → PositionOperation
unfolding NativePositionOperation.unset_collateral_asset
unset_collateral_asset o = record o {
  value = NativePositionOperation.unset_collateral_asset o.value;
  retain_collateral_asset = no_asset;
}

unfoldable pub get_collateral_asset : PositionOperation → Option (List ℕ)
get_collateral_asset o = new_asset_from_handle o.value.collateral_asset

unfoldable pub set_average_entry_price : ℕ → PositionOperation → PositionOperation
unfolding NativePositionOperation.set_average_entry_price
set_average_entry_price v o = record o {
  value = NativePositionOperation.set_average_entry_price v o.value;
}

unfoldable pub unset_average_entry_price : PositionOperation → PositionOperation
unfolding NativePositionOperation.unset_average_entry_price
unset_average_entry_price o = record o {
  value = NativePositionOperation.unset_average_entry_price o.value;
}

unfoldable pub get_average_entry_price : PositionOperation → Option ℕ
get_average_entry_price o = option_of o.value.average_entry_price

unfoldable pub set_leverage : ℕ → PositionOperation → PositionOperation
unfolding NativePositionOperation.set_leverage
set_leverage v o = record o { value = NativePositionOperation.set_leverage v o.value }

unfoldable pub unset_leverage : PositionOperation → PositionOperation
unfolding NativePositionOperation.unset_leverage
unset_leverage o = record o { value = NativePositionOperation.unset_leverage o.value }

unfoldable pub get_leverage : PositionOperation → Option ℕ
get_leverage o = new_leverage_option_from_handle o.value.leverage

unfoldable pub set_mode : PositionMode → PositionOperation → PositionOperation
unfolding NativePositionOperation.set_mode
set_mode v o = record o {
  value = NativePositionOperation.set_mode (position_mode_handle v) o.value;
}

unfoldable pub unset_mode : PositionOperation → PositionOperation
unfolding NativePositionOperation.unset_mode
unset_mode o = record o { value = NativePositionOperation.unset_mode o.value }

unfoldable pub get_mode : PositionOperation → Option PositionMode
get_mode o = new_position_mode_from_handle o.value.mode

unfoldable pub values : PositionOperation → PositionOperationValues (List ℕ × List ℕ) (List ℕ)
unfolding get_instrument get_collateral_asset get_average_entry_price get_leverage get_mode
values o = record {
  instrument = get_instrument o;
  collateral_asset = get_collateral_asset o;
  average_entry_price = get_average_entry_price o;
  leverage = get_leverage o;
  mode = get_mode o;
}

-- `setValues`: the fields in the order of the source.
unfoldable pub apply_values :
    PositionOperationValues Instrument Asset → PositionOperation → PositionOperation
apply_values v o =
    let o1 = if_some v.instrument set_instrument o in
    let o2 = if_some v.collateral_asset set_collateral_asset o1 in
    let o3 = if_some v.average_entry_price set_average_entry_price o2 in
    let o4 = if_some v.leverage set_leverage o3 in if_some v.mode set_mode o4

unfoldable pub set_values :
    PositionOperationValues Instrument Asset → PositionOperation → PositionOperation
set_values v o = apply_values v (reset o)

unfoldable pub new_from_values : PositionOperationValues Instrument Asset → PositionOperation
new_from_values v = apply_values v new

-- A call of a method that changes the struct; its view has the same methods.
pub data Call : Type 0 where
  resets : Call
  sets_instrument : Instrument → Call
  unsets_instrument : Call
  sets_collateral_asset : Asset → Call
  unsets_collateral_asset : Call
  sets_average_entry_price : ℕ → Call
  unsets_average_entry_price : Call
  sets_leverage : ℕ → Call
  unsets_leverage : Call
  sets_mode : PositionMode → Call
  unsets_mode : Call

unfoldable pub call : Call → PositionOperation → PositionOperation
unfolding reset set_instrument unset_instrument set_collateral_asset unset_collateral_asset
    set_average_entry_price unset_average_entry_price set_leverage unset_leverage set_mode
    unset_mode
call resets o = reset o
call (sets_instrument v) o = set_instrument v o
call unsets_instrument o = unset_instrument o
call (sets_collateral_asset v) o = set_collateral_asset v o
call unsets_collateral_asset o = unset_collateral_asset o
call (sets_average_entry_price v) o = set_average_entry_price v o
call unsets_average_entry_price o = unset_average_entry_price o
call (sets_leverage v) o = set_leverage v o
call unsets_leverage o = unset_leverage o
call (sets_mode v) o = set_mode v o
call unsets_mode o = unset_mode o
