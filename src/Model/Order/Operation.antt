-- ===== src/Model/Order/Operation.antt =====
-- `OrderOperation` of model/order.go with its view.
pub mod Spec
use pit_go.Base.{ℕ, Option, List}
use pit_go.Model.Param.{
  option_of, if_some, Instrument, no_instrument, instrument_handle, new_instrument_from_handle,
  Side, new_side_from_handle, side_handle, TradeAmount, new_trade_amount_from_handle,
}
use pit_go.Model.Native.OrderOperation as NativeOrderOperation
use pit_go.Model.Native.OrderOperation.{NativeOrderOperation}

pub record OrderOperation : Type 0 where
  pub value : NativeOrderOperation
  pub retain_instrument : Instrument

-- The optional fields, with what stands for an instrument or an asset.
pub record OrderOperationValues (I : Type 0) : Type 0 where
  pub trade_amount : Option TradeAmount
  pub instrument : Option I
  pub price : Option ℕ
  pub account_id : Option ℕ
  pub side : Option Side

unfoldable pub new : OrderOperation
unfolding NativeOrderOperation.new
new = record { value = NativeOrderOperation.new; retain_instrument = no_instrument }

unfoldable pub reset : OrderOperation → OrderOperation
unfolding NativeOrderOperation.new
reset o = record { value = NativeOrderOperation.new; retain_instrument = no_instrument }

unfoldable pub set_trade_amount : TradeAmount → OrderOperation → OrderOperation
unfolding NativeOrderOperation.set_trade_amount
set_trade_amount v o = record o { value = NativeOrderOperation.set_trade_amount v o.value }

unfoldable pub unset_trade_amount : OrderOperation → OrderOperation
unfolding NativeOrderOperation.unset_trade_amount
unset_trade_amount o = record o { value = NativeOrderOperation.unset_trade_amount o.value }

unfoldable pub get_trade_amount : OrderOperation → Option TradeAmount
get_trade_amount o = new_trade_amount_from_handle o.value.trade_amount

unfoldable pub set_instrument : Instrument → OrderOperation → OrderOperation
unfolding NativeOrderOperation.set_instrument
set_instrument v o = record o {
  value = NativeOrderOperation.set_instrument (instrument_handle v) o.value;
  retain_instrument = v;
}

unfoldable pub unset_instrument : OrderOperation → OrderOperation
unfolding NativeOrderOperation.unset_instrument
unset_instrument o = record o {
  value = NativeOrderOperation.unset_instrument o.value;
  retain_instrument = no_instrument;
}

unfoldable pub get_instrument : OrderOperation → Option (List ℕ × List ℕ)
get_instrument o = new_instrument_from_handle o.value.instrument

unfoldable pub set_price : ℕ → OrderOperation → OrderOperation
unfolding NativeOrderOperation.set_price
set_price v o = record o { value = NativeOrderOperation.set_price v o.value }

unfoldable pub unset_price : OrderOperation → OrderOperation
unfolding NativeOrderOperation.unset_price
unset_price o = record o { value = NativeOrderOperation.unset_price o.value }

unfoldable pub get_price : OrderOperation → Option ℕ
get_price o = option_of o.value.price

unfoldable pub set_account_id : ℕ → OrderOperation → OrderOperation
unfolding NativeOrderOperation.set_account_id
set_account_id v o = record o { value = NativeOrderOperation.set_account_id v o.value }

unfoldable pub unset_account_id : OrderOperation → OrderOperation
unfolding NativeOrderOperation.unset_account_id
unset_account_id o = record o { value = NativeOrderOperation.unset_account_id o.value }

unfoldable pub get_account_id : OrderOperation → Option ℕ
get_account_id o = option_of o.value.account_id

unfoldable pub set_side : Side → OrderOperation → OrderOperation
unfolding NativeOrderOperation.set_side
set_side v o = record o { value = NativeOrderOperation.set_side (side_handle v) o.value }

unfoldable pub unset_side : OrderOperation → OrderOperation
unfolding NativeOrderOperation.unset_side
unset_side o = record o { value = NativeOrderOperation.unset_side o.value }

unfoldable pub get_side : OrderOperation → Option Side
get_side o = new_side_from_handle o.value.side

unfoldable pub values : OrderOperation → OrderOperationValues (List ℕ × List ℕ)
unfolding get_trade_amount get_instrument get_price get_account_id get_side
values o = record {
  trade_amount = get_trade_amount o;
  instrument = get_instrument o;
  price = get_price o;
  account_id = get_account_id o;
  side = get_side o;
}

-- `setValues`: the fields in the order of the source.
unfoldable pub apply_values : OrderOperationValues Instrument → OrderOperation → OrderOperation
apply_values v o =
    let o1 = if_some v.trade_amount set_trade_amount o in
    let o2 = if_some v.instrument set_instrument o1 in
    let o3 = if_some v.price set_price o2 in
    let o4 = if_some v.account_id set_account_id o3 in if_some v.side set_side o4

unfoldable pub set_values : OrderOperationValues Instrument → OrderOperation → OrderOperation
set_values v o = apply_values v (reset o)

unfoldable pub new_from_values : OrderOperationValues Instrument → OrderOperation
new_from_values v = apply_values v new

-- A call of a method that changes the struct; its view has the same methods.
pub data Call : Type 0 where
  resets : Call
  sets_trade_amount : TradeAmount → Call
  unsets_trade_amount : Call
  sets_instrument : Instrument → Call
  unsets_instrument : Call
  sets_price : ℕ → Call
  unsets_price : Call
  sets_account_id : ℕ → Call
  unsets_account_id : Call
  sets_side : Side → Call
  unsets_side : Call

unfoldable pub call : Call → OrderOperation → OrderOperation
unfolding reset set_trade_amount unset_trade_amount set_instrument unset_instrument set_price
    unset_price set_account_id unset_account_id set_side unset_side
call resets o = reset o
call (sets_trade_amount v) o = set_trade_amount v o
call unsets_trade_amount o = unset_trade_amount o
call (sets_instrument v) o = set_instrument v o
call unsets_instrument o = unset_instrument o
call (sets_price v) o = set_price v o
call unsets_price o = unset_price o
call (sets_account_id v) o = set_account_id v o
call unsets_account_id o = unset_account_id o
call (sets_side v) o = set_side v o
call unsets_side o = unset_side o
