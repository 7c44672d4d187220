-- ===== src/Model/Order/Whole.antt =====
-- `Order` of model/order.go with `Order` of internal/native/order.go.
use pit_go.Base.{Bool, true, false, Option, none, some, List, [], ◌∷◌}
use pit_go.Model.Param.{Optional, Asset, Instrument, no_asset, no_instrument, if_some}
use pit_go.Model.Native.OrderOperation as NativeOperation
use pit_go.Model.Native.OrderOperation.{NativeOrderOperation}
use pit_go.Model.Order.Operation
use pit_go.Model.Order.Operation.{OrderOperation}
use pit_go.Model.Native.OrderPosition as NativePosition
use pit_go.Model.Native.OrderPosition.{NativeOrderPosition}
use pit_go.Model.Order.Position
use pit_go.Model.Order.Position.{OrderPosition}
use pit_go.Model.Native.OrderMargin as NativeMargin
use pit_go.Model.Native.OrderMargin.{NativeOrderMargin}
use pit_go.Model.Order.Margin
use pit_go.Model.Order.Margin.{OrderMargin}

pub record NativeOrder : Type 0 where
  pub operation : Optional NativeOrderOperation
  pub position : Optional NativeOrderPosition
  pub margin : Optional NativeOrderMargin

pub record OrderFieldsRetain : Type 0 where
  pub operation_instrument : Instrument
  pub margin_collateral_asset : Asset

pub record Order : Type 0 where
  pub value : NativeOrder
  pub retain : OrderFieldsRetain

pub record OrderValues : Type 0 where
  pub operation : Option OrderOperation
  pub position : Option OrderPosition
  pub margin : Option OrderMargin

unfoldable pub new_native : NativeOrder
unfolding NativeOperation.new NativePosition.new NativeMargin.new
new_native = record {
  operation = record { is_set = false; value = NativeOperation.new };
  position = record { is_set = false; value = NativePosition.new };
  margin = record { is_set = false; value = NativeMargin.new };
}

unfoldable pub no_retain : OrderFieldsRetain
no_retain = record { operation_instrument = no_instrument; margin_collateral_asset = no_asset }

unfoldable pub new : Order
unfolding new_native no_retain
new = record { value = new_native; retain = no_retain }

unfoldable pub reset : Order → Order
unfolding new_native no_retain
reset o = record o { value = new_native; retain = no_retain }

abbrev pub operation_by : Bool → OrderOperation → Option OrderOperation
operation_by true v = some v
operation_by false v = none

-- What `operation` and its retained values make a struct of.
abbrev pub operation_of : Order → OrderOperation
operation_of o = record {
  value = o.value.operation.value;
  retain_instrument = o.retain.operation_instrument;
}

unfoldable pub get_operation : Order → Option OrderOperation
get_operation o = operation_by o.value.operation.is_set (operation_of o)

unfoldable pub set_operation : OrderOperation → Order → Order
set_operation v o = record o {
  value = record o.value { operation = record { is_set = true; value = v.value } };
  retain = record o.retain { operation_instrument = v.retain_instrument };
}

unfoldable pub unset_operation : Order → Order
unfolding NativeOperation.new
unset_operation o = record o {
  value = record o.value { operation = record { is_set = false; value = NativeOperation.new } };
  retain = record o.retain { operation_instrument = no_instrument };
}

abbrev pub ensure_operation : Bool → Optional NativeOrderOperation → Optional NativeOrderOperation
ensure_operation true v = v
ensure_operation false v = record { is_set = true; value = NativeOperation.new }

unfoldable pub ensure_operation_view : Order → Order
unfolding NativeOperation.new
ensure_operation_view o = record o {
  value = record o.value {
    operation = ensure_operation o.value.operation.is_set o.value.operation;
  };
}

-- A method of a view, which works on the operation of the order, also after it was unset.
unfoldable pub through_operation_view : Operation.Call → Order → Order
unfolding Operation.call
through_operation_view c o =
    let v = Operation.call c (operation_of o) in
    record o {
      value = record o.value { operation = record o.value.operation { value = v.value } };
      retain = record o.retain { operation_instrument = v.retain_instrument };
    }

abbrev pub position_by : Bool → OrderPosition → Option OrderPosition
position_by true v = some v
position_by false v = none

-- What `position` and its retained values make a struct of.
abbrev pub position_of : Order → OrderPosition
position_of o = record { value = o.value.position.value }

unfoldable pub get_position : Order → Option OrderPosition
get_position o = position_by o.value.position.is_set (position_of o)

unfoldable pub set_position : OrderPosition → Order → Order
set_position v o = record o {
  value = record o.value { position = record { is_set = true; value = v.value } };
}

unfoldable pub unset_position : Order → Order
unfolding NativePosition.new
unset_position o = record o {
  value = record o.value { position = record { is_set = false; value = NativePosition.new } };
}

abbrev pub ensure_position : Bool → Optional NativeOrderPosition → Optional NativeOrderPosition
ensure_position true v = v
ensure_position false v = record { is_set = true; value = NativePosition.new }

unfoldable pub ensure_position_view : Order → Order
unfolding NativePosition.new
ensure_position_view o = record o {
  value = record o.value { position = ensure_position o.value.position.is_set o.value.position };
}

-- A method of a view, which works on the position of the order, also after it was unset.
unfoldable pub through_position_view : Position.Call → Order → Order
unfolding Position.call
through_position_view c o =
    let v = Position.call c (position_of o) in
    record o { value = record o.value { position = record o.value.position { value = v.value } } }

abbrev pub margin_by : Bool → OrderMargin → Option OrderMargin
margin_by true v = some v
margin_by false v = none

-- What `margin` and its retained values make a struct of.
abbrev pub margin_of : Order → OrderMargin
margin_of o = record {
  value = o.value.margin.value;
  retain_collateral_asset = o.retain.margin_collateral_asset;
}

unfoldable pub get_margin : Order → Option OrderMargin
get_margin o = margin_by o.value.margin.is_set (margin_of o)

unfoldable pub set_margin : OrderMargin → Order → Order
set_margin v o = record o {
  value = record o.value { margin = record { is_set = true; value = v.value } };
  retain = record o.retain { margin_collateral_asset = v.retain_collateral_asset };
}

unfoldable pub unset_margin : Order → Order
unfolding NativeMargin.new
unset_margin o = record o {
  value = record o.value { margin = record { is_set = false; value = NativeMargin.new } };
  retain = record o.retain { margin_collateral_asset = no_asset };
}

abbrev pub ensure_margin : Bool → Optional NativeOrderMargin → Optional NativeOrderMargin
ensure_margin true v = v
ensure_margin false v = record { is_set = true; value = NativeMargin.new }

unfoldable pub ensure_margin_view : Order → Order
unfolding NativeMargin.new
ensure_margin_view o = record o {
  value = record o.value { margin = ensure_margin o.value.margin.is_set o.value.margin };
}

-- A method of a view, which works on the margin of the order, also after it was unset.
unfoldable pub through_margin_view : Margin.Call → Order → Order
unfolding Margin.call
through_margin_view c o =
    let v = Margin.call c (margin_of o) in
    record o {
      value = record o.value { margin = record o.value.margin { value = v.value } };
      retain = record o.retain { margin_collateral_asset = v.retain_collateral_asset };
    }

unfoldable pub values : Order → OrderValues
unfolding get_operation get_position get_margin
values o = record { operation = get_operation o; position = get_position o; margin = get_margin o }

unfoldable pub apply_values : OrderValues → Order → Order
apply_values v o =
    if_some v.margin set_margin
      (if_some v.position set_position (if_some v.operation set_operation o))

unfoldable pub set_values : OrderValues → Order → Order
unfolding reset
set_values v o = apply_values v (reset o)

unfoldable pub new_from_values : OrderValues → Order
unfolding new
new_from_values v = apply_values v new

-- A call that changes the order.
pub data Call : Type 0 where
  resets : Call
  sets_operation : OrderOperation → Call
  unsets_operation : Call
  ensures_operation_view : Call
  views_operation : Operation.Call → Call
  sets_position : OrderPosition → Call
  unsets_position : Call
  ensures_position_view : Call
  views_position : Position.Call → Call
  sets_margin : OrderMargin → Call
  unsets_margin : Call
  ensures_margin_view : Call
  views_margin : Margin.Call → Call

unfoldable pub call : Call → Order → Order
unfolding reset set_operation unset_operation ensure_operation_view through_operation_view
    set_position unset_position ensure_position_view through_position_view set_margin unset_margin
    ensure_margin_view through_margin_view
call resets o = reset o
call (sets_operation v) o = set_operation v o
call unsets_operation o = unset_operation o
call ensures_operation_view o = ensure_operation_view o
call (views_operation c) o = through_operation_view c o
call (sets_position v) o = set_position v o
call unsets_position o = unset_position o
call ensures_position_view o = ensure_position_view o
call (views_position c) o = through_position_view c o
call (sets_margin v) o = set_margin v o
call unsets_margin o = unset_margin o
call ensures_margin_view o = ensure_margin_view o
call (views_margin c) o = through_margin_view c o

abbrev pub run : List Call → Order → Order
run [] o = o
run (c ∷ cs) o = run cs (call c o)
