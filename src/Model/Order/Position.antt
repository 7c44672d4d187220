-- ===== src/Model/Order/Position.antt =====
-- `OrderPosition` of model/order.go with its view.
pub mod Spec
use pit_go.Base.{Bool, Option}
use pit_go.Model.Param.{
  if_some, PositionSide, new_position_side_from_handle, position_side_handle, new_native_tri_bool,
  new_bool_option_from_native, tri_not_set,
}
use pit_go.Model.Native.OrderPosition as NativeOrderPosition
use pit_go.Model.Native.OrderPosition.{NativeOrderPosition}

pub record OrderPosition : Type 0 where
  pub value : NativeOrderPosition

pub record OrderPositionValues : Type 0 where
  pub position_side : Option PositionSide
  pub reduce_only : Option Bool
  pub close_position : Option Bool

unfoldable pub new : OrderPosition
unfolding NativeOrderPosition.new
new = record { value = NativeOrderPosition.new }

unfoldable pub reset : OrderPosition → OrderPosition
unfolding NativeOrderPosition.new
reset o = record { value = NativeOrderPosition.new }

unfoldable pub set_position_side : PositionSide → OrderPosition → OrderPosition
unfolding NativeOrderPosition.set_position_side
set_position_side v o = record o {
  value = NativeOrderPosition.set_position_side (position_side_handle v) o.value;
}

unfoldable pub unset_position_side : OrderPosition → OrderPosition
unfolding NativeOrderPosition.unset_position_side
unset_position_side o = record o { value = NativeOrderPosition.unset_position_side o.value }

unfoldable pub get_position_side : OrderPosition → Option PositionSide
get_position_side o = new_position_side_from_handle o.value.position_side

unfoldable pub set_reduce_only : Bool → OrderPosition → OrderPosition
unfolding NativeOrderPosition.set_reduce_only
set_reduce_only v o = record o {
  value = NativeOrderPosition.set_reduce_only (new_native_tri_bool v) o.value;
}

unfoldable pub unset_reduce_only : OrderPosition → OrderPosition
unfolding NativeOrderPosition.unset_reduce_only
unset_reduce_only o = record o { value = NativeOrderPosition.unset_reduce_only o.value }

unfoldable pub get_reduce_only : OrderPosition → Option Bool
get_reduce_only o = new_bool_option_from_native o.value.reduce_only

unfoldable pub set_close_position : Bool → OrderPosition → OrderPosition
unfolding NativeOrderPosition.set_close_position
set_close_position v o = record o {
  value = NativeOrderPosition.set_close_position (new_native_tri_bool v) o.value;
}

unfoldable pub unset_close_position : OrderPosition → OrderPosition
unfolding NativeOrderPosition.set_close_position
unset_close_position o = record o {
  value = NativeOrderPosition.set_close_position tri_not_set o.value;
}

unfoldable pub get_close_position : OrderPosition → Option Bool
get_close_position o = new_bool_option_from_native o.value.close_position

unfoldable pub values : OrderPosition → OrderPositionValues
unfolding get_position_side get_reduce_only get_close_position
values o = record {
  position_side = get_position_side o;
  reduce_only = get_reduce_only o;
  close_position = get_close_position o;
}

-- `setValues`: the fields in the order of the source.
unfoldable pub apply_values : OrderPositionValues → OrderPosition → OrderPosition
apply_values v o =
    let o1 = if_some v.position_side set_position_side o in
    let o2 = if_some v.reduce_only set_reduce_only o1 in
    if_some v.close_position set_close_position o2

unfoldable pub set_values : OrderPositionValues → OrderPosition → OrderPosition
set_values v o = apply_values v (reset o)

unfoldable pub new_from_values : OrderPositionValues → OrderPosition
new_from_values v = apply_values v new

-- A call of a method that changes the struct; its view has the same methods.
pub data Call : Type 0 where
  resets : Call
  sets_position_side : PositionSide → Call
  unsets_position_side : Call
  sets_reduce_only : Bool → Call
  unsets_reduce_only : Call
  sets_close_position : Bool → Call
  unsets_close_position : Call

unfoldable pub call : Call → OrderPosition → OrderPosition
unfolding reset set_position_side unset_position_side set_reduce_only unset_reduce_only
    set_close_position unset_close_position
call resets o = reset o
call (sets_position_side v) o = set_position_side v o
call unsets_position_side o = unset_position_side o
call (sets_reduce_only v) o = set_reduce_only v o
call unsets_reduce_only o = unset_reduce_only o
call (sets_close_position v) o = set_close_position v o
call unsets_close_position o = unset_close_position o
