-- ===== src/Model/Order/Position/Spec.antt =====
-- What the methods of `OrderPosition` of model/order.go promise of its values and buffers.
use pit_go.Base.{◌≡◌, refl, Bool, true, false, Option, none, some}
use pit_go.Model.Param.{if_some, PositionSide}
use pit_go.Model.Param.Text.{value_over, value_over-none}
use pit_go.Model.Order.Position.{
  OrderPosition, OrderPositionValues, new, values, apply_values, new_from_values, Call, call,
  resets, set_position_side, sets_position_side, unsets_position_side, set_reduce_only,
  sets_reduce_only, unsets_reduce_only, set_close_position, sets_close_position,
  unsets_close_position,
}

-- The values before any is set.
abbrev pub no_values : OrderPositionValues
no_values = record { position_side = none; reduce_only = none; close_position = none }

-- What a call does to the values, whatever the struct behind them is.
abbrev pub on_values : Call → OrderPositionValues → OrderPositionValues
on_values resets v = no_values
on_values (sets_position_side x) v = record v { position_side = some x }
on_values unsets_position_side v = record v { position_side = none }
on_values (sets_reduce_only x) v = record v { reduce_only = some x }
on_values unsets_reduce_only v = record v { reduce_only = none }
on_values (sets_close_position x) v = record v { close_position = some x }
on_values unsets_close_position v = record v { close_position = none }

pub new-values : values new ≡ no_values
unfolding values new
new-values = refl

-- The values of the struct change as the specification says.
pub values-call : (c : Call) (o : OrderPosition) → values (call c o) ≡ on_values c (values o)
unfolding values call
values-call resets o = refl
values-call (sets_position_side PositionSide.long) o = refl
values-call (sets_position_side PositionSide.short) o = refl
values-call unsets_position_side o = refl
values-call (sets_reduce_only true) o = refl
values-call (sets_reduce_only false) o = refl
values-call unsets_reduce_only o = refl
values-call (sets_close_position true) o = refl
values-call (sets_close_position false) o = refl
values-call unsets_close_position o = refl

-- The values that can be read back of those that were given.
abbrev pub shown : OrderPositionValues → OrderPositionValues
shown v = record {
  position_side = v.position_side;
  reduce_only = v.reduce_only;
  close_position = v.close_position;
}

position_side_given :
    (x : Option PositionSide) (o : OrderPosition)
    → values (if_some x set_position_side o)
      ≡ record (values o) { position_side = value_over x (values o).position_side }
unfolding values set_position_side
position_side_given none o = refl
position_side_given (some PositionSide.long) o = refl
position_side_given (some PositionSide.short) o = refl

reduce_only_given :
    (x : Option Bool) (o : OrderPosition)
    → values (if_some x set_reduce_only o)
      ≡ record (values o) { reduce_only = value_over x (values o).reduce_only }
unfolding values set_reduce_only
reduce_only_given none o = refl
reduce_only_given (some true) o = refl
reduce_only_given (some false) o = refl

close_position_given :
    (x : Option Bool) (o : OrderPosition)
    → values (if_some x set_close_position o)
      ≡ record (values o) { close_position = value_over x (values o).close_position }
unfolding values set_close_position
close_position_given none o = refl
close_position_given (some true) o = refl
close_position_given (some false) o = refl

-- What was given is read back, but for values that the C struct cannot tell from none.
pub values-new_from_values : (v : OrderPositionValues) → values (new_from_values v) ≡ shown v
unfolding new_from_values apply_values
values-new_from_values v =
    rw (close_position_given, reduce_only_given, position_side_given, new-values)
      (rw
        (
          value_over-none v.position_side,
          value_over-none v.reduce_only,
          value_over-none v.close_position,
        )
        refl)
