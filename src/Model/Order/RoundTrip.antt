-- ===== src/Model/Order/RoundTrip.antt =====
-- Orders of model/order.go that are filled from values.
use pit_go.Base.{◌≡◌, refl, ◌∙◌, Option, none, some}
use pit_go.Model.Param.{Instrument, Asset}
use pit_go.Model.Order.Operation
use pit_go.Model.Order.Operation.{OrderOperation, OrderOperationValues}
use pit_go.Model.Order.Operation.Spec as OperationSpec
use pit_go.Model.Order.Position
use pit_go.Model.Order.Position.{OrderPosition, OrderPositionValues}
use pit_go.Model.Order.Position.Spec as PositionSpec
use pit_go.Model.Order.Margin
use pit_go.Model.Order.Margin.{OrderMargin, OrderMarginValues}
use pit_go.Model.Order.Margin.Spec as MarginSpec
use pit_go.Model.Order.Whole.{
  Order, OrderValues, values, set_values, apply_values, set_operation, set_position, set_margin,
}
use pit_go.Model.Order.Refines.{view, lift}

values_lem :
    (a : Option OrderOperation) (b : Option OrderPosition) (c : Option OrderMargin) (o : Order)
    → values (set_values (record { operation = a; position = b; margin = c }) o)
      ≡ record { operation = a; position = b; margin = c }
unfolding values set_values apply_values set_operation set_position set_margin
values_lem none none none o = refl
values_lem none none (some c) o = refl
values_lem none (some b) none o = refl
values_lem none (some b) (some c) o = refl
values_lem (some a) none none o = refl
values_lem (some a) none (some c) o = refl
values_lem (some a) (some b) none o = refl
values_lem (some a) (some b) (some c) o = refl

-- The groups that an order is set to are those that it gives back, with what they retain.
pub values-set_values : (v : OrderValues) (o : Order) → values (set_values v o) ≡ v
values-set_values v o = values_lem v.operation v.position v.margin o

view-values :
    (o : Order)
    → view o ≡ record {
      operation = lift Operation.values (values o).operation;
      position = lift Position.values (values o).position;
      margin = lift Margin.values (values o).margin;
    }
unfolding view values
view-values o = refl

operation_shown :
    (x : Option (OrderOperationValues Instrument))
    → lift Operation.values (lift Operation.new_from_values x) ≡ lift OperationSpec.shown x
operation_shown none = refl
operation_shown (some x) = rw (OperationSpec.values-new_from_values x) refl

position_shown :
    (x : Option (OrderPositionValues))
    → lift Position.values (lift Position.new_from_values x) ≡ lift PositionSpec.shown x
position_shown none = refl
position_shown (some x) = rw (PositionSpec.values-new_from_values x) refl

margin_shown :
    (x : Option (OrderMarginValues Asset))
    → lift Margin.values (lift Margin.new_from_values x) ≡ lift MarginSpec.shown x
margin_shown none = refl
margin_shown (some x) = rw (MarginSpec.values-new_from_values x) refl

-- An order set to groups made from values shows those values, whatever it held before; only a zero
-- leverage, a trade amount without a kind and an asset without an identifier show as not set.
pub view-set_values :
    (x : Option (OrderOperationValues Instrument)) (y : Option OrderPositionValues)
    (z : Option (OrderMarginValues Asset)) (o : Order)
    → view (
        set_values
          (record {
            operation = lift Operation.new_from_values x;
            position = lift Position.new_from_values y;
            margin = lift Margin.new_from_values z;
          })
          o)
      ≡ record {
        operation = lift OperationSpec.shown x;
        position = lift PositionSpec.shown y;
        margin = lift MarginSpec.shown z;
      }
view-set_values x y z o =
    let v : OrderValues = record {
      operation = lift Operation.new_from_values x;
      position = lift Position.new_from_values y;
      margin = lift Margin.new_from_values z;
    } in
    view-values (set_values v o)
    ∙ rw (values-set_values v o, operation_shown x, position_shown y, margin_shown z) refl
