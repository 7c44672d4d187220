-- ===== src/Model/Order/Retention.antt =====
-- The buffers that the C struct of an order of model/order.go points to stay alive.
use pit_go.Base.{Bool, true, false, List, [], ◌∷◌, All}
use pit_go.Model.Order.Operation.Spec as OperationSpec
use pit_go.Model.Order.Margin.Spec as MarginSpec
use pit_go.Model.Native.OrderOperation as NativeOperation
use pit_go.Model.Native.OrderMargin as NativeMargin
use pit_go.Model.Order.Whole.{
  Order, new, Call, resets, call, run, operation_of, ensure_operation, sets_operation,
  unsets_operation, ensures_operation_view, views_operation, sets_position, unsets_position,
  ensures_position_view, views_position, margin_of, ensure_margin, sets_margin, unsets_margin,
  ensures_margin_view, views_margin,
}

-- An order keeps the buffers of its groups alive, also of those that are not set.
pub record Keeps (o : Order) : Type 0 where
  pub operation_kept : OperationSpec.Keeps (operation_of o)
  pub margin_kept : MarginSpec.Keeps (margin_of o)

-- The group that is given to an order was made by its methods.
abbrev pub IsSound : Call → Type 0
IsSound (sets_operation v) = OperationSpec.Keeps v
IsSound (sets_margin v) = MarginSpec.Keeps v
IsSound _ = Unit {0}

pub new-Keeps : Keeps new
unfolding new
new-Keeps = record {
  operation_kept = record { instrument_kept = (tt, tt) };
  margin_kept = record { collateral_asset_kept = tt };
}

ensures_operation-Keeps :
    (set : Bool) (o : Order)
    → Keeps o
    → OperationSpec.Keeps (record {
      value = (ensure_operation set o.value.operation).value;
      retain_instrument = o.retain.operation_instrument;
    })
unfolding NativeOperation.new
ensures_operation-Keeps true o k = record { instrument_kept = k.operation_kept.instrument_kept }
ensures_operation-Keeps false o k = record { instrument_kept = (tt, tt) }

ensures_margin-Keeps :
    (set : Bool) (o : Order)
    → Keeps o
    → MarginSpec.Keeps (record {
      value = (ensure_margin set o.value.margin).value;
      retain_collateral_asset = o.retain.margin_collateral_asset;
    })
unfolding NativeMargin.new
ensures_margin-Keeps true o k = record {
  collateral_asset_kept = k.margin_kept.collateral_asset_kept;
}
ensures_margin-Keeps false o k = record { collateral_asset_kept = tt }

pub call-Keeps : (c : Call) {o : Order} → IsSound c → Keeps o → Keeps (call c o)
unfolding call new
call-Keeps resets s k = new-Keeps
call-Keeps (sets_operation v) s k = record {
  operation_kept = record { instrument_kept = s.instrument_kept };
  margin_kept = k.margin_kept;
}
call-Keeps unsets_operation s k = record {
  operation_kept = record { instrument_kept = (tt, tt) };
  margin_kept = k.margin_kept;
}
call-Keeps ensures_operation_view {o} s k = record {
  operation_kept = ensures_operation-Keeps o.value.operation.is_set o k;
  margin_kept = k.margin_kept;
}
call-Keeps (views_operation c) s k = record {
  operation_kept =
      let h = OperationSpec.call-Keeps c k.operation_kept in
      record { instrument_kept = h.instrument_kept };
  margin_kept = k.margin_kept;
}
call-Keeps (sets_position v) s k = record {
  operation_kept = k.operation_kept;
  margin_kept = k.margin_kept;
}
call-Keeps unsets_position s k = record {
  operation_kept = k.operation_kept;
  margin_kept = k.margin_kept;
}
call-Keeps ensures_position_view s k = record {
  operation_kept = k.operation_kept;
  margin_kept = k.margin_kept;
}
call-Keeps (views_position c) s k = record {
  operation_kept = k.operation_kept;
  margin_kept = k.margin_kept;
}
call-Keeps (sets_margin v) s k = record {
  operation_kept = k.operation_kept;
  margin_kept = record { collateral_asset_kept = s.collateral_asset_kept };
}
call-Keeps unsets_margin s k = record {
  operation_kept = k.operation_kept;
  margin_kept = record { collateral_asset_kept = tt };
}
call-Keeps ensures_margin_view {o} s k = record {
  operation_kept = k.operation_kept;
  margin_kept = ensures_margin-Keeps o.value.margin.is_set o k;
}
call-Keeps (views_margin c) s k = record {
  operation_kept = k.operation_kept;
  margin_kept =
      let h = MarginSpec.call-Keeps c k.margin_kept in
      record { collateral_asset_kept = h.collateral_asset_kept };
}

run-Keeps : (cs : List Call) {o : Order} → All IsSound cs → Keeps o → Keeps (run cs o)
run-Keeps [] s k = k
run-Keeps (c ∷ cs) s k = run-Keeps cs s.1 (call-Keeps c s.0 k)

-- Whatever is called on a new order and its views, with groups made by their own methods, every buffer
-- that its C struct points to is kept alive by what the order retains.
pub order-Keeps : (cs : List Call) → All IsSound cs → Keeps (run cs new)
order-Keeps cs s = run-Keeps cs s new-Keeps
