-- ===== src/Model/Order/Refines.antt =====
-- `Order` of model/order.go against its specification: three optional groups of values.
use pit_go.Base.{
  ◌≡◌, refl, ◌∙◌, ap, Bool, true, false, Option, none, some, List, [], ◌∷◌, ℕ, Bool-cases, inl, inr,
}
use pit_go.Model.Order.Operation
use pit_go.Model.Order.Operation.{OrderOperation, OrderOperationValues}
use pit_go.Model.Order.Operation.Spec as OperationSpec
use pit_go.Model.Order.Position
use pit_go.Model.Order.Position.{OrderPosition, OrderPositionValues}
use pit_go.Model.Order.Position.Spec as PositionSpec
use pit_go.Model.Order.Margin
use pit_go.Model.Order.Margin.{OrderMargin, OrderMarginValues}
use pit_go.Model.Order.Margin.Spec as MarginSpec
use pit_go.Model.Order.Whole.{
  Order, new, Call, resets, call, run, operation_by, operation_of, get_operation,
  ensure_operation_view, through_operation_view, sets_operation, unsets_operation,
  ensures_operation_view, views_operation, position_by, position_of, get_position,
  ensure_position_view, through_position_view, sets_position, unsets_position,
  ensures_position_view, views_position, margin_by, margin_of, get_margin, ensure_margin_view,
  through_margin_view, sets_margin, unsets_margin, ensures_margin_view, views_margin,
}

-- What the caller sees of an order.
pub record View : Type 0 where
  pub operation : Option (OrderOperationValues (List ℕ × List ℕ))
  pub position : Option (OrderPositionValues)
  pub margin : Option (OrderMarginValues (List ℕ))

abbrev pub lift : {A B : Type 0} → (A → B) → Option A → Option B
lift f none = none
lift f (some a) = some (f a)

unfoldable pub view : Order → View
unfolding get_operation get_position get_margin
view o = record {
  operation = lift Operation.values (get_operation o);
  position = lift Position.values (get_position o);
  margin = lift Margin.values (get_margin o);
}

abbrev pub empty_view : View
empty_view = record { operation = none; position = none; margin = none }

abbrev pub ensured : {A : Type 0} → A → Option A → Option A
ensured fresh none = some fresh
ensured fresh (some v) = some v

-- What a call does to what the caller sees: a method of a view changes a group that is set.
abbrev pub on_view : Call → View → View
on_view resets v = empty_view
on_view (sets_operation x) v = record v { operation = some (Operation.values x) }
on_view unsets_operation v = record v { operation = none }
on_view ensures_operation_view v = record v {
  operation = ensured OperationSpec.no_values v.operation;
}
on_view (views_operation c) v = record v {
  operation = lift (OperationSpec.on_values c) v.operation;
}
on_view (sets_position x) v = record v { position = some (Position.values x) }
on_view unsets_position v = record v { position = none }
on_view ensures_position_view v = record v { position = ensured PositionSpec.no_values v.position }
on_view (views_position c) v = record v { position = lift (PositionSpec.on_values c) v.position }
on_view (sets_margin x) v = record v { margin = some (Margin.values x) }
on_view unsets_margin v = record v { margin = none }
on_view ensures_margin_view v = record v { margin = ensured MarginSpec.no_values v.margin }
on_view (views_margin c) v = record v { margin = lift (MarginSpec.on_values c) v.margin }

abbrev pub on_views : List Call → View → View
on_views [] v = v
on_views (c ∷ cs) v = on_views cs (on_view c v)

ensures_operation :
    (o : Order)
    → view (ensure_operation_view o)
      ≡ record (view o) { operation = ensured OperationSpec.no_values (view o).operation }
unfolding view ensure_operation_view Operation.values
ensures_operation o = elim (Bool-cases o.value.operation.is_set) [
  | inl h ↦ rw h refl
  | inr h ↦ rw h refl
]

operation_seen :
    (set : Bool) (c : Operation.Call) (x : OrderOperation)
    → lift Operation.values (operation_by set (Operation.call c x))
      ≡ lift (OperationSpec.on_values c) (lift Operation.values (operation_by set x))
operation_seen true c x = rw (OperationSpec.values-call c x) refl
operation_seen false c x = refl

views_operation_lem :
    (c : Operation.Call) (o : Order)
    → view (through_operation_view c o)
      ≡ record (view o) { operation = lift (OperationSpec.on_values c) (view o).operation }
unfolding view through_operation_view
views_operation_lem c o = rw (operation_seen o.value.operation.is_set c (operation_of o)) refl

ensures_position :
    (o : Order)
    → view (ensure_position_view o)
      ≡ record (view o) { position = ensured PositionSpec.no_values (view o).position }
unfolding view ensure_position_view Position.values
ensures_position o = elim (Bool-cases o.value.position.is_set) [
  | inl h ↦ rw h refl
  | inr h ↦ rw h refl
]

position_seen :
    (set : Bool) (c : Position.Call) (x : OrderPosition)
    → lift Position.values (position_by set (Position.call c x))
      ≡ lift (PositionSpec.on_values c) (lift Position.values (position_by set x))
position_seen true c x = rw (PositionSpec.values-call c x) refl
position_seen false c x = refl

views_position_lem :
    (c : Position.Call) (o : Order)
    → view (through_position_view c o)
      ≡ record (view o) { position = lift (PositionSpec.on_values c) (view o).position }
unfolding view through_position_view
views_position_lem c o = rw (position_seen o.value.position.is_set c (position_of o)) refl

ensures_margin :
    (o : Order)
    → view (ensure_margin_view o)
      ≡ record (view o) { margin = ensured MarginSpec.no_values (view o).margin }
unfolding view ensure_margin_view Margin.values
ensures_margin o = elim (Bool-cases o.value.margin.is_set) [ inl h ↦ rw h refl | inr h ↦ rw h refl ]

margin_seen :
    (set : Bool) (c : Margin.Call) (x : OrderMargin)
    → lift Margin.values (margin_by set (Margin.call c x))
      ≡ lift (MarginSpec.on_values c) (lift Margin.values (margin_by set x))
margin_seen true c x = rw (MarginSpec.values-call c x) refl
margin_seen false c x = refl

views_margin_lem :
    (c : Margin.Call) (o : Order)
    → view (through_margin_view c o)
      ≡ record (view o) { margin = lift (MarginSpec.on_values c) (view o).margin }
unfolding view through_margin_view
views_margin_lem c o = rw (margin_seen o.value.margin.is_set c (margin_of o)) refl

view-call : (c : Call) (o : Order) → view (call c o) ≡ on_view c (view o)
unfolding view call
view-call resets o = refl
view-call (sets_operation v) o = refl
view-call unsets_operation o = refl
view-call ensures_operation_view o = ensures_operation o
view-call (views_operation c) o = views_operation_lem c o
view-call (sets_position v) o = refl
view-call unsets_position o = refl
view-call ensures_position_view o = ensures_position o
view-call (views_position c) o = views_position_lem c o
view-call (sets_margin v) o = refl
view-call unsets_margin o = refl
view-call ensures_margin_view o = ensures_margin o
view-call (views_margin c) o = views_margin_lem c o

run-view : (cs : List Call) (o : Order) → view (run cs o) ≡ on_views cs (view o)
run-view [] o = refl
run-view (c ∷ cs) o = run-view cs (call c o) ∙ ap (on_views cs) (view-call c o)

new-view : view new ≡ empty_view
unfolding view new
new-view = refl

-- Whatever is called on a new order and on views of it, in whatever order, the caller sees what the
-- specification says.
pub order_view-run : (cs : List Call) → view (run cs new) ≡ on_views cs empty_view
order_view-run cs = run-view cs new ∙ ap (on_views cs) new-view
