-- ===== src/Model/Adjustment/Refines.antt =====
-- `AccountAdjustment` of model/account_adjustment.go does what its specification says.
use pit_go.Base.{◌≡◌, refl, ◌∙◌, ap, Bool, true, false, some, List, [], ◌∷◌}
use pit_go.Model.Param.{Optional}
use pit_go.Model.Adjustment.Balance
use pit_go.Model.Adjustment.Balance.{BalanceOperation, BalanceOperationValues}
use pit_go.Model.Adjustment.Balance.Spec as BalanceSpec
use pit_go.Model.Native.BalanceOperation as NativeBalance
use pit_go.Model.Adjustment.Position
use pit_go.Model.Adjustment.Position.{PositionOperation, PositionOperationValues}
use pit_go.Model.Adjustment.Position.Spec as PositionSpec
use pit_go.Model.Native.PositionOperation as NativePosition
use pit_go.Model.Adjustment.Amount
use pit_go.Model.Adjustment.Amount.{Amount, AmountValues}
use pit_go.Model.Adjustment.Amount.Spec as AmountSpec
use pit_go.Model.Native.AdjustmentAmounts as NativeAmount
use pit_go.Model.Native.AdjustmentAmounts.{NativeAmount}
use pit_go.Model.Adjustment.Bounds
use pit_go.Model.Adjustment.Bounds.{Bounds, BoundsValues}
use pit_go.Model.Adjustment.Bounds.Spec as BoundsSpec
use pit_go.Model.Native.AdjustmentBounds as NativeBounds
use pit_go.Model.Native.AdjustmentBounds.{NativeBounds}
use pit_go.Model.Adjustment.State.{
  OperationKind, AccountAdjustment, new, balance_of, position_of, amount_of, bounds_of,
}
use pit_go.Model.Adjustment.Operations.{
  selected_balance, selected_position, without_balance, unset_balance_operation, without_position,
  unset_position_operation, without_account_pnl, unset_account_pnl_operation, through_balance_view,
  through_position_view,
}
use pit_go.Model.Adjustment.Groups.{amount_by, ensured_amount, bounds_by, ensured_bounds}
use pit_go.Model.Adjustment.Whole.{
  Call, call, run, resets, sets_balance, unsets_balance, ensures_balance, views_balance,
  sets_position, unsets_position, ensures_position, views_position, sets_account_pnl,
  unsets_account_pnl, sets_amount, unsets_amount, ensures_amount, views_amount, sets_bounds,
  unsets_bounds, ensures_bounds, views_bounds,
}
use pit_go.Model.Adjustment.View.{
  lift, operation_by, view, empty_view, ensured, ensured_balance, ensured_position, but_balance,
  but_position, but_account_pnl, on_balance, on_position, on_view, on_views, balance, position,
}

-- The payload of each kind as the calls leave it.
kind_balance :
    (k : OperationKind) (a : AccountAdjustment)
    → balance (
        Balance.values (record {
          value = selected_balance k a.value.balance;
          retain_asset = a.retain.balance_operation_asset;
        }))
      ≡ ensured_balance (operation_by k a)
unfolding Balance.values NativeBalance.new
kind_balance OperationKind.absent a = refl
kind_balance OperationKind.balance a = refl
kind_balance OperationKind.position a = refl
kind_balance OperationKind.account_pnl a = refl

kind_position :
    (k : OperationKind) (a : AccountAdjustment)
    → position (
        Position.values (record {
          value = selected_position k a.value.position;
          retain_instrument = a.retain.position_operation_instrument;
          retain_collateral_asset = a.retain.position_operation_collateral_asset;
        }))
      ≡ ensured_position (operation_by k a)
unfolding Position.values NativePosition.new
kind_position OperationKind.absent a = refl
kind_position OperationKind.balance a = refl
kind_position OperationKind.position a = refl
kind_position OperationKind.account_pnl a = refl

kind_without_balance :
    (k : OperationKind) (a : AccountAdjustment)
    → operation_by (without_balance k) (unset_balance_operation a) ≡ but_balance (operation_by k a)
unfolding unset_balance_operation
kind_without_balance OperationKind.absent a = refl
kind_without_balance OperationKind.balance a = refl
kind_without_balance OperationKind.position a = refl
kind_without_balance OperationKind.account_pnl a = refl

kind_without_position :
    (k : OperationKind) (a : AccountAdjustment)
    → operation_by (without_position k) (unset_position_operation a)
      ≡ but_position (operation_by k a)
unfolding unset_position_operation
kind_without_position OperationKind.absent a = refl
kind_without_position OperationKind.balance a = refl
kind_without_position OperationKind.position a = refl
kind_without_position OperationKind.account_pnl a = refl

kind_without_account_pnl :
    (k : OperationKind) (a : AccountAdjustment)
    → operation_by (without_account_pnl k) (unset_account_pnl_operation a)
      ≡ but_account_pnl (operation_by k a)
unfolding unset_account_pnl_operation
kind_without_account_pnl OperationKind.absent a = refl
kind_without_account_pnl OperationKind.balance a = refl
kind_without_account_pnl OperationKind.position a = refl
kind_without_account_pnl OperationKind.account_pnl a = refl

kind_on_balance :
    (k : OperationKind) (c : Balance.Call) (a : AccountAdjustment)
    → operation_by k (through_balance_view c a) ≡ on_balance c (operation_by k a)
unfolding through_balance_view
kind_on_balance OperationKind.absent c a = refl
kind_on_balance OperationKind.balance c a = rw (BalanceSpec.values-call c (balance_of a)) refl
kind_on_balance OperationKind.position c a = refl
kind_on_balance OperationKind.account_pnl c a = refl

kind_on_position :
    (k : OperationKind) (c : Position.Call) (a : AccountAdjustment)
    → operation_by k (through_position_view c a) ≡ on_position c (operation_by k a)
unfolding through_position_view
kind_on_position OperationKind.absent c a = refl
kind_on_position OperationKind.balance c a = refl
kind_on_position OperationKind.position c a = rw (PositionSpec.values-call c (position_of a)) refl
kind_on_position OperationKind.account_pnl c a = refl

amount_ensured :
    (set : Bool) (x : NativeAmount)
    → some (Amount.values (record { value = ensured_amount set x }))
      ≡ ensured AmountSpec.no_values (lift Amount.values (amount_by set (record { value = x })))
unfolding Amount.values NativeAmount.new
amount_ensured true x = refl
amount_ensured false x = refl

amount_seen :
    (set : Bool) (c : Amount.Call) (x : Amount)
    → lift Amount.values (amount_by set (Amount.call c x))
      ≡ lift (AmountSpec.on_values c) (lift Amount.values (amount_by set x))
amount_seen true c x = rw (AmountSpec.values-call c x) refl
amount_seen false c x = refl

bounds_ensured :
    (set : Bool) (x : NativeBounds)
    → some (Bounds.values (record { value = ensured_bounds set x }))
      ≡ ensured BoundsSpec.no_values (lift Bounds.values (bounds_by set (record { value = x })))
unfolding Bounds.values NativeBounds.new
bounds_ensured true x = refl
bounds_ensured false x = refl

bounds_seen :
    (set : Bool) (c : Bounds.Call) (x : Bounds)
    → lift Bounds.values (bounds_by set (Bounds.call c x))
      ≡ lift (BoundsSpec.on_values c) (lift Bounds.values (bounds_by set x))
bounds_seen true c x = rw (BoundsSpec.values-call c x) refl
bounds_seen false c x = refl

-- The operation does not depend on the groups.
kind_groups :
    (k : OperationKind) (x : Optional NativeAmount) (y : Optional NativeBounds)
    (a : AccountAdjustment)
    → operation_by k (record a { value = record a.value { amount = x; bounds = y } })
      ≡ operation_by k a
kind_groups OperationKind.absent x y a = refl
kind_groups OperationKind.balance x y a = refl
kind_groups OperationKind.position x y a = refl
kind_groups OperationKind.account_pnl x y a = refl

view-call : (c : Call) (a : AccountAdjustment) → view (call c a) ≡ on_view c (view a)
unfolding view call NativeAmount.new NativeBounds.new
view-call resets a = refl
view-call (sets_balance o) a = refl
view-call unsets_balance a = rw (← kind_without_balance a.value.kind a) refl
view-call ensures_balance a = rw (← kind_balance a.value.kind a) refl
view-call (views_balance c) a = rw (← kind_on_balance a.value.kind c a) refl
view-call (sets_position o) a = refl
view-call unsets_position a = rw (← kind_without_position a.value.kind a) refl
view-call ensures_position a = rw (← kind_position a.value.kind a) refl
view-call (views_position c) a = rw (← kind_on_position a.value.kind c a) refl
view-call (sets_account_pnl o) a = refl
view-call unsets_account_pnl a = rw (← kind_without_account_pnl a.value.kind a) refl
view-call (sets_amount x) a =
    rw (kind_groups a.value.kind (record { is_set = true; value = x.value }) a.value.bounds a) refl
view-call unsets_amount a =
    rw
      (kind_groups a.value.kind (record { is_set = false; value = NativeAmount.new }) a.value.bounds
        a)
      refl
view-call ensures_amount a =
    rw
      (
        ← amount_ensured a.value.amount.is_set a.value.amount.value,
        kind_groups a.value.kind
            (record {
              is_set = true;
              value = ensured_amount a.value.amount.is_set a.value.amount.value;
            })
            a.value.bounds a,
      )
      refl
view-call (views_amount c) a =
    rw
      (
        ← amount_seen a.value.amount.is_set c (amount_of a),
        kind_groups a.value.kind
            (record a.value.amount { value = (Amount.call c (amount_of a)).value }) a.value.bounds
            a,
      )
      refl
view-call (sets_bounds x) a =
    rw (kind_groups a.value.kind a.value.amount (record { is_set = true; value = x.value }) a) refl
view-call unsets_bounds a =
    rw
      (kind_groups a.value.kind a.value.amount (record { is_set = false; value = NativeBounds.new })
        a)
      refl
view-call ensures_bounds a =
    rw
      (
        ← bounds_ensured a.value.bounds.is_set a.value.bounds.value,
        kind_groups a.value.kind a.value.amount
            (record {
              is_set = true;
              value = ensured_bounds a.value.bounds.is_set a.value.bounds.value;
            })
            a,
      )
      refl
view-call (views_bounds c) a =
    rw
      (
        ← bounds_seen a.value.bounds.is_set c (bounds_of a),
        kind_groups a.value.kind a.value.amount
            (record a.value.bounds { value = (Bounds.call c (bounds_of a)).value }) a,
      )
      refl

run-view : (cs : List Call) (a : AccountAdjustment) → view (run cs a) ≡ on_views cs (view a)
run-view [] a = refl
run-view (c ∷ cs) a = run-view cs (call c a) ∙ ap (on_views cs) (view-call c a)

new-view : view new ≡ empty_view
unfolding view new
new-view = refl

-- Whatever is called on a new adjustment and on views of it, in whatever order, the caller sees what
-- the specification says: at most one operation, and nothing that a view of a replaced one wrote.
pub adjustment_view-run : (cs : List Call) → view (run cs new) ≡ on_views cs empty_view
adjustment_view-run cs = run-view cs new ∙ ap (on_views cs) new-view
