-- ===== src/Model/Adjustment/View.antt =====
-- The specification of `AccountAdjustment` of model/account_adjustment.go: one operation of three kinds or
-- none, and two optional groups of values.
use pit_go.Base.{Option, none, some, List, [], ◌∷◌, ℕ}
use pit_go.Model.Param.{PnlState}
use pit_go.Model.Adjustment.Balance
use pit_go.Model.Adjustment.Balance.{BalanceOperation, BalanceOperationValues}
use pit_go.Model.Adjustment.Balance.Spec as BalanceSpec
use pit_go.Model.Adjustment.Position
use pit_go.Model.Adjustment.Position.{PositionOperation, PositionOperationValues}
use pit_go.Model.Adjustment.Position.Spec as PositionSpec
use pit_go.Model.Adjustment.Amount
use pit_go.Model.Adjustment.Amount.{Amount, AmountValues}
use pit_go.Model.Adjustment.Amount.Spec as AmountSpec
use pit_go.Model.Adjustment.Bounds
use pit_go.Model.Adjustment.Bounds.{Bounds, BoundsValues}
use pit_go.Model.Adjustment.Bounds.Spec as BoundsSpec
use pit_go.Model.Adjustment.State.{OperationKind, AccountAdjustment, state, balance_of, position_of}
use pit_go.Model.Adjustment.Groups.{get_amount, get_bounds}
use pit_go.Model.Adjustment.Whole.{
  Call, resets, sets_balance, unsets_balance, ensures_balance, views_balance, sets_position,
  unsets_position, ensures_position, views_position, sets_account_pnl, unsets_account_pnl,
  sets_amount, unsets_amount, ensures_amount, views_amount, sets_bounds, unsets_bounds,
  ensures_bounds, views_bounds,
}

pub data OperationView : Type 0 where
  absent : OperationView
  balance : BalanceOperationValues (List ℕ) → OperationView
  position : PositionOperationValues (List ℕ × List ℕ) (List ℕ) → OperationView
  account_pnl : PnlState → OperationView

-- What the caller sees of an adjustment.
pub record View : Type 0 where
  pub operation : OperationView
  pub amount : Option AmountValues
  pub bounds : Option BoundsValues

abbrev pub lift : {A B : Type 0} → (A → B) → Option A → Option B
lift f none = none
lift f (some a) = some (f a)

abbrev pub operation_by : OperationKind → AccountAdjustment → OperationView
operation_by OperationKind.absent a = absent
operation_by OperationKind.balance a = balance (Balance.values (balance_of a))
operation_by OperationKind.position a = position (Position.values (position_of a))
operation_by OperationKind.account_pnl a =
    account_pnl (state (record { value = a.value.account_pnl }))

unfoldable pub view : AccountAdjustment → View
unfolding get_amount get_bounds
view a = record {
  operation = operation_by a.value.kind a;
  amount = lift Amount.values (get_amount a);
  bounds = lift Bounds.values (get_bounds a);
}

abbrev pub empty_view : View
empty_view = record { operation = absent; amount = none; bounds = none }

abbrev pub ensured : {A : Type 0} → A → Option A → Option A
ensured fresh none = some fresh
ensured fresh (some v) = some v

abbrev pub ensured_balance : OperationView → OperationView
ensured_balance (balance v) = balance v
ensured_balance _ = balance BalanceSpec.no_values

abbrev pub ensured_position : OperationView → OperationView
ensured_position (position v) = position v
ensured_position _ = position PositionSpec.no_values

abbrev pub but_balance : OperationView → OperationView
but_balance (balance v) = absent
but_balance v = v

abbrev pub but_position : OperationView → OperationView
but_position (position v) = absent
but_position v = v

abbrev pub but_account_pnl : OperationView → OperationView
but_account_pnl (account_pnl v) = absent
but_account_pnl v = v

abbrev pub on_balance : Balance.Call → OperationView → OperationView
on_balance c (balance v) = balance (BalanceSpec.on_values c v)
on_balance c v = v

abbrev pub on_position : Position.Call → OperationView → OperationView
on_position c (position v) = position (PositionSpec.on_values c v)
on_position c v = v

-- What a call does to what the caller sees: an operation replaces any other, and a method of a view
-- changes the operation or group if it is still the one that is set.
abbrev pub on_view : Call → View → View
on_view resets v = empty_view
on_view (sets_balance o) v = record v { operation = balance (Balance.values o) }
on_view unsets_balance v = record v { operation = but_balance v.operation }
on_view ensures_balance v = record v { operation = ensured_balance v.operation }
on_view (views_balance c) v = record v { operation = on_balance c v.operation }
on_view (sets_position o) v = record v { operation = position (Position.values o) }
on_view unsets_position v = record v { operation = but_position v.operation }
on_view ensures_position v = record v { operation = ensured_position v.operation }
on_view (views_position c) v = record v { operation = on_position c v.operation }
on_view (sets_account_pnl o) v = record v { operation = account_pnl (state o) }
on_view unsets_account_pnl v = record v { operation = but_account_pnl v.operation }
on_view (sets_amount x) v = record v { amount = some (Amount.values x) }
on_view unsets_amount v = record v { amount = none }
on_view ensures_amount v = record v { amount = ensured AmountSpec.no_values v.amount }
on_view (views_amount c) v = record v { amount = lift (AmountSpec.on_values c) v.amount }
on_view (sets_bounds x) v = record v { bounds = some (Bounds.values x) }
on_view unsets_bounds v = record v { bounds = none }
on_view ensures_bounds v = record v { bounds = ensured BoundsSpec.no_values v.bounds }
on_view (views_bounds c) v = record v { bounds = lift (BoundsSpec.on_values c) v.bounds }

abbrev pub on_views : List Call → View → View
on_views [] v = v
on_views (c ∷ cs) v = on_views cs (on_view c v)
