-- ===== src/Model/Adjustment/RoundTrip.antt =====
-- Adjustments of model/account_adjustment.go that are filled from values.
use pit_go.Base.{◌≡◌, refl, ◌∙◌, Option, none, some}
use pit_go.Model.Param.{Instrument, Asset, PnlState}
use pit_go.Model.Param.Text.{plain_pnl, plain_pnl_lem}
use pit_go.Model.Adjustment.Balance
use pit_go.Model.Adjustment.Balance.{BalanceOperation, BalanceOperationValues}
use pit_go.Model.Adjustment.Balance.Spec as BalanceSpec
use pit_go.Model.Adjustment.Position
use pit_go.Model.Adjustment.Position.{PositionOperation, PositionOperationValues}
use pit_go.Model.Adjustment.Position.Spec as PositionSpec
use pit_go.Model.Adjustment.Amount
use pit_go.Model.Adjustment.Amount.{Amount, AmountValues}
use pit_go.Model.Adjustment.Amount.Spec as AmountSpec
use pit_go.Model.Adjustment.Bounds
use pit_go.Model.Adjustment.Bounds.{Bounds, BoundsValues}
use pit_go.Model.Adjustment.Bounds.Spec as BoundsSpec
use pit_go.Model.Adjustment.State.{
  AccountAdjustment, AccountPnlOperation, new_account_pnl_operation, state, AccountAdjustmentValues,
}
use pit_go.Model.Adjustment.Operations.{
  set_balance_operation, set_position_operation, set_account_pnl_operation,
}
use pit_go.Model.Adjustment.Groups.{set_amount, set_bounds}
use pit_go.Model.Adjustment.Whole.{apply_values, set_values}
use pit_go.Model.Adjustment.View.{view, OperationView, lift, balance, position, account_pnl, absent}

-- The last operation that is given wins, in the order balance, position, account PnL.
abbrev pub last_operation :
    Option BalanceOperation → Option PositionOperation → Option AccountPnlOperation → OperationView
last_operation b p (some o) = account_pnl (state o)
last_operation b (some o) none = position (Position.values o)
last_operation (some o) none none = balance (Balance.values o)
last_operation none none none = absent

values_seen :
    (b : Option BalanceOperation) (p : Option PositionOperation) (l : Option AccountPnlOperation)
    (x : Option Amount) (y : Option Bounds) (a : AccountAdjustment)
    → view (
        set_values
          (record {
            balance_operation = b;
            position_operation = p;
            account_pnl_operation = l;
            amount = x;
            bounds = y;
          })
          a)
      ≡ record {
        operation = last_operation b p l;
        amount = lift Amount.values x;
        bounds = lift Bounds.values y;
      }
unfolding view set_values apply_values set_balance_operation set_position_operation
    set_account_pnl_operation set_amount set_bounds
values_seen none none none none none a = refl
values_seen none none none none (some y) a = refl
values_seen none none none (some x) none a = refl
values_seen none none none (some x) (some y) a = refl
values_seen none none (some l) none none a = refl
values_seen none none (some l) none (some y) a = refl
values_seen none none (some l) (some x) none a = refl
values_seen none none (some l) (some x) (some y) a = refl
values_seen none (some p) none none none a = refl
values_seen none (some p) none none (some y) a = refl
values_seen none (some p) none (some x) none a = refl
values_seen none (some p) none (some x) (some y) a = refl
values_seen none (some p) (some l) none none a = refl
values_seen none (some p) (some l) none (some y) a = refl
values_seen none (some p) (some l) (some x) none a = refl
values_seen none (some p) (some l) (some x) (some y) a = refl
values_seen (some b) none none none none a = refl
values_seen (some b) none none none (some y) a = refl
values_seen (some b) none none (some x) none a = refl
values_seen (some b) none none (some x) (some y) a = refl
values_seen (some b) none (some l) none none a = refl
values_seen (some b) none (some l) none (some y) a = refl
values_seen (some b) none (some l) (some x) none a = refl
values_seen (some b) none (some l) (some x) (some y) a = refl
values_seen (some b) (some p) none none none a = refl
values_seen (some b) (some p) none none (some y) a = refl
values_seen (some b) (some p) none (some x) none a = refl
values_seen (some b) (some p) none (some x) (some y) a = refl
values_seen (some b) (some p) (some l) none none a = refl
values_seen (some b) (some p) (some l) none (some y) a = refl
values_seen (some b) (some p) (some l) (some x) none a = refl
values_seen (some b) (some p) (some l) (some x) (some y) a = refl

pub view-set_values :
    (v : AccountAdjustmentValues) (a : AccountAdjustment)
    → view (set_values v a) ≡ record {
      operation = last_operation v.balance_operation v.position_operation v.account_pnl_operation;
      amount = lift Amount.values v.amount;
      bounds = lift Bounds.values v.bounds;
    }
view-set_values v a =
    values_seen v.balance_operation v.position_operation v.account_pnl_operation v.amount v.bounds a

-- The operation that is shown for the values that were given.
abbrev pub shown_operation :
    Option (BalanceOperationValues Asset)
    → Option (PositionOperationValues Instrument Asset)
    → Option PnlState
    → OperationView
shown_operation b p (some s) = account_pnl (plain_pnl s)
shown_operation b (some v) none = position (PositionSpec.shown v)
shown_operation (some v) none none = balance (BalanceSpec.shown v)
shown_operation none none none = absent

operation_shown :
    (b : Option (BalanceOperationValues Asset))
    (p : Option (PositionOperationValues Instrument Asset)) (l : Option PnlState)
    → last_operation
        (lift Balance.new_from_values b)
        (lift Position.new_from_values p)
        (lift new_account_pnl_operation l)
      ≡ shown_operation b p l
unfolding state new_account_pnl_operation
operation_shown b p (some s) = rw (plain_pnl_lem s) refl
operation_shown b (some v) none = rw (PositionSpec.values-new_from_values v) refl
operation_shown (some v) none none = rw (BalanceSpec.values-new_from_values v) refl
operation_shown none none none = refl

amount_shown :
    (x : Option AmountValues)
    → lift Amount.values (lift Amount.new_from_values x) ≡ lift AmountSpec.shown x
amount_shown none = refl
amount_shown (some x) = rw (AmountSpec.values-new_from_values x) refl

bounds_shown :
    (x : Option BoundsValues)
    → lift Bounds.values (lift Bounds.new_from_values x) ≡ lift BoundsSpec.shown x
bounds_shown none = refl
bounds_shown (some x) = rw (BoundsSpec.values-new_from_values x) refl

-- An adjustment set to operations and groups made from values shows, whatever it held before, the last
-- operation that is given and the groups; a zero leverage, an amount without a kind and an asset
-- without an identifier show as not set, and a halted PnL shows no value but zero.
pub view-set_values_made :
    (b : Option (BalanceOperationValues Asset))
    (p : Option (PositionOperationValues Instrument Asset)) (l : Option PnlState)
    (x : Option AmountValues) (y : Option BoundsValues) (a : AccountAdjustment)
    → view (
        set_values
          (record {
            balance_operation = lift Balance.new_from_values b;
            position_operation = lift Position.new_from_values p;
            account_pnl_operation = lift new_account_pnl_operation l;
            amount = lift Amount.new_from_values x;
            bounds = lift Bounds.new_from_values y;
          })
          a)
      ≡ record {
        operation = shown_operation b p l;
        amount = lift AmountSpec.shown x;
        bounds = lift BoundsSpec.shown y;
      }
view-set_values_made b p l x y a =
    view-set_values
      (record {
        balance_operation = lift Balance.new_from_values b;
        position_operation = lift Position.new_from_values p;
        account_pnl_operation = lift new_account_pnl_operation l;
        amount = lift Amount.new_from_values x;
        bounds = lift Bounds.new_from_values y;
      })
      a
    ∙ rw (operation_shown b p l, amount_shown x, bounds_shown y) refl
