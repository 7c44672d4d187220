-- ===== src/Examples/ModelRuns.antt =====
-- Orders and adjustments of model/ that are filled in, read and changed through stale views.
use pit_go.Base.{◌≡◌, some, none, [], ◌∷◌, List}
use pit_go.Model.Param.{Asset, Instrument, PositionMode, Side}
use pit_go.Model.Order.Operation
use pit_go.Model.Order.Margin
use pit_go.Model.Order.Whole as Order
use pit_go.Model.Order.Refines as OrderRefines
use pit_go.Model.Order.Refines.{order_view-run}
use pit_go.Model.Order.RoundTrip.{view-set_values}
use pit_go.Model.Order.Retention.{order-Keeps}
use pit_go.Model.Order.Retention as OrderRetention
use pit_go.Model.Adjustment.Balance
use pit_go.Model.Adjustment.Position
use pit_go.Model.Adjustment.Whole as Adjustment
use pit_go.Model.Adjustment.View as AdjustmentView
use pit_go.Model.Adjustment.State as AdjustmentState
use pit_go.Model.Adjustment.Refines.{adjustment_view-run}
use pit_go.Model.Adjustment.RoundTrip.{view-set_values_made}
use pit_go.Model.Adjustment.Retention.{adjustment-Keeps}
use pit_go.Model.Adjustment.Retention as AdjustmentRetention

abbrev usd : Asset
usd = record { buf = some (record { address = 64; text = 85 ∷ 83 ∷ 68 ∷ [] }) }

abbrev aapl : Asset
aapl = record { buf = some (record { address = 96; text = 65 ∷ 65 ∷ [] }) }

abbrev shares : Instrument
shares = record { underlying_asset = aapl; settlement_asset = usd }

-- The view writes before and after its operation is unset.
abbrev order_calls : List Order.Call
order_calls =
    Order.ensures_operation_view
    ∷ Order.views_operation (Operation.sets_instrument shares)
    ∷ Order.unsets_operation
    ∷ Order.views_operation (Operation.sets_price 7)
    ∷ Order.ensures_margin_view
    ∷ Order.views_margin (Margin.sets_collateral_asset usd)
    ∷ []

order_view-run_example : OrderRefines.view (Order.run order_calls Order.new) ≡ record {
  operation = none;
  position = none;
  margin =
      some (record {
        collateral_asset = some (85 ∷ 83 ∷ 68 ∷ []);
        auto_borrow = none;
        leverage = none;
      });
}
order_view-run_example = order_view-run order_calls

order-Keeps_example : OrderRetention.Keeps (Order.run order_calls Order.new)
order-Keeps_example = order-Keeps order_calls (tt, (tt, (tt, (tt, (tt, (tt, tt))))))

view-set_values_example :
    OrderRefines.view (
      Order.set_values
        (record {
          operation = some (
              Operation.new_from_values (record {
                trade_amount = none;
                instrument = some shares;
                price = some 5;
                account_id = none;
                side = some Side.sell;
              }));
          position = none;
          margin = none;
        })
        Order.new)
    ≡ record {
      operation = some (record {
        trade_amount = none;
        instrument = some (65 ∷ 65 ∷ [], 85 ∷ 83 ∷ 68 ∷ []);
        price = some 5;
        account_id = none;
        side = some Side.sell;
      });
      position = none;
      margin = none;
    }
view-set_values_example =
    view-set_values
      (some (record {
        trade_amount = none;
        instrument = some shares;
        price = some 5;
        account_id = none;
        side = some Side.sell;
      }))
      none none Order.new

-- A view of the balance operation writes after the position operation has replaced it.
abbrev adjustment_calls : List Adjustment.Call
adjustment_calls =
    Adjustment.ensures_balance
    ∷ Adjustment.views_balance (Balance.sets_asset usd)
    ∷ Adjustment.ensures_position
    ∷ Adjustment.views_position (Position.sets_mode PositionMode.hedged)
    ∷ Adjustment.views_balance (Balance.sets_asset aapl)
    ∷ []

adjustment_view-run_example :
    AdjustmentView.view (Adjustment.run adjustment_calls AdjustmentState.new) ≡ record {
      operation = AdjustmentView.position (record {
        instrument = none;
        collateral_asset = none;
        average_entry_price = none;
        leverage = none;
        mode = some PositionMode.hedged;
      });
      amount = none;
      bounds = none;
    }
adjustment_view-run_example = adjustment_view-run adjustment_calls

adjustment-Keeps_example :
    AdjustmentRetention.Keeps (Adjustment.run adjustment_calls AdjustmentState.new)
adjustment-Keeps_example = adjustment-Keeps adjustment_calls (tt, (tt, (tt, (tt, (tt, tt)))))

-- Both operations are given, and a halted PnL state with a value: the PnL state wins.
view-set_values_made_example :
    AdjustmentView.view (
      Adjustment.set_values
        (record {
          balance_operation = some (
              Balance.new_from_values
                (record { asset = some usd; average_entry_price = none; realized_pnl = none }));
          position_operation = none;
          account_pnl_operation =
              some
                (AdjustmentState.new_account_pnl_operation (record { value = 4; halt_reason = 2 }));
          amount = none;
          bounds = none;
        })
        AdjustmentState.new)
    ≡ record {
      operation = AdjustmentView.account_pnl (record { value = 0; halt_reason = 2 });
      amount = none;
      bounds = none;
    }
view-set_values_made_example =
    view-set_values_made
      (some (record { asset = some usd; average_entry_price = none; realized_pnl = none })) none
      (some (record { value = 4; halt_reason = 2 })) none none AdjustmentState.new
