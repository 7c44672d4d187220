-- ===== src/Model/Adjustment/Retention.antt =====
-- The buffers that the C struct of an adjustment of model/account_adjustment.go points to stay alive.
use pit_go.Base.{List, [], ◌∷◌, All}
use pit_go.Model.Adjustment.Balance.Spec as BalanceSpec
use pit_go.Model.Adjustment.Position.Spec as PositionSpec
use pit_go.Model.Native.BalanceOperation as NativeBalance
use pit_go.Model.Native.PositionOperation as NativePosition
use pit_go.Model.Adjustment.State.{
  OperationKind, AccountAdjustment, no_retain, new, balance_of, position_of,
}
use pit_go.Model.Adjustment.Operations.{selected_balance, selected_position}
use pit_go.Model.Adjustment.Whole.{
  Call, call, run, resets, sets_balance, unsets_balance, ensures_balance, views_balance,
  sets_position, unsets_position, ensures_position, views_position, sets_account_pnl,
  unsets_account_pnl, sets_amount, unsets_amount, ensures_amount, views_amount, sets_bounds,
  unsets_bounds, ensures_bounds, views_bounds,
}

-- An adjustment keeps the buffers of its payloads alive, also of those that are not set.
pub record Keeps (a : AccountAdjustment) : Type 0 where
  pub balance_kept : BalanceSpec.Keeps (balance_of a)
  pub position_kept : PositionSpec.Keeps (position_of a)

-- The operation that is given to an adjustment was made by its methods.
abbrev pub IsSound : Call → Type 0
IsSound (sets_balance o) = BalanceSpec.Keeps o
IsSound (sets_position o) = PositionSpec.Keeps o
IsSound _ = Unit {0}

selected_balance-Keeps :
    (k : OperationKind) (a : AccountAdjustment)
    → Keeps a
    → BalanceSpec.Keeps (record {
      value = selected_balance k a.value.balance;
      retain_asset = a.retain.balance_operation_asset;
    })
unfolding NativeBalance.new
selected_balance-Keeps OperationKind.absent a h = record { asset_kept = tt }
selected_balance-Keeps OperationKind.balance a h = record { asset_kept = h.balance_kept.asset_kept }
selected_balance-Keeps OperationKind.position a h = record { asset_kept = tt }
selected_balance-Keeps OperationKind.account_pnl a h = record { asset_kept = tt }

selected_position-Keeps :
    (k : OperationKind) (a : AccountAdjustment)
    → Keeps a
    → PositionSpec.Keeps (record {
      value = selected_position k a.value.position;
      retain_instrument = a.retain.position_operation_instrument;
      retain_collateral_asset = a.retain.position_operation_collateral_asset;
    })
unfolding NativePosition.new
selected_position-Keeps OperationKind.absent a h = record {
  instrument_kept = (tt, tt);
  collateral_asset_kept = tt;
}
selected_position-Keeps OperationKind.balance a h = record {
  instrument_kept = (tt, tt);
  collateral_asset_kept = tt;
}
selected_position-Keeps OperationKind.position a h = record {
  instrument_kept = h.position_kept.instrument_kept;
  collateral_asset_kept = h.position_kept.collateral_asset_kept;
}
selected_position-Keeps OperationKind.account_pnl a h = record {
  instrument_kept = (tt, tt);
  collateral_asset_kept = tt;
}

pub new-Keeps : Keeps new
unfolding new
new-Keeps = record {
  balance_kept = record { asset_kept = tt };
  position_kept = record { instrument_kept = (tt, tt); collateral_asset_kept = tt };
}

pub call-Keeps : (c : Call) {a : AccountAdjustment} → IsSound c → Keeps a → Keeps (call c a)
unfolding call no_retain
call-Keeps resets {a} s k = record {
  balance_kept = record { asset_kept = tt };
  position_kept = record { instrument_kept = (tt, tt); collateral_asset_kept = tt };
}
call-Keeps (sets_balance x) {a} s k = record {
  balance_kept = record { asset_kept = s.asset_kept };
  position_kept = record { instrument_kept = (tt, tt); collateral_asset_kept = tt };
}
call-Keeps unsets_balance {a} s k = record {
  balance_kept = record { asset_kept = tt };
  position_kept = record {
    instrument_kept = k.position_kept.instrument_kept;
    collateral_asset_kept = k.position_kept.collateral_asset_kept;
  };
}
call-Keeps ensures_balance {a} s k = record {
  balance_kept = selected_balance-Keeps a.value.kind a k;
  position_kept = record { instrument_kept = (tt, tt); collateral_asset_kept = tt };
}
call-Keeps (views_balance x) {a} s k = record {
  balance_kept =
      let h = BalanceSpec.call-Keeps x k.balance_kept in record { asset_kept = h.asset_kept };
  position_kept = record {
    instrument_kept = k.position_kept.instrument_kept;
    collateral_asset_kept = k.position_kept.collateral_asset_kept;
  };
}
call-Keeps (sets_position x) {a} s k = record {
  balance_kept = record { asset_kept = tt };
  position_kept = record {
    instrument_kept = s.instrument_kept;
    collateral_asset_kept = s.collateral_asset_kept;
  };
}
call-Keeps unsets_position {a} s k = record {
  balance_kept = record { asset_kept = k.balance_kept.asset_kept };
  position_kept = record { instrument_kept = (tt, tt); collateral_asset_kept = tt };
}
call-Keeps ensures_position {a} s k = record {
  balance_kept = record { asset_kept = tt };
  position_kept = selected_position-Keeps a.value.kind a k;
}
call-Keeps (views_position x) {a} s k = record {
  balance_kept = record { asset_kept = k.balance_kept.asset_kept };
  position_kept =
      let h = PositionSpec.call-Keeps x k.position_kept in
      record {
        instrument_kept = h.instrument_kept;
        collateral_asset_kept = h.collateral_asset_kept;
      };
}
call-Keeps (sets_account_pnl x) {a} s k = record {
  balance_kept = record { asset_kept = tt };
  position_kept = record { instrument_kept = (tt, tt); collateral_asset_kept = tt };
}
call-Keeps unsets_account_pnl {a} s k = record {
  balance_kept = record { asset_kept = k.balance_kept.asset_kept };
  position_kept = record {
    instrument_kept = k.position_kept.instrument_kept;
    collateral_asset_kept = k.position_kept.collateral_asset_kept;
  };
}
call-Keeps (sets_amount x) {a} s k = record {
  balance_kept = record { asset_kept = k.balance_kept.asset_kept };
  position_kept = record {
    instrument_kept = k.position_kept.instrument_kept;
    collateral_asset_kept = k.position_kept.collateral_asset_kept;
  };
}
call-Keeps unsets_amount {a} s k = record {
  balance_kept = record { asset_kept = k.balance_kept.asset_kept };
  position_kept = record {
    instrument_kept = k.position_kept.instrument_kept;
    collateral_asset_kept = k.position_kept.collateral_asset_kept;
  };
}
call-Keeps ensures_amount {a} s k = record {
  balance_kept = record { asset_kept = k.balance_kept.asset_kept };
  position_kept = record {
    instrument_kept = k.position_kept.instrument_kept;
    collateral_asset_kept = k.position_kept.collateral_asset_kept;
  };
}
call-Keeps (views_amount x) {a} s k = record {
  balance_kept = record { asset_kept = k.balance_kept.asset_kept };
  position_kept = record {
    instrument_kept = k.position_kept.instrument_kept;
    collateral_asset_kept = k.position_kept.collateral_asset_kept;
  };
}
call-Keeps (sets_bounds x) {a} s k = record {
  balance_kept = record { asset_kept = k.balance_kept.asset_kept };
  position_kept = record {
    instrument_kept = k.position_kept.instrument_kept;
    collateral_asset_kept = k.position_kept.collateral_asset_kept;
  };
}
call-Keeps unsets_bounds {a} s k = record {
  balance_kept = record { asset_kept = k.balance_kept.asset_kept };
  position_kept = record {
    instrument_kept = k.position_kept.instrument_kept;
    collateral_asset_kept = k.position_kept.collateral_asset_kept;
  };
}
call-Keeps ensures_bounds {a} s k = record {
  balance_kept = record { asset_kept = k.balance_kept.asset_kept };
  position_kept = record {
    instrument_kept = k.position_kept.instrument_kept;
    collateral_asset_kept = k.position_kept.collateral_asset_kept;
  };
}
call-Keeps (views_bounds x) {a} s k = record {
  balance_kept = record { asset_kept = k.balance_kept.asset_kept };
  position_kept = record {
    instrument_kept = k.position_kept.instrument_kept;
    collateral_asset_kept = k.position_kept.collateral_asset_kept;
  };
}

run-Keeps : (cs : List Call) {a : AccountAdjustment} → All IsSound cs → Keeps a → Keeps (run cs a)
run-Keeps [] s k = k
run-Keeps (c ∷ cs) s k = run-Keeps cs s.1 (call-Keeps c s.0 k)

-- Whatever is called on a new adjustment and its views, with operations made by their own methods,
-- every buffer that its C struct points to is kept alive by what the adjustment retains.
pub adjustment-Keeps : (cs : List Call) → All IsSound cs → Keeps (run cs new)
adjustment-Keeps cs s = run-Keeps cs s new-Keeps
