-- ===== src/Model/Adjustment/Balance/Spec.antt =====
-- What the methods of `AccountAdjustmentBalanceOperation` of model/account_adjustment.go promise of its values and buffers.
use pit_go.Base.{ℕ, ◌≡◌, refl, Option, none, some, List}
use pit_go.Model.Param.{if_some, Asset, PnlState}
use pit_go.Model.Param.Text.{
  asset_text, plain_pnl, asset_text_lem, plain_pnl_lem, KeepsAsset, asset_kept, value_over,
  value_over-none,
}
use pit_go.Model.Adjustment.Balance.{
  BalanceOperation, BalanceOperationValues, new, values, apply_values, new_from_values, Call, call,
  resets, set_asset, sets_asset, unsets_asset, set_average_entry_price, sets_average_entry_price,
  unsets_average_entry_price, set_realized_pnl, sets_realized_pnl, unsets_realized_pnl,
}

-- The values before any is set.
abbrev pub no_values : BalanceOperationValues (List ℕ)
no_values = record { asset = none; average_entry_price = none; realized_pnl = none }

-- What a call does to the values, whatever the struct behind them is.
abbrev pub on_values : Call → BalanceOperationValues (List ℕ) → BalanceOperationValues (List ℕ)
on_values resets v = no_values
on_values (sets_asset x) v = record v { asset = asset_text x }
on_values unsets_asset v = record v { asset = none }
on_values (sets_average_entry_price x) v = record v { average_entry_price = some x }
on_values unsets_average_entry_price v = record v { average_entry_price = none }
on_values (sets_realized_pnl x) v = record v { realized_pnl = some (plain_pnl x) }
on_values unsets_realized_pnl v = record v { realized_pnl = none }

pub new-values : values new ≡ no_values
unfolding values new
new-values = refl

-- The values of the struct change as the specification says.
pub values-call : (c : Call) (o : BalanceOperation) → values (call c o) ≡ on_values c (values o)
unfolding values call
values-call resets o = refl
values-call (sets_asset v) o = rw (asset_text_lem v) refl
values-call unsets_asset o = refl
values-call (sets_average_entry_price v) o = refl
values-call unsets_average_entry_price o = refl
values-call (sets_realized_pnl v) o = rw (plain_pnl_lem v) refl
values-call unsets_realized_pnl o = refl

-- Every buffer that the C struct points to is kept alive by the struct.
pub record Keeps (o : BalanceOperation) : Type 0 where
  pub asset_kept : KeepsAsset o.retain_asset o.value.asset

pub new-Keeps : Keeps new
unfolding new
new-Keeps = record { asset_kept = tt }

pub call-Keeps : (c : Call) {o : BalanceOperation} → Keeps o → Keeps (call c o)
unfolding call
call-Keeps resets k = record { asset_kept = tt }
call-Keeps (sets_asset v) k = record { asset_kept = asset_kept v }
call-Keeps unsets_asset k = record { asset_kept = tt }
call-Keeps (sets_average_entry_price v) k = record { asset_kept = k.asset_kept }
call-Keeps unsets_average_entry_price k = record { asset_kept = k.asset_kept }
call-Keeps (sets_realized_pnl v) k = record { asset_kept = k.asset_kept }
call-Keeps unsets_realized_pnl k = record { asset_kept = k.asset_kept }

-- What is read after a value is given, or after none is.
abbrev pub asset_over : Option Asset → Option (List ℕ) → Option (List ℕ)
asset_over none old = old
asset_over (some v) old = asset_text v

-- What is read after a value is given, or after none is.
abbrev pub pnl_over : Option PnlState → Option PnlState → Option PnlState
pnl_over none old = old
pnl_over (some v) old = some (plain_pnl v)

-- The values that can be read back of those that were given.
abbrev pub shown : BalanceOperationValues Asset → BalanceOperationValues (List ℕ)
shown v = record {
  asset = asset_over v.asset none;
  average_entry_price = v.average_entry_price;
  realized_pnl = pnl_over v.realized_pnl none;
}

asset_given :
    (x : Option Asset) (o : BalanceOperation)
    → values (if_some x set_asset o) ≡ record (values o) { asset = asset_over x (values o).asset }
unfolding values set_asset
asset_given none o = refl
asset_given (some v) o = rw (asset_text_lem v) refl

average_entry_price_given :
    (x : Option ℕ) (o : BalanceOperation)
    → values (if_some x set_average_entry_price o)
      ≡ record (values o) { average_entry_price = value_over x (values o).average_entry_price }
unfolding values set_average_entry_price
average_entry_price_given none o = refl
average_entry_price_given (some v) o = refl

realized_pnl_given :
    (x : Option PnlState) (o : BalanceOperation)
    → values (if_some x set_realized_pnl o)
      ≡ record (values o) { realized_pnl = pnl_over x (values o).realized_pnl }
unfolding values set_realized_pnl
realized_pnl_given none o = refl
realized_pnl_given (some v) o = rw (plain_pnl_lem v) refl

-- What was given is read back, but for values that the C struct cannot tell from none.
pub values-new_from_values :
    (v : BalanceOperationValues Asset) → values (new_from_values v) ≡ shown v
unfolding new_from_values apply_values
values-new_from_values v =
    rw (realized_pnl_given, average_entry_price_given, asset_given, new-values)
      (rw (value_over-none v.average_entry_price) refl)
