-- ===== src/Model/Adjustment/Position/Spec.antt =====
-- What the methods of `AccountAdjustmentPositionOperation` of model/account_adjustment.go promise of its values and buffers.
use pit_go.Base.{ℕ, ◌≡◌, refl, Option, none, some, List}
use pit_go.Model.Param.{if_some, Asset, Instrument, PositionMode, new_leverage_option_from_handle}
use pit_go.Model.Param.Text.{
  asset_text, instrument_text, asset_text_lem, instrument_text_lem, KeepsAsset, KeepsInstrument,
  asset_kept, instrument_kept, value_over, value_over-none,
}
use pit_go.Model.Adjustment.Position.{
  PositionOperation, PositionOperationValues, new, values, apply_values, new_from_values, Call,
  call, resets, set_instrument, sets_instrument, unsets_instrument, set_collateral_asset,
  sets_collateral_asset, unsets_collateral_asset, set_average_entry_price, sets_average_entry_price,
  unsets_average_entry_price, set_leverage, sets_leverage, unsets_leverage, set_mode, sets_mode,
  unsets_mode,
}

-- The values before any is set.
abbrev pub no_values : PositionOperationValues (List ℕ × List ℕ) (List ℕ)
no_values = record {
  instrument = none;
  collateral_asset = none;
  average_entry_price = none;
  leverage = none;
  mode = none;
}

-- What a call does to the values, whatever the struct behind them is.
abbrev pub on_values :
    Call
    → PositionOperationValues (List ℕ × List ℕ) (List ℕ)
    → PositionOperationValues (List ℕ × List ℕ) (List ℕ)
on_values resets v = no_values
on_values (sets_instrument x) v = record v { instrument = instrument_text x }
on_values unsets_instrument v = record v { instrument = none }
on_values (sets_collateral_asset x) v = record v { collateral_asset = asset_text x }
on_values unsets_collateral_asset v = record v { collateral_asset = none }
on_values (sets_average_entry_price x) v = record v { average_entry_price = some x }
on_values unsets_average_entry_price v = record v { average_entry_price = none }
on_values (sets_leverage x) v = record v { leverage = new_leverage_option_from_handle x }
on_values unsets_leverage v = record v { leverage = none }
on_values (sets_mode x) v = record v { mode = some x }
on_values unsets_mode v = record v { mode = none }

pub new-values : values new ≡ no_values
unfolding values new
new-values = refl

-- The values of the struct change as the specification says.
pub values-call : (c : Call) (o : PositionOperation) → values (call c o) ≡ on_values c (values o)
unfolding values call
values-call resets o = refl
values-call (sets_instrument v) o = rw (instrument_text_lem v) refl
values-call unsets_instrument o = refl
values-call (sets_collateral_asset v) o = rw (asset_text_lem v) refl
values-call unsets_collateral_asset o = refl
values-call (sets_average_entry_price v) o = refl
values-call unsets_average_entry_price o = refl
values-call (sets_leverage v) o = refl
values-call unsets_leverage o = refl
values-call (sets_mode PositionMode.netting) o = refl
values-call (sets_mode PositionMode.hedged) o = refl
values-call unsets_mode o = refl

-- Every buffer that the C struct points to is kept alive by the struct.
pub record Keeps (o : PositionOperation) : Type 0 where
  pub instrument_kept : KeepsInstrument o.retain_instrument o.value.instrument
  pub collateral_asset_kept : KeepsAsset o.retain_collateral_asset o.value.collateral_asset

pub new-Keeps : Keeps new
unfolding new
new-Keeps = record { instrument_kept = (tt, tt); collateral_asset_kept = tt }

pub call-Keeps : (c : Call) {o : PositionOperation} → Keeps o → Keeps (call c o)
unfolding call
call-Keeps resets k = record { instrument_kept = (tt, tt); collateral_asset_kept = tt }
call-Keeps (sets_instrument v) k = record {
  instrument_kept = instrument_kept v;
  collateral_asset_kept = k.collateral_asset_kept;
}
call-Keeps unsets_instrument k = record {
  instrument_kept = (tt, tt);
  collateral_asset_kept = k.collateral_asset_kept;
}
call-Keeps (sets_collateral_asset v) k = record {
  instrument_kept = k.instrument_kept;
  collateral_asset_kept = asset_kept v;
}
call-Keeps unsets_collateral_asset k = record {
  instrument_kept = k.instrument_kept;
  collateral_asset_kept = tt;
}
call-Keeps (sets_average_entry_price v) k = record {
  instrument_kept = k.instrument_kept;
  collateral_asset_kept = k.collateral_asset_kept;
}
call-Keeps unsets_average_entry_price k = record {
  instrument_kept = k.instrument_kept;
  collateral_asset_kept = k.collateral_asset_kept;
}
call-Keeps (sets_leverage v) k = record {
  instrument_kept = k.instrument_kept;
  collateral_asset_kept = k.collateral_asset_kept;
}
call-Keeps unsets_leverage k = record {
  instrument_kept = k.instrument_kept;
  collateral_asset_kept = k.collateral_asset_kept;
}
call-Keeps (sets_mode v) k = record {
  instrument_kept = k.instrument_kept;
  collateral_asset_kept = k.collateral_asset_kept;
}
call-Keeps unsets_mode k = record {
  instrument_kept = k.instrument_kept;
  collateral_asset_kept = k.collateral_asset_kept;
}

-- What is read after a value is given, or after none is.
abbrev pub instrument_over : Option Instrument → Option (List ℕ × List ℕ) → Option (List ℕ × List ℕ)
instrument_over none old = old
instrument_over (some v) old = instrument_text v

-- What is read after a value is given, or after none is.
abbrev pub asset_over : Option Asset → Option (List ℕ) → Option (List ℕ)
asset_over none old = old
asset_over (some v) old = asset_text v

-- What is read after a value is given, or after none is.
abbrev pub leverage_over : Option ℕ → Option ℕ → Option ℕ
leverage_over none old = old
leverage_over (some v) old = new_leverage_option_from_handle v

-- The values that can be read back of those that were given.
abbrev pub shown :
    PositionOperationValues Instrument Asset → PositionOperationValues (List ℕ × List ℕ) (List ℕ)
shown v = record {
  instrument = instrument_over v.instrument none;
  collateral_asset = asset_over v.collateral_asset none;
  average_entry_price = v.average_entry_price;
  leverage = leverage_over v.leverage none;
  mode = v.mode;
}

instrument_given :
    (x : Option Instrument) (o : PositionOperation)
    → values (if_some x set_instrument o)
      ≡ record (values o) { instrument = instrument_over x (values o).instrument }
unfolding values set_instrument
instrument_given none o = refl
instrument_given (some v) o = rw (instrument_text_lem v) refl

collateral_asset_given :
    (x : Option Asset) (o : PositionOperation)
    → values (if_some x set_collateral_asset o)
      ≡ record (values o) { collateral_asset = asset_over x (values o).collateral_asset }
unfolding values set_collateral_asset
collateral_asset_given none o = refl
collateral_asset_given (some v) o = rw (asset_text_lem v) refl

average_entry_price_given :
    (x : Option ℕ) (o : PositionOperation)
    → values (if_some x set_average_entry_price o)
      ≡ record (values o) { average_entry_price = value_over x (values o).average_entry_price }
unfolding values set_average_entry_price
average_entry_price_given none o = refl
average_entry_price_given (some v) o = refl

leverage_given :
    (x : Option ℕ) (o : PositionOperation)
    → values (if_some x set_leverage o)
      ≡ record (values o) { leverage = leverage_over x (values o).leverage }
unfolding values set_leverage
leverage_given none o = refl
leverage_given (some v) o = refl

mode_given :
    (x : Option PositionMode) (o : PositionOperation)
    → values (if_some x set_mode o) ≡ record (values o) { mode = value_over x (values o).mode }
unfolding values set_mode
mode_given none o = refl
mode_given (some PositionMode.netting) o = refl
mode_given (some PositionMode.hedged) o = refl

-- What was given is read back, but for values that the C struct cannot tell from none.
pub values-new_from_values :
    (v : PositionOperationValues Instrument Asset) → values (new_from_values v) ≡ shown v
unfolding new_from_values apply_values
values-new_from_values v =
    rw
      (
        mode_given, leverage_given, average_entry_price_given, collateral_asset_given,
        instrument_given, new-values,
      )
      (rw (value_over-none v.average_entry_price, value_over-none v.mode) refl)
