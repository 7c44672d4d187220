-- ===== src/Model/Order/Operation/Spec.antt =====
-- What the methods of `OrderOperation` of model/order.go promise of its values and buffers.
use pit_go.Base.{ℕ, ◌≡◌, refl, Option, none, some, List}
use pit_go.Model.Param.{if_some, Instrument, Side, TradeAmount, new_trade_amount_from_handle}
use pit_go.Model.Param.Text.{
  instrument_text, instrument_text_lem, KeepsInstrument, instrument_kept, value_over,
  value_over-none,
}
use pit_go.Model.Order.Operation.{
  OrderOperation, OrderOperationValues, new, values, apply_values, new_from_values, Call, call,
  resets, set_trade_amount, sets_trade_amount, unsets_trade_amount, set_instrument, sets_instrument,
  unsets_instrument, set_price, sets_price, unsets_price, set_account_id, sets_account_id,
  unsets_account_id, set_side, sets_side, unsets_side,
}

-- The values before any is set.
abbrev pub no_values : OrderOperationValues (List ℕ × List ℕ)
no_values = record {
  trade_amount = none;
  instrument = none;
  price = none;
  account_id = none;
  side = none;
}

-- What a call does to the values, whatever the struct behind them is.
abbrev pub on_values :
    Call → OrderOperationValues (List ℕ × List ℕ) → OrderOperationValues (List ℕ × List ℕ)
on_values resets v = no_values
on_values (sets_trade_amount x) v = record v { trade_amount = new_trade_amount_from_handle x }
on_values unsets_trade_amount v = record v { trade_amount = none }
on_values (sets_instrument x) v = record v { instrument = instrument_text x }
on_values unsets_instrument v = record v { instrument = none }
on_values (sets_price x) v = record v { price = some x }
on_values unsets_price v = record v { price = none }
on_values (sets_account_id x) v = record v { account_id = some x }
on_values unsets_account_id v = record v { account_id = none }
on_values (sets_side x) v = record v { side = some x }
on_values unsets_side v = record v { side = none }

pub new-values : values new ≡ no_values
unfolding values new
new-values = refl

-- The values of the struct change as the specification says.
pub values-call : (c : Call) (o : OrderOperation) → values (call c o) ≡ on_values c (values o)
unfolding values call
values-call resets o = refl
values-call (sets_trade_amount v) o = refl
values-call unsets_trade_amount o = refl
values-call (sets_instrument v) o = rw (instrument_text_lem v) refl
values-call unsets_instrument o = refl
values-call (sets_price v) o = refl
values-call unsets_price o = refl
values-call (sets_account_id v) o = refl
values-call unsets_account_id o = refl
values-call (sets_side Side.buy) o = refl
values-call (sets_side Side.sell) o = refl
values-call unsets_side o = refl

-- Every buffer that the C struct points to is kept alive by the struct.
pub record Keeps (o : OrderOperation) : Type 0 where
  pub instrument_kept : KeepsInstrument o.retain_instrument o.value.instrument

pub new-Keeps : Keeps new
unfolding new
new-Keeps = record { instrument_kept = (tt, tt) }

pub call-Keeps : (c : Call) {o : OrderOperation} → Keeps o → Keeps (call c o)
unfolding call
call-Keeps resets k = record { instrument_kept = (tt, tt) }
call-Keeps (sets_trade_amount v) k = record { instrument_kept = k.instrument_kept }
call-Keeps unsets_trade_amount k = record { instrument_kept = k.instrument_kept }
call-Keeps (sets_instrument v) k = record { instrument_kept = instrument_kept v }
call-Keeps unsets_instrument k = record { instrument_kept = (tt, tt) }
call-Keeps (sets_price v) k = record { instrument_kept = k.instrument_kept }
call-Keeps unsets_price k = record { instrument_kept = k.instrument_kept }
call-Keeps (sets_account_id v) k = record { instrument_kept = k.instrument_kept }
call-Keeps unsets_account_id k = record { instrument_kept = k.instrument_kept }
call-Keeps (sets_side v) k = record { instrument_kept = k.instrument_kept }
call-Keeps unsets_side k = record { instrument_kept = k.instrument_kept }

-- What is read after a value is given, or after none is.
abbrev pub trade_amount_over : Option TradeAmount → Option TradeAmount → Option TradeAmount
trade_amount_over none old = old
trade_amount_over (some v) old = new_trade_amount_from_handle v

-- What is read after a value is given, or after none is.
abbrev pub instrument_over : Option Instrument → Option (List ℕ × List ℕ) → Option (List ℕ × List ℕ)
instrument_over none old = old
instrument_over (some v) old = instrument_text v

-- The values that can be read back of those that were given.
abbrev pub shown : OrderOperationValues Instrument → OrderOperationValues (List ℕ × List ℕ)
shown v = record {
  trade_amount = trade_amount_over v.trade_amount none;
  instrument = instrument_over v.instrument none;
  price = v.price;
  account_id = v.account_id;
  side = v.side;
}

trade_amount_given :
    (x : Option TradeAmount) (o : OrderOperation)
    → values (if_some x set_trade_amount o)
      ≡ record (values o) { trade_amount = trade_amount_over x (values o).trade_amount }
unfolding values set_trade_amount
trade_amount_given none o = refl
trade_amount_given (some v) o = refl

instrument_given :
    (x : Option Instrument) (o : OrderOperation)
    → values (if_some x set_instrument o)
      ≡ record (values o) { instrument = instrument_over x (values o).instrument }
unfolding values set_instrument
instrument_given none o = refl
instrument_given (some v) o = rw (instrument_text_lem v) refl

price_given :
    (x : Option ℕ) (o : OrderOperation)
    → values (if_some x set_price o) ≡ record (values o) { price = value_over x (values o).price }
unfolding values set_price
price_given none o = refl
price_given (some v) o = refl

account_id_given :
    (x : Option ℕ) (o : OrderOperation)
    → values (if_some x set_account_id o)
      ≡ record (values o) { account_id = value_over x (values o).account_id }
unfolding values set_account_id
account_id_given none o = refl
account_id_given (some v) o = refl

side_given :
    (x : Option Side) (o : OrderOperation)
    → values (if_some x set_side o) ≡ record (values o) { side = value_over x (values o).side }
unfolding values set_side
side_given none o = refl
side_given (some Side.buy) o = refl
side_given (some Side.sell) o = refl

-- What was given is read back, but for values that the C struct cannot tell from none.
pub values-new_from_values :
    (v : OrderOperationValues Instrument) → values (new_from_values v) ≡ shown v
unfolding new_from_values apply_values
values-new_from_values v =
    rw (side_given, account_id_given, price_given, instrument_given, trade_amount_given, new-values)
      (rw (value_over-none v.price, value_over-none v.account_id, value_over-none v.side) refl)
