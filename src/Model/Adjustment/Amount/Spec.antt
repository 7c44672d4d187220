-- ===== src/Model/Adjustment/Amount/Spec.antt =====
-- What the methods of `AccountAdjustmentAmount` of model/account_adjustment.go promise of its values and buffers.
use pit_go.Base.{◌≡◌, refl, Option, none, some}
use pit_go.Model.Param.{if_some, AdjustmentAmount, new_adjustment_amount_from_handle}
use pit_go.Model.Adjustment.Amount.{
  Amount, AmountValues, new, values, apply_values, new_from_values, Call, call, resets, set_balance,
  sets_balance, unsets_balance, set_held, sets_held, unsets_held, set_incoming, sets_incoming,
  unsets_incoming,
}

-- The values before any is set.
abbrev pub no_values : AmountValues
no_values = record { balance = none; held = none; incoming = none }

-- What a call does to the values, whatever the struct behind them is.
abbrev pub on_values : Call → AmountValues → AmountValues
on_values resets v = no_values
on_values (sets_balance x) v = record v { balance = new_adjustment_amount_from_handle x }
on_values unsets_balance v = record v { balance = none }
on_values (sets_held x) v = record v { held = new_adjustment_amount_from_handle x }
on_values unsets_held v = record v { held = none }
on_values (sets_incoming x) v = record v { incoming = new_adjustment_amount_from_handle x }
on_values unsets_incoming v = record v { incoming = none }

pub new-values : values new ≡ no_values
unfolding values new
new-values = refl

-- The values of the struct change as the specification says.
pub values-call : (c : Call) (o : Amount) → values (call c o) ≡ on_values c (values o)
unfolding values call
values-call resets o = refl
values-call (sets_balance v) o = refl
values-call unsets_balance o = refl
values-call (sets_held v) o = refl
values-call unsets_held o = refl
values-call (sets_incoming v) o = refl
values-call unsets_incoming o = refl

-- What is read after a value is given, or after none is.
abbrev pub adjustment_amount_over :
    Option AdjustmentAmount → Option AdjustmentAmount → Option AdjustmentAmount
adjustment_amount_over none old = old
adjustment_amount_over (some v) old = new_adjustment_amount_from_handle v

-- The values that can be read back of those that were given.
abbrev pub shown : AmountValues → AmountValues
shown v = record {
  balance = adjustment_amount_over v.balance none;
  held = adjustment_amount_over v.held none;
  incoming = adjustment_amount_over v.incoming none;
}

balance_given :
    (x : Option AdjustmentAmount) (o : Amount)
    → values (if_some x set_balance o)
      ≡ record (values o) { balance = adjustment_amount_over x (values o).balance }
unfolding values set_balance
balance_given none o = refl
balance_given (some v) o = refl

held_given :
    (x : Option AdjustmentAmount) (o : Amount)
    → values (if_some x set_held o)
      ≡ record (values o) { held = adjustment_amount_over x (values o).held }
unfolding values set_held
held_given none o = refl
held_given (some v) o = refl

incoming_given :
    (x : Option AdjustmentAmount) (o : Amount)
    → values (if_some x set_incoming o)
      ≡ record (values o) { incoming = adjustment_amount_over x (values o).incoming }
unfolding values set_incoming
incoming_given none o = refl
incoming_given (some v) o = refl

-- What was given is read back, but for values that the C struct cannot tell from none.
pub values-new_from_values : (v : AmountValues) → values (new_from_values v) ≡ shown v
unfolding new_from_values apply_values
values-new_from_values v = rw (incoming_given, held_given, balance_given, new-values) refl
