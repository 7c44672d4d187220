-- ===== src/Model/Adjustment/Bounds/Spec.antt =====
-- What the methods of `AccountAdjustmentBounds` of model/account_adjustment.go promise of its values and buffers.
use pit_go.Base.{ℕ, ◌≡◌, refl, Option, none, some}
use pit_go.Model.Param.{if_some}
use pit_go.Model.Param.Text.{value_over, value_over-none}
use pit_go.Model.Adjustment.Bounds.{
  Bounds, BoundsValues, new, values, apply_values, new_from_values, Call, call, resets,
  set_balance_upper, sets_balance_upper, unsets_balance_upper, set_balance_lower,
  sets_balance_lower, unsets_balance_lower, set_held_upper, sets_held_upper, unsets_held_upper,
  set_held_lower, sets_held_lower, unsets_held_lower, set_incoming_upper, sets_incoming_upper,
  unsets_incoming_upper, set_incoming_lower, sets_incoming_lower, unsets_incoming_lower,
}

-- The values before any is set.
abbrev pub no_values : BoundsValues
no_values = record {
  balance_upper = none;
  balance_lower = none;
  held_upper = none;
  held_lower = none;
  incoming_upper = none;
  incoming_lower = none;
}

-- What a call does to the values, whatever the struct behind them is.
abbrev pub on_values : Call → BoundsValues → BoundsValues
on_values resets v = no_values
on_values (sets_balance_upper x) v = record v { balance_upper = some x }
on_values unsets_balance_upper v = record v { balance_upper = none }
on_values (sets_balance_lower x) v = record v { balance_lower = some x }
on_values unsets_balance_lower v = record v { balance_lower = none }
on_values (sets_held_upper x) v = record v { held_upper = some x }
on_values unsets_held_upper v = record v { held_upper = none }
on_values (sets_held_lower x) v = record v { held_lower = some x }
on_values unsets_held_lower v = record v { held_lower = none }
on_values (sets_incoming_upper x) v = record v { incoming_upper = some x }
on_values unsets_incoming_upper v = record v { incoming_upper = none }
on_values (sets_incoming_lower x) v = record v { incoming_lower = some x }
on_values unsets_incoming_lower v = record v { incoming_lower = none }

pub new-values : values new ≡ no_values
unfolding values new
new-values = refl

-- The values of the struct change as the specification says.
pub values-call : (c : Call) (o : Bounds) → values (call c o) ≡ on_values c (values o)
unfolding values call
values-call resets o = refl
values-call (sets_balance_upper v) o = refl
values-call unsets_balance_upper o = refl
values-call (sets_balance_lower v) o = refl
values-call unsets_balance_lower o = refl
values-call (sets_held_upper v) o = refl
values-call unsets_held_upper o = refl
values-call (sets_held_lower v) o = refl
values-call unsets_held_lower o = refl
values-call (sets_incoming_upper v) o = refl
values-call unsets_incoming_upper o = refl
values-call (sets_incoming_lower v) o = refl
values-call unsets_incoming_lower o = refl

-- The values that can be read back of those that were given.
abbrev pub shown : BoundsValues → BoundsValues
shown v = record {
  balance_upper = v.balance_upper;
  balance_lower = v.balance_lower;
  held_upper = v.held_upper;
  held_lower = v.held_lower;
  incoming_upper = v.incoming_upper;
  incoming_lower = v.incoming_lower;
}

balance_upper_given :
    (x : Option ℕ) (o : Bounds)
    → values (if_some x set_balance_upper o)
      ≡ record (values o) { balance_upper = value_over x (values o).balance_upper }
unfolding values set_balance_upper
balance_upper_given none o = refl
balance_upper_given (some v) o = refl

balance_lower_given :
    (x : Option ℕ) (o : Bounds)
    → values (if_some x set_balance_lower o)
      ≡ record (values o) { balance_lower = value_over x (values o).balance_lower }
unfolding values set_balance_lower
balance_lower_given none o = refl
balance_lower_given (some v) o = refl

held_upper_given :
    (x : Option ℕ) (o : Bounds)
    → values (if_some x set_held_upper o)
      ≡ record (values o) { held_upper = value_over x (values o).held_upper }
unfolding values set_held_upper
held_upper_given none o = refl
held_upper_given (some v) o = refl

held_lower_given :
    (x : Option ℕ) (o : Bounds)
    → values (if_some x set_held_lower o)
      ≡ record (values o) { held_lower = value_over x (values o).held_lower }
unfolding values set_held_lower
held_lower_given none o = refl
held_lower_given (some v) o = refl

incoming_upper_given :
    (x : Option ℕ) (o : Bounds)
    → values (if_some x set_incoming_upper o)
      ≡ record (values o) { incoming_upper = value_over x (values o).incoming_upper }
unfolding values set_incoming_upper
incoming_upper_given none o = refl
incoming_upper_given (some v) o = refl

incoming_lower_given :
    (x : Option ℕ) (o : Bounds)
    → values (if_some x set_incoming_lower o)
      ≡ record (values o) { incoming_lower = value_over x (values o).incoming_lower }
unfolding values set_incoming_lower
incoming_lower_given none o = refl
incoming_lower_given (some v) o = refl

-- What was given is read back, but for values that the C struct cannot tell from none.
pub values-new_from_values : (v : BoundsValues) → values (new_from_values v) ≡ shown v
unfolding new_from_values apply_values
values-new_from_values v =
    rw
      (
        incoming_lower_given, incoming_upper_given, held_lower_given, held_upper_given,
        balance_lower_given, balance_upper_given, new-values,
      )
      (rw
        (
          value_over-none v.balance_upper,
          value_over-none v.balance_lower,
          value_over-none v.held_upper,
          value_over-none v.held_lower,
          value_over-none v.incoming_upper,
          value_over-none v.incoming_lower,
        )
        refl)
