-- ===== src/Model/Adjustment/Amount.antt =====
-- `AccountAdjustmentAmount` of model/account_adjustment.go with its view.
pub mod Spec
use pit_go.Base.{Option}
use pit_go.Model.Param.{if_some, AdjustmentAmount, new_adjustment_amount_from_handle}
use pit_go.Model.Native.AdjustmentAmounts as NativeAdjustmentAmounts
use pit_go.Model.Native.AdjustmentAmounts.{NativeAmount}

pub record Amount : Type 0 where
  pub value : NativeAmount

pub record AmountValues : Type 0 where
  pub balance : Option AdjustmentAmount
  pub held : Option AdjustmentAmount
  pub incoming : Option AdjustmentAmount

unfoldable pub new : Amount
unfolding NativeAdjustmentAmounts.new
new = record { value = NativeAdjustmentAmounts.new }

unfoldable pub reset : Amount → Amount
unfolding NativeAdjustmentAmounts.new
reset o = record { value = NativeAdjustmentAmounts.new }

unfoldable pub set_balance : AdjustmentAmount → Amount → Amount
unfolding NativeAdjustmentAmounts.set_balance
set_balance v o = record o { value = NativeAdjustmentAmounts.set_balance v o.value }

unfoldable pub unset_balance : Amount → Amount
unfolding NativeAdjustmentAmounts.unset_balance
unset_balance o = record o { value = NativeAdjustmentAmounts.unset_balance o.value }

unfoldable pub get_balance : Amount → Option AdjustmentAmount
get_balance o = new_adjustment_amount_from_handle o.value.balance

unfoldable pub set_held : AdjustmentAmount → Amount → Amount
unfolding NativeAdjustmentAmounts.set_held
set_held v o = record o { value = NativeAdjustmentAmounts.set_held v o.value }

unfoldable pub unset_held : Amount → Amount
unfolding NativeAdjustmentAmounts.unset_held
unset_held o = record o { value = NativeAdjustmentAmounts.unset_held o.value }

unfoldable pub get_held : Amount → Option AdjustmentAmount
get_held o = new_adjustment_amount_from_handle o.value.held

unfoldable pub set_incoming : AdjustmentAmount → Amount → Amount
unfolding NativeAdjustmentAmounts.set_incoming
set_incoming v o = record o { value = NativeAdjustmentAmounts.set_incoming v o.value }

unfoldable pub unset_incoming : Amount → Amount
unfolding NativeAdjustmentAmounts.unset_incoming
unset_incoming o = record o { value = NativeAdjustmentAmounts.unset_incoming o.value }

unfoldable pub get_incoming : Amount → Option AdjustmentAmount
get_incoming o = new_adjustment_amount_from_handle o.value.incoming

unfoldable pub values : Amount → AmountValues
unfolding get_balance get_held get_incoming
values o = record { balance = get_balance o; held = get_held o; incoming = get_incoming o }

-- `setValues`: the fields in the order of the source.
unfoldable pub apply_values : AmountValues → Amount → Amount
apply_values v o =
    let o1 = if_some v.balance set_balance o in
    let o2 = if_some v.held set_held o1 in if_some v.incoming set_incoming o2

unfoldable pub set_values : AmountValues → Amount → Amount
set_values v o = apply_values v (reset o)

unfoldable pub new_from_values : AmountValues → Amount
new_from_values v = apply_values v new

-- A call of a method that changes the struct; its view has the same methods.
pub data Call : Type 0 where
  resets : Call
  sets_balance : AdjustmentAmount → Call
  unsets_balance : Call
  sets_held : AdjustmentAmount → Call
  unsets_held : Call
  sets_incoming : AdjustmentAmount → Call
  unsets_incoming : Call

unfoldable pub call : Call → Amount → Amount
unfolding reset set_balance unset_balance set_held unset_held set_incoming unset_incoming
call resets o = reset o
call (sets_balance v) o = set_balance v o
call unsets_balance o = unset_balance o
call (sets_held v) o = set_held v o
call unsets_held o = unset_held o
call (sets_incoming v) o = set_incoming v o
call unsets_incoming o = unset_incoming o
