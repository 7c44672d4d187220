-- ===== src/Model/Adjustment/Bounds.antt =====
-- `AccountAdjustmentBounds` of model/account_adjustment.go with its view.
pub mod Spec
use pit_go.Base.{ℕ, Option}
use pit_go.Model.Param.{option_of, if_some}
use pit_go.Model.Native.AdjustmentBounds as NativeAdjustmentBounds
use pit_go.Model.Native.AdjustmentBounds.{NativeBounds}

pub record Bounds : Type 0 where
  pub value : NativeBounds

pub record BoundsValues : Type 0 where
  pub balance_upper : Option ℕ
  pub balance_lower : Option ℕ
  pub held_upper : Option ℕ
  pub held_lower : Option ℕ
  pub incoming_upper : Option ℕ
  pub incoming_lower : Option ℕ

unfoldable pub new : Bounds
unfolding NativeAdjustmentBounds.new
new = record { value = NativeAdjustmentBounds.new }

unfoldable pub reset : Bounds → Bounds
unfolding NativeAdjustmentBounds.new
reset o = record { value = NativeAdjustmentBounds.new }

unfoldable pub set_balance_upper : ℕ → Bounds → Bounds
unfolding NativeAdjustmentBounds.set_balance_upper
set_balance_upper v o = record o { value = NativeAdjustmentBounds.set_balance_upper v o.value }

unfoldable pub unset_balance_upper : Bounds → Bounds
unfolding NativeAdjustmentBounds.unset_balance_upper
unset_balance_upper o = record o { value = NativeAdjustmentBounds.unset_balance_upper o.value }

unfoldable pub get_balance_upper : Bounds → Option ℕ
get_balance_upper o = option_of o.value.balance_upper

unfoldable pub set_balance_lower : ℕ → Bounds → Bounds
unfolding NativeAdjustmentBounds.set_balance_lower
set_balance_lower v o = record o { value = NativeAdjustmentBounds.set_balance_lower v o.value }

unfoldable pub unset_balance_lower : Bounds → Bounds
unfolding NativeAdjustmentBounds.unset_balance_lower
unset_balance_lower o = record o { value = NativeAdjustmentBounds.unset_balance_lower o.value }

unfoldable pub get_balance_lower : Bounds → Option ℕ
get_balance_lower o = option_of o.value.balance_lower

unfoldable pub set_held_upper : ℕ → Bounds → Bounds
unfolding NativeAdjustmentBounds.set_held_upper
set_held_upper v o = record o { value = NativeAdjustmentBounds.set_held_upper v o.value }

unfoldable pub unset_held_upper : Bounds → Bounds
unfolding NativeAdjustmentBounds.unset_held_upper
unset_held_upper o = record o { value = NativeAdjustmentBounds.unset_held_upper o.value }

unfoldable pub get_held_upper : Bounds → Option ℕ
get_held_upper o = option_of o.value.held_upper

unfoldable pub set_held_lower : ℕ → Bounds → Bounds
unfolding NativeAdjustmentBounds.set_held_lower
set_held_lower v o = record o { value = NativeAdjustmentBounds.set_held_lower v o.value }

unfoldable pub unset_held_lower : Bounds → Bounds
unfolding NativeAdjustmentBounds.unset_held_lower
unset_held_lower o = record o { value = NativeAdjustmentBounds.unset_held_lower o.value }

unfoldable pub get_held_lower : Bounds → Option ℕ
get_held_lower o = option_of o.value.held_lower

unfoldable pub set_incoming_upper : ℕ → Bounds → Bounds
unfolding NativeAdjustmentBounds.set_incoming_upper
set_incoming_upper v o = record o { value = NativeAdjustmentBounds.set_incoming_upper v o.value }

unfoldable pub unset_incoming_upper : Bounds → Bounds
unfolding NativeAdjustmentBounds.unset_incoming_upper
unset_incoming_upper o = record o { value = NativeAdjustmentBounds.unset_incoming_upper o.value }

unfoldable pub get_incoming_upper : Bounds → Option ℕ
get_incoming_upper o = option_of o.value.incoming_upper

unfoldable pub set_incoming_lower : ℕ → Bounds → Bounds
unfolding NativeAdjustmentBounds.set_incoming_lower
set_incoming_lower v o = record o { value = NativeAdjustmentBounds.set_incoming_lower v o.value }

unfoldable pub unset_incoming_lower : Bounds → Bounds
unfolding NativeAdjustmentBounds.unset_incoming_lower
unset_incoming_lower o = record o { value = NativeAdjustmentBounds.unset_incoming_lower o.value }

unfoldable pub get_incoming_lower : Bounds → Option ℕ
get_incoming_lower o = option_of o.value.incoming_lower

unfoldable pub values : Bounds → BoundsValues
unfolding get_balance_upper get_balance_lower get_held_upper get_held_lower get_incoming_upper
    get_incoming_lower
values o = record {
  balance_upper = get_balance_upper o;
  balance_lower = get_balance_lower o;
  held_upper = get_held_upper o;
  held_lower = get_held_lower o;
  incoming_upper = get_incoming_upper o;
  incoming_lower = get_incoming_lower o;
}

-- `setValues`: the fields in the order of the source.
unfoldable pub apply_values : BoundsValues → Bounds → Bounds
apply_values v o =
    let o1 = if_some v.balance_upper set_balance_upper o in
    let o2 = if_some v.balance_lower set_balance_lower o1 in
    let o3 = if_some v.held_upper set_held_upper o2 in
    let o4 = if_some v.held_lower set_held_lower o3 in
    let o5 = if_some v.incoming_upper set_incoming_upper o4 in
    if_some v.incoming_lower set_incoming_lower o5

unfoldable pub set_values : BoundsValues → Bounds → Bounds
set_values v o = apply_values v (reset o)

unfoldable pub new_from_values : BoundsValues → Bounds
new_from_values v = apply_values v new

-- A call of a method that changes the struct; its view has the same methods.
pub data Call : Type 0 where
  resets : Call
  sets_balance_upper : ℕ → Call
  unsets_balance_upper : Call
  sets_balance_lower : ℕ → Call
  unsets_balance_lower : Call
  sets_held_upper : ℕ → Call
  unsets_held_upper : Call
  sets_held_lower : ℕ → Call
  unsets_held_lower : Call
  sets_incoming_upper : ℕ → Call
  unsets_incoming_upper : Call
  sets_incoming_lower : ℕ → Call
  unsets_incoming_lower : Call

unfoldable pub call : Call → Bounds → Bounds
unfolding reset set_balance_upper unset_balance_upper set_balance_lower unset_balance_lower
    set_held_upper unset_held_upper set_held_lower unset_held_lower set_incoming_upper
    unset_incoming_upper set_incoming_lower unset_incoming_lower
call resets o = reset o
call (sets_balance_upper v) o = set_balance_upper v o
call unsets_balance_upper o = unset_balance_upper o
call (sets_balance_lower v) o = set_balance_lower v o
call unsets_balance_lower o = unset_balance_lower o
call (sets_held_upper v) o = set_held_upper v o
call unsets_held_upper o = unset_held_upper o
call (sets_held_lower v) o = set_held_lower v o
call unsets_held_lower o = unset_held_lower o
call (sets_incoming_upper v) o = set_incoming_upper v o
call unsets_incoming_upper o = unset_incoming_upper o
call (sets_incoming_lower v) o = set_incoming_lower v o
call unsets_incoming_lower o = unset_incoming_lower o
