-- ===== src/Model/Adjustment/Groups.antt =====
-- `AccountAdjustment` of model/account_adjustment.go and its C struct in
-- internal/native/account_adjustment.go. Its amount and bounds and their views.
use pit_go.Base.{Bool, true, false, Option, none, some}
use pit_go.Model.Native.AdjustmentAmounts as NativeAmount
use pit_go.Model.Native.AdjustmentAmounts.{NativeAmount}
use pit_go.Model.Adjustment.Amount
use pit_go.Model.Adjustment.Amount.{Amount}
use pit_go.Model.Native.AdjustmentBounds as NativeBounds
use pit_go.Model.Native.AdjustmentBounds.{NativeBounds}
use pit_go.Model.Adjustment.Bounds
use pit_go.Model.Adjustment.Bounds.{Bounds}
use pit_go.Model.Adjustment.State.{AccountAdjustment, amount_of, bounds_of}

abbrev pub amount_by : Bool → Amount → Option Amount
amount_by true v = some v
amount_by false v = none

unfoldable pub get_amount : AccountAdjustment → Option Amount
get_amount a = amount_by a.value.amount.is_set (amount_of a)

abbrev pub ensured_amount : Bool → NativeAmount → NativeAmount
ensured_amount true n = n
ensured_amount false n = NativeAmount.new

unfoldable pub ensure_amount_view : AccountAdjustment → AccountAdjustment
unfolding NativeAmount.new
ensure_amount_view a = record a {
  value = record a.value {
    amount = record {
      is_set = true;
      value = ensured_amount a.value.amount.is_set a.value.amount.value;
    };
  };
}

unfoldable pub set_amount : Amount → AccountAdjustment → AccountAdjustment
set_amount v a = record a {
  value = record a.value { amount = record { is_set = true; value = v.value } };
}

unfoldable pub unset_amount : AccountAdjustment → AccountAdjustment
unfolding NativeAmount.new
unset_amount a = record a {
  value = record a.value { amount = record { is_set = false; value = NativeAmount.new } };
}

unfoldable pub through_amount_view : Amount.Call → AccountAdjustment → AccountAdjustment
unfolding Amount.call
through_amount_view c a = record a {
  value = record a.value {
    amount = record a.value.amount { value = (Amount.call c (amount_of a)).value };
  };
}

abbrev pub bounds_by : Bool → Bounds → Option Bounds
bounds_by true v = some v
bounds_by false v = none

unfoldable pub get_bounds : AccountAdjustment → Option Bounds
get_bounds a = bounds_by a.value.bounds.is_set (bounds_of a)

abbrev pub ensured_bounds : Bool → NativeBounds → NativeBounds
ensured_bounds true n = n
ensured_bounds false n = NativeBounds.new

unfoldable pub ensure_bounds_view : AccountAdjustment → AccountAdjustment
unfolding NativeBounds.new
ensure_bounds_view a = record a {
  value = record a.value {
    bounds = record {
      is_set = true;
      value = ensured_bounds a.value.bounds.is_set a.value.bounds.value;
    };
  };
}

unfoldable pub set_bounds : Bounds → AccountAdjustment → AccountAdjustment
set_bounds v a = record a {
  value = record a.value { bounds = record { is_set = true; value = v.value } };
}

unfoldable pub unset_bounds : AccountAdjustment → AccountAdjustment
unfolding NativeBounds.new
unset_bounds a = record a {
  value = record a.value { bounds = record { is_set = false; value = NativeBounds.new } };
}

unfoldable pub through_bounds_view : Bounds.Call → AccountAdjustment → AccountAdjustment
unfolding Bounds.call
through_bounds_view c a = record a {
  value = record a.value {
    bounds = record a.value.bounds { value = (Bounds.call c (bounds_of a)).value };
  };
}
