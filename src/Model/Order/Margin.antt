-- ===== src/Model/Order/Margin.antt =====
-- `OrderMargin` of model/order.go with its view.
pub mod Spec
use pit_go.Base.{ℕ, Bool, Option, List}
use pit_go.Model.Param.{
  if_some, Asset, no_asset, asset_handle, new_asset_from_handle, new_native_tri_bool,
  new_bool_option_from_native, new_leverage_option_from_handle, tri_not_set,
}
use pit_go.Model.Native.OrderMargin as NativeOrderMargin
use pit_go.Model.Native.OrderMargin.{NativeOrderMargin}

pub record OrderMargin : Type 0 where
  pub value : NativeOrderMargin
  pub retain_collateral_asset : Asset

-- The optional fields, with what stands for an instrument or an asset.
pub record OrderMarginValues (A : Type 0) : Type 0 where
  pub collateral_asset : Option A
  pub auto_borrow : Option Bool
  pub leverage : Option ℕ

unfoldable pub new : OrderMargin
unfolding NativeOrderMargin.new
new = record { value = NativeOrderMargin.new; retain_collateral_asset = no_asset }

unfoldable pub reset : OrderMargin → OrderMargin
unfolding NativeOrderMargin.new
reset o = record { value = NativeOrderMargin.new; retain_collateral_asset = no_asset }

unfoldable pub set_collateral_asset : Asset → OrderMargin → OrderMargin
unfolding NativeOrderMargin.set_collateral_asset
set_collateral_asset v o = record o {
  value = NativeOrderMargin.set_collateral_asset (asset_handle v) o.value;
  retain_collateral_asset = v;
}

unfoldable pub unset_collateral_asset : OrderMargin → OrderMargin
unfolding NativeOrderMargin.unset_collateral_asset
unset_collateral_asset o = record o {
  value = NativeOrderMargin.unset_collateral_asset o.value;
  retain_collateral_asset = no_asset;
}

unfoldable pub get_collateral_asset : OrderMargin → Option (List ℕ)
get_collateral_asset o = new_asset_from_handle o.value.collateral_asset

unfoldable pub set_auto_borrow : Bool → OrderMargin → OrderMargin
unfolding NativeOrderMargin.set_auto_borrow
set_auto_borrow v o = record o {
  value = NativeOrderMargin.set_auto_borrow (new_native_tri_bool v) o.value;
}

unfoldable pub unset_auto_borrow : OrderMargin → OrderMargin
unfolding NativeOrderMargin.set_auto_borrow
unset_auto_borrow o = record o { value = NativeOrderMargin.set_auto_borrow tri_not_set o.value }

unfoldable pub get_auto_borrow : OrderMargin → Option Bool
get_auto_borrow o = new_bool_option_from_native o.value.auto_borrow

unfoldable pub set_leverage : ℕ → OrderMargin → OrderMargin
unfolding NativeOrderMargin.set_leverage
set_leverage v o = record o { value = NativeOrderMargin.set_leverage v o.value }

unfoldable pub unset_leverage : OrderMargin → OrderMargin
unfolding NativeOrderMargin.set_leverage
unset_leverage o = record o { value = NativeOrderMargin.set_leverage 0 o.value }

unfoldable pub get_leverage : OrderMargin → Option ℕ
get_leverage o = new_leverage_option_from_handle o.value.leverage

unfoldable pub values : OrderMargin → OrderMarginValues (List ℕ)
unfolding get_collateral_asset get_auto_borrow get_leverage
values o = record {
  collateral_asset = get_collateral_asset o;
  auto_borrow = get_auto_borrow o;
  leverage = get_leverage o;
}

-- `setValues`: the fields in the order of the source.
unfoldable pub apply_values : OrderMarginValues Asset → OrderMargin → OrderMargin
apply_values v o =
    let o1 = if_some v.collateral_asset set_collateral_asset o in
    let o2 = if_some v.auto_borrow set_auto_borrow o1 in if_some v.leverage set_leverage o2

unfoldable pub set_values : OrderMarginValues Asset → OrderMargin → OrderMargin
set_values v o = apply_values v (reset o)

unfoldable pub new_from_values : OrderMarginValues Asset → OrderMargin
new_from_values v = apply_values v new

-- A call of a method that changes the struct; its view has the same methods.
pub data Call : Type 0 where
  resets : Call
  sets_collateral_asset : Asset → Call
  unsets_collateral_asset : Call
  sets_auto_borrow : Bool → Call
  unsets_auto_borrow : Call
  sets_leverage : ℕ → Call
  unsets_leverage : Call

unfoldable pub call : Call → OrderMargin → OrderMargin
unfolding reset set_collateral_asset unset_collateral_asset set_auto_borrow unset_auto_borrow
    set_leverage unset_leverage
call resets o = reset o
call (sets_collateral_asset v) o = set_collateral_asset v o
call unsets_collateral_asset o = unset_collateral_asset o
call (sets_auto_borrow v) o = set_auto_borrow v o
call unsets_auto_borrow o = unset_auto_borrow o
call (sets_leverage v) o = set_leverage v o
call unsets_leverage o = unset_leverage o
