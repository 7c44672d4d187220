-- ===== src/Model/Order/Margin/Spec.antt =====
-- What the methods of `OrderMargin` of model/order.go promise of its values and buffers.
use pit_go.Base.{ℕ, ◌≡◌, refl, Bool, true, false, Option, none, some, List}
use pit_go.Model.Param.{if_some, Asset, new_leverage_option_from_handle}
use pit_go.Model.Param.Text.{
  asset_text, asset_text_lem, KeepsAsset, asset_kept, value_over, value_over-none,
}
use pit_go.Model.Order.Margin.{
  OrderMargin, OrderMarginValues, new, values, apply_values, new_from_values, Call, call, resets,
  set_collateral_asset, sets_collateral_asset, unsets_collateral_asset, set_auto_borrow,
  sets_auto_borrow, unsets_auto_borrow, set_leverage, sets_leverage, unsets_leverage,
}

-- The values before any is set.
abbrev pub no_values : OrderMarginValues (List ℕ)
no_values = record { collateral_asset = none; auto_borrow = none; leverage = none }

-- What a call does to the values, whatever the struct behind them is.
abbrev pub on_values : Call → OrderMarginValues (List ℕ) → OrderMarginValues (List ℕ)
on_values resets v = no_values
on_values (sets_collateral_asset x) v = record v { collateral_asset = asset_text x }
on_values unsets_collateral_asset v = record v { collateral_asset = none }
on_values (sets_auto_borrow x) v = record v { auto_borrow = some x }
on_values unsets_auto_borrow v = record v { auto_borrow = none }
on_values (sets_leverage x) v = record v { leverage = new_leverage_option_from_handle x }
on_values unsets_leverage v = record v { leverage = none }

pub new-values : values new ≡ no_values
unfolding values new
new-values = refl

-- The values of the struct change as the specification says.
pub values-call : (c : Call) (o : OrderMargin) → values (call c o) ≡ on_values c (values o)
unfolding values call
values-call resets o = refl
values-call (sets_collateral_asset v) o = rw (asset_text_lem v) refl
values-call unsets_collateral_asset o = refl
values-call (sets_auto_borrow true) o = refl
values-call (sets_auto_borrow false) o = refl
values-call unsets_auto_borrow o = refl
values-call (sets_leverage v) o = refl
values-call unsets_leverage o = refl

-- Every buffer that the C struct points to is kept alive by the struct.
pub record Keeps (o : OrderMargin) : Type 0 where
  pub collateral_asset_kept : KeepsAsset o.retain_collateral_asset o.value.collateral_asset

pub new-Keeps : Keeps new
unfolding new
new-Keeps = record { collateral_asset_kept = tt }

pub call-Keeps : (c : Call) {o : OrderMargin} → Keeps o → Keeps (call c o)
unfolding call
call-Keeps resets k = record { collateral_asset_kept = tt }
call-Keeps (sets_collateral_asset v) k = record { collateral_asset_kept = asset_kept v }
call-Keeps unsets_collateral_asset k = record { collateral_asset_kept = tt }
call-Keeps (sets_auto_borrow v) k = record { collateral_asset_kept = k.collateral_asset_kept }
call-Keeps unsets_auto_borrow k = record { collateral_asset_kept = k.collateral_asset_kept }
call-Keeps (sets_leverage v) k = record { collateral_asset_kept = k.collateral_asset_kept }
call-Keeps unsets_leverage k = record { collateral_asset_kept = k.collateral_asset_kept }

-- What is read after a value is given, or after none is.
abbrev pub asset_over : Option Asset → Option (List ℕ) → Option (List ℕ)
asset_over none old = old
asset_over (some v) old = asset_text v

-- What is read after a value is given, or after none is.
abbrev pub leverage_over : Option ℕ → Option ℕ → Option ℕ
leverage_over none old = old
leverage_over (some v) old = new_leverage_option_from_handle v

-- The values that can be read back of those that were given.
abbrev pub shown : OrderMarginValues Asset → OrderMarginValues (List ℕ)
shown v = record {
  collateral_asset = asset_over v.collateral_asset none;
  auto_borrow = v.auto_borrow;
  leverage = leverage_over v.leverage none;
}

collateral_asset_given :
    (x : Option Asset) (o : OrderMargin)
    → values (if_some x set_collateral_asset o)
      ≡ record (values o) { collateral_asset = asset_over x (values o).collateral_asset }
unfolding values set_collateral_asset
collateral_asset_given none o = refl
collateral_asset_given (some v) o = rw (asset_text_lem v) refl

auto_borrow_given :
    (x : Option Bool) (o : OrderMargin)
    → values (if_some x set_auto_borrow o)
      ≡ record (values o) { auto_borrow = value_over x (values o).auto_borrow }
unfolding values set_auto_borrow
auto_borrow_given none o = refl
auto_borrow_given (some true) o = refl
auto_borrow_given (some false) o = refl

leverage_given :
    (x : Option ℕ) (o : OrderMargin)
    → values (if_some x set_leverage o)
      ≡ record (values o) { leverage = leverage_over x (values o).leverage }
unfolding values set_leverage
leverage_given none o = refl
leverage_given (some v) o = refl

-- What was given is read back, but for values that the C struct cannot tell from none.
pub values-new_from_values : (v : OrderMarginValues Asset) → values (new_from_values v) ≡ shown v
unfolding new_from_values apply_values
values-new_from_values v =
    rw (leverage_given, auto_borrow_given, collateral_asset_given, new-values)
      (rw (value_over-none v.auto_borrow) refl)
