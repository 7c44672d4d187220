-- ===== src/Model/Native/OrderMargin.antt =====
-- The C struct OrderMargin and its functions in internal/native/order.go.
use pit_go.Base.{ℕ, none}
use pit_go.Model.Param.{StringView, TriBool, tri_not_set}

pub record NativeOrderMargin : Type 0 where
  pub collateral_asset : StringView
  pub auto_borrow : TriBool
  pub leverage : ℕ

unfoldable pub new : NativeOrderMargin
new = record { collateral_asset = none; auto_borrow = tri_not_set; leverage = 0 }

unfoldable pub set_collateral_asset : StringView → NativeOrderMargin → NativeOrderMargin
set_collateral_asset v o = record o { collateral_asset = v }

unfoldable pub unset_collateral_asset : NativeOrderMargin → NativeOrderMargin
unset_collateral_asset o = record o { collateral_asset = none }

unfoldable pub set_auto_borrow : TriBool → NativeOrderMargin → NativeOrderMargin
set_auto_borrow v o = record o { auto_borrow = v }

unfoldable pub unset_auto_borrow : NativeOrderMargin → NativeOrderMargin
unset_auto_borrow o = record o { auto_borrow = tri_not_set }

unfoldable pub set_leverage : ℕ → NativeOrderMargin → NativeOrderMargin
set_leverage v o = record o { leverage = v }

unfoldable pub unset_leverage : NativeOrderMargin → NativeOrderMargin
unset_leverage o = record o { leverage = 0 }
