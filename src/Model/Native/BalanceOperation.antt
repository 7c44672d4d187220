-- ===== src/Model/Native/BalanceOperation.antt =====
-- The C struct AccountAdjustmentBalanceOperation and its functions in internal/native/account_adjustment.go.
use pit_go.Base.{ℕ, true, false, none}
use pit_go.Model.Param.{Optional, StringView, NativePnlState, zero_pnl_state}

pub record NativeBalanceOperation : Type 0 where
  pub asset : StringView
  pub average_entry_price : Optional ℕ
  pub realized_pnl : Optional NativePnlState

unfoldable pub new : NativeBalanceOperation
new = record {
  asset = none;
  average_entry_price = record { is_set = false; value = 0 };
  realized_pnl = record { is_set = false; value = zero_pnl_state };
}

unfoldable pub set_asset : StringView → NativeBalanceOperation → NativeBalanceOperation
set_asset v o = record o { asset = v }

unfoldable pub unset_asset : NativeBalanceOperation → NativeBalanceOperation
unset_asset o = record o { asset = none }

unfoldable pub set_average_entry_price : ℕ → NativeBalanceOperation → NativeBalanceOperation
set_average_entry_price v o = record o { average_entry_price = record { is_set = true; value = v } }

unfoldable pub unset_average_entry_price : NativeBalanceOperation → NativeBalanceOperation
unset_average_entry_price o = record o {
  average_entry_price = record { is_set = false; value = 0 };
}

unfoldable pub set_realized_pnl : NativePnlState → NativeBalanceOperation → NativeBalanceOperation
set_realized_pnl v o = record o { realized_pnl = record { is_set = true; value = v } }

unfoldable pub unset_realized_pnl : NativeBalanceOperation → NativeBalanceOperation
unset_realized_pnl o = record o { realized_pnl = record { is_set = false; value = zero_pnl_state } }
