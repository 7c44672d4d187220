-- ===== src/Model/Native/PositionOperation.antt =====
-- The C struct AccountAdjustmentPositionOperation and its functions in internal/native/account_adjustment.go.
use pit_go.Base.{ℕ, true, false, none}
use pit_go.Model.Param.{Optional, StringView, NativeInstrument, zero_instrument, NativePositionMode}

pub record NativePositionOperation : Type 0 where
  pub instrument : NativeInstrument
  pub collateral_asset : StringView
  pub average_entry_price : Optional ℕ
  pub leverage : ℕ
  pub mode : NativePositionMode

unfoldable pub new : NativePositionOperation
new = record {
  instrument = zero_instrument;
  collateral_asset = none;
  average_entry_price = record { is_set = false; value = 0 };
  leverage = 0;
  mode = NativePositionMode.not_set;
}

unfoldable pub set_instrument : NativeInstrument → NativePositionOperation → NativePositionOperation
set_instrument v o = record o { instrument = v }

unfoldable pub unset_instrument : NativePositionOperation → NativePositionOperation
unset_instrument o = record o { instrument = zero_instrument }

unfoldable pub set_collateral_asset : StringView → NativePositionOperation → NativePositionOperation
set_collateral_asset v o = record o { collateral_asset = v }

unfoldable pub unset_collateral_asset : NativePositionOperation → NativePositionOperation
unset_collateral_asset o = record o { collateral_asset = none }

unfoldable pub set_average_entry_price : ℕ → NativePositionOperation → NativePositionOperation
set_average_entry_price v o = record o { average_entry_price = record { is_set = true; value = v } }

unfoldable pub unset_average_entry_price : NativePositionOperation → NativePositionOperation
unset_average_entry_price o = record o {
  average_entry_price = record { is_set = false; value = 0 };
}

unfoldable pub set_leverage : ℕ → NativePositionOperation → NativePositionOperation
set_leverage v o = record o { leverage = v }

unfoldable pub unset_leverage : NativePositionOperation → NativePositionOperation
unset_leverage o = record o { leverage = 0 }

unfoldable pub set_mode : NativePositionMode → NativePositionOperation → NativePositionOperation
set_mode v o = record o { mode = v }

unfoldable pub unset_mode : NativePositionOperation → NativePositionOperation
unset_mode o = record o { mode = NativePositionMode.not_set }
