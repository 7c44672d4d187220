-- ===== src/Model/Native/AdjustmentAmounts.antt =====
-- The C struct AccountAdjustmentAmount and its functions in internal/native/account_adjustment.go.
use pit_go.Base.{}
use pit_go.Model.Param.{AdjustmentAmount, zero_adjustment_amount}

pub record NativeAmount : Type 0 where
  pub balance : AdjustmentAmount
  pub held : AdjustmentAmount
  pub incoming : AdjustmentAmount

unfoldable pub new : NativeAmount
new = record {
  balance = zero_adjustment_amount;
  held = zero_adjustment_amount;
  incoming = zero_adjustment_amount;
}

unfoldable pub set_balance : AdjustmentAmount → NativeAmount → NativeAmount
set_balance v o = record o { balance = v }

unfoldable pub unset_balance : NativeAmount → NativeAmount
unset_balance o = record o { balance = zero_adjustment_amount }

unfoldable pub set_held : AdjustmentAmount → NativeAmount → NativeAmount
set_held v o = record o { held = v }

unfoldable pub unset_held : NativeAmount → NativeAmount
unset_held o = record o { held = zero_adjustment_amount }

unfoldable pub set_incoming : AdjustmentAmount → NativeAmount → NativeAmount
set_incoming v o = record o { incoming = v }

unfoldable pub unset_incoming : NativeAmount → NativeAmount
unset_incoming o = record o { incoming = zero_adjustment_amount }
