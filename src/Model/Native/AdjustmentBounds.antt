-- ===== src/Model/Native/AdjustmentBounds.antt =====
-- The C struct AccountAdjustmentBounds and its functions in internal/native/account_adjustment.go.
use pit_go.Base.{ℕ, true, false}
use pit_go.Model.Param.{Optional}

pub record NativeBounds : Type 0 where
  pub balance_upper : Optional ℕ
  pub balance_lower : Optional ℕ
  pub held_upper : Optional ℕ
  pub held_lower : Optional ℕ
  pub incoming_upper : Optional ℕ
  pub incoming_lower : Optional ℕ

unfoldable pub new : NativeBounds
new = record {
  balance_upper = record { is_set = false; value = 0 };
  balance_lower = record { is_set = false; value = 0 };
  held_upper = record { is_set = false; value = 0 };
  held_lower = record { is_set = false; value = 0 };
  incoming_upper = record { is_set = false; value = 0 };
  incoming_lower = record { is_set = false; value = 0 };
}

unfoldable pub set_balance_upper : ℕ → NativeBounds → NativeBounds
set_balance_upper v o = record o { balance_upper = record { is_set = true; value = v } }

unfoldable pub unset_balance_upper : NativeBounds → NativeBounds
unset_balance_upper o = record o { balance_upper = record { is_set = false; value = 0 } }

unfoldable pub set_balance_lower : ℕ → NativeBounds → NativeBounds
set_balance_lower v o = record o { balance_lower = record { is_set = true; value = v } }

unfoldable pub unset_balance_lower : NativeBounds → NativeBounds
unset_balance_lower o = record o { balance_lower = record { is_set = false; value = 0 } }

unfoldable pub set_held_upper : ℕ → NativeBounds → NativeBounds
set_held_upper v o = record o { held_upper = record { is_set = true; value = v } }

unfoldable pub unset_held_upper : NativeBounds → NativeBounds
unset_held_upper o = record o { held_upper = record { is_set = false; value = 0 } }

unfoldable pub set_held_lower : ℕ → NativeBounds → NativeBounds
set_held_lower v o = record o { held_lower = record { is_set = true; value = v } }

unfoldable pub unset_held_lower : NativeBounds → NativeBounds
unset_held_lower o = record o { held_lower = record { is_set = false; value = 0 } }

unfoldable pub set_incoming_upper : ℕ → NativeBounds → NativeBounds
set_incoming_upper v o = record o { incoming_upper = record { is_set = true; value = v } }

unfoldable pub unset_incoming_upper : NativeBounds → NativeBounds
unset_incoming_upper o = record o { incoming_upper = record { is_set = false; value = 0 } }

unfoldable pub set_incoming_lower : ℕ → NativeBounds → NativeBounds
set_incoming_lower v o = record o { incoming_lower = record { is_set = true; value = v } }

unfoldable pub unset_incoming_lower : NativeBounds → NativeBounds
unset_incoming_lower o = record o { incoming_lower = record { is_set = false; value = 0 } }
