-- ===== src/Model/Native/OrderOperation.antt =====
-- The C struct OrderOperation and its functions in internal/native/order.go.
use pit_go.Base.{ℕ, true, false}
use pit_go.Model.Param.{
  Optional, NativeInstrument, zero_instrument, NativeSide, TradeAmount, zero_trade_amount,
}

pub record NativeOrderOperation : Type 0 where
  pub trade_amount : TradeAmount
  pub instrument : NativeInstrument
  pub price : Optional ℕ
  pub account_id : Optional ℕ
  pub side : NativeSide

unfoldable pub new : NativeOrderOperation
new = record {
  trade_amount = zero_trade_amount;
  instrument = zero_instrument;
  price = record { is_set = false; value = 0 };
  account_id = record { is_set = false; value = 0 };
  side = NativeSide.not_set;
}

unfoldable pub set_trade_amount : TradeAmount → NativeOrderOperation → NativeOrderOperation
set_trade_amount v o = record o { trade_amount = v }

unfoldable pub unset_trade_amount : NativeOrderOperation → NativeOrderOperation
unset_trade_amount o = record o { trade_amount = zero_trade_amount }

unfoldable pub set_instrument : NativeInstrument → NativeOrderOperation → NativeOrderOperation
set_instrument v o = record o { instrument = v }

unfoldable pub unset_instrument : NativeOrderOperation → NativeOrderOperation
unset_instrument o = record o { instrument = zero_instrument }

unfoldable pub set_price : ℕ → NativeOrderOperation → NativeOrderOperation
set_price v o = record o { price = record { is_set = true; value = v } }

unfoldable pub unset_price : NativeOrderOperation → NativeOrderOperation
unset_price o = record o { price = record { is_set = false; value = 0 } }

unfoldable pub set_account_id : ℕ → NativeOrderOperation → NativeOrderOperation
set_account_id v o = record o { account_id = record { is_set = true; value = v } }

unfoldable pub unset_account_id : NativeOrderOperation → NativeOrderOperation
unset_account_id o = record o { account_id = record { is_set = false; value = 0 } }

unfoldable pub set_side : NativeSide → NativeOrderOperation → NativeOrderOperation
set_side v o = record o { side = v }

unfoldable pub unset_side : NativeOrderOperation → NativeOrderOperation
unset_side o = record o { side = NativeSide.not_set }
