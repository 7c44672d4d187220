-- ===== src/Model/Param.antt =====
-- What the structs of model/ are made of: param/asset.go, param/instrument.go, param/side.go,
-- param/position_side.go, param/position_mode.go, param/trade_amount.go, param/adjustment_amount.go,
-- param/leverage.go, internal/convert/bool.go and model/pnl.go with their C forms. Decimals and ids are
-- numbers. A C enum has the values that the C interface declares; on any other the source panics.
pub mod Text
use pit_go.Base.{
  ℕ, ◌≡◌, Bool, true, false, not, Option, none, some, List, is_empty, ◌==◌, if◌then◌else◌,
}

-- A C struct with `is_set`. `{}` is not set; its value is not read.
pub record Optional (A : Type 0) : Type 0 where
  pub is_set : Bool
  pub value : A

abbrev pub option_by : {A : Type 0} → Bool → A → Option A
option_by true v = some v
option_by false v = none

abbrev pub option_of : {A : Type 0} → Optional A → Option A
option_of o = option_by o.is_set o.value

-- `if value, ok := option.Get(); ok { set(value) }`.
abbrev pub if_some : {A S : Type 0} → Option A → (A → S → S) → S → S
if_some none set s = s
if_some (some v) set s = set v s

-- A C-heap buffer: its address and its bytes.
pub record Buffer : Type 0 where
  pub address : ℕ
  pub text : List ℕ

-- `Asset`: `none` is a nil `buf`.
pub record Asset : Type 0 where
  pub buf : Option Buffer

pub record Instrument : Type 0 where
  pub underlying_asset : Asset
  pub settlement_asset : Asset

-- `OpenPitStringView`: the buffer that its pointer and length stand for, or `none` for nil.
abbrev pub StringView : Type 0
StringView = Option Buffer

pub record NativeInstrument : Type 0 where
  pub underlying_asset : StringView
  pub settlement_asset : StringView

abbrev pub no_asset : Asset
no_asset = record { buf = none }

abbrev pub no_instrument : Instrument
no_instrument = record { underlying_asset = no_asset; settlement_asset = no_asset }

abbrev pub zero_instrument : NativeInstrument
zero_instrument = record { underlying_asset = none; settlement_asset = none }

-- `importString` of the string that aliases a buffer.
abbrev pub import_string : Buffer → StringView
import_string b = if is_empty b.text then none else some b

abbrev pub import_buffer : Option Buffer → StringView
import_buffer none = none
import_buffer (some b) = import_string b

abbrev pub asset_handle : Asset → StringView
asset_handle a = import_buffer a.buf

abbrev pub instrument_handle : Instrument → NativeInstrument
instrument_handle i = record {
  underlying_asset = asset_handle i.underlying_asset;
  settlement_asset = asset_handle i.settlement_asset;
}

-- `NewAssetFromHandle`, up to the address of the buffer into which it copies the bytes.
abbrev pub new_asset_from_handle : StringView → Option (List ℕ)
new_asset_from_handle none = none
new_asset_from_handle (some b) = if is_empty b.text then none else some b.text

abbrev pub both : {A : Type 0} → Option A → Option A → Option (A × A)
both none b = none
both (some a) none = none
both (some a) (some b) = some (a, b)

abbrev pub new_instrument_from_handle : NativeInstrument → Option (List ℕ × List ℕ)
new_instrument_from_handle i =
    both (new_asset_from_handle i.underlying_asset) (new_asset_from_handle i.settlement_asset)

pub data Side : Type 0 where
  buy sell : Side

pub data NativeSide : Type 0 where
  not_set buy sell : NativeSide

abbrev pub new_side_from_handle : NativeSide → Option Side
new_side_from_handle NativeSide.sell = some Side.sell
new_side_from_handle NativeSide.buy = some Side.buy
new_side_from_handle NativeSide.not_set = none

abbrev pub side_handle : Side → NativeSide
side_handle Side.buy = NativeSide.buy
side_handle Side.sell = NativeSide.sell

pub data PositionSide : Type 0 where
  long short : PositionSide

pub data NativePositionSide : Type 0 where
  not_set long short : NativePositionSide

abbrev pub new_position_side_from_handle : NativePositionSide → Option PositionSide
new_position_side_from_handle NativePositionSide.long = some PositionSide.long
new_position_side_from_handle NativePositionSide.short = some PositionSide.short
new_position_side_from_handle NativePositionSide.not_set = none

abbrev pub position_side_handle : PositionSide → NativePositionSide
position_side_handle PositionSide.long = NativePositionSide.long
position_side_handle PositionSide.short = NativePositionSide.short

pub data PositionMode : Type 0 where
  netting hedged : PositionMode

pub data NativePositionMode : Type 0 where
  not_set netting hedged : NativePositionMode

abbrev pub new_position_mode_from_handle : NativePositionMode → Option PositionMode
new_position_mode_from_handle NativePositionMode.not_set = none
new_position_mode_from_handle NativePositionMode.netting = some PositionMode.netting
new_position_mode_from_handle NativePositionMode.hedged = some PositionMode.hedged

abbrev pub position_mode_handle : PositionMode → NativePositionMode
position_mode_handle PositionMode.netting = NativePositionMode.netting
position_mode_handle PositionMode.hedged = NativePositionMode.hedged

pub data TriBool : Type 0 where
  tri_not_set tri_false tri_true : TriBool

abbrev pub new_native_tri_bool : Bool → TriBool
new_native_tri_bool true = tri_true
new_native_tri_bool false = tri_false

abbrev pub new_bool_option_from_native : TriBool → Option Bool
new_bool_option_from_native tri_not_set = none
new_bool_option_from_native tri_true = some true
new_bool_option_from_native tri_false = some false

pub data TradeAmountKind : Type 0 where
  not_set quantity volume : TradeAmountKind

pub record TradeAmount : Type 0 where
  pub kind : TradeAmountKind
  pub value : ℕ

abbrev pub zero_trade_amount : TradeAmount
zero_trade_amount = record { kind = TradeAmountKind.not_set; value = 0 }

abbrev pub trade_amount_by : TradeAmountKind → TradeAmount → Option TradeAmount
trade_amount_by TradeAmountKind.not_set a = none
trade_amount_by TradeAmountKind.quantity a = some a
trade_amount_by TradeAmountKind.volume a = some a

abbrev pub new_trade_amount_from_handle : TradeAmount → Option TradeAmount
new_trade_amount_from_handle a = trade_amount_by a.kind a

pub data AdjustmentAmountKind : Type 0 where
  not_set delta absolute : AdjustmentAmountKind

pub record AdjustmentAmount : Type 0 where
  pub kind : AdjustmentAmountKind
  pub value : ℕ

abbrev pub zero_adjustment_amount : AdjustmentAmount
zero_adjustment_amount = record { kind = AdjustmentAmountKind.not_set; value = 0 }

abbrev pub adjustment_amount_by : AdjustmentAmountKind → AdjustmentAmount → Option AdjustmentAmount
adjustment_amount_by AdjustmentAmountKind.not_set a = none
adjustment_amount_by AdjustmentAmountKind.delta a = some a
adjustment_amount_by AdjustmentAmountKind.absolute a = some a

abbrev pub new_adjustment_amount_from_handle : AdjustmentAmount → Option AdjustmentAmount
new_adjustment_amount_from_handle a = adjustment_amount_by a.kind a

abbrev pub new_leverage_option_from_handle : ℕ → Option ℕ
new_leverage_option_from_handle v = if v == 0 then none else some v

-- `PnlHaltReasonNone` is 0.
pub record PnlState : Type 0 where
  pub value : ℕ
  pub halt_reason : ℕ

pub data PnlStateKind : Type 0 where
  value halted : PnlStateKind

pub record NativePnlState : Type 0 where
  pub kind : PnlStateKind
  pub value : ℕ
  pub halt_reason : ℕ

abbrev pub pnl_state_handle : PnlState → NativePnlState
pnl_state_handle s =
    if not (s.halt_reason == 0)
    then record { kind = PnlStateKind.halted; value = 0; halt_reason = s.halt_reason }
    else record { kind = PnlStateKind.value; value = s.value; halt_reason = 0 }

abbrev pub pnl_state_by : PnlStateKind → NativePnlState → PnlState
pnl_state_by PnlStateKind.halted n = record { value = 0; halt_reason = n.halt_reason }
pnl_state_by PnlStateKind.value n = record { value = n.value; halt_reason = 0 }

abbrev pub new_pnl_state_from_handle : NativePnlState → PnlState
new_pnl_state_from_handle n = pnl_state_by n.kind n

abbrev pub zero_pnl_state : NativePnlState
zero_pnl_state = record { kind = PnlStateKind.value; value = 0; halt_reason = 0 }

abbrev pub pnl_option : Option NativePnlState → Option PnlState
pnl_option none = none
pnl_option (some n) = some (new_pnl_state_from_handle n)
