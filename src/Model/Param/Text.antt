-- ===== src/Model/Param/Text.antt =====
-- What a struct of model/ shows of the assets that it is given, and what keeps their buffers alive.
use pit_go.Base.{
  ℕ, ◌≡◌, refl, Bool, true, false, Option, none, some, List, is_empty, ◌==◌, if◌then◌else◌, arith,
}
use pit_go.Model.Param.{
  Buffer, Asset, Instrument, StringView, NativeInstrument, import_buffer, asset_handle,
  instrument_handle, new_asset_from_handle, both, new_instrument_from_handle, PnlState,
  pnl_state_handle, new_pnl_state_from_handle,
}

-- The identifier of an asset: the zero asset and an empty one have none.
abbrev pub buffer_text : Option Buffer → Option (List ℕ)
buffer_text none = none
buffer_text (some b) = if is_empty b.text then none else some b.text

abbrev pub asset_text : Asset → Option (List ℕ)
asset_text a = buffer_text a.buf

abbrev pub instrument_text : Instrument → Option (List ℕ × List ℕ)
instrument_text i = both (asset_text i.underlying_asset) (asset_text i.settlement_asset)

-- A halted state has no value.
abbrev pub plain_pnl : PnlState → PnlState
plain_pnl s = if s.halt_reason == 0 then s else record s { value = 0 }

buffer_lem : (b : Option Buffer) → new_asset_from_handle (import_buffer b) ≡ buffer_text b
buffer_lem none = refl
buffer_lem (some b) = ground arith

pub asset_text_lem : (a : Asset) → new_asset_from_handle (asset_handle a) ≡ asset_text a
asset_text_lem a = buffer_lem a.buf

pub instrument_text_lem :
    (i : Instrument) → new_instrument_from_handle (instrument_handle i) ≡ instrument_text i
instrument_text_lem i =
    rw (asset_text_lem i.underlying_asset, asset_text_lem i.settlement_asset) refl

pub plain_pnl_lem : (s : PnlState) → new_pnl_state_from_handle (pnl_state_handle s) ≡ plain_pnl s
plain_pnl_lem s = ground arith

-- The asset keeps the buffer alive to which the view points.
abbrev pub KeepsBuffer : Option Buffer → StringView → Type 0
KeepsBuffer kept none = Unit {0}
KeepsBuffer kept (some b) = kept ≡ some b

abbrev pub KeepsAsset : Asset → StringView → Type 0
KeepsAsset a v = KeepsBuffer a.buf v

abbrev pub KeepsInstrument : Instrument → NativeInstrument → Type 0
KeepsInstrument i n =
    KeepsAsset i.underlying_asset n.underlying_asset
    × KeepsAsset i.settlement_asset n.settlement_asset

import_kept : (empty : Bool) (b : Buffer) → KeepsBuffer (some b) (if empty then none else some b)
import_kept true b = tt
import_kept false b = refl

buffer_kept : (b : Option Buffer) → KeepsBuffer b (import_buffer b)
buffer_kept none = tt
buffer_kept (some b) = import_kept (is_empty b.text) b

pub asset_kept : (a : Asset) → KeepsAsset a (asset_handle a)
asset_kept a = buffer_kept a.buf

pub instrument_kept : (i : Instrument) → KeepsInstrument i (instrument_handle i)
instrument_kept i = (asset_kept i.underlying_asset, asset_kept i.settlement_asset)

-- What is read after a value is given, or after none is, where every value can be read back.
abbrev pub value_over : {A : Type 0} → Option A → Option A → Option A
value_over none old = old
value_over (some v) old = some v

pub value_over-none : {A : Type 0} (x : Option A) → value_over x none ≡ x
value_over-none none = refl
value_over-none (some v) = refl
