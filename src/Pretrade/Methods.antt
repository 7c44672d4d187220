-- ===== src/Pretrade/Methods.antt =====
-- `Lock` of pretrade/lock.go: its constructors and methods.
use pit_go.Base.{ℕ, Bool, List, map, is_empty, if◌then◌else◌}
use pit_go.Pretrade.{Entry, NativeEntry, Format, json, msg_pack, cbor, Library, no_value, ok, Lock}
use pit_go.Pretrade.Objects.{M, ◌>>=◌, ◌>>◌, return, throw, on_error, destroy, clone_bytes}
use pit_go.Pretrade.Native.{
  create_lock, create_lock_from_raw, create_lock_from_format, create_lock_from_entries, lock_len,
  lock_is_empty, lock_push_many, lock_merge, lock_prices_of, lock_entries_of, lock_to_raw,
  lock_to_format,
}

abbrev pub entry_handle : Entry → NativeEntry
entry_handle e = record { policy_group_id = e.policy_group_id; price = e.price }

abbrev pub new_entry_handles : List Entry → List NativeEntry
new_entry_handles es = map entry_handle es

abbrev pub entry_from_handle : NativeEntry → Entry
entry_from_handle e = record { policy_group_id = e.policy_group_id; price = e.price }

abbrev pub new_entries_from_handles : List NativeEntry → List Entry
new_entries_from_handles es = map entry_from_handle es

abbrev pub entry_price : NativeEntry → ℕ
entry_price e = e.price

unfoldable pub receiver : {C : Type 0} → M C Lock
receiver s = (ok s.receiver, s)

-- `*l = lock`.
unfoldable pub assign : {C : Type 0} → Lock → M C (Unit {0})
assign l s = (ok tt, record s { receiver = l })

module _ (lib : Library) where
  unfoldable pub new_lock_from_handle : ℕ → M lib.Content Lock
  unfolding ◌>>=◌ ◌>>◌ return destroy clone_bytes lock_to_raw
  new_lock_from_handle handle = do
    raw ← lock_to_raw lib handle
    value ← clone_bytes raw
    destroy raw
    return (record { value = value })

  -- The end of every constructor.
  unfoldable pub take_lock : ℕ → M lib.Content Lock
  unfolding ◌>>=◌ ◌>>◌ return destroy new_lock_from_handle
  take_lock handle = do result ← new_lock_from_handle handle; destroy handle; return result

  unfoldable pub new_lock : M lib.Content Lock
  unfolding ◌>>=◌ take_lock create_lock
  new_lock = do handle ← create_lock lib; take_lock handle

  unfoldable pub new_lock_from_format : Format → List ℕ → M lib.Content Lock
  unfolding ◌>>=◌ take_lock create_lock_from_format
  new_lock_from_format format payload = do
    handle ← create_lock_from_format lib format payload
    take_lock handle

  unfoldable pub new_lock_from_msg_pack : List ℕ → M lib.Content Lock
  unfolding new_lock_from_format
  new_lock_from_msg_pack = new_lock_from_format msg_pack

  unfoldable pub new_lock_from_json : List ℕ → M lib.Content Lock
  unfolding new_lock_from_format
  new_lock_from_json = new_lock_from_format json

  unfoldable pub new_lock_from_cbor : List ℕ → M lib.Content Lock
  unfolding new_lock_from_format
  new_lock_from_cbor = new_lock_from_format cbor

  unfoldable pub new_lock_from_entries : List Entry → M lib.Content Lock
  unfolding ◌>>=◌ take_lock create_lock_from_entries
  new_lock_from_entries entries = do
    handle ← create_lock_from_entries lib (new_entry_handles entries)
    take_lock handle

  unfoldable pub decode_lock_bytes : Lock → M lib.Content ℕ
  unfolding throw create_lock_from_raw
  decode_lock_bytes l =
      if is_empty l.value then throw no_value else create_lock_from_raw lib l.value

  unfoldable pub len : M lib.Content ℕ
  unfolding ◌>>=◌ ◌>>◌ return destroy receiver decode_lock_bytes lock_len
  len = do
    l ← receiver
    handle ← decode_lock_bytes l
    result ← lock_len lib handle
    destroy handle
    return result

  unfoldable pub is_empty_lock : M lib.Content Bool
  unfolding ◌>>=◌ ◌>>◌ return destroy receiver decode_lock_bytes lock_is_empty
  is_empty_lock = do
    l ← receiver
    handle ← decode_lock_bytes l
    result ← lock_is_empty lib handle
    destroy handle
    return result

  unfoldable pub push_many : List Entry → M lib.Content (Unit {0})
  unfolding ◌>>=◌ ◌>>◌ return on_error destroy receiver assign decode_lock_bytes lock_push_many
      new_lock_from_handle
  push_many entries = do
    l ← receiver
    handle ← decode_lock_bytes l
    on_error (lock_push_many lib handle (new_entry_handles entries)) (destroy handle)
    result ← new_lock_from_handle handle
    assign result
    destroy handle

  unfoldable pub merge : Lock → M lib.Content (Unit {0})
  unfolding ◌>>=◌ ◌>>◌ return on_error destroy receiver assign decode_lock_bytes lock_merge
      new_lock_from_handle
  merge other = do
    l ← receiver
    dst ← decode_lock_bytes l
    src ← on_error (decode_lock_bytes other) (destroy dst)
    on_error (lock_merge lib dst src) (destroy src >> destroy dst)
    destroy src
    result ← new_lock_from_handle dst
    assign result
    destroy dst

  unfoldable pub entries : M lib.Content (List Entry)
  unfolding ◌>>=◌ ◌>>◌ return destroy receiver decode_lock_bytes lock_entries_of
  entries = do
    l ← receiver
    handle ← decode_lock_bytes l
    result ← lock_entries_of lib handle
    destroy handle
    return (new_entries_from_handles result)

  unfoldable pub prices : M lib.Content (List ℕ)
  unfolding ◌>>=◌ ◌>>◌ return destroy receiver decode_lock_bytes lock_entries_of
  prices = do
    l ← receiver
    handle ← decode_lock_bytes l
    es ← lock_entries_of lib handle
    destroy handle
    return (map entry_price es)

  -- The handle is destroyed whether the prices come or an error.
  unfoldable pub prices_of : ℕ → M lib.Content (List ℕ)
  unfolding ◌>>=◌ ◌>>◌ return on_error destroy receiver decode_lock_bytes lock_prices_of
  prices_of group = do
    l ← receiver
    handle ← decode_lock_bytes l
    result ← on_error (lock_prices_of lib handle group) (destroy handle)
    destroy handle
    return result

  unfoldable pub marshal : Format → M lib.Content (List ℕ)
  unfolding ◌>>=◌ ◌>>◌ return on_error destroy clone_bytes receiver decode_lock_bytes lock_to_format
  marshal format = do
    l ← receiver
    handle ← decode_lock_bytes l
    payload ← on_error (lock_to_format lib format handle) (destroy handle)
    result ← clone_bytes payload
    destroy payload
    destroy handle
    return result

  unfoldable pub marshal_json : M lib.Content (List ℕ)
  unfolding marshal
  marshal_json = marshal json

  unfoldable pub marshal_msgpack : M lib.Content (List ℕ)
  unfolding marshal
  marshal_msgpack = marshal msg_pack

  unfoldable pub marshal_cbor : M lib.Content (List ℕ)
  unfolding marshal
  marshal_cbor = marshal cbor

  unfoldable pub unmarshal : M lib.Content Lock → M lib.Content (Unit {0})
  unfolding ◌>>=◌ assign
  unmarshal make = do restored ← make; assign restored

  unfoldable pub unmarshal_json : List ℕ → M lib.Content (Unit {0})
  unfolding unmarshal new_lock_from_json
  unmarshal_json payload = unmarshal (new_lock_from_json payload)

  unfoldable pub unmarshal_msgpack : List ℕ → M lib.Content (Unit {0})
  unfolding unmarshal new_lock_from_msg_pack
  unmarshal_msgpack payload = unmarshal (new_lock_from_msg_pack payload)

  unfoldable pub unmarshal_cbor : List ℕ → M lib.Content (Unit {0})
  unfolding unmarshal new_lock_from_cbor
  unmarshal_cbor payload = unmarshal (new_lock_from_cbor payload)
