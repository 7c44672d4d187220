-- ===== src/Pretrade/Native.antt =====
-- The binding of the library's functions on locks: internal/native/pre_trade_lock.go.
use Prim.Native.String.{String}
use pit_go.Base.{ℕ, Bool, List, [], ◌∷◌}
use pit_go.Pretrade.{
  NativeEntry, Format, json, msg_pack, cbor, PricesStatus, error, empty, one, list, nil_list,
  unknown, fallback, Library,
}
use pit_go.Pretrade.Objects.{
  M, Object, changed, clone_entries, clone_prices, consume_shared_string_as_error, create, created,
  destroy, entries_list, lock, prices_list, return, shared_bytes, shared_string, throw, with_lock,
  with_object, ◌>>=◌, ◌>>◌,
}

abbrev pub from_format_name : Format → String
from_format_name json = "openpit_create_pretrade_pre_trade_lock_from_json failed"
from_format_name msg_pack = "openpit_create_pretrade_pre_trade_lock_from_msgpack failed"
from_format_name cbor = "openpit_create_pretrade_pre_trade_lock_from_cbor failed"

abbrev pub to_format_name : Format → String
to_format_name json = "openpit_pretrade_pre_trade_lock_to_json failed"
to_format_name msg_pack = "openpit_pretrade_pre_trade_lock_to_msgpack failed"
to_format_name cbor = "openpit_pretrade_pre_trade_lock_to_cbor failed"

abbrev pub shared_of : {C : Type 0} → Format → List ℕ → Object C
shared_of json = shared_string
shared_of msg_pack = shared_bytes
shared_of cbor = shared_bytes

-- The binding of the library's functions.
module _ (lib : Library) where
  unfoldable pub create_lock : M lib.Content ℕ
  unfolding create
  create_lock = create (lock lib.initial)

  unfoldable pub create_lock_from_raw : List ℕ → M lib.Content ℕ
  unfolding created
  create_lock_from_raw bytes =
      created "openpit_create_pretrade_pre_trade_lock_from_raw failed" lock (lib.from_raw bytes)

  unfoldable pub create_lock_from_format : Format → List ℕ → M lib.Content ℕ
  unfolding created
  create_lock_from_format format payload =
      created (from_format_name format) lock (lib.from_format format payload)

  unfoldable pub create_lock_from_entries : List NativeEntry → M lib.Content ℕ
  unfolding created
  create_lock_from_entries es =
      created "openpit_create_pretrade_pre_trade_lock_from_entries failed" lock
        (lib.from_entries es)

  unfoldable pub lock_len : ℕ → M lib.Content ℕ
  unfolding with_lock return
  lock_len k = with_lock k (λ c. return (lib.len c))

  unfoldable pub lock_is_empty : ℕ → M lib.Content Bool
  unfolding with_lock return
  lock_is_empty k = with_lock k (λ c. return (lib.is_empty c))

  unfoldable pub lock_push_many : ℕ → List NativeEntry → M lib.Content (Unit {0})
  unfolding with_lock changed
  lock_push_many k es =
      with_lock k
        (λ c. changed "openpit_pretrade_pre_trade_lock_push_many failed" k (lib.push_many c es))

  unfoldable pub lock_merge : ℕ → ℕ → M lib.Content (Unit {0})
  unfolding with_lock changed
  lock_merge dst src = with_lock dst (λ c.
      with_lock src
        (λ d. changed "openpit_pretrade_pre_trade_lock_merge failed" dst (lib.merge c d)))

  unfoldable pub prices_by : PricesStatus → M lib.Content (List ℕ)
  unfolding ◌>>=◌ ◌>>◌ return create destroy throw with_object clone_prices
      consume_shared_string_as_error
  prices_by (error out) =
      consume_shared_string_as_error "openpit_pretrade_pre_trade_lock_prices_of failed" out
  prices_by empty = return []
  prices_by (one price) = return (price ∷ [])
  prices_by (list ps) = do
    prices ← create (prices_list ps)
    result ← with_object prices clone_prices
    destroy prices
    return result
  prices_by nil_list =
      throw
        (fallback "openpit_pretrade_pre_trade_lock_prices_of returned list status with nil list")
  prices_by unknown =
      throw (fallback "openpit_pretrade_pre_trade_lock_prices_of returned unknown status")

  unfoldable pub lock_prices_of : ℕ → ℕ → M lib.Content (List ℕ)
  unfolding with_lock prices_by
  lock_prices_of k group = with_lock k (λ c. prices_by (lib.prices_of c group))

  unfoldable pub lock_entries_of : ℕ → M lib.Content (List NativeEntry)
  unfolding ◌>>=◌ ◌>>◌ return create destroy with_lock with_object clone_entries
  lock_entries_of k = do
    entries ← with_lock k (λ c. create (entries_list (lib.entries c)))
    result ← with_object entries clone_entries
    destroy entries
    return result

  unfoldable pub lock_to_raw : ℕ → M lib.Content ℕ
  unfolding with_lock create
  lock_to_raw k = with_lock k (λ c. create (shared_bytes (lib.to_raw c)))

  unfoldable pub lock_to_format : Format → ℕ → M lib.Content ℕ
  unfolding with_lock created
  lock_to_format format k =
      with_lock k (λ c. created (to_format_name format) (shared_of format) (lib.to_format format c))
