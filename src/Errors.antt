-- ===== src/Errors.antt =====
-- Error values: the sentinels of asyncengine/errors.go and of param, the standard library's wrapping
-- and joining, and what a recovered panic turns into.
use Prim.Native.String.{String}
use pit_go.Base.{ℕ, Bool, false, ◌||◌, Option, none, some, ◌==◌}

pub data Sentinel : Type 0 where
  finalization_in_progress missing_account_id stopped queue_limit driver_result : Sentinel
  chain_engine_missing chain_incomplete chain_order_required chain_account_required : Sentinel
  chain_account_group_required chain_account_mismatch chain_invalid_decision : Sentinel
  chain_retry_unsafe chain_result_unavailable exclusive_context queue_retired : Sentinel
  uninitialized_account_group_id reservation_closed : Sentinel

-- `external n` is an error that the code receives from a hook, the driver or a context; `wrap` is
-- `fmt.Errorf` with `%w`, `text` is `fmt.Errorf` with `%v`, and `join` is `errors.Join` of two
-- errors that are not nil.
pub data Error : Type 0 where
  sentinel : Sentinel → Error
  external : ℕ → Error
  wrap : String → Error → Error
  text : String → Error
  join : Error → Error → Error

abbrev pub sentinel_ordinal : Sentinel → ℕ
sentinel_ordinal finalization_in_progress = 0
sentinel_ordinal missing_account_id = 1
sentinel_ordinal stopped = 2
sentinel_ordinal queue_limit = 3
sentinel_ordinal driver_result = 4
sentinel_ordinal chain_engine_missing = 5
sentinel_ordinal chain_incomplete = 6
sentinel_ordinal chain_order_required = 7
sentinel_ordinal chain_account_required = 8
sentinel_ordinal chain_account_group_required = 9
sentinel_ordinal chain_account_mismatch = 10
sentinel_ordinal chain_invalid_decision = 11
sentinel_ordinal chain_retry_unsafe = 12
sentinel_ordinal chain_result_unavailable = 13
sentinel_ordinal exclusive_context = 14
sentinel_ordinal queue_retired = 15
sentinel_ordinal uninitialized_account_group_id = 16
sentinel_ordinal reservation_closed = 17

-- `errors.Is(err, s)`.
abbrev pub is_error : Sentinel → Error → Bool
is_error s (sentinel t) = sentinel_ordinal s == sentinel_ordinal t
is_error s (external _) = false
is_error s (wrap _ e) = is_error s e
is_error s (text _) = false
is_error s (join a b) = is_error s a || is_error s b

-- `errors.Join` of two errors that may be nil.
abbrev pub join_errors : Option Error → Option Error → Option Error
join_errors none b = b
join_errors (some a) none = some a
join_errors (some a) (some b) = some (join a b)

-- A recovered panic value: an error or any other value, printed.
pub data Recovered : Type 0 where
  error_value : Error → Recovered
  other_value : String → Recovered

-- `chainPanicError` of asyncengine/scenario.go.
unfoldable pub chain_panic_error : String → Recovered → Error
chain_panic_error message (error_value e) = wrap message e
chain_panic_error message (other_value s) = wrap message (text s)
