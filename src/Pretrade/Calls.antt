-- ===== src/Pretrade/Calls.antt =====
-- Calls of the constructors and methods of pretrade/lock.go in sequence, and the specification of a lock:
-- it is its contents, or the error of bytes that cannot be decoded.
use Prim.Native.String.{String}
use pit_go.Base.{ℕ, Bool, Option, none, some, List, [], ◌∷◌, map, is_empty, if◌then◌else◌}
use pit_go.Pretrade.{
  Entry, Format, json, msg_pack, cbor, Status, succeeded, failed, Update, updated, broken,
  PricesStatus, error, empty, one, list, nil_list, unknown, Library, LockError, no_value, fallback,
  Result, ok, err, Lock,
}
use pit_go.Pretrade.Objects.{State, M, ◌>>=◌, ◌>>◌, return, monad_operations, error_of}
use pit_go.Pretrade.Native.{from_format_name, to_format_name}
use pit_go.Pretrade.Methods.{
  assign, new_lock, new_lock_from_json, new_lock_from_msg_pack, new_lock_from_cbor,
  new_lock_from_entries, new_entry_handles, new_entries_from_handles, entry_price, marshal_json,
  marshal_msgpack, marshal_cbor, unmarshal_json, unmarshal_msgpack, unmarshal_cbor,
}
use pit_go.Pretrade.Methods as Methods

pub data Call : Type 0 where
  len is_empty_lock entries prices : Call
  prices_of : ℕ → Call
  push_many : List Entry → Call
  merge : Lock → Call
  marshal : Format → Call
  unmarshal : Format → List ℕ → Call

pub data Answer : Type 0 where
  done : Answer
  number : ℕ → Answer
  flag : Bool → Answer
  entry_list : List Entry → Answer
  price_list : List ℕ → Answer
  payload : List ℕ → Answer

pub data Constructor : Type 0 where
  fresh : Constructor
  of_bytes : List ℕ → Constructor
  of_format : Format → List ℕ → Constructor
  of_entries : List Entry → Constructor

module _ (lib : Library) where
  abbrev pub marshal_to : Format → M lib.Content (List ℕ)
  marshal_to json = marshal_json lib
  marshal_to msg_pack = marshal_msgpack lib
  marshal_to cbor = marshal_cbor lib

  abbrev pub unmarshal_from : Format → List ℕ → M lib.Content (Unit {0})
  unmarshal_from json = unmarshal_json lib
  unmarshal_from msg_pack = unmarshal_msgpack lib
  unmarshal_from cbor = unmarshal_cbor lib

  unfoldable pub call : Call → M lib.Content Answer
  unfolding monad_operations
  call len = Methods.len lib >>= λ n. return (number n)
  call is_empty_lock = Methods.is_empty_lock lib >>= λ b. return (flag b)
  call entries = Methods.entries lib >>= λ es. return (entry_list es)
  call prices = Methods.prices lib >>= λ ps. return (price_list ps)
  call (prices_of group) = Methods.prices_of lib group >>= λ ps. return (price_list ps)
  call (push_many es) = Methods.push_many lib es >> return done
  call (merge other) = Methods.merge lib other >> return done
  call (marshal format) = marshal_to format >>= λ b. return (payload b)
  call (unmarshal format b) = unmarshal_from format b >> return done

  -- Calls one after the other, also after a failure.
  abbrev pub run : List Call → State lib.Content → List (Result Answer) × State lib.Content
  run [] s = ([], s)
  run (c ∷ cs) s = let r = call c s in let rest = run cs r.1 in (r.0 ∷ rest.0, rest.1)

  -- `NewLockFromBytes` does not look at the bytes.
  unfoldable pub construct : Constructor → M lib.Content Lock
  unfolding monad_operations
  construct fresh = new_lock lib
  construct (of_bytes b) = return (record { value = b })
  construct (of_format json b) = new_lock_from_json lib b
  construct (of_format msg_pack b) = new_lock_from_msg_pack lib b
  construct (of_format cbor b) = new_lock_from_cbor lib b
  construct (of_entries es) = new_lock_from_entries lib es

abbrev pub text_error : String → Option (List ℕ) → LockError
text_error name none = fallback name
text_error name (some text) = error_of name text

abbrev pub result_of : {A : Type 0} → String → Status A → Result A
result_of name (succeeded a) = ok a
result_of name (failed out) = err (text_error name out)

abbrev pub update_of : {A : Type 0} → String → Update A → Result A
update_of name (updated a) = ok a
update_of name (broken a out) = err (text_error name out)

abbrev pub prices_result : PricesStatus → Result (List ℕ)
prices_result (error out) = err (text_error "openpit_pretrade_pre_trade_lock_prices_of failed" out)
prices_result empty = ok []
prices_result (one price) = ok (price ∷ [])
prices_result (list ps) = ok ps
prices_result nil_list =
    err (fallback "openpit_pretrade_pre_trade_lock_prices_of returned list status with nil list")
prices_result unknown =
    err (fallback "openpit_pretrade_pre_trade_lock_prices_of returned unknown status")

abbrev pub then_result : {A B : Type 0} → (A → Result B) → Result A → Result B
then_result f (ok a) = f a
then_result f (err e) = err e

abbrev pub map_result : {A B : Type 0} → (A → B) → Result A → Result B
map_result f (ok a) = ok (f a)
map_result f (err e) = err e

module _ (lib : Library) where
  abbrev pub decoded : Lock → Result lib.Content
  decoded l =
      if is_empty l.value
      then err no_value
      else result_of "openpit_create_pretrade_pre_trade_lock_from_raw failed" (lib.from_raw l.value)

  abbrev pub pushes : List Entry → lib.Content → Result lib.Content
  pushes es c =
      update_of "openpit_pretrade_pre_trade_lock_push_many failed"
        (lib.push_many c (new_entry_handles es))

  abbrev pub merges : Result lib.Content → lib.Content → Result lib.Content
  merges other c =
      then_result (λ d. update_of "openpit_pretrade_pre_trade_lock_merge failed" (lib.merge c d))
        other

  abbrev pub from_payload : Format → List ℕ → Result lib.Content
  from_payload format b = result_of (from_format_name format) (lib.from_format format b)

  abbrev pub to_payload : Format → lib.Content → Result (List ℕ)
  to_payload format c = result_of (to_format_name format) (lib.to_format format c)

  -- The contents of the lock that a constructor makes.
  abbrev pub constructed : Constructor → Result lib.Content
  constructed fresh = ok lib.initial
  constructed (of_bytes b) = decoded (record { value = b })
  constructed (of_format format b) = from_payload format b
  constructed (of_entries es) =
      result_of "openpit_create_pretrade_pre_trade_lock_from_entries failed"
        (lib.from_entries (new_entry_handles es))

  -- What is answered, and the new contents if there are any.
  abbrev pub changed_to : Result lib.Content → Result Answer × Option lib.Content
  changed_to (ok c) = (ok done, some c)
  changed_to (err e) = (err e, none)

  abbrev pub step : Call → Result lib.Content → Result Answer × Option lib.Content
  step len st = (map_result (λ c. number (lib.len c)) st, none)
  step is_empty_lock st = (map_result (λ c. flag (lib.is_empty c)) st, none)
  step entries st =
      (map_result (λ c. entry_list (new_entries_from_handles (lib.entries c))) st, none)
  step prices st = (map_result (λ c. price_list (map entry_price (lib.entries c))) st, none)
  step (prices_of group) st =
      (map_result price_list (then_result (λ c. prices_result (lib.prices_of c group)) st), none)
  step (push_many es) st = changed_to (then_result (pushes es) st)
  step (merge other) st = changed_to (then_result (merges (decoded other)) st)
  step (marshal format) st = (map_result payload (then_result (to_payload format) st), none)
  step (unmarshal format b) st = changed_to (from_payload format b)

  abbrev pub keep : Option lib.Content → Result lib.Content → Result lib.Content
  keep none st = st
  keep (some c) st = ok c

  abbrev pub spec_run : List Call → Result lib.Content → List (Result Answer) × Result lib.Content
  spec_run [] st = ([], st)
  spec_run (c ∷ cs) st =
      let r = step c st in let rest = spec_run cs (keep r.1 st) in (r.0 ∷ rest.0, rest.1)
