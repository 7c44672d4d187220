-- ===== src/Pretrade.antt =====
-- Pre-trade locks: pretrade/lock.go over the handles of internal/native/pre_trade_lock.go. The native
-- library is a record of functions on the contents of a lock. A price is a number, and a slice that is
-- nil is an empty one.
pub mod Objects
pub mod Native
pub mod Methods
pub mod Calls
pub mod Effects
pub mod Reads
pub mod Writes
pub mod Guarantees
pub mod RoundTrip
use Prim.Native.String.{String}
use pit_go.Base.{ℕ, Bool, Option, List}

-- `Entry` and its C form.
pub record Entry : Type 0 where
  pub policy_group_id : ℕ
  pub price : ℕ

pub record NativeEntry : Type 0 where
  pub policy_group_id : ℕ
  pub price : ℕ

pub data Format : Type 0 where
  json msg_pack cbor : Format

-- What a call of the library returns that can fail: `failed` has the text of its out-error, if any.
pub data Status (A : Type 0) : Type 0 where
  succeeded : A → Status A
  failed : Option (List ℕ) → Status A

-- The contents of a lock after a call that changes it, also if it fails.
pub data Update (A : Type 0) : Type 0 where
  updated : A → Update A
  broken : A → Option (List ℕ) → Update A

-- What `prices_of` may return, a list status without a list and an unknown status included.
pub data PricesStatus : Type 0 where
  error : Option (List ℕ) → PricesStatus
  empty : PricesStatus
  one : ℕ → PricesStatus
  list : List ℕ → PricesStatus
  nil_list unknown : PricesStatus

-- The functions of openpit.h on locks, by what they do to the contents.
pub record Library : Type 1 where
  pub Content : Type 0
  pub initial : Content
  pub from_raw : List ℕ → Status Content
  pub from_format : Format → List ℕ → Status Content
  pub from_entries : List NativeEntry → Status Content
  pub to_raw : Content → List ℕ
  pub to_format : Format → Content → Status (List ℕ)
  pub len : Content → ℕ
  pub is_empty : Content → Bool
  pub entries : Content → List NativeEntry
  pub prices_of : Content → ℕ → PricesStatus
  pub push_many : Content → List NativeEntry → Update Content
  pub merge : Content → Content → Update Content

-- `message` is an error of the library, `fallback` one of the binding for a failure without a text.
pub data LockError : Type 0 where
  no_value use_after_free : LockError
  message : List ℕ → LockError
  fallback : String → LockError

pub data Result (A : Type 0) : Type 0 where
  ok : A → Result A
  err : LockError → Result A

-- `Lock`.
pub record Lock : Type 0 where
  pub value : List ℕ
