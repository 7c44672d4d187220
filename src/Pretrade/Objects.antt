-- ===== src/Pretrade/Objects.antt =====
-- internal/native/bytes.go, string.go and error.go, and the lists of internal/native/pre_trade_lock.go:
-- native objects behind handles. A handle that is read or destroyed when its object is not there marks
-- the state as misused and fails the call.
use Prim.Native.String.{String}
use pit_go.Base.{
  ℕ, suc, Bool, true, Option, none, some, List, [], ◌∷◌, is_empty, ◌==◌, if◌then◌else◌,
}
use pit_go.Pretrade.{
  NativeEntry, Status, succeeded, failed, Update, updated, broken, LockError, use_after_free,
  message, fallback, Result, ok, err, Lock,
}

pub data Object (C : Type 0) : Type 0 where
  lock : C → Object C
  shared_bytes : List ℕ → Object C
  shared_string : List ℕ → Object C
  entries_list : List NativeEntry → Object C
  prices_list : List ℕ → Object C

-- `live` has the objects that were created and not destroyed yet, the newest first; `receiver` is the
-- lock whose method runs.
pub record State (C : Type 0) : Type 0 where
  pub next : ℕ
  pub live : List (ℕ × Object C)
  pub misused : Bool
  pub receiver : Lock

abbrev pub M : Type 0 → Type 0 → Type 0
M C A = State C → Result A × State C

unfoldable pub bind_result :
    {C A B : Type 0} → (A → M C B) → Result A → State C → Result B × State C
bind_result f (ok a) s = f a s
bind_result f (err e) s = (err e, s)

infixl 5 ◌>>=◌ ◌>>◌
unfoldable pub ◌>>=◌ : {C A B : Type 0} → M C A → (A → M C B) → M C B
unfolding bind_result
◌>>=◌ m f s = bind_result f (m s).0 (m s).1

unfoldable pub ◌>>◌ : {C A B : Type 0} → M C A → M C B → M C B
unfolding ◌>>=◌
m >> k = m >>= λ _. k

unfoldable pub return : {C A : Type 0} → A → M C A
return a s = (ok a, s)

unfoldable pub throw : {C A : Type 0} → LockError → M C A
throw e s = (err e, s)

unfoldable pub cleanup_after :
    {C A : Type 0} → M C (Unit {0}) → Result A → State C → Result A × State C
cleanup_after f (ok a) s = (ok a, s)
cleanup_after f (err e) s = (err e, (f s).1)

-- `if err != nil { cleanup(); return err }`.
unfoldable pub on_error : {C A : Type 0} → M C A → M C (Unit {0}) → M C A
unfolding cleanup_after
on_error m f s = cleanup_after f (m s).0 (m s).1

abbrev pub lookup : {C : Type 0} → ℕ → List (ℕ × Object C) → Option (Object C)
lookup k [] = none
lookup k (x ∷ xs) = if k == x.0 then some x.1 else lookup k xs

abbrev pub forget : {C : Type 0} → ℕ → List (ℕ × Object C) → List (ℕ × Object C)
forget k [] = []
forget k (x ∷ xs) = if k == x.0 then xs else x ∷ forget k xs

abbrev pub replace : {C : Type 0} → ℕ → Object C → List (ℕ × Object C) → List (ℕ × Object C)
replace k o [] = []
replace k o (x ∷ xs) = if k == x.0 then (k, o) ∷ xs else x ∷ replace k o xs

unfoldable pub create : {C : Type 0} → Object C → M C ℕ
create o s = (ok s.next, record s { next = suc s.next; live = (s.next, o) ∷ s.live })

unfoldable pub misuse : {C A : Type 0} → M C A
misuse s = (err use_after_free, record s { misused = true })

unfoldable pub destroy_found : {C : Type 0} → ℕ → Option (Object C) → M C (Unit {0})
unfolding misuse
destroy_found k none s = misuse s
destroy_found k (some o) s = (ok tt, record s { live = forget k s.live })

-- `DestroyPretradePreTradeLock`, `DestroySharedBytes`, `DestroySharedString`, and the destruction of lists.
unfoldable pub destroy : {C : Type 0} → ℕ → M C (Unit {0})
unfolding destroy_found
destroy k s = destroy_found k (lookup k s.live) s

unfoldable pub with_found : {C A : Type 0} → (Object C → M C A) → Option (Object C) → M C A
unfolding misuse
with_found f none s = misuse s
with_found f (some o) s = f o s

unfoldable pub with_object : {C A : Type 0} → ℕ → (Object C → M C A) → M C A
unfolding with_found
with_object k f s = with_found f (lookup k s.live) s

unfoldable pub as_lock : {C A : Type 0} → (C → M C A) → Object C → M C A
unfolding misuse
as_lock f (lock c) s = f c s
as_lock f _ s = misuse s

unfoldable pub with_lock : {C A : Type 0} → ℕ → (C → M C A) → M C A
unfolding with_object as_lock
with_lock k f = with_object k (as_lock f)

-- `CloneBytes(SharedBytesView(raw))`, `SharedStringViewBytes(payload)`.
unfoldable pub bytes_of : {C : Type 0} → Object C → M C (List ℕ)
unfolding misuse return
bytes_of (shared_bytes b) = return b
bytes_of (shared_string b) = return b
bytes_of _ = misuse

unfoldable pub clone_bytes : {C : Type 0} → ℕ → M C (List ℕ)
unfolding with_object bytes_of
clone_bytes k = with_object k bytes_of

unfoldable pub clone_entries : {C : Type 0} → Object C → M C (List NativeEntry)
unfolding misuse return
clone_entries (entries_list es) = return es
clone_entries _ = misuse

unfoldable pub clone_prices : {C : Type 0} → Object C → M C (List ℕ)
unfolding misuse return
clone_prices (prices_list ps) = return ps
clone_prices _ = misuse

-- `consumeSharedStringAsError`: of its text, or the fallback if there is none.
abbrev pub error_of : String → List ℕ → LockError
error_of name text = if is_empty text then fallback name else message text

unfoldable pub consume_shared_string_as_error : {C A : Type 0} → String → Option (List ℕ) → M C A
unfolding ◌>>=◌ ◌>>◌ throw create clone_bytes destroy
consume_shared_string_as_error name none = throw (fallback name)
consume_shared_string_as_error name (some text) = do
  handle ← create (shared_string text)
  msg ← clone_bytes handle
  destroy handle
  throw (error_of name msg)

-- The object of a call that returns one, or nil with an out-error.
unfoldable pub created : {C A : Type 0} → String → (A → Object C) → Status A → M C ℕ
unfolding create consume_shared_string_as_error
created name f (succeeded a) = create (f a)
created name f (failed out) = consume_shared_string_as_error name out

unfoldable pub changed : {C : Type 0} → String → ℕ → Update C → M C (Unit {0})
unfolding consume_shared_string_as_error
changed name k (updated c) s = (ok tt, record s { live = replace k (lock c) s.live })
changed name k (broken c out) s =
    consume_shared_string_as_error name out (record s { live = replace k (lock c) s.live })

-- Unfolded for the operations on objects together.
unfoldable pub monad_operations : Unit {0}
unfolding ◌>>=◌ ◌>>◌ return throw on_error create destroy with_object with_lock clone_bytes
    clone_entries clone_prices
monad_operations = tt
