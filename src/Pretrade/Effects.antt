-- ===== src/Pretrade/Effects.antt =====
-- What a call on a lock of pretrade/lock.go comes to, without the native objects in between.
use Prim.Native.String.{String}
use pit_go.Base.{
  ℕ, suc, ◌≡◌, refl, Bool, true, false, Option, none, some, List, ◌∷◌, is_empty, ◌==◌, arith, ◌⊎◌,
  inl, inr, Bool-cases,
}
use pit_go.Pretrade.{Status, succeeded, failed, Library, LockError, no_value, Result, ok, err, Lock}
use pit_go.Pretrade.Objects.{
  Object, lock, State, M, ◌>>=◌, return, monad_operations, consume_shared_string_as_error, created,
}
use pit_go.Pretrade.Native.{create_lock_from_raw, lock_to_raw}
use pit_go.Pretrade.Methods.{decode_lock_bytes, new_lock_from_handle, take_lock}
use pit_go.Pretrade.Calls.{Call, call, step, text_error, result_of, decoded, map_result}

-- A state of which only the next handle has changed.
abbrev pub later : {C : Type 0} → ℕ → State C → State C
later n s = record s { next = n }

pub ==-self : (n : ℕ) → (n == n) ≡ true
==-self n = ground arith

-- The call `m` in the state `s` gives `r` and leaves `l` as the receiver; all that it creates it destroys.
abbrev pub Comes : {C A : Type 0} → M C A → State C → Result A → Lock → Type 0
Comes m s r l = (n : ℕ) × (m s ≡ (r, record s { next = n; receiver = l }))

abbrev pub Fails : {C A : Type 0} → M C A → State C → LockError → Type 0
Fails m s e = (n : ℕ) × (m s ≡ (err e, later n s))

abbrev pub pushed : {C : Type 0} → Object C → State C → State C
pushed o s = record s { next = suc s.next; live = (s.next, o) ∷ s.live }

pub consume_lem :
    {C A : Type 0} (name : String) (out : Option (List ℕ)) (s : State C)
    → Fails {A = A} (consume_shared_string_as_error name out) s (text_error name out)
unfolding consume_shared_string_as_error monad_operations
consume_lem name none s = (s.next, refl)
consume_lem name (some text) s = (suc s.next, simp (==-self s.next))

-- Either the call fails like `r`, or it leaves a new object, made of the value of `r`, as the newest.
abbrev pub Creates : {C A : Type 0} → M C ℕ → State C → Result A → (A → Object C) → Type 0
Creates m s r f =
    ((e : LockError) × (r ≡ err e) × Fails m s e)
    ⊎ ((a : _) × (r ≡ ok a) × (m s ≡ (ok s.next, pushed (f a) s)))

pub created_lem :
    {C A : Type 0} (name : String) (f : A → Object C) (x : Status A) (s : State C)
    → Creates (created name f x) s (result_of name x) f
unfolding created monad_operations
created_lem name f (succeeded a) s = inr (a, refl, refl)
created_lem name f (failed out) s = inl (text_error name out, refl, consume_lem name out s)

pub decode_lem :
    (lib : Library) (l : Lock) (s : State lib.Content)
    → Creates (decode_lock_bytes lib l) s (decoded lib l) lock
unfolding decode_lock_bytes create_lock_from_raw monad_operations
decode_lem lib l s = elim (Bool-cases (is_empty l.value)) [
  | inl h ↦ rw h (inl (no_value, refl, (s.next, refl)))
  | inr h ↦ rw h (created_lem _ lock (lib.from_raw l.value) s)
]

-- What a lock of some contents is rendered to.
abbrev pub rendered : (lib : Library) → lib.Content → Lock
rendered lib c = record { value = lib.to_raw c }

pub new_lock_from_handle_lem :
    (lib : Library) (c : lib.Content) (k n : ℕ) (xs : List (ℕ × Object lib.Content)) (m : Bool)
    (l : Lock)
    → new_lock_from_handle lib k
        (record { next = n; live = (k, lock c) ∷ xs; misused = m; receiver = l })
      ≡ (
        ok (rendered lib c),
        record { next = suc n; live = (k, lock c) ∷ xs; misused = m; receiver = l },
      )
unfolding new_lock_from_handle lock_to_raw monad_operations
new_lock_from_handle_lem lib c k n xs m l = simp (==-self k, ==-self n)

pub take_lock_lem :
    (lib : Library) (c : lib.Content) (s : State lib.Content)
    → take_lock lib s.next (pushed (lock c) s) ≡ (ok (rendered lib c), later (suc (suc s.next)) s)
unfolding take_lock monad_operations
take_lock_lem lib c s =
    rw (new_lock_from_handle_lem lib c s.next (suc s.next) s.live s.misused s.receiver)
      (simp (==-self s.next))

pub ==-suc : (n : ℕ) → (n == suc n) ≡ false
==-suc n = ground arith

abbrev pub locked : (lib : Library) → Option lib.Content → Lock → Lock
locked lib none l = l
locked lib (some c) l = rendered lib c

-- A call answers and changes its receiver as the specification says.
abbrev pub Follows : (lib : Library) → Call → State lib.Content → Type 0
Follows lib c s =
    let r = step lib c (decoded lib s.receiver) in
    Comes (call lib c) s r.0 (locked lib r.1 s.receiver)

pub return-Comes :
    {C A B : Type 0} (f : A → B) (m : M C A) (s : State C) (r : Result A) (l : Lock)
    → Comes m s r l
    → Comes (m >>= λ a. return (f a)) s (map_result f r) l
unfolding monad_operations
return-Comes f m s (ok a) l (n, k) = (n, rw k refl)
return-Comes f m s (err e) l (n, k) = (n, rw k refl)
