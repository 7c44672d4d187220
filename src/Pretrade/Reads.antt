-- ===== src/Pretrade/Reads.antt =====
-- The methods of pretrade/lock.go that read a lock: they follow the specification.
use pit_go.Base.{ℕ, suc, ◌≡◌, refl, List, inl, inr, ◌⊎◌}
use pit_go.Pretrade.{
  Format, json, msg_pack, cbor, Library, LockError, PricesStatus, error, empty, one, list, nil_list,
  unknown, ok, err,
}
use pit_go.Pretrade.Objects.{State, monad_operations, lock, bytes_of}
use pit_go.Pretrade.Native.{
  lock_len, lock_is_empty, lock_entries_of, lock_prices_of, prices_by, lock_to_format,
  to_format_name, shared_of,
}
use pit_go.Pretrade.Methods.{receiver}
use pit_go.Pretrade.Methods as Methods
use pit_go.Pretrade.Calls.{
  call, len, is_empty_lock, entries, prices, prices_of, marshal, payload, then_result, decoded,
  prices_result, to_payload,
}
use pit_go.Pretrade.Effects.{
  Follows, Fails, Comes, return-Comes, ==-self, decode_lem, consume_lem, created_lem, pushed, later,
}

pub len-Follows : (lib : Library) (s : State lib.Content) → Follows lib len s
unfolding call Methods.len lock_len receiver monad_operations
len-Follows lib s = elim (decode_lem lib s.receiver s) [
  | inl (e, h, (n, k)) ↦ (n, rw (h, k) refl)
  | inr (c, h, k) ↦ (suc s.next, rw (h, k) (simp (==-self s.next)))
]

pub is_empty_lock-Follows : (lib : Library) (s : State lib.Content) → Follows lib is_empty_lock s
unfolding call Methods.is_empty_lock lock_is_empty receiver monad_operations
is_empty_lock-Follows lib s = elim (decode_lem lib s.receiver s) [
  | inl (e, h, (n, k)) ↦ (n, rw (h, k) refl)
  | inr (c, h, k) ↦ (suc s.next, rw (h, k) (simp (==-self s.next)))
]

pub entries-Follows : (lib : Library) (s : State lib.Content) → Follows lib entries s
unfolding call Methods.entries lock_entries_of receiver monad_operations
entries-Follows lib s = elim (decode_lem lib s.receiver s) [
  | inl (e, h, (n, k)) ↦ (n, rw (h, k) refl)
  | inr (c, h, k) ↦ (suc (suc s.next), rw (h, k) (simp (==-self s.next, ==-self (suc s.next))))
]

pub prices-Follows : (lib : Library) (s : State lib.Content) → Follows lib prices s
unfolding call Methods.prices lock_entries_of receiver monad_operations
prices-Follows lib s = elim (decode_lem lib s.receiver s) [
  | inl (e, h, (n, k)) ↦ (n, rw (h, k) refl)
  | inr (c, h, k) ↦ (suc (suc s.next), rw (h, k) (simp (==-self s.next, ==-self (suc s.next))))
]

-- The prices of a group, or an error of the library.
prices_by_lem :
    (lib : Library) (x : PricesStatus) (s : State lib.Content)
    → ((e : LockError) × (prices_result x ≡ err e) × Fails (prices_by lib x) s e)
      ⊎ ((ps : List ℕ) × (prices_result x ≡ ok ps)
          × ((n : ℕ) × (prices_by lib x s ≡ (ok ps, later n s))))
unfolding prices_by monad_operations
prices_by_lem lib (error out) s = inl (_, refl, consume_lem _ out s)
prices_by_lem lib empty s = inr (_, refl, (s.next, refl))
prices_by_lem lib (one price) s = inr (_, refl, (s.next, refl))
prices_by_lem lib (list ps) s = inr (_, refl, (suc s.next, simp (==-self s.next)))
prices_by_lem lib nil_list s = inl (_, refl, (s.next, refl))
prices_by_lem lib unknown s = inl (_, refl, (s.next, refl))

pub prices_of-Follows :
    (lib : Library) (group : ℕ) (s : State lib.Content) → Follows lib (prices_of group) s
unfolding call Methods.prices_of lock_prices_of receiver monad_operations
prices_of-Follows lib group s = elim (decode_lem lib s.receiver s) [
  | inl (e, h, (n, k)) ↦ (n, rw (h, k) refl)
  | inr (c, h, k) ↦ elim (prices_by_lem lib (lib.prices_of c group) (pushed (lock c) s)) [
    | inl (e, i, (n, j)) ↦ (n, rw (h, k, ==-self s.next, j, i) (simp (==-self s.next)))
    | inr (ps, i, (n, j)) ↦ (n, rw (h, k, ==-self s.next, j, i) (simp (==-self s.next)))
  ]
]

bytes_of-shared_of :
    {C : Type 0} (format : Format) (b : List ℕ) (s : State C)
    → bytes_of (shared_of format b) s ≡ (ok b, s)
unfolding bytes_of monad_operations
bytes_of-shared_of json b s = refl
bytes_of-shared_of msg_pack b s = refl
bytes_of-shared_of cbor b s = refl

pub marshal-Comes :
    (lib : Library) (format : Format) (s : State lib.Content)
    → Comes
        (Methods.marshal lib format)
        s
        (then_result (to_payload lib format) (decoded lib s.receiver))
        s.receiver
unfolding Methods.marshal lock_to_format receiver monad_operations
marshal-Comes lib format s = elim (decode_lem lib s.receiver s) [
  | inl (e, h, (n, k)) ↦ (n, rw (h, k) refl)
  | inr (c, h, k) ↦
      elim (created_lem (to_format_name format) (shared_of format) (lib.to_format format c)
        (pushed (lock c) s)) [
          | inl (e, i, (n, j)) ↦ (n, rw (h, k, ==-self s.next, j, i) (simp (==-self s.next)))
          | inr (b, i, j) ↦ (
            suc (suc s.next),
            rw (h, k, ==-self s.next, j, i, ==-self (suc s.next), bytes_of-shared_of format b)
                (simp (==-self s.next, ==-self (suc s.next))),
          )
        ]
]

pub marshal-Follows :
    (lib : Library) (format : Format) (s : State lib.Content) → Follows lib (marshal format) s
unfolding call Methods.marshal_json Methods.marshal_msgpack Methods.marshal_cbor
marshal-Follows lib json s =
    return-Comes payload (Methods.marshal lib json) s _ s.receiver (marshal-Comes lib json s)
marshal-Follows lib msg_pack s =
    return-Comes payload (Methods.marshal lib msg_pack) s _ s.receiver
      (marshal-Comes lib msg_pack s)
marshal-Follows lib cbor s =
    return-Comes payload (Methods.marshal lib cbor) s _ s.receiver (marshal-Comes lib cbor s)
