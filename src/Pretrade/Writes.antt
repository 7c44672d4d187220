-- ===== src/Pretrade/Writes.antt =====
-- The constructors of pretrade/lock.go and the methods that change a lock: they follow the specification.
use Prim.Native.String.{String}
use pit_go.Base.{ℕ, suc, ◌≡◌, refl, List, inl, inr, ◌⊎◌}
use pit_go.Pretrade.{
  Entry, Format, json, msg_pack, cbor, Library, LockError, Update, updated, broken, Result, ok, err,
  Lock,
}
use pit_go.Pretrade.Objects.{Object, State, M, monad_operations, ◌>>=◌, ◌>>◌, return, lock, changed}
use pit_go.Pretrade.Native.{
  lock_push_many, lock_merge, create_lock, create_lock_from_format, create_lock_from_entries,
  from_format_name,
}
use pit_go.Pretrade.Methods.{
  receiver, assign, new_entry_handles, take_lock, new_lock, new_lock_from_format,
  new_lock_from_json, new_lock_from_msg_pack, new_lock_from_cbor, new_lock_from_entries,
}
use pit_go.Pretrade.Methods as Methods
use pit_go.Pretrade.Calls.{
  call, push_many, merge, unmarshal, done, changed_to, update_of, map_result, result_of,
  from_payload, Constructor, fresh, of_bytes, of_format, of_entries, construct,
}
use pit_go.Pretrade.Effects.{
  Follows, Comes, Creates, ==-self, ==-suc, decode_lem, consume_lem, created_lem, pushed, later,
  rendered, locked, new_lock_from_handle_lem, take_lock_lem,
}

-- A call ended with an error in the state `t`, but for the next handle.
abbrev FailsAt : {C A : Type 0} → Result A × State C → LockError → State C → Type 0
FailsAt r e t = (n : ℕ) × (r ≡ (err e, later n t))

-- A change of the newest object, or of the one before it.
changed_lem :
    {C : Type 0} (name : String) (x : Update C) (o : Object C) (s : State C)
    → ((e : LockError) × (update_of name x ≡ err e)
        × ((c : C) × FailsAt (changed name s.next x (pushed o s)) e (pushed (lock c) s)))
      ⊎ ((c : C) × (update_of name x ≡ ok c)
          × (changed name s.next x (pushed o s) ≡ (ok tt, pushed (lock c) s)))
unfolding changed
changed_lem name (updated c) o s = inr (c, refl, rw (==-self s.next) refl)
changed_lem name (broken c out) o s =
    inl (_, refl, (c, rw (==-self s.next) (consume_lem name out (pushed (lock c) s))))

changed_below_lem :
    {C : Type 0} (name : String) (x : Update C) (o p : Object C) (s : State C)
    → ((e : LockError) × (update_of name x ≡ err e)
        × ((c : C) × FailsAt
              (changed name s.next x (pushed p (pushed o s)))
              e
              (pushed p (pushed (lock c) s))))
      ⊎ ((c : C) × (update_of name x ≡ ok c)
          × (changed name s.next x (pushed p (pushed o s)) ≡ (ok tt, pushed p (pushed (lock c) s))))
unfolding changed
changed_below_lem name (updated c) o p s = inr (c, refl, rw (==-suc s.next, ==-self s.next) refl)
changed_below_lem name (broken c out) o p s = inl (
  _,
  refl,
  (c, rw (==-suc s.next, ==-self s.next) (consume_lem name out (pushed p (pushed (lock c) s)))),
)

pub push_many-Follows :
    (lib : Library) (es : List Entry) (s : State lib.Content) → Follows lib (push_many es) s
unfolding call Methods.push_many lock_push_many receiver assign monad_operations
push_many-Follows lib es s = elim (decode_lem lib s.receiver s) [
  | inl (e, h, (n, k)) ↦ (n, rw (h, k) refl)
  | inr (c, h, k) ↦
      elim (changed_lem "openpit_pretrade_pre_trade_lock_push_many failed"
        (lib.push_many c (new_entry_handles es)) (lock c) s) [
          | inl (e, i, (d, (n, j))) ↦ (n, rw (h, k, ==-self s.next, j, i) (simp (==-self s.next)))
          | inr (d, i, j) ↦ (
            suc (suc s.next),
            rw
                (
                  h,
                  k,
                  ==-self s.next,
                  j,
                  i,
                  new_lock_from_handle_lem lib d s.next (suc s.next) s.live s.misused s.receiver,
                )
                (simp (==-self s.next)),
          )
        ]
]

pub merge-Follows :
    (lib : Library) (other : Lock) (s : State lib.Content) → Follows lib (merge other) s
unfolding call Methods.merge lock_merge receiver assign monad_operations
merge-Follows lib other s = elim (decode_lem lib s.receiver s) [
  | inl (e, h, (n, k)) ↦ (n, rw (h, k) refl)
  | inr (c, h, k) ↦ elim (decode_lem lib other (pushed (lock c) s)) [
    | inl (e, i, (n, j)) ↦ (n, rw (h, k, j, i) (simp (==-self s.next)))
    | inr (d, i, j) ↦
        elim (changed_below_lem "openpit_pretrade_pre_trade_lock_merge failed" (lib.merge c d)
          (lock c) (lock d) s) [
            | inl (e, p, (b, (n, q))) ↦ (
              n,
              rw (h, k, j, i, ==-suc s.next, ==-self s.next, ==-self (suc s.next), q, p)
                  (simp (==-self s.next, ==-self (suc s.next))),
            )
            | inr (b, p, q) ↦ (
              suc (suc (suc s.next)),
              rw
                  (
                    h,
                    k,
                    j,
                    i,
                    ==-suc s.next,
                    ==-self s.next,
                    ==-self (suc s.next),
                    q,
                    p,
                    ==-self (suc s.next),
                    ==-self (suc s.next),
                    new_lock_from_handle_lem lib b s.next (suc (suc s.next)) s.live s.misused
                        s.receiver,
                  )
                  (simp (==-self s.next)),
            )
          ]
  ]
]

-- A constructor makes the lock that its contents are rendered to.
taken_lem :
    (lib : Library) (m : M lib.Content ℕ) (r : Result lib.Content) (s : State lib.Content)
    → Creates m s r lock
    → Comes (m >>= take_lock lib) s (map_result (rendered lib) r) s.receiver
unfolding monad_operations
taken_lem lib m r s (inl (e, h, (n, k))) = (n, rw (k, h) refl)
taken_lem lib m r s (inr (c, h, k)) = (suc (suc s.next), rw (k, h, take_lock_lem lib c s) refl)

pub new_lock_from_format-Comes :
    (lib : Library) (format : Format) (b : List ℕ) (s : State lib.Content)
    → Comes
        (new_lock_from_format lib format b)
        s
        (map_result (rendered lib) (from_payload lib format b))
        s.receiver
unfolding new_lock_from_format create_lock_from_format
new_lock_from_format-Comes lib format b s =
    taken_lem lib (create_lock_from_format lib format b) (from_payload lib format b) s
      (created_lem (from_format_name format) lock (lib.from_format format b) s)

-- What a constructor gives; `NewLockFromBytes` keeps the bytes as they are.
abbrev pub made : (lib : Library) → Constructor → Result Lock
made lib fresh = ok (rendered lib lib.initial)
made lib (of_bytes b) = ok (record { value = b })
made lib (of_format format b) = map_result (rendered lib) (from_payload lib format b)
made lib (of_entries es) = map_result (rendered lib) (
    result_of "openpit_create_pretrade_pre_trade_lock_from_entries failed"
      (lib.from_entries (new_entry_handles es)))

pub construct-Comes :
    (lib : Library) (k : Constructor) (s : State lib.Content)
    → Comes (construct lib k) s (made lib k) s.receiver
unfolding construct new_lock create_lock new_lock_from_json new_lock_from_msg_pack
    new_lock_from_cbor new_lock_from_entries create_lock_from_entries monad_operations
construct-Comes lib fresh s = (suc (suc s.next), rw (take_lock_lem lib lib.initial s) refl)
construct-Comes lib (of_bytes b) s = (s.next, refl)
construct-Comes lib (of_format json b) s = new_lock_from_format-Comes lib json b s
construct-Comes lib (of_format msg_pack b) s = new_lock_from_format-Comes lib msg_pack b s
construct-Comes lib (of_format cbor b) s = new_lock_from_format-Comes lib cbor b s
construct-Comes lib (of_entries es) s =
    taken_lem lib (create_lock_from_entries lib (new_entry_handles es)) _ s (
      created_lem "openpit_create_pretrade_pre_trade_lock_from_entries failed" lock
        (lib.from_entries (new_entry_handles es)) s)

assigned_lem :
    (lib : Library) (m : M lib.Content Lock) (r : Result lib.Content) (s : State lib.Content)
    → Comes m s (map_result (rendered lib) r) s.receiver
    → Comes
        (Methods.unmarshal lib m >> return done)
        s
        (changed_to lib r).0
        (locked lib (changed_to lib r).1 s.receiver)
unfolding Methods.unmarshal assign monad_operations
assigned_lem lib m (ok c) s (n, k) = (n, rw k refl)
assigned_lem lib m (err e) s (n, k) = (n, rw k refl)

pub unmarshal-Follows :
    (lib : Library) (format : Format) (b : List ℕ) (s : State lib.Content)
    → Follows lib (unmarshal format b) s
unfolding call Methods.unmarshal_json Methods.unmarshal_msgpack Methods.unmarshal_cbor
    new_lock_from_json new_lock_from_msg_pack new_lock_from_cbor
unmarshal-Follows lib json b s =
    assigned_lem lib (new_lock_from_format lib json b) (from_payload lib json b) s
      (new_lock_from_format-Comes lib json b s)
unmarshal-Follows lib msg_pack b s =
    assigned_lem lib (new_lock_from_format lib msg_pack b) (from_payload lib msg_pack b) s
      (new_lock_from_format-Comes lib msg_pack b s)
unmarshal-Follows lib cbor b s =
    assigned_lem lib (new_lock_from_format lib cbor b) (from_payload lib cbor b) s
      (new_lock_from_format-Comes lib cbor b s)
