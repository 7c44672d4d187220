-- ===== src/Examples/LockRuns.antt =====
-- Locks of pretrade/lock.go with a library that writes the entries one after the other.
use pit_go.Base.{ℕ, ◌≡◌, refl, false, none, some, List, [], ◌∷◌, ◌++◌, map, is_empty, length}
use pit_go.Pretrade.{
  Entry, NativeEntry, json, Status, succeeded, failed, Update, updated, broken, PricesStatus,
  Library, no_value, message, ok, err, Lock,
}
use pit_go.Pretrade.Objects.{State, monad_operations}
use pit_go.Pretrade.Methods.{marshal, new_lock_from_format, entry_price}
use pit_go.Pretrade.Calls.{
  Call, push_many, merge, entries, run, done, entry_list, decoded, of_entries,
}
use pit_go.Pretrade.Guarantees.{KeepsRaw, Settled, session, session-Settled, decoded-run}
use pit_go.Pretrade.RoundTrip.{new_lock_from_format-marshal}

abbrev written : List NativeEntry → List ℕ
written [] = []
written (e ∷ es) = e.policy_group_id ∷ e.price ∷ written es

abbrev with_entry : ℕ → ℕ → Status (List NativeEntry) → Status (List NativeEntry)
with_entry g p (succeeded es) = succeeded (record { policy_group_id = g; price = p } ∷ es)
with_entry g p (failed out) = failed out

abbrev read : List ℕ → Status (List NativeEntry)
read [] = succeeded []
read (g ∷ []) = failed (some (7 ∷ []))
read (g ∷ p ∷ rest) = with_entry g p (read rest)

abbrev read_tagged : List ℕ → Status (List NativeEntry)
read_tagged [] = failed none
read_tagged (_ ∷ b) = read b

-- To merge with an empty lock fails.
abbrev merged : List NativeEntry → List NativeEntry → Update (List NativeEntry)
merged c [] = broken c (some (9 ∷ []))
merged c (e ∷ es) = updated (c ++ e ∷ es)

abbrev plain : Library
plain = record {
  Content = List NativeEntry;
  initial = [];
  from_raw = read_tagged;
  from_format = λ format b. read_tagged b;
  from_entries = λ es. succeeded es;
  to_raw = λ c. 1 ∷ written c;
  to_format = λ format c. succeeded (2 ∷ written c);
  len = length;
  is_empty = is_empty;
  entries = λ c. c;
  prices_of = λ c group. PricesStatus.list (map entry_price c);
  push_many = λ c es. updated (c ++ es);
  merge = merged;
}

read-written : (c : List NativeEntry) → read (written c) ≡ succeeded c
read-written [] = refl
read-written (e ∷ es) = rw (read-written es) refl

plain-KeepsRaw : KeepsRaw plain
plain-KeepsRaw = record { not_empty = λ c. refl; from_raw-to_raw = read-written }

abbrev three : Entry
three = record { policy_group_id = 3; price = 30 }

abbrev four : Entry
four = record { policy_group_id = 4; price = 40 }

-- A lock of one entry.
abbrev held : State (List NativeEntry)
held = record {
  next = 5;
  live = [];
  misused = false;
  receiver = record { value = 1 ∷ 3 ∷ 30 ∷ [] };
}

-- Two failures on the way: a merge with an empty lock, and one with bytes of no lock.
abbrev calls : List Call
calls =
    push_many (four ∷ [])
    ∷ merge (record { value = 1 ∷ [] })
    ∷ merge (record { value = [] })
    ∷ entries
    ∷ []

session-Settled_example : Settled held (session plain (of_entries (three ∷ [])) calls held)
session-Settled_example = session-Settled plain (of_entries (three ∷ [])) calls held

decoded-run_example :
    ((run plain calls held).0
      ≡ ok done ∷ err (message (9 ∷ [])) ∷ err no_value ∷ ok (entry_list (three ∷ four ∷ [])) ∷ [])
    × (decoded plain (run plain calls held).1.receiver
        ≡ ok (
            record { policy_group_id = 3; price = 30 }
            ∷ record { policy_group_id = 4; price = 40 }
            ∷ []))
decoded-run_example = decoded-run plain plain-KeepsRaw calls held

new_lock_from_format-marshal_example :
    (l : Lock) × ((new_lock_from_format plain json (2 ∷ 3 ∷ 30 ∷ []) held).0 ≡ ok l)
    × (decoded plain l ≡ decoded plain held.receiver)
unfolding marshal monad_operations
new_lock_from_format-marshal_example =
    new_lock_from_format-marshal plain plain-KeepsRaw json (λ c b h. cc (read-written c, h)) held
      held (2 ∷ 3 ∷ 30 ∷ []) refl
