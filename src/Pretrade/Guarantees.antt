-- ===== src/Pretrade/Guarantees.antt =====
-- What the locks of pretrade/lock.go guarantee.
use pit_go.Base.{ℕ, ◌≡◌, refl, ap, ◌∙◌, false, Option, none, some, List, [], ◌∷◌, is_empty}
use pit_go.Pretrade.{Library, succeeded, Result, ok, err, Lock}
use pit_go.Pretrade.Objects.{State}
use pit_go.Pretrade.Calls as Calls
use pit_go.Pretrade.Calls.{
  Call, Answer, call, run, decoded, step, keep, spec_run, Constructor, fresh, of_bytes, of_format,
  of_entries, construct, constructed, changed_to, to_payload, from_payload, then_result, map_result,
}
use pit_go.Pretrade.Effects.{Follows, locked, rendered}
use pit_go.Pretrade.Reads.{
  len-Follows, is_empty_lock-Follows, entries-Follows, prices-Follows, prices_of-Follows,
  marshal-Follows,
}
use pit_go.Pretrade.Writes.{
  push_many-Follows, merge-Follows, unmarshal-Follows, made, construct-Comes,
}

call-Follows : (lib : Library) (c : Call) (s : State lib.Content) → Follows lib c s
call-Follows lib Calls.len s = len-Follows lib s
call-Follows lib Calls.is_empty_lock s = is_empty_lock-Follows lib s
call-Follows lib Calls.entries s = entries-Follows lib s
call-Follows lib Calls.prices s = prices-Follows lib s
call-Follows lib (Calls.prices_of group) s = prices_of-Follows lib group s
call-Follows lib (Calls.push_many es) s = push_many-Follows lib es s
call-Follows lib (Calls.merge other) s = merge-Follows lib other s
call-Follows lib (Calls.marshal format) s = marshal-Follows lib format s
call-Follows lib (Calls.unmarshal format b) s = unmarshal-Follows lib format b s

-- A constructor of a lock and calls on that lock.
abbrev start : (lib : Library) → List Call → Result Lock × State lib.Content → State lib.Content
start lib cs (ok l, s) = (run lib cs (record s { receiver = l })).1
start lib cs (err e, s) = s

abbrev pub session :
    (lib : Library) → Constructor → List Call → State lib.Content → State lib.Content
session lib k cs s = start lib cs (construct lib k s)

-- Every native object that was created is destroyed, and none was read or destroyed when it was gone.
abbrev pub Settled : {C : Type 0} → State C → State C → Type 0
Settled s t = (t.live ≡ s.live) × (t.misused ≡ s.misused)

Settled-trans : {C : Type 0} (s t u : State C) → Settled s t → Settled t u → Settled s u
Settled-trans s t u h k = (k.0 ∙ h.0, k.1 ∙ h.1)

call-Settled : (lib : Library) (c : Call) (s : State lib.Content) → Settled s (call lib c s).1
call-Settled lib c s =
    let (n, k) = call-Follows lib c s in (ap (λ r. r.1.live) k, ap (λ r. r.1.misused) k)

run-Settled : (lib : Library) (cs : List Call) (s : State lib.Content) → Settled s (run lib cs s).1
run-Settled lib [] s = (refl, refl)
run-Settled lib (c ∷ cs) s =
    let t : State lib.Content = (call lib c s).1 in
    Settled-trans s t (run lib cs t).1 (call-Settled lib c s) (run-Settled lib cs t)

start-Settled :
    (lib : Library) (cs : List Call) (s : State lib.Content) (r : Result Lock) (n : ℕ)
    → Settled s (start lib cs (r, record s { next = n }))
start-Settled lib cs s (ok l) n = run-Settled lib cs (record s { next = n; receiver = l })
start-Settled lib cs s (err e) n = (refl, refl)

-- Whatever the native library answers, a lock that is constructed and then used by any calls, failures
-- included, leaves no native object of them behind and uses none that is gone.
pub session-Settled :
    (lib : Library) (k : Constructor) (cs : List Call) (s : State lib.Content)
    → Settled s (session lib k cs s)
session-Settled lib k cs s =
    let (n, h) = construct-Comes lib k s in rw h (start-Settled lib cs s (made lib k) n)

-- The raw bytes of a lock are not empty and are decoded to its contents.
pub record KeepsRaw (lib : Library) : Type 0 where
  pub not_empty : (c : lib.Content) → is_empty (lib.to_raw c) ≡ false
  pub from_raw-to_raw : (c : lib.Content) → lib.from_raw (lib.to_raw c) ≡ succeeded c

pub decoded-rendered :
    (lib : Library) → KeepsRaw lib → (c : lib.Content) → decoded lib (rendered lib c) ≡ ok c
decoded-rendered lib h c = rw (h.not_empty c, h.from_raw-to_raw c) refl

decoded-locked :
    (lib : Library)
    → KeepsRaw lib
    → (o : Option lib.Content) (l : Lock)
    → decoded lib (locked lib o l) ≡ keep lib o (decoded lib l)
decoded-locked lib h none l = refl
decoded-locked lib h (some c) l = decoded-rendered lib h c

-- Where the library decodes the raw bytes that it gives, the calls on a lock answer what the
-- specification says, and the bytes of the lock decode to its contents: a call that fails leaves them,
-- and a lock with bytes that cannot be decoded fails every call until it is unmarshalled.
pub decoded-run :
    (lib : Library)
    → KeepsRaw lib
    → (cs : List Call) (s : State lib.Content)
    → ((run lib cs s).0 ≡ (spec_run lib cs (decoded lib s.receiver)).0)
      × (decoded lib (run lib cs s).1.receiver ≡ (spec_run lib cs (decoded lib s.receiver)).1)
decoded-run lib h [] s = (refl, refl)
decoded-run lib h (c ∷ cs) s =
    let (n, k) = call-Follows lib c s in
    let r = step lib c (decoded lib s.receiver) in
    let t : State lib.Content = record s { next = n; receiver = locked lib r.1 s.receiver } in
    let (answers, at) = decoded-run lib h cs t in
    let same = decoded-locked lib h r.1 s.receiver in
    (
      rw k (ap (λ xs. r.0 ∷ xs) (answers ∙ ap (λ d. (spec_run lib cs d).0) same)),
      rw k (at ∙ ap (λ d. (spec_run lib cs d).1) same),
    )
