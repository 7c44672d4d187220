-- ===== src/Pretrade/RoundTrip.antt =====
-- Locks of pretrade/lock.go that are marshalled and restored.
use Prim.Native.String.{String}
use pit_go.Base.{ℕ, ◌≡◌, refl, ap, sym, ◌∙◌, List}
use pit_go.Pretrade.{Format, Library, Status, succeeded, failed, Result, ok, err, Lock}
use pit_go.Pretrade.Objects.{State}
use pit_go.Pretrade.Native.{to_format_name}
use pit_go.Pretrade.Methods.{new_lock_from_format, marshal}
use pit_go.Pretrade.Calls.{decoded, result_of, to_payload, then_result}
use pit_go.Pretrade.Effects.{rendered}
use pit_go.Pretrade.Reads.{marshal-Comes}
use pit_go.Pretrade.Writes.{new_lock_from_format-Comes}
use pit_go.Pretrade.Guarantees.{KeepsRaw, decoded-rendered}

then_result-ok :
    {A B : Type 0} (f : A → Result B) (r : Result A) (b : B)
    → then_result f r ≡ ok b
    → (a : A) × (r ≡ ok a) × (f a ≡ ok b)
then_result-ok f (ok a) b h = (a, refl, h)
then_result-ok f (err e) b h = cc

result_of-ok :
    {A : Type 0} (name : String) (x : Status A) (a : A) → result_of name x ≡ ok a → x ≡ succeeded a
result_of-ok name (succeeded b) a h = cc
result_of-ok name (failed out) a h = cc

-- The library decodes what it encodes in a format.
abbrev pub KeepsFormat : Library → Format → Type 0
KeepsFormat lib format =
    (c : lib.Content) (b : List ℕ)
    → lib.to_format format c ≡ succeeded b
    → lib.from_format format b ≡ succeeded c

-- Where the library decodes what it encodes, a payload that a lock is marshalled to restores a lock of
-- the same contents, at any time.
pub new_lock_from_format-marshal :
    (lib : Library)
    → KeepsRaw lib
    → (format : Format) → KeepsFormat lib format
    → (s t : State lib.Content) (b : List ℕ) → (marshal lib format s).0 ≡ ok b
    → (l : Lock) × ((new_lock_from_format lib format b t).0 ≡ ok l)
      × (decoded lib l ≡ decoded lib s.receiver)
new_lock_from_format-marshal lib raw format keeps s t b h =
    let (m, marshalled) = marshal-Comes lib format s in
    let (c, at, sent) =
      then_result-ok (to_payload lib format) (decoded lib s.receiver) b
        (sym (ap (λ r. r.0) marshalled) ∙ h) in
    let restored : lib.from_format format b ≡ succeeded c =
      keeps c b (result_of-ok (to_format_name format) (lib.to_format format c) b sent) in
    let (n, made) = new_lock_from_format-Comes lib format b t in
    (rendered lib c, ap (λ r. r.0) made ∙ rw restored refl, decoded-rendered lib raw c ∙ sym at)
