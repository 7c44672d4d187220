-- ===== src/Future/Steps.antt =====
-- Interleavings of calls of Resolve, Await and TryGet on a future of pkg/future/future.go.
use pit_go.Base.{ℕ, ◌==◌, ◌≡◌, Option, none, some, List, [], ◌∷◌, ◌++◌, if◌then◌else◌, Picks}
use pit_go.Errors.{Error}
use pit_go.Future.{Future, Reader, selecting, new, resolve, advance, await, try_get}

abbrev pub first {ℓ} : {A : Type ℓ} → List A → Option A
first [] = none
first (a ∷ rest) = some a

-- A future, its readers by a number, and the calls of Resolve in the order in which they got to
-- `once.Do`.
pub record FutureSystem {ℓ} (A : Type ℓ) : Type ℓ where
  pub future : Future A
  pub readers : ℕ → Reader A
  pub calls : List (A × Option Error)

module _ {ℓ} {A : Type ℓ} where
  abbrev pub set_reader : ℕ → Reader A → FutureSystem A → FutureSystem A
  set_reader i r s = record s { readers = λ j. if i == j then r else s.readers j }

  -- What one goroutine does next.
  pub data Step : FutureSystem A → FutureSystem A → Type ℓ where
    resolves :
        {s : FutureSystem A} (v : A) (e : Option Error) {f : Future A}
        → resolve v e s.future ≡ some f
        → Step s (record s { future = f; calls = s.calls ++ (v, e) ∷ [] })
    advances : {s : FutureSystem A} → Step s (record s { future = advance s.future })
    awaits :
        {s : FutureSystem A} (i : ℕ) (cancelled : Option Error) {r : Reader A}
        {others : List (Reader A)}
        → Picks r (await cancelled s.future (s.readers i)) others
        → Step s (set_reader i r s)
    tries :
        {s : FutureSystem A} (i : ℕ) {r : Reader A} {others : List (Reader A)}
        → Picks r (try_get s.future (s.readers i)) others
        → Step s (set_reader i r s)

  pub data Reach (zero_value : A) : FutureSystem A → Type ℓ where
    start :
        Reach zero_value (record { future = new zero_value; readers = λ i. selecting; calls = [] })
    next : {s t : FutureSystem A} → Reach zero_value s → Step s t → Reach zero_value t
