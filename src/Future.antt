-- ===== src/Future.antt =====
-- `Future` of pkg/future/future.go, with what its methods do told step by step: a call of Resolve writes
-- the value, writes the error and closes `done`, and a reader takes the two fields one after the other.
pub mod Steps
pub mod Once
use pit_go.Base.{Bool, true, false, Option, none, some, List, [], ◌∷◌, ◌++◌, if◌then◌else◌}
use pit_go.Errors.{Error}

-- A `sync.Once` with the place that the function given to its `Do` has reached, and what it has
-- captured: it has entered, has written the value, has written the error, or has closed `done`. While
-- it runs any other call of `Do` waits; `complete` is the state of `Once` after it.
pub data OnceState {ℓ} (A : Type ℓ) : Type ℓ where
  idle : OnceState A
  entered value_written : A → Option Error → OnceState A
  err_written done_closed complete : OnceState A

pub record Future {ℓ} (A : Type ℓ) : Type ℓ where
  pub is_closed : Bool
  pub once : OnceState A
  pub value : A
  pub err : Option Error

-- A call of `Await` or `TryGet`: at its select, past `<-f.done`, with the value read, or returned. It has
-- `gave_up` with the context's error, or the future was `not_ready`; then it returns the zero value.
pub data Reader {ℓ} (A : Type ℓ) : Type ℓ where
  selecting received : Reader A
  value_read : A → Reader A
  returned : A → Option Error → Reader A
  gave_up : Error → Reader A
  not_ready : Reader A

module _ {ℓ} {A : Type ℓ} where
  -- `New`; the value of an unresolved future is the zero value of its type.
  unfoldable pub new : A → Future A
  new zero_value = record { is_closed = false; once = idle; value = zero_value; err = none }

  -- A call of `Resolve` gets to `once.Do`: it runs the function, it waits (none), or it returns.
  abbrev pub resolve_by : OnceState A → A → Option Error → Future A → Option (Future A)
  resolve_by idle v e f = some (record f { once = entered v e })
  resolve_by complete v e f = some f
  resolve_by _ v e f = none

  unfoldable pub resolve : A → Option Error → Future A → Option (Future A)
  resolve v e f = resolve_by f.once v e f

  abbrev pub advance_by : OnceState A → Future A → Future A
  advance_by idle f = f
  advance_by (entered v e) f = record f { once = value_written v e; value = v }
  advance_by (value_written v e) f = record f { once = err_written; err = e }
  advance_by err_written f = record f { once = done_closed; is_closed = true }
  advance_by done_closed f = record f { once = complete }
  advance_by complete f = f

  -- The next statement of the function that `Resolve` gives to `once.Do`, if one runs.
  unfoldable pub advance : Future A → Future A
  advance f = advance_by f.once f

  unfoldable pub done : Future A → Bool
  done f = f.is_closed

  -- What a reader that is past `<-f.done` does next.
  abbrev pub read_step : Future A → Reader A → List (Reader A)
  read_step f received = value_read f.value ∷ []
  read_step f (value_read v) = returned v f.err ∷ []
  read_step f _ = []

  -- What a call of `Await` may do next: `select` takes either case that is ready, and no step means that
  -- the call blocks or has returned. `cancelled` is `ctx.Err()` once `ctx.Done()` is closed.
  unfoldable pub await : Option Error → Future A → Reader A → List (Reader A)
  await cancelled f selecting =
      (if f.is_closed then received ∷ [] else [])
      ++ (elim cancelled [ none ↦ [] | some e ↦ gave_up e ∷ [] ])
  await cancelled f r = read_step f r

  -- What a call of `TryGet` does next.
  unfoldable pub try_get : Future A → Reader A → List (Reader A)
  try_get f selecting = if f.is_closed then received ∷ [] else not_ready ∷ []
  try_get f r = read_step f r
