-- ===== src/Future/Once.antt =====
-- The first resolution of a future of pkg/future/future.go under concurrent calls.
use pit_go.Base.{
  ℕ, ◌==◌, ◌≡◌, refl, sym, ◌∙◌, subst, Bool, true, false, Option, none, some, List, [], ◌∷◌, ◌++◌,
  if◌then◌else◌, All, Picks-All,
}
use pit_go.Errors.{Error}
use pit_go.Future.{
  OnceState, idle, entered, value_written, err_written, done_closed, complete, Future, Reader,
  selecting, received, value_read, returned, gave_up, not_ready, new, resolve_by, resolve,
  advance_by, advance, done, read_step, await, try_get,
}
use pit_go.Future.Steps.{
  first, FutureSystem, set_reader, Step, resolves, advances, awaits, tries, Reach, start, next,
}

module _ {ℓ} {A : Type ℓ} where
  -- What holds of the fields at each place of the function of the first call.
  abbrev pub AtPlace : OnceState A → Future A → List (A × Option Error) → Type ℓ
  AtPlace idle f calls = (f.is_closed ≡ false) × (calls ≡ [])
  AtPlace (entered v e) f calls = (f.is_closed ≡ false) × (first calls ≡ some (v, e))
  AtPlace (value_written v e) f calls =
      (f.is_closed ≡ false) × (f.value ≡ v) × (first calls ≡ some (v, e))
  AtPlace err_written f calls = (f.is_closed ≡ false) × (first calls ≡ some (f.value, f.err))
  AtPlace done_closed f calls = (f.is_closed ≡ true) × (first calls ≡ some (f.value, f.err))
  AtPlace complete f calls = (f.is_closed ≡ true) × (first calls ≡ some (f.value, f.err))

  -- A reader past `<-f.done` has, as far as it got, the fields of a closed future.
  abbrev pub Reads : Reader A → Future A → List (A × Option Error) → Type ℓ
  Reads selecting f calls = Unit
  Reads received f calls = (f.is_closed ≡ true) × (first calls ≡ some (f.value, f.err))
  Reads (value_read v) f calls =
      (f.is_closed ≡ true) × (v ≡ f.value) × (first calls ≡ some (f.value, f.err))
  Reads (returned v e) f calls = (f.is_closed ≡ true) × (first calls ≡ some (v, e))
  Reads (gave_up e) f calls = Unit
  Reads not_ready f calls = Unit

  pub record Inv (s : FutureSystem A) : Type ℓ where
    pub place : AtPlace s.future.once s.future s.calls
    pub reads : (i : ℕ) → Reads (s.readers i) s.future s.calls

  first-append :
      (xs : List (A × Option Error)) (y : A × Option Error) {x : A × Option Error}
      → first xs ≡ some x
      → first (xs ++ y ∷ []) ≡ some x
  first-append [] y h = cc
  first-append (a ∷ rest) y h = h

  -- Neither the calls nor the fields of a closed future matter to a reader beyond these.
  Reads-same :
      (r : Reader A) (f g : Future A) (calls later : List (A × Option Error))
      → (f.is_closed ≡ true → (g.is_closed ≡ true) × (g.value ≡ f.value) × (g.err ≡ f.err))
      → ((x : A × Option Error) → first calls ≡ some x → first later ≡ some x)
      → Reads r f calls
      → Reads r g later
  Reads-same selecting f g calls later same kept h = tt
  Reads-same received f g calls later same kept (closed, at) =
      let (still, value, err) = same closed in (still, rw (value, err) (kept (f.value, f.err) at))
  Reads-same (value_read v) f g calls later same kept (closed, read, at) =
      let (still, value, err) = same closed in
      (still, read ∙ sym value, rw (value, err) (kept (f.value, f.err) at))
  Reads-same (returned v e) f g calls later same kept (closed, at) =
      ((same closed).0, kept (v, e) at)
  Reads-same (gave_up e) f g calls later same kept h = tt
  Reads-same not_ready f g calls later same kept h = tt

  -- What a reader may rely on when it is past `<-f.done`.
  abbrev pub Keeps : Future A → Future A → Type ℓ
  Keeps f g = f.is_closed ≡ true → (g.is_closed ≡ true) × (g.value ≡ f.value) × (g.err ≡ f.err)

  advance-kept :
      (o : OnceState A) (f : Future A) (calls : List (A × Option Error))
      → f.once ≡ o
      → AtPlace o f calls
      → let g = advance_by o f in AtPlace g.once g calls × Keeps f g
  advance-kept idle f calls at h = (rw at h, λ c. (c, refl, refl))
  advance-kept (entered v e) f calls at h = ((h.0, refl, h.1), λ c. cc (c, h.0))
  advance-kept (value_written v e) f calls at h = ((h.0, rw h.1 h.2), λ c. cc (c, h.0))
  advance-kept err_written f calls at h = ((refl, h.1), λ c. (refl, refl, refl))
  advance-kept done_closed f calls at h = (h, λ c. (c, refl, refl))
  advance-kept complete f calls at h = (rw at h, λ c. (c, refl, refl))

  -- A call of `Resolve` that does not wait.
  abbrev pub Kept : Future A → List (A × Option Error) → Option (Future A) → Type ℓ
  Kept f calls none = Unit
  Kept f calls (some g) = AtPlace g.once g calls × Keeps f g

  resolve-Kept :
      (o : OnceState A) (v : A) (e : Option Error) (f : Future A) (calls : List (A × Option Error))
      → f.once ≡ o
      → AtPlace o f calls
      → Kept f (calls ++ (v, e) ∷ []) (resolve_by o v e f)
  resolve-Kept idle v e f calls at h = ((h.0, rw h.1 refl), λ c. cc (c, h.0))
  resolve-Kept (entered w d) v e f calls at h = tt
  resolve-Kept (value_written w d) v e f calls at h = tt
  resolve-Kept err_written v e f calls at h = tt
  resolve-Kept done_closed v e f calls at h = tt
  resolve-Kept complete v e f calls at h =
      (rw at (h.0, first-append calls (v, e) h.1), λ c. (c, refl, refl))

  -- What a closed future holds.
  closed-place :
      (o : OnceState A) (f : Future A) (calls : List (A × Option Error))
      → AtPlace o f calls
      → f.is_closed ≡ true
      → first calls ≡ some (f.value, f.err)
  closed-place idle f calls h c = cc (c, h.0)
  closed-place (entered v e) f calls h c = cc (c, h.0)
  closed-place (value_written v e) f calls h c = cc (c, h.0)
  closed-place err_written f calls h c = cc
  closed-place done_closed f calls h c = h.1
  closed-place complete f calls h c = h.1

  module _ (f : Future A) (calls : List (A × Option Error)) where
    read_step-Reads : (r : Reader A) → Reads r f calls → All (λ s. Reads s f calls) (read_step f r)
    read_step-Reads selecting h = tt
    read_step-Reads received h = ((h.0, refl, h.1), tt)
    read_step-Reads (value_read v) h = ((h.0, rw h.1 h.2), tt)
    read_step-Reads (returned v e) h = tt
    read_step-Reads (gave_up e) h = tt
    read_step-Reads not_ready h = tt

    -- The case of `<-f.done` in a select, with another case.
    select-Reads :
        (closed : Bool) (others : List (Reader A))
        → f.is_closed ≡ closed
        → (f.is_closed ≡ true → first calls ≡ some (f.value, f.err))
        → All (λ s. Reads s f calls) others
        → All (λ s. Reads s f calls) ((if closed then received ∷ [] else []) ++ others)
    select-Reads true others at p h = ((at, p at), h)
    select-Reads false others at p h = h

    gave_up-Reads :
        (cancelled : Option Error)
        → All (λ s. Reads s f calls) (elim cancelled [ none ↦ [] | some e ↦ gave_up e ∷ [] ])
    gave_up-Reads none = tt
    gave_up-Reads (some e) = (tt, tt)

    try-Reads :
        (closed : Bool)
        → f.is_closed ≡ closed
        → (f.is_closed ≡ true → first calls ≡ some (f.value, f.err))
        → All (λ s. Reads s f calls) (if closed then received ∷ [] else not_ready ∷ [])
    try-Reads true at p = ((at, p at), tt)
    try-Reads false at p = (tt, tt)

    await-Reads :
        (cancelled : Option Error) (r : Reader A)
        → (f.is_closed ≡ true → first calls ≡ some (f.value, f.err))
        → Reads r f calls
        → All (λ s. Reads s f calls) (await cancelled f r)
    unfolding await
    await-Reads cancelled selecting p h =
        select-Reads f.is_closed _ refl p (gave_up-Reads cancelled)
    await-Reads cancelled received p h = read_step-Reads received h
    await-Reads cancelled (value_read v) p h = read_step-Reads (value_read v) h
    await-Reads cancelled (returned v e) p h = tt
    await-Reads cancelled (gave_up e) p h = tt
    await-Reads cancelled not_ready p h = tt

    try_get-Reads :
        (r : Reader A)
        → (f.is_closed ≡ true → first calls ≡ some (f.value, f.err))
        → Reads r f calls
        → All (λ s. Reads s f calls) (try_get f r)
    unfolding try_get
    try_get-Reads selecting p h = try-Reads f.is_closed refl p
    try_get-Reads received p h = read_step-Reads received h
    try_get-Reads (value_read v) p h = read_step-Reads (value_read v) h
    try_get-Reads (returned v e) p h = tt
    try_get-Reads (gave_up e) p h = tt
    try_get-Reads not_ready p h = tt

  unchanged : (f : Future A) → Keeps f f
  unchanged f c = (c, refl, refl)

  read-Inv :
      (s : FutureSystem A) (i : ℕ) (r : Reader A)
      → Inv s
      → Reads r s.future s.calls
      → Inv (set_reader i r s)
  read-Inv s i r inv h = record { place = inv.place; reads = λ j. set-Reads (i == j) j }
    where
      set-Reads : (same : Bool) (j : ℕ) → Reads (if same then r else s.readers j) s.future s.calls
      set-Reads true j = h
      set-Reads false j = inv.reads j

  Step-Inv : {s t : FutureSystem A} → Step s t → Inv s → Inv t
  unfolding resolve advance
  Step-Inv {s} (resolves v e {f} at) inv =
      let kept =
        subst (Kept s.future (s.calls ++ (v, e) ∷ [])) at
          (resolve-Kept s.future.once v e s.future s.calls refl inv.place) in
      record {
        place = kept.0;
        reads = λ i.
            Reads-same (s.readers i) s.future f s.calls (s.calls ++ (v, e) ∷ []) kept.1
              (λ x h. first-append s.calls (v, e) h) (inv.reads i);
      }
  Step-Inv {s} advances inv =
      let kept = advance-kept s.future.once s.future s.calls refl inv.place in
      record {
        place = kept.0;
        reads = λ i.
            Reads-same (s.readers i) s.future (advance s.future) s.calls s.calls kept.1 (λ x h. h)
              (inv.reads i);
      }
  Step-Inv {s} (awaits i cancelled {r} p) inv =
      read-Inv s i r inv
        (Picks-All (λ q. Reads q s.future s.calls) p
          (await-Reads s.future s.calls cancelled (s.readers i)
            (closed-place s.future.once s.future s.calls inv.place) (inv.reads i))).0
  Step-Inv {s} (tries i {r} p) inv =
      read-Inv s i r inv
        (Picks-All (λ q. Reads q s.future s.calls) p
          (try_get-Reads s.future s.calls (s.readers i)
            (closed-place s.future.once s.future s.calls inv.place) (inv.reads i))).0

  Reach-Inv : {zero_value : A} {s : FutureSystem A} → Reach zero_value s → Inv s
  unfolding new
  Reach-Inv start = record { place = (refl, refl); reads = λ i. tt }
  Reach-Inv (next r step) = Step-Inv step (Reach-Inv r)

  -- However calls of Resolve, Await and TryGet interleave, a reader that has returned a value and an error
  -- out of the future returned both as the first call of Resolve that got to the once gave them, and
  -- Done answers true.
  pub first_resolution-wins :
      {zero_value : A} {s : FutureSystem A}
      → Reach zero_value s
      → (i : ℕ) (v : A) (e : Option Error) → s.readers i ≡ returned v e
      → (first s.calls ≡ some (v, e)) × (done s.future ≡ true)
  unfolding done
  first_resolution-wins {s = s} reach i v e at =
      let (closed, same) = subst (λ r. Reads r s.future s.calls) at ((Reach-Inv reach).reads i) in
      (same, closed)

  complete-closed :
      (o : OnceState A) (f : Future A) (calls : List (A × Option Error))
      → o ≡ complete
      → AtPlace o f calls
      → f.is_closed ≡ true
  complete-closed o f calls at h = (subst (λ p. AtPlace p f calls) at h).0

  -- When some call of Resolve has returned, Done answers true.
  returned-done :
      {zero_value : A} {s : FutureSystem A}
      → Reach zero_value s
      → s.future.once ≡ complete
      → done s.future ≡ true
  unfolding done
  returned-done {s = s} reach at =
      complete-closed s.future.once s.future s.calls at (Reach-Inv reach).place
