-- ===== src/Reservation/Protocol.antt =====
-- Reads and finalizations of one reservation of asyncengine/reservation.go, interleaved.
use pit_go.Base.{
  ℕ, ◌+◌, ◌-◌, ◌≡◌, refl, sym, ap, ◌∙◌, subst, ◌⊎◌, inl, inr, if◌then◌else◌, not, ◌||◌, Bool, true,
  false, none, some, arith, ◌==◌, ◌<◌,
}
use pit_go.Errors.{Error}
use pit_go.Reservation.{
  is_open, is_finalizing, is_closed, ReservationOp, AsyncReservation, new_async_reservation, closes,
  start_with, start_inner, finish_inner, begin_read, end_read,
}

-- The call of `runInner` that holds `lifecycleMu`: it waits for the readers, or has called the native
-- handle.
pub data Finalizer : Type 0 where
  nobody : Finalizer
  waiting : ReservationOp → Bool → Finalizer
  calling : ReservationOp → Finalizer

-- `in_read` counts the reads between `beginRead` and `endRead`, and `released` says that a closing
-- operation has ended: no step's effect on the reservation depends on them.
pub record Wrapper : Type 0 where
  pub reservation : AsyncReservation
  pub finalizer : Finalizer
  pub in_read : ℕ
  pub released : Bool

unfoldable pub new_wrapper : Wrapper
new_wrapper = record {
  reservation = new_async_reservation;
  finalizer = nobody;
  in_read = 0;
  released = false;
}

pub data Step (w : Wrapper) : Wrapper → Type 0 where
  read_begins :
      {r : AsyncReservation}
      → begin_read w.reservation ≡ (r, none)
      → Step w (record w { reservation = r; in_read = w.in_read + 1 })
  read_refused :
      {r : AsyncReservation} {e : Error}
      → begin_read w.reservation ≡ (r, some e)
      → Step w (record w { reservation = r })
  read_ends :
      0 < w.in_read
      → Step w (record w { reservation = end_read w.reservation; in_read = w.in_read - 1 })
  finalizing_starts :
      (op : ReservationOp) {r : AsyncReservation} {waits : Bool}
      → w.finalizer ≡ nobody
      → start_inner w.reservation ≡ (r, waits)
      → Step w (record w { reservation = r; finalizer = waiting op waits })
  call_enters :
      {op : ReservationOp} {waits : Bool}
      → w.finalizer ≡ waiting op waits
      → (waits ≡ false) ⊎ (w.reservation.readers_done ≡ false)
      → Step w (record w { finalizer = calling op })
  call_ends :
      {op : ReservationOp}
      → w.finalizer ≡ calling op
      → Step w (record w {
        reservation = finish_inner op w.reservation;
        finalizer = nobody;
        released = w.released || closes op;
      })

pub data Reach : Wrapper → Type 0 where
  start : Reach new_wrapper
  next : {w v : Wrapper} → Reach w → Step w v → Reach v

-- What holds of the state and the readers, by the finalizer.
abbrev pub Fits : Finalizer → AsyncReservation → Type 0
Fits nobody r = (r.readers_done ≡ false) × (r.state ≡ (if r.closed then is_closed else is_open))
Fits (waiting op false) r = (r.readers_done ≡ false) × (r.state ≡ is_finalizing) × (r.readers ≡ 0)
Fits (waiting op true) r = (r.state ≡ is_finalizing) × (r.readers_done ≡ not (r.readers == 0))
Fits (calling op) r = (r.readers_done ≡ false) × (r.state ≡ is_finalizing) × (r.readers ≡ 0)

pub record Inv (w : Wrapper) : Type 0 where
  pub counted : w.reservation.readers ≡ w.in_read
  pub fits : Fits w.finalizer w.reservation
  pub is_released : w.reservation.closed ≡ w.released

pub Fits-finalizer : (w : Wrapper) (f : Finalizer) → w.finalizer ≡ f → Inv w → Fits f w.reservation
Fits-finalizer w f at i = subst (λ f. Fits f w.reservation) at i.fits

-- A read that is admitted found the reservation open and not closed.
begin_read-open :
    (r : AsyncReservation) {s : AsyncReservation}
    → begin_read r ≡ (s, none)
    → (r.closed ≡ false) × (r.state ≡ is_open) × (s ≡ record r { readers = r.readers + 1 })
unfolding begin_read
begin_read-open r h = ground arith

read_begins-Fits :
    (f : Finalizer) (r : AsyncReservation)
    → r.closed ≡ false
    → r.state ≡ is_open
    → Fits f r
    → Fits f (record r { readers = r.readers + 1 })
read_begins-Fits nobody r unclosed at k = k
read_begins-Fits (waiting op false) r unclosed at k = ground (arith, k.1)
read_begins-Fits (waiting op true) r unclosed at k = ground (arith, k.0)
read_begins-Fits (calling op) r unclosed at k = ground (arith, k.1)

read_ends-Fits :
    (f : Finalizer) (r : AsyncReservation) → 0 < r.readers → Fits f r → Fits f (end_read r)
unfolding end_read
read_ends-Fits nobody r some_reader k = ground (arith, k.0, k.1)
read_ends-Fits (waiting op false) r some_reader k = ground (arith, k.2)
read_ends-Fits (waiting op true) r some_reader k = ground (arith, k.0, k.1)
read_ends-Fits (calling op) r some_reader k = ground (arith, k.2)

start_with-Fits :
    (op : ReservationOp) (r : AsyncReservation) (empty : Bool)
    → (r.readers == 0) ≡ empty
    → Fits nobody r
    → Fits (waiting op (start_with empty r).1) (start_with empty r).0
start_with-Fits op r true none_reads k = (k.0, refl, ground arith)
start_with-Fits op r false some_reads k = (refl, ground arith)

start_inner-Fits :
    (op : ReservationOp) (r : AsyncReservation)
    → Fits nobody r
    → Fits (waiting op (start_inner r).1) (start_inner r).0
unfolding start_inner
start_inner-Fits op r k = start_with-Fits op r (r.readers == 0) refl k

start_inner-kept :
    (r : AsyncReservation)
    → ((start_inner r).0.readers ≡ r.readers) × ((start_inner r).0.closed ≡ r.closed)
unfolding start_inner
start_inner-kept r = ground arith

call_enters-Fits :
    (op : ReservationOp) (waits : Bool) (r : AsyncReservation)
    → (waits ≡ false) ⊎ (r.readers_done ≡ false)
    → Fits (waiting op waits) r
    → Fits (calling op) r
call_enters-Fits op false r free k = k
call_enters-Fits op true r (inl none_waits) k = ground arith
call_enters-Fits op true r (inr gone) k = ground (arith, k.0, k.1)

finish_inner-Fits :
    (op : ReservationOp) (r : AsyncReservation)
    → Fits (calling op) r
    → Fits nobody (finish_inner op r)
unfolding finish_inner
finish_inner-Fits op r k = ground (arith, k.0)

begin_read-refused :
    (r : AsyncReservation) {s : AsyncReservation} {e : Error} → begin_read r ≡ (s, some e) → s ≡ r
unfolding begin_read
begin_read-refused r h = ground arith

finish_inner-closed :
    (op : ReservationOp) (r : AsyncReservation)
    → (finish_inner op r).closed ≡ (r.closed || closes op)
unfolding finish_inner
finish_inner-closed op r = ground arith

pub Step-Inv : {w v : Wrapper} → Step w v → Inv w → Inv v
unfolding end_read finish_inner
Step-Inv {w} (read_begins h) i =
    let (unclosed, at, now) = begin_read-open w.reservation h in
    subst (λ s. Inv (record w { reservation = s; in_read = w.in_read + 1 })) (sym now)
      (record {
        counted = omega (arith, i.counted);
        fits = read_begins-Fits w.finalizer w.reservation unclosed at i.fits;
        is_released = i.is_released;
      })
Step-Inv {w} (read_refused h) i =
    subst (λ s. Inv (record w { reservation = s })) (sym (begin_read-refused w.reservation h))
      (record { counted = i.counted; fits = i.fits; is_released = i.is_released })
Step-Inv {w} (read_ends h) i = record {
  counted = omega (arith, i.counted);
  fits = read_ends-Fits w.finalizer w.reservation (omega (arith, i.counted)) i.fits;
  is_released = i.is_released;
}
Step-Inv {w} (finalizing_starts op at h) i =
    let (same_readers, same_closed) = start_inner-kept w.reservation in
    subst (λ p. Inv (record w { reservation = p.0; finalizer = waiting op p.1 })) h
      (record {
        counted = same_readers ∙ i.counted;
        fits = start_inner-Fits op w.reservation (Fits-finalizer w nobody at i);
        is_released = same_closed ∙ i.is_released;
      })
Step-Inv {w} (call_enters {op} {waits} at free) i = record {
  counted = i.counted;
  fits = call_enters-Fits op waits w.reservation free (Fits-finalizer w (waiting op waits) at i);
  is_released = i.is_released;
}
Step-Inv {w} (call_ends {op} at) i = record {
  counted = i.counted;
  fits = finish_inner-Fits op w.reservation (Fits-finalizer w (calling op) at i);
  is_released = finish_inner-closed op w.reservation ∙ ap (λ b. b || closes op) i.is_released;
}

pub Reach-Inv : {w : Wrapper} → Reach w → Inv w
unfolding new_wrapper new_async_reservation
Reach-Inv start = record { counted = refl; fits = (refl, refl); is_released = refl }
Reach-Inv (next r s) = Step-Inv s (Reach-Inv r)
