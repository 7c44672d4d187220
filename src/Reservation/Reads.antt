-- ===== src/Reservation/Reads.antt =====
-- What the reads and the finalizations of asyncengine/reservation.go promise each other.
use pit_go.Base.{
  ◌≡◌, refl, sym, ap, ◌∙◌, ◌⊎◌, inl, inr, Bool, true, false, Option, none, some, arith,
}
use pit_go.Errors.{Error, Sentinel, sentinel}
use pit_go.Reservation.{ReservationOp, AsyncReservation, begin_read}
use pit_go.Reservation.Protocol.{
  Finalizer, nobody, waiting, calling, Wrapper, Step, Reach, Reach-Inv, Fits, Fits-finalizer,
  call_enters,
}

-- What a read is told, by whether a closing operation has ended and whether a finalization is going on.
abbrev pub read_answer : Bool → Finalizer → Option Error
read_answer true _ = some (sentinel Sentinel.reservation_closed)
read_answer false nobody = none
read_answer false _ = some (sentinel Sentinel.finalization_in_progress)

answer-Fits :
    (f : Finalizer) (r : AsyncReservation) → Fits f r → (begin_read r).1 ≡ read_answer r.closed f
unfolding begin_read
answer-Fits nobody r k = ground (arith, k.1)
answer-Fits (waiting op true) r k = ground (arith, k.0)
answer-Fits (waiting op false) r k = ground (arith, k.1)
answer-Fits (calling op) r k = ground (arith, k.1)

free :
    (op : ReservationOp) (waits : Bool) (r : AsyncReservation)
    → r.readers ≡ 0
    → Fits (waiting op waits) r
    → (waits ≡ false) ⊎ (r.readers_done ≡ false)
free op false r quiet k = inl refl
free op true r quiet k = inr (ground (arith, k.1))

module _ {w : Wrapper} (reach : Reach w) where
  -- In every reachable state a read is admitted if no finalization is going on and no closing operation
  -- has ended; it is refused with ErrFinalizationInProgress while one is going on before any closing
  -- operation has ended, and with ErrReservationClosed for good once one has.
  pub begin_read_lem : (begin_read w.reservation).1 ≡ read_answer w.released w.finalizer
  begin_read_lem =
      let i = Reach-Inv reach in
      answer-Fits w.finalizer w.reservation i.fits
      ∙ ap (λ b. read_answer b w.finalizer) i.is_released

  -- While the native handle is committed, rolled back or closed, no snapshot read is in progress.
  pub calling-excludes_reads : {op : ReservationOp} → w.finalizer ≡ calling op → w.in_read ≡ 0
  calling-excludes_reads {op} at =
      let i = Reach-Inv reach in
      let (gone, finalizing, empty) = Fits-finalizer w (calling op) at i in sym i.counted ∙ empty

  -- A finalization that waits goes on as soon as no read is in progress: no wakeup is lost.
  waiting-enters :
      {op : ReservationOp} {waits : Bool}
      → w.finalizer ≡ waiting op waits
      → w.in_read ≡ 0
      → Step w (record w { finalizer = calling op })
  waiting-enters {op} {waits} at quiet =
      let i = Reach-Inv reach in
      call_enters at
        (free op waits w.reservation (i.counted ∙ quiet) (Fits-finalizer w (waiting op waits) at i))
