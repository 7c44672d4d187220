-- ===== src/Examples/ReservationRuns.antt =====
-- A reservation of asyncengine/reservation.go that is read while a close waits for the read.
use pit_go.Base.{◌≤◌, ◌≡◌, refl, true, ◌||◌, inr, arith, length}
use pit_go.Errors.{external}
use pit_go.Reservation.{
  close_only, commit_and_close, new_async_reservation, start_inner, begin_read, end_read, closes,
}
use pit_go.Reservation.Protocol.{
  waiting, Wrapper, new_wrapper, Reach, start, next, read_begins, read_ends, finalizing_starts,
  call_enters,
}
use pit_go.Reservation.Reads.{calling-excludes_reads}
use pit_go.Reservation.Tasks.{aborted, finalize, after_calls, fate_error, finalize_lem}

-- A read is in progress, and a close waits for it.
read_and_close : (w : Wrapper) × Reach w
unfolding new_wrapper new_async_reservation begin_read start_inner
read_and_close = (_, next (next start (read_begins refl)) (finalizing_starts close_only refl refl))

read_and_close-waits :
    (read_and_close.0.finalizer ≡ waiting close_only true) × (read_and_close.0.in_read ≡ 1)
unfolding read_and_close new_wrapper
read_and_close-waits = (refl, refl)

-- The read has ended.
read_ended : (w : Wrapper) × Reach w
unfolding read_and_close new_wrapper
read_ended = (_, next read_and_close.1 (read_ends (omega arith)))

-- The handle is being closed.
closing : (w : Wrapper) × Reach w
unfolding read_ended read_and_close new_wrapper new_async_reservation begin_read start_inner
    end_read
closing = (_, next read_ended.1 (call_enters {op = close_only} {waits = true} refl (inr refl)))

calling-excludes_reads_example : closing.0.in_read ≡ 0
unfolding closing
calling-excludes_reads_example = calling-excludes_reads closing.1 {op = close_only} refl

finalize_lem_example :
    let fate = aborted (external 1) in
    ((after_calls (finalize commit_and_close fate).0 new_async_reservation).closed
      ≡ (new_async_reservation.closed || closes commit_and_close))
    × ((finalize commit_and_close fate).1 ≡ fate_error fate)
    × (length (finalize commit_and_close fate).0 ≤ 1)
finalize_lem_example = finalize_lem commit_and_close (aborted (external 1)) new_async_reservation
