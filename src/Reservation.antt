-- ===== src/Reservation.antt =====
-- `AsyncReservation` of asyncengine/reservation.go: the lifecycle of a handle that is read while it is
-- finalized. What is done under `mu` is one atomic change of the record.
pub mod Protocol
pub mod Reads
pub mod Tasks
use pit_go.Base.{ℕ, ◌+◌, ◌-◌, Bool, true, false, not, ◌||◌, Option, none, some, ◌==◌, if◌then◌else◌}
use pit_go.Errors.{Error, Sentinel, sentinel}

-- `reservationState`.
pub data ReservationState : Type 0 where
  is_open is_finalizing is_closed : ReservationState

-- `reservationOp`.
pub data ReservationOp : Type 0 where
  commit commit_and_close rollback rollback_and_close close_only : ReservationOp

pub record AsyncReservation : Type 0 where
  pub readers_done : Bool  -- the channel is there: not nil
  pub readers : ℕ
  pub state : ReservationState
  pub closed : Bool

unfoldable pub new_async_reservation : AsyncReservation
new_async_reservation = record {
  readers_done = false;
  readers = 0;
  state = is_open;
  closed = false;
}

abbrev pub closes : ReservationOp → Bool
closes commit = false
closes commit_and_close = true
closes rollback = false
closes rollback_and_close = true
closes close_only = true

abbrev pub start_with : Bool → AsyncReservation → AsyncReservation × Bool
start_with true r = (record r { state = is_finalizing }, false)
start_with false r = (record r { state = is_finalizing; readers_done = true }, true)

-- `runInner` up to the wait: whether it waits for `readersDone`.
unfoldable pub start_inner : AsyncReservation → AsyncReservation × Bool
start_inner r = start_with (r.readers == 0) r

-- The deferred function of `runInner`.
unfoldable pub finish_inner : ReservationOp → AsyncReservation → AsyncReservation
finish_inner op r =
    let closed = if closes op then true else r.closed in
    record r { closed = closed; state = if closed then is_closed else is_open }

abbrev pub read_of_state : ReservationState → AsyncReservation → AsyncReservation × Option Error
read_of_state is_open r = (record r { readers = r.readers + 1 }, none)
read_of_state is_finalizing r = (r, some (sentinel Sentinel.finalization_in_progress))
read_of_state is_closed r = (r, some (sentinel Sentinel.reservation_closed))

-- `beginRead`; any other value of `state` is not a value of the type here.
unfoldable pub begin_read : AsyncReservation → AsyncReservation × Option Error
begin_read r =
    if r.closed then (r, some (sentinel Sentinel.reservation_closed)) else read_of_state r.state r

-- `endRead`; closing the channel and dropping it are one change.
unfoldable pub end_read : AsyncReservation → AsyncReservation
end_read r =
    let readers = r.readers - 1 in
    record r { readers = readers; readers_done = if readers == 0 then false else r.readers_done }
