-- ===== src/Reservation/Tasks.antt =====
-- The lifecycle methods of asyncengine/reservation.go as tasks of the account's lane: what a call of
-- one does to the reservation, by what becomes of its task.
use pit_go.Base.{
  ◌≤◌, ◌≡◌, Bool, true, false, ◌||◌, Option, none, some, List, [], ◌∷◌, arith, length,
  if◌then◌else◌,
}
use pit_go.Errors.{Error}
use pit_go.Reservation.{
  ReservationOp, commit, commit_and_close, rollback, rollback_and_close, close_only,
  AsyncReservation, closes, finish_inner,
}

-- What becomes of a task: a worker runs it, a worker aborts it, or its submit fails.
pub data Fate : Type 0 where
  ran : Fate
  aborted : Error → Fate
  not_submitted : Error → Fate

-- The calls of `runInner`, in order, and what the future is resolved with.
abbrev pub Effect : Type 0
Effect = List ReservationOp × Option Error

-- `reservationTask.run`.
abbrev run_task : ReservationOp → Effect
run_task op = (op ∷ [], none)

-- `reservationTask.abort`.
abbrev abort_task : Bool → Error → Effect
abort_task abort_closes err = (if abort_closes then close_only ∷ [] else [], some err)

-- The failed submit of `runVoid`: with `abortCloses`, the cleanup that it schedules.
abbrev submit_failed : Bool → Error → Effect
submit_failed true err = (close_only ∷ [], some err)
submit_failed false err = ([], some err)

unfoldable pub run_void : ReservationOp → Bool → Fate → Effect
run_void op abort_closes ran = run_task op
run_void op abort_closes (aborted err) = abort_task abort_closes err
run_void op abort_closes (not_submitted err) = submit_failed abort_closes err

-- `Commit`, `CommitAndClose`, `Rollback`, `RollbackAndClose` and `Close`.
unfoldable pub finalize : ReservationOp → Fate → Effect
unfolding run_void
finalize commit = run_void commit false
finalize commit_and_close = run_void commit_and_close true
finalize rollback = run_void rollback false
finalize rollback_and_close = run_void rollback_and_close true
finalize close_only = run_void close_only true

-- The reservation after calls of `runInner`.
unfoldable pub after_calls : List ReservationOp → AsyncReservation → AsyncReservation
unfolding finish_inner
after_calls [] r = r
after_calls (op ∷ ops) r = after_calls ops (finish_inner op r)

abbrev pub fate_error : Fate → Option Error
fate_error ran = none
fate_error (aborted e) = some e
fate_error (not_submitted e) = some e

-- Whatever becomes of its task, a call of a lifecycle method makes at most one call on the handle and
-- resolves its future with the error of its fate; the wrapper is closed after it exactly if it was
-- closed before or the method is one that closes, so an abort or a failed submit leaks no handle.
pub finalize_lem :
    (op : ReservationOp) (fate : Fate) (r : AsyncReservation)
    → ((after_calls (finalize op fate).0 r).closed ≡ (r.closed || closes op))
      × ((finalize op fate).1 ≡ fate_error fate)
      × (length (finalize op fate).0 ≤ 1)
unfolding finalize after_calls
finalize_lem commit ran r = ground arith
finalize_lem commit (aborted e) r = ground arith
finalize_lem commit (not_submitted e) r = ground arith
finalize_lem commit_and_close ran r = ground arith
finalize_lem commit_and_close (aborted e) r = ground arith
finalize_lem commit_and_close (not_submitted e) r = ground arith
finalize_lem rollback ran r = ground arith
finalize_lem rollback (aborted e) r = ground arith
finalize_lem rollback (not_submitted e) r = ground arith
finalize_lem rollback_and_close ran r = ground arith
finalize_lem rollback_and_close (aborted e) r = ground arith
finalize_lem rollback_and_close (not_submitted e) r = ground arith
finalize_lem close_only ran r = ground arith
finalize_lem close_only (aborted e) r = ground arith
finalize_lem close_only (not_submitted e) r = ground arith
