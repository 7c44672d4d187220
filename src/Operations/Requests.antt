-- ===== src/Operations/Requests.antt =====
-- What becomes of a request of asyncengine/request.go and of the handles that it gets.
use pit_go.Base.{All, ℕ, ◌≡◌, refl, ◌≤◌, Bool, true, false, List, [], ◌∷◌, ◌++◌, arith}
use pit_go.Chain.Run.{Handle}
use pit_go.Operations.{Course, Answer, close_handle, resolve_driver_result}
use pit_go.Operations as Operations
use pit_go.Operations.Accounting.{Proper, Accounted, taken_handle, course-Accounted}
use pit_go.Operations.Request.{
  Request, close, execute, execute_inner, Fate, not_submitted, aborted, ran, execute_request,
  close_request, Call, executes, closes, run, new_request, request_closed,
}

-- The course of the task of `Execute` on a request in some state.
abbrev course_of : Fate → Bool → Course
course_of (not_submitted e) live = Operations.not_submitted e
course_of (aborted e) live = Operations.aborted e
course_of (ran reply) true = Operations.ran reply
course_of (ran reply) false = Operations.ran request_closed

-- The reservations that the native calls gave, in calls on a request.
abbrev pub taken_all : List Call → Bool → List Handle
taken_all [] live = []
taken_all (executes fate ∷ calls) live = taken_handle (course_of fate live) ++ taken_all calls false
taken_all (closes fate ∷ calls) live = taken_all calls false

abbrev pub handles_of : List Answer → List Handle
handles_of [] = []
handles_of (a ∷ rest) = (close_handle a.handle ++ a.closed) ++ handles_of rest

-- One `Execute` answers a proper result, and what it took is answered or closed.
executed-Accounted :
    (fate : Fate) (live : Bool) (m n : ℕ)
    → Accounted
        (taken_handle (course_of fate live))
        (execute_request fate (record { live = live; executed = m; destroyed = n })).0
unfolding execute_request execute_inner execute
executed-Accounted (not_submitted e) live m n = course-Accounted (Operations.not_submitted e)
executed-Accounted (aborted e) live m n = course-Accounted (Operations.aborted e)
executed-Accounted (ran reply) true m n = course-Accounted (Operations.ran reply)
executed-Accounted (ran reply) false m n = course-Accounted (Operations.ran request_closed)

-- What answers make of the handles that were taken for them.
abbrev pub AllAccounted : List Handle → List Answer → Type 0
AllAccounted taken answers = (taken ≡ handles_of answers) × All Proper answers

-- Calls after an `Execute` that left the request in a known state.
after-execute :
    (fate : Fate) (calls : List Call) (live : Bool) (m n : ℕ) (after : Request)
    → (execute_request fate (record { live = live; executed = m; destroyed = n })).1 ≡ after
    → AllAccounted (taken_all calls false) (run calls after).0
    → let r : Request = record { live = live; executed = m; destroyed = n } in
      AllAccounted (taken_all (executes fate ∷ calls) live) (run (executes fate ∷ calls) r).0
after-execute fate calls live m n after at (same, proper) =
    let (one, no_dead, taken) = executed-Accounted fate live m n in
    rw at (cc (taken, same), ((one, no_dead), proper))

closed-execute :
    (fate : Fate) (m n : ℕ)
    → let r : Request = record { live = false; executed = m; destroyed = n } in
      (execute_request fate r).1 ≡ r
unfolding execute_request execute_inner execute close
closed-execute (not_submitted e) m n = refl
closed-execute (aborted e) m n = refl
closed-execute (ran reply) m n = refl

-- Calls on a closed request leave it as it is.
closed-run :
    (calls : List Call) (m n : ℕ)
    → let r : Request = record { live = false; executed = m; destroyed = n } in
      AllAccounted (taken_all calls false) (run calls r).0 × ((run calls r).1 ≡ r)
unfolding close_request close
closed-run [] m n = ((refl, tt), refl)
closed-run (executes fate ∷ calls) m n =
    let (rest, same) = closed-run calls m n in
    let unchanged = closed-execute fate m n in
    (after-execute fate calls false m n _ unchanged rest, rw unchanged same)
closed-run (closes (not_submitted e) ∷ calls) m n = closed-run calls m n
closed-run (closes (aborted e) ∷ calls) m n = closed-run calls m n
closed-run (closes (ran reply) ∷ calls) m n = closed-run calls m n

-- A request is closed, and its native handle was destroyed once and executed at most once.
abbrev pub Over : Request → Type 0
Over r = (r.live ≡ false) × (r.destroyed ≡ 1) × (r.executed ≤ 1)

closed-Over :
    (calls : List Call) (m : ℕ)
    → m ≤ 1
    → let after = run calls (record { live = false; executed = m; destroyed = 1 }) in
      AllAccounted (taken_all calls false) after.0 × Over after.1
closed-Over calls m k =
    let (rest, same) = closed-run calls m 1 in (rest, (rw same refl, rw same refl, rw same k))

executed-Over :
    (fate : Fate) (calls : List Call) (m : ℕ)
    → (execute_request fate new_request).1 ≡ record { live = false; executed = m; destroyed = 1 }
    → m ≤ 1
    → let after = run (executes fate ∷ calls) new_request in
      AllAccounted (taken_all (executes fate ∷ calls) true) after.0 × Over after.1
executed-Over fate calls m at k =
    let (rest, over) = closed-Over calls m k in
    (after-execute fate calls true 0 0 _ at rest, rw at over)

-- Whatever becomes of its tasks, after one call of Execute or Close and any others a request is closed,
-- its native handle has been destroyed once and executed at most once, every future of Execute was
-- resolved with exactly one of a live handle, rejects and an error and with no dead handle, and the
-- handles that the native calls gave are those that were answered and those that were closed.
pub request-settled :
    (call : Call) (calls : List Call)
    → let after = run (call ∷ calls) new_request in
      AllAccounted (taken_all (call ∷ calls) true) after.0 × Over after.1
unfolding execute_request execute_inner execute close_request close
request-settled (executes (not_submitted e)) calls =
    executed-Over (not_submitted e) calls 0 refl (omega arith)
request-settled (executes (aborted e)) calls = executed-Over (aborted e) calls 0 refl (omega arith)
request-settled (executes (ran reply)) calls = executed-Over (ran reply) calls 1 refl (omega arith)
request-settled (closes (not_submitted e)) calls = closed-Over calls 0 (omega arith)
request-settled (closes (aborted e)) calls = closed-Over calls 0 (omega arith)
request-settled (closes (ran reply)) calls = closed-Over calls 0 (omega arith)
