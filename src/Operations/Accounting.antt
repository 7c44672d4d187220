-- ===== src/Operations/Accounting.antt =====
-- What becomes of the handles that the operations of asyncengine/engine.go get.
use pit_go.Base.{ℕ, ◌≡◌, refl, sym, inl, inr, true, Option, none, some, List, [], ◌∷◌, ◌++◌, arith}
use pit_go.Errors.{Error}
use pit_go.Driver.{validate_driver_result}
use pit_go.Driver.Shape.{validate_driver_result_iff, ExactlyOne}
use pit_go.Routing.{RoutingKey, account_routing_key}
use pit_go.Chain.Run.{Handle}
use pit_go.Chain.Env.{DriverReply}
use pit_go.Chain.Plan.{Order, Result, valid, refused, extract_account_id}
use pit_go.Chain.Steps.{has_handle, has_live_handle}
use pit_go.Operations.{
  Answer, failure, close_handle, resolve_checked, resolve_by_shape, resolve_driver_result, Course,
  not_submitted, aborted, ran, follow_course, operate_for, operate,
}

-- The handle that a task got from the driver.
abbrev pub taken_handle : Course → List Handle
taken_handle (ran d) = close_handle d.handle
taken_handle _ = []

-- An answer with exactly one of a live handle, rejects and an error, and no dead handle.
abbrev pub Proper : Answer → Type 0
Proper a =
    ExactlyOne (has_live_handle a.handle) a.rejects a.err
    × (has_handle a.handle ≡ has_live_handle a.handle)

-- Exactly one of a live handle, rejects and an error is answered, and the handles that were taken are
-- the one that is answered and those that were closed.
abbrev pub Accounted : List Handle → Answer → Type 0
Accounted taken a =
    ExactlyOne (has_live_handle a.handle) a.rejects a.err
    × (has_handle a.handle ≡ has_live_handle a.handle)
    × (taken ≡ close_handle a.handle ++ a.closed)

failure-Accounted : (e : Error) (closed : List Handle) → Accounted closed (failure e closed)
failure-Accounted e closed = (inr (inr (refl, refl, refl)), refl, refl)

-- A shape with a live handle, or none.
shaped-Accounted :
    (err : Option Error) (rejects : List ℕ) (handle : Option Handle)
    → (has_handle handle ≡ true → has_live_handle handle ≡ true)
    → ExactlyOne (has_live_handle handle) rejects err
    → Accounted (close_handle handle) (resolve_checked err rejects handle)
shaped-Accounted (some e) rejects none live one = failure-Accounted e []
shaped-Accounted (some e) rejects (some h) live one = ground (arith, live refl, one)
shaped-Accounted none (reject ∷ rest) none live one = (inr (inl (refl, refl, refl)), refl, refl)
shaped-Accounted none (reject ∷ rest) (some h) live one = ground (arith, live refl, one)
shaped-Accounted none [] none live one = ground (arith, one)
shaped-Accounted none [] (some h) live one = (one, sym (live refl), refl)

checked-Accounted :
    (err : Option Error) (rejects : List ℕ) (handle : Option Handle)
    → validate_driver_result (has_handle handle) (has_live_handle handle) rejects err ≡ none
    → Accounted (close_handle handle) (resolve_checked err rejects handle)
checked-Accounted err rejects handle h =
    let shape =
      (validate_driver_result_iff (has_handle handle) (has_live_handle handle) rejects err).0 h in
    shaped-Accounted err rejects handle shape.0 shape.1

shape-Accounted :
    (d : DriverReply) (shape : Option Error)
    → validate_driver_result (has_handle d.handle) (has_live_handle d.handle) d.rejects d.err
      ≡ shape
    → Accounted (close_handle d.handle) (resolve_by_shape shape d)
shape-Accounted d (some e) h = failure-Accounted e (close_handle d.handle)
shape-Accounted d none h = checked-Accounted d.err d.rejects d.handle h

pub course-Accounted : (course : Course) → Accounted (taken_handle course) (follow_course course)
unfolding resolve_driver_result
course-Accounted (not_submitted e) = failure-Accounted e []
course-Accounted (aborted e) = failure-Accounted e []
course-Accounted (ran d) = shape-Accounted d _ refl

-- The course of the task that an operation submits, if the order names an account.
abbrev pub taken_by : (RoutingKey → Course) → Result ℕ → List Handle
taken_by course (refused _) = []
taken_by course (valid account) = taken_handle (course (account_routing_key account))

operate_for-Accounted :
    (course : RoutingKey → Course) (account : Result ℕ)
    → Accounted (taken_by course account) (operate_for course account)
operate_for-Accounted course (refused e) = failure-Accounted e []
operate_for-Accounted course (valid account) =
    course-Accounted (course (account_routing_key account))

-- Whatever the driver replies and whatever becomes of the task, an operation answers exactly one of a
-- live handle, rejects and an error, and every handle that the driver gave is either the one that is
-- answered or was closed: none is leaked and none is answered closed.
pub operate-Accounted :
    (order : Order) (course : RoutingKey → Course)
    → Accounted (taken_by course (extract_account_id order.operation)) (operate order course)
unfolding operate
operate-Accounted order course = operate_for-Accounted course (extract_account_id order.operation)
