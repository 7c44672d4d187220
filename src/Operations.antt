-- ===== src/Operations.antt =====
-- The operations of asyncengine/engine.go that return a handle: `StartPreTrade`, `ExecutePreTrade` and
-- `ApplyDropCopy`, which differ in the driver call and the type of the handle.
pub mod Accounting
pub mod Calls
pub mod Routes
pub mod Request
pub mod Requests
pub mod Stop
use pit_go.Base.{ℕ, Bool, true, false, Option, none, some, List, [], ◌∷◌}
use pit_go.Errors.{Error}
use pit_go.Driver.{validate_driver_result}
use pit_go.Routing.{RoutingKey, account_routing_key}
use pit_go.Chain.Run.{Handle}
use pit_go.Chain.Env.{DriverReply}
use pit_go.Chain.Plan.{Order, Result, valid, refused, extract_account_id}
use pit_go.Chain.Steps.{has_handle, has_live_handle}

-- The three values of the future, and the native handles closed on the way.
pub record Answer : Type 0 where
  pub handle : Option Handle
  pub rejects : List ℕ
  pub err : Option Error
  pub closed : List Handle

abbrev pub failure : Error → List Handle → Answer
failure e closed = record { handle = none; rejects = []; err = some e; closed = closed }

abbrev pub close_handle : Option Handle → List Handle
close_handle none = []
close_handle (some h) = h ∷ []

-- A reply whose shape passed the check.
abbrev pub resolve_checked : Option Error → List ℕ → Option Handle → Answer
resolve_checked (some e) rejects handle = failure e []
resolve_checked none (reject ∷ rest) handle = record {
  handle = none;
  rejects = reject ∷ rest;
  err = none;
  closed = [];
}
resolve_checked none [] handle = record { handle = handle; rejects = []; err = none; closed = [] }

abbrev pub resolve_by_shape : Option Error → DriverReply → Answer
resolve_by_shape (some shape_err) d = failure shape_err (close_handle d.handle)
resolve_by_shape none d = resolve_checked d.err d.rejects d.handle

-- `resolveReservationDriverResult`, and the same lines of the other two tasks.
unfoldable pub resolve_driver_result : DriverReply → Answer
resolve_driver_result d =
    resolve_by_shape
      (validate_driver_result (has_handle d.handle) (has_live_handle d.handle) d.rejects d.err) d

-- What becomes of a task: `submit` fails, a worker aborts it, or a worker runs it and the driver
-- replies.
pub data Course : Type 0 where
  not_submitted aborted : Error → Course
  ran : DriverReply → Course

abbrev pub follow_course : Course → Answer
follow_course (not_submitted e) = failure e []
follow_course (aborted e) = failure e []
follow_course (ran d) = resolve_driver_result d

abbrev pub operate_for : (RoutingKey → Course) → Result ℕ → Answer
operate_for course (refused e) = failure e []
operate_for course (valid account) = follow_course (course (account_routing_key account))

-- The operation on an order: the lane of the order's account decides the course of the task.
unfoldable pub operate : Order → (RoutingKey → Course) → Answer
operate order course = operate_for course (extract_account_id order.operation)
