-- ===== src/Operations/Request.antt =====
-- `AsyncRequest` of asyncengine/request.go over `Request` of pretrade/request.go. What a call of a method
-- does is told by what becomes of its task, since the lane runs the tasks of a request one at a time.
use pit_go.Base.{ℕ, suc, Bool, true, false, Option, none, some, List, [], ◌∷◌, if◌then◌else◌}
use pit_go.Errors.{Error, text}
use pit_go.Chain.Env.{DriverReply}
use pit_go.Operations.{Answer, failure, resolve_driver_result}

-- `live`: the native handle is not nil. `executed` and `destroyed` count the native calls.
pub record Request : Type 0 where
  pub live : Bool
  pub executed : ℕ
  pub destroyed : ℕ

-- `Request.Close`.
unfoldable pub close : Request → Request
close r = if r.live then record r { live = false; destroyed = suc r.destroyed } else r

abbrev pub request_closed : DriverReply
request_closed = record {
  handle = none;
  rejects = [];
  err = some (text "pre-trade request already closed");
}

-- `Request.Execute`, given the reply of the native call.
unfoldable pub execute : DriverReply → Request → DriverReply × Request
execute reply r =
    if r.live then (reply, record r { executed = suc r.executed }) else (request_closed, r)

-- `closeInner` and `executeInner`, which closes the request when `Execute` has returned.
unfoldable pub execute_inner : DriverReply → Request → DriverReply × Request
unfolding execute close
execute_inner reply r = let after = execute reply r in (after.0, close after.1)

-- What becomes of a task: its submit fails, a worker aborts it, or a worker runs it, with the reply of
-- the native call if there is one.
pub data Fate : Type 0 where
  not_submitted aborted : Error → Fate
  ran : DriverReply → Fate

-- `executeRequestTask`, its `abort`, and the cleanup that a failed submit schedules.
unfoldable pub execute_request : Fate → Request → Answer × Request
unfolding execute_inner close
execute_request (not_submitted e) r = (failure e [], close r)
execute_request (aborted e) r = (failure e [], close r)
execute_request (ran reply) r =
    let after = execute_inner reply r in (resolve_driver_result after.0, after.1)

-- `closeRequestTask` with its failed submit: what the future is resolved with, and the request.
unfoldable pub close_request : Fate → Request → Option Error × Request
unfolding close
close_request (not_submitted e) r = (some e, close r)
close_request (aborted e) r = (some e, close r)
close_request (ran _) r = (none, close r)

pub data Call : Type 0 where
  executes closes : Fate → Call

-- The answers of `Execute` and the request after calls in the order of their tasks.
abbrev pub run : List Call → Request → List Answer × Request
run [] r = ([], r)
run (executes fate ∷ calls) r =
    let after = execute_request fate r in let rest = run calls after.1 in (after.0 ∷ rest.0, rest.1)
run (closes fate ∷ calls) r = run calls (close_request fate r).1

-- A request as `StartPreTrade` answers it.
abbrev pub new_request : Request
new_request = record { live = true; executed = 0; destroyed = 0 }
