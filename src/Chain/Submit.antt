-- ===== src/Chain/Submit.antt =====
-- How a chain of asyncengine/scenario.go starts: `runChain`, and the task that is built from a
-- builder or a runner.
use pit_go.Base.{Bool, true, false, ◌&&◌, Option, none, some, if◌then◌else◌}
use pit_go.Errors.{Error, Sentinel, sentinel}
use pit_go.Routing.{RoutingKey}
use pit_go.Chain.Run.{ChainOutcome, failed}
use pit_go.Chain.Plan.{ChainPlan, Result, valid, refused, Route, validate, incomplete, is_nil}

-- `ChainBuilder`, its plan being what `snapshot` copies, and `ChainRunner`: nil receivers included.
pub data ChainSource (State : Type 0) : Type 0 where
  builder : Option (Bool × ChainPlan State) → ChainSource State
  runner : Option (ChainPlan State) → ChainSource State

-- `chainTask` and the key of its lane.
pub record ChainTask (State : Type 0) : Type 0 where
  pub plan : ChainPlan State
  pub key : RoutingKey

abbrev pub task_of : {State : Type 0} → ChainPlan State → Result Route → Result (ChainTask State)
task_of plan (refused e) = refused e
task_of plan (valid route) =
    valid (record { plan = record plan { account_id = route.account_id }; key = route.key })

unfoldable pub new_chain_task_from_plan :
    {State : Type 0} → ChainPlan State → Bool → Result (ChainTask State)
new_chain_task_from_plan plan finally_required =
    if finally_required && is_nil plan.finally
    then refused (incomplete "Chain.Finally")
    else task_of plan (validate plan)

unfoldable pub new_chain_task : {State : Type 0} → ChainSource State → Result (ChainTask State)
unfolding new_chain_task_from_plan
new_chain_task (builder none) = refused (incomplete "Chain")
new_chain_task (builder (some (true, plan))) = refused (incomplete "discarded Chain.Finally result")
new_chain_task (builder (some (false, plan))) =
    new_chain_task_from_plan (record plan { finally = none }) false
new_chain_task (runner none) = refused (incomplete "Chain")
new_chain_task (runner (some plan)) = new_chain_task_from_plan plan true

-- What `runChain` leaves: a future that is resolved with a failure, or a task that a lane has.
pub data Started (State : Type 0) : Type 0 where
  resolved : ChainOutcome → Error → Started State
  submitted : ChainTask State → Started State

abbrev pub refusal : {State : Type 0} → Error → Started State
refusal e = resolved (record { status = failed; err = some e; retry_unsafe = false }) e

abbrev pub submit_answered : {State : Type 0} → ChainTask State → Option Error → Started State
submit_answered task (some e) = refusal e
submit_answered task none = submitted task

abbrev pub submit_task :
    {State : Type 0} → (RoutingKey → Option Error) → Result (ChainTask State) → Started State
submit_task submit (refused e) = refusal e
submit_task submit (valid task) = submit_answered task (submit task.key)

-- `runChain`: whether there is an engine, and the answer of its `submit`.
unfoldable pub run_chain :
    {State : Type 0} → Bool → (RoutingKey → Option Error) → ChainSource State → Started State
unfolding new_chain_task
run_chain has_engine submit source =
    if has_engine
    then submit_task submit (new_chain_task source)
    else refusal (sentinel Sentinel.chain_engine_missing)
