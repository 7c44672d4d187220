-- ===== src/Chain/Start.antt =====
-- What `runChain` of asyncengine/scenario.go promises.
use pit_go.Base.{◌≡◌, refl, Bool, true, false, ◌&&◌, Option, none, some, if◌then◌else◌}
use pit_go.Errors.{Error}
use pit_go.Routing.{RoutingKey}
use pit_go.Chain.Run.{failed}
use pit_go.Chain.Plan.{ChainPlan, Result, valid, refused, Route, validate, incomplete, is_nil}
use pit_go.Chain.Submit.{
  ChainSource, builder, runner, ChainTask, task_of, new_chain_task_from_plan, new_chain_task,
  Started, resolved, submitted, submit_task, submit_answered, run_chain,
}
use pit_go.Chain.Route.{acceptable, Admitted, validate-Admitted, Routed}

-- The plan of a source that may start: a builder whose `Finally` result was not discarded, or a
-- runner that has a final hook.
abbrev pub Offers : {State : Type 0} → ChainSource State → ChainPlan State → Type 0
Offers (builder none) plan = ⊥
Offers (builder (some (discarded, p))) plan =
    (discarded ≡ false) × (plan ≡ record p { finally = none })
Offers (runner none) plan = ⊥
Offers (runner (some p)) plan = (is_nil p.finally ≡ false) × (plan ≡ p)

-- A task runs an acceptable plan of its source on the lane of the plan's route.
pub record Runs {State : Type 0} (source : ChainSource State) (task : ChainTask State)
    : Type 0 where
  pub plan : ChainPlan State
  pub route : Route
  pub offered : Offers source plan
  pub is_acceptable : acceptable plan ≡ true
  pub routed : Routed plan.order plan.group_id plan.account_id route
  pub task_plan : task.plan ≡ record plan { account_id = route.account_id }
  pub task_key : task.key ≡ route.key

abbrev TaskOk : {State : Type 0} → ChainSource State → Result (ChainTask State) → Type 0
TaskOk source (valid task) = Runs source task
TaskOk source (refused _) = Unit {0}

task_of-TaskOk :
    {State : Type 0} (source : ChainSource State) (plan : ChainPlan State) (result : Result Route)
    → Offers source plan
    → Admitted plan result
    → TaskOk source (task_of plan result)
task_of-TaskOk source plan (refused e) offered k = tt
task_of-TaskOk source plan (valid route) offered k = record {
  plan = plan;
  route = route;
  offered = offered;
  is_acceptable = k.0;
  routed = k.1;
  task_plan = refl;
  task_key = refl;
}

required-TaskOk :
    {State : Type 0} (plan : ChainPlan State) (missing : Bool)
    → is_nil plan.finally ≡ missing
    → TaskOk (runner (some plan)) (
        if true && missing
        then refused (incomplete "Chain.Finally")
        else task_of plan (validate plan))
required-TaskOk plan true missing = tt
required-TaskOk plan false set =
    task_of-TaskOk (runner (some plan)) plan (validate plan) (set, refl) (validate-Admitted plan)

new_chain_task-TaskOk :
    {State : Type 0} (source : ChainSource State) → TaskOk source (new_chain_task source)
unfolding new_chain_task new_chain_task_from_plan
new_chain_task-TaskOk (builder none) = tt
new_chain_task-TaskOk (builder (some (true, p))) = tt
new_chain_task-TaskOk (builder (some (false, p))) =
    let plan = record p { finally = none } in
    task_of-TaskOk (builder (some (false, p))) plan (validate plan) (refl, refl)
      (validate-Admitted plan)
new_chain_task-TaskOk (runner none) = tt
new_chain_task-TaskOk (runner (some p)) = required-TaskOk p (is_nil p.finally) refl

-- What `runChain` may leave: a lane has a task of the source, and accepted it; or the future is
-- resolved as failed, with the error, and safe to retry.
abbrev pub StartedOk :
    {State : Type 0} → (RoutingKey → Option Error) → ChainSource State → Started State → Type 0
StartedOk submit source (submitted task) = Runs source task × (submit task.key ≡ none)
StartedOk submit source (resolved outcome e) =
    (outcome.status ≡ failed) × (outcome.err ≡ some e) × (outcome.retry_unsafe ≡ false)

answered-StartedOk :
    {State : Type 0} (submit : RoutingKey → Option Error) (source : ChainSource State)
    (task : ChainTask State)
    → Runs source task
    → (answer : Option Error) → submit task.key ≡ answer
    → StartedOk submit source (submit_answered task answer)
answered-StartedOk submit source task k (some e) refused_by = (refl, refl, refl)
answered-StartedOk submit source task k none accepted_by = (k, accepted_by)

submit_task-StartedOk :
    {State : Type 0} (submit : RoutingKey → Option Error) (source : ChainSource State)
    (result : Result (ChainTask State))
    → TaskOk source result
    → StartedOk submit source (submit_task submit result)
submit_task-StartedOk submit source (refused e) k = (refl, refl, refl)
submit_task-StartedOk submit source (valid task) k =
    answered-StartedOk submit source task k (submit task.key) refl

-- `runChain` never leaves a future unresolved without a task: it resolves the future as failed, safe
-- to retry, with the error it carries, or a lane accepted the task; and a task that a lane has runs an
-- acceptable plan that its builder or runner offers, for the account and on the lane of the source.
pub run_chain-StartedOk :
    {State : Type 0} (has_engine : Bool) (submit : RoutingKey → Option Error)
    (source : ChainSource State)
    → StartedOk submit source (run_chain has_engine submit source)
unfolding run_chain
run_chain-StartedOk true submit source =
    submit_task-StartedOk submit source _ (new_chain_task-TaskOk source)
run_chain-StartedOk false submit source = (refl, refl, refl)
