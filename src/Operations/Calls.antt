-- ===== src/Operations/Calls.antt =====
-- The operations of asyncengine/engine.go that return no handle: reports, adjustments, caller-supplied
-- functions, and those of `AsyncAccounts`.
use Prim.Native.String.{String}
use pit_go.Base.{ℕ, Option, none, some, List}
use pit_go.Errors.{Error}
use pit_go.Routing.{RoutingKey, account_routing_key, group_routing_key, engine_wide_routing_key}
use pit_go.Chain.Plan.{
  AccountGroupId, Result, valid, refused, extract_account_id, validate_account_group_id,
}

-- A report by the account of its operation, and its contents.
pub record Report : Type 0 where
  pub operation : Option (Option ℕ)
  pub contents : ℕ

-- The driver, with the accounts behind it: each call may change its state and answer anything. Results,
-- adjustments and causes are opaque.
pub record Driver : Type 1 where
  pub State : Type 0
  pub apply_execution_report : Report → State → ℕ × Option Error × State
  pub apply_account_adjustment : ℕ → List ℕ → State → ℕ × Option Error × State
  pub group_of : ℕ → State → Option ℕ × State
  pub block : ℕ → String → State → State
  pub block_with_cause : ℕ → ℕ → State → Option Error × State
  pub unblock : ℕ → State → State
  pub unblock_all : State → State
  pub replace_block_reason : ℕ → String → State → Option Error × State
  pub block_group : ℕ → String → State → Option Error × State
  pub unblock_group : ℕ → State → Option Error × State
  pub replace_group_block_reason : ℕ → String → State → Option Error × State

-- What a future is resolved with besides an error: `unit` is `struct{}{}`, and `none` the zero value.
pub data Value : Type 0 where
  unit : Value
  post_trade : Option ℕ → Value
  batch : Option ℕ → Value
  group : Option ℕ → Value

pub record Answer : Type 0 where
  pub value : Value
  pub err : Option Error

module _ (driver : Driver) where
  -- An operation with its arguments. The function of `submit` may use the driver.
  pub data Operation : Type 0 where
    apply_execution_report : Report → Operation
    apply_account_adjustment : ℕ → List ℕ → Operation
    submit : ℕ → (driver.State → Option Error × driver.State) → Operation
    group_of unblock : ℕ → Operation
    block replace_block_reason : ℕ → String → Operation
    block_with_cause : ℕ → ℕ → Operation
    unblock_all : Operation
    block_group replace_group_block_reason : AccountGroupId → String → Operation
    unblock_group : AccountGroupId → Operation

  abbrev pub group_key : AccountGroupId → Option Error → Result RoutingKey
  group_key g (some e) = refused e
  group_key g none = valid (group_routing_key g.id)

  abbrev pub account_key : Result ℕ → Result RoutingKey
  account_key (valid account) = valid (account_routing_key account)
  account_key (refused e) = refused e

  -- An operation as its method and its task make it: the lane it submits to or the error before it
  -- submits, the value that goes with an error that is not the driver's, and the `run` of its task.
  pub record Method : Type 0 where
    pub key : Result RoutingKey
    pub zero : Value
    pub run : driver.State → Answer × driver.State

  abbrev unit_answer : Option Error × driver.State → Answer × driver.State
  unit_answer r = (record { value = unit; err = r.0 }, r.1)

  abbrev value_answer : (ℕ → Value) → ℕ × Option Error × driver.State → Answer × driver.State
  value_answer f r = (record { value = f r.0; err = r.1 }, r.2)

  abbrev report_method : Report → Method
  report_method report = record {
    key = account_key (extract_account_id report.operation);
    zero = post_trade none;
    run = λ s. value_answer (λ n. post_trade (some n)) (driver.apply_execution_report report s);
  }

  abbrev adjustment_method : ℕ → List ℕ → Method
  adjustment_method account adjustments = record {
    key = valid (account_routing_key account);
    zero = batch none;
    run = λ s.
        value_answer (λ n. batch (some n)) (driver.apply_account_adjustment account adjustments s);
  }

  abbrev submit_method : ℕ → (driver.State → Option Error × driver.State) → Method
  submit_method account fn = record {
    key = valid (account_routing_key account);
    zero = unit;
    run = λ s. unit_answer (fn s);
  }

  abbrev group_of_method : ℕ → Method
  group_of_method account = record {
    key = valid (account_routing_key account);
    zero = group none;
    run = λ s. let r = driver.group_of account s in (record { value = group r.0; err = none }, r.1);
  }

  abbrev block_method : ℕ → String → Method
  block_method account reason = record {
    key = valid (account_routing_key account);
    zero = unit;
    run = λ s. unit_answer (none, driver.block account reason s);
  }

  abbrev block_with_cause_method : ℕ → ℕ → Method
  block_with_cause_method account cause = record {
    key = valid (account_routing_key account);
    zero = unit;
    run = λ s. unit_answer (driver.block_with_cause account cause s);
  }

  abbrev unblock_method : ℕ → Method
  unblock_method account = record {
    key = valid (account_routing_key account);
    zero = unit;
    run = λ s. unit_answer (none, driver.unblock account s);
  }

  abbrev unblock_all_method : Method
  unblock_all_method = record {
    key = valid engine_wide_routing_key;
    zero = unit;
    run = λ s. unit_answer (none, driver.unblock_all s);
  }

  abbrev replace_block_reason_method : ℕ → String → Method
  replace_block_reason_method account reason = record {
    key = valid (account_routing_key account);
    zero = unit;
    run = λ s. unit_answer (driver.replace_block_reason account reason s);
  }

  abbrev block_group_method : AccountGroupId → String → Method
  block_group_method g reason = record {
    key = group_key g (validate_account_group_id g);
    zero = unit;
    run = λ s. unit_answer (driver.block_group g.id reason s);
  }

  abbrev unblock_group_method : AccountGroupId → Method
  unblock_group_method g = record {
    key = group_key g (validate_account_group_id g);
    zero = unit;
    run = λ s. unit_answer (driver.unblock_group g.id s);
  }

  abbrev replace_group_block_reason_method : AccountGroupId → String → Method
  replace_group_block_reason_method g reason = record {
    key = group_key g (validate_account_group_id g);
    zero = unit;
    run = λ s. unit_answer (driver.replace_group_block_reason g.id reason s);
  }

  unfoldable pub method : Operation → Method
  method (apply_execution_report report) = report_method report
  method (apply_account_adjustment account adjustments) = adjustment_method account adjustments
  method (submit account fn) = submit_method account fn
  method (group_of account) = group_of_method account
  method (unblock account) = unblock_method account
  method (block account reason) = block_method account reason
  method (replace_block_reason account reason) = replace_block_reason_method account reason
  method (block_with_cause account cause) = block_with_cause_method account cause
  method unblock_all = unblock_all_method
  method (block_group g reason) = block_group_method g reason
  method (replace_group_block_reason g reason) = replace_group_block_reason_method g reason
  method (unblock_group g) = unblock_group_method g

  unfoldable pub routed : Operation → Result RoutingKey
  unfolding method
  routed op = (method op).key

  unfoldable pub run_task : Operation → driver.State → Answer × driver.State
  unfolding method
  run_task op = (method op).run

  -- The `abort` of the task, and a submit that fails: the future is resolved with the error.
  unfoldable pub resolve_error : Operation → Error → Answer
  unfolding method
  resolve_error op e = record { value = (method op).zero; err = some e }

-- What becomes of a task: `submit` fails, a worker aborts it, or a worker runs it.
pub data Fate : Type 0 where
  not_submitted aborted : Error → Fate
  ran : Fate

module _ (driver : Driver) where
  abbrev pub follow_fate : Operation driver → Fate → driver.State → Answer × driver.State
  follow_fate op (not_submitted e) s = (resolve_error driver op e, s)
  follow_fate op (aborted e) s = (resolve_error driver op e, s)
  follow_fate op ran s = run_task driver op s

  abbrev pub perform_on :
      Operation driver
      → Result RoutingKey
      → (RoutingKey → Fate)
      → driver.State
      → Answer × driver.State
  perform_on op (refused e) lanes s = (resolve_error driver op e, s)
  perform_on op (valid key) lanes s = follow_fate op (lanes key) s

  -- The whole operation: `lanes` is what the lane of a key makes of the task.
  unfoldable pub perform :
      Operation driver → (RoutingKey → Fate) → driver.State → Answer × driver.State
  unfolding routed
  perform op lanes s = perform_on op (routed driver op) lanes s
