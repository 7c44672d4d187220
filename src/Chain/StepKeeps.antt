-- ===== src/Chain/StepKeeps.antt =====
-- The steps of asyncengine/scenario.go and asyncengine/scenario_admin.go that open no handle, with
-- the invariants that they keep.
use Prim.Native.String.{String}
use pit_go.Base.{ℕ, ◌≡◌, refl, true, Option, none, some, List, arith, inl, inr}
use pit_go.Errors.{Error}
use pit_go.Chain.Run.{
  Call, changes, HookKind, History, Reply, Hook, Run, M, wrapping, enter, enter_mutating, call_hook,
}
use pit_go.Chain.Env.{Report, Env, ExecutionReport}
use pit_go.Chain.Plan.{Void, OrderCheck, AccountGroupId}
use pit_go.Chain.Check.{checked_reply, run_check_order, dry_run_error}
use pit_go.Chain.Apply.{
  run_then, with_group, apply_execution_report, apply_account_adjustment, run_block_account,
  run_unblock_account, run_block_account_group, run_unblock_account_group, run_set_account_currency,
  run_clear_account_currency, run_set_account_pnl,
}
use pit_go.Chain.Keeps.{
  Keeps, Closed, Given, throw-Keeps, >>=-Keeps, >>-Keeps, wrapping-Keeps, check_account-Keeps,
  call_hook-Keeps,
}

module _ {Lax : Type 0} {I : Run → Type 0} (c : Closed Lax I) where
  pub enter_mutating-Keeps :
      {A : Type 0} (call : Call) (f : History → Reply A)
      → changes call ≡ true
      → Keeps I (enter_mutating call f)
  unfolding enter_mutating enter
  enter_mutating-Keeps call f mutates = record { run = λ r. c.mutating call r mutates }

  hook-Keeps :
      {State P A : Type 0} (message : String) (kind : HookKind) (hook : Hook State P A)
      (state : State) (p : P)
      → Given Lax hook
      → Keeps I (wrapping message (call_hook kind hook state p))
  hook-Keeps message kind hook state p given =
      wrapping-Keeps message (call_hook-Keeps c.hooks kind hook state p given)

  with_group-Keeps :
      {A : Type 0} (group : Option AccountGroupId) {f : ℕ → M A}
      → Given Lax group
      → ((id : ℕ) → Keeps I (f id))
      → Keeps I (with_group group f)
  unfolding with_group
  with_group-Keeps none (inl lax) k = record { run = c.nil_group lax }
  with_group-Keeps none (inr given) k = ground (arith, given)
  with_group-Keeps (some group) given k = record { run = (k group.id).run }

  pub run_then-Keeps :
      {State : Type 0} (fn : Hook State Void Void) (state : State)
      → Given Lax fn
      → Keeps I (run_then fn state)
  unfolding run_then
  run_then-Keeps fn state given_fn = hook-Keeps _ _ fn state tt given_fn

  pub apply_execution_report-Keeps :
      {State : Type 0} (env : Env) (account : ℕ) (report : Hook State Void ExecutionReport)
      (on_settled : Hook State ℕ Void) (state : State)
      → Given Lax report
      → Given Lax on_settled
      → Keeps I (apply_execution_report env account report on_settled state)
  unfolding apply_execution_report
  apply_execution_report-Keeps env account report on_settled state given_report given_on_settled =
      >>=-Keeps (hook-Keeps _ _ report state tt given_report) λ input.
        >>-Keeps (check_account-Keeps account _) (
          >>=-Keeps (wrapping-Keeps _ (enter_mutating-Keeps _ _ refl))
            λ result. hook-Keeps _ _ on_settled state result given_on_settled)

  pub apply_account_adjustment-Keeps :
      {State : Type 0} (env : Env) (account : ℕ) (adjustments : Hook State Void (List ℕ))
      (on_adjusted : Hook State ℕ Void) (state : State)
      → Given Lax adjustments
      → Given Lax on_adjusted
      → Keeps I (apply_account_adjustment env account adjustments on_adjusted state)
  unfolding apply_account_adjustment
  apply_account_adjustment-Keeps env account adjustments on_adjusted state given_adjustments
        given_on_adjusted =
      >>=-Keeps (hook-Keeps _ _ adjustments state tt given_adjustments) λ input.
        >>=-Keeps (wrapping-Keeps _ (enter_mutating-Keeps _ _ refl))
          λ result. hook-Keeps _ _ on_adjusted state result given_on_adjusted

  pub run_block_account-Keeps :
      {State : Type 0} (env : Env) (account : ℕ) (reason : Hook State Void ℕ)
      (on_blocked : Hook State Void Void) (state : State)
      → Given Lax reason
      → Given Lax on_blocked
      → Keeps I (run_block_account env account reason on_blocked state)
  unfolding run_block_account
  run_block_account-Keeps env account reason on_blocked state given_reason given_on_blocked =
      >>=-Keeps (hook-Keeps _ _ reason state tt given_reason) λ input.
        >>-Keeps (enter_mutating-Keeps _ _ refl)
          (hook-Keeps _ _ on_blocked state tt given_on_blocked)

  pub run_unblock_account-Keeps :
      {State : Type 0} (env : Env) (account : ℕ) (on_unblocked : Hook State Void Void)
      (state : State)
      → Given Lax on_unblocked
      → Keeps I (run_unblock_account env account on_unblocked state)
  unfolding run_unblock_account
  run_unblock_account-Keeps env account on_unblocked state given_on_unblocked =
      >>-Keeps (enter_mutating-Keeps _ _ refl)
        (hook-Keeps _ _ on_unblocked state tt given_on_unblocked)

  pub run_block_account_group-Keeps :
      {State : Type 0} (env : Env) (group : Option AccountGroupId) (reason : Hook State Void ℕ)
      (on_blocked : Hook State Void Void) (state : State)
      → Given Lax group
      → Given Lax reason
      → Given Lax on_blocked
      → Keeps I (run_block_account_group env group reason on_blocked state)
  unfolding run_block_account_group
  run_block_account_group-Keeps env group reason on_blocked state given_group given_reason
        given_on_blocked =
      >>=-Keeps (hook-Keeps _ _ reason state tt given_reason) λ input.
        >>-Keeps
          (with_group-Keeps group given_group
            (λ id. wrapping-Keeps _ (enter_mutating-Keeps _ _ refl)))
          (hook-Keeps _ _ on_blocked state tt given_on_blocked)

  pub run_unblock_account_group-Keeps :
      {State : Type 0} (env : Env) (group : Option AccountGroupId)
      (on_unblocked : Hook State Void Void) (state : State)
      → Given Lax group
      → Given Lax on_unblocked
      → Keeps I (run_unblock_account_group env group on_unblocked state)
  unfolding run_unblock_account_group
  run_unblock_account_group-Keeps env group on_unblocked state given_group given_on_unblocked =
      >>-Keeps
        (with_group-Keeps group given_group
          (λ id. wrapping-Keeps _ (enter_mutating-Keeps _ _ refl)))
        (hook-Keeps _ _ on_unblocked state tt given_on_unblocked)

  pub run_set_account_currency-Keeps :
      {State : Type 0} (env : Env) (account : ℕ) (currency : Hook State Void ℕ)
      (on_set : Hook State Void Void) (state : State)
      → Given Lax currency
      → Given Lax on_set
      → Keeps I (run_set_account_currency env account currency on_set state)
  unfolding run_set_account_currency
  run_set_account_currency-Keeps env account currency on_set state given_currency given_on_set =
      >>=-Keeps (hook-Keeps _ _ currency state tt given_currency) λ input.
        >>-Keeps (wrapping-Keeps _ (enter_mutating-Keeps _ _ refl))
          (hook-Keeps _ _ on_set state tt given_on_set)

  pub run_clear_account_currency-Keeps :
      {State : Type 0} (env : Env) (account : ℕ) (on_cleared : Hook State Void Void) (state : State)
      → Given Lax on_cleared
      → Keeps I (run_clear_account_currency env account on_cleared state)
  unfolding run_clear_account_currency
  run_clear_account_currency-Keeps env account on_cleared state given_on_cleared =
      >>-Keeps (enter_mutating-Keeps _ _ refl) (hook-Keeps _ _ on_cleared state tt given_on_cleared)

  pub run_set_account_pnl-Keeps :
      {State : Type 0} (env : Env) (account : ℕ) (assignment : Hook State Void ℕ)
      (on_set : Hook State ℕ Void) (state : State)
      → Given Lax assignment
      → Given Lax on_set
      → Keeps I (run_set_account_pnl env account assignment on_set state)
  unfolding run_set_account_pnl
  run_set_account_pnl-Keeps env account assignment on_set state given_assignment given_on_set =
      >>=-Keeps (hook-Keeps _ _ assignment state tt given_assignment) λ input.
        >>=-Keeps (wrapping-Keeps _ (enter_mutating-Keeps _ _ refl))
          λ result. hook-Keeps _ _ on_set state result given_on_set

  checked_reply-Keeps :
      {State : Type 0} (env : Env) (on_checked : Hook State OrderCheck Void) (state : State)
      (err : Option Error) (report : Option Report)
      → Given Lax on_checked
      → Keeps I (checked_reply env on_checked state err report)
  unfolding checked_reply
  checked_reply-Keeps env on_checked state err (some report) given_on_checked =
      c.report env on_checked state err report given_on_checked
  checked_reply-Keeps env on_checked state (some e) none given_on_checked = throw-Keeps _
  checked_reply-Keeps env on_checked state none none given_on_checked = record { run = λ r h. h }

  pub run_check_order-Keeps :
      {State : Type 0} (env : Env) (on_checked : Hook State OrderCheck Void) (state : State)
      → Given Lax on_checked
      → Keeps I (run_check_order env on_checked state)
  unfolding run_check_order enter
  run_check_order-Keeps env on_checked state given_on_checked =
      >>=-Keeps (record { run = c.dry_run })
        λ d.
          checked_reply-Keeps env on_checked state (dry_run_error d.report d.err) d.report
            given_on_checked
