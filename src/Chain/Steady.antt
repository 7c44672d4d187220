-- ===== src/Chain/Steady.antt =====
-- Invariants of the loop of `chainTask.execute` of asyncengine/scenario.go: what holds after a step
-- that returned, and what holds after one that failed or panicked.
use Prim.Native.String.{String}
use pit_go.Base.{
  arith, inl, inr, ℕ, ◌≡◌, refl, Bool, true, false, Option, none, some, List, [], ◌∷◌,
}
use pit_go.Chain.Run.{
  nil_order, log, Status, Call, changes, HookKind, History, Reply, ok, fail, panics, Called, Hook,
  Run, M, bind_reply, ◌>>=◌, ◌>>◌,
}
use pit_go.Chain.Env.{DriverReply, Env}
use pit_go.Chain.Plan.{
  Decision, Void, Step, then_step, pre_trade, drop_copy_step, check_order, execution_report,
  account_adjustment, block_account, unblock_account, block_account_group, unblock_account_group,
  set_account_currency, clear_account_currency, set_account_pnl, Order, ChainPlan,
}
use pit_go.Chain.Steps.{operation, execute_pre_trade, apply_drop_copy}
use pit_go.Chain.Task.{goes_on, with_order, with_checked_order, execute_step, continue, run_steps}
use pit_go.Chain.Keeps.{Given, Keeps, Closed, >>-Keeps, return-Keeps}
use pit_go.Chain.StepKeeps.{
  run_then-Keeps, run_check_order-Keeps, apply_execution_report-Keeps,
  apply_account_adjustment-Keeps, run_block_account-Keeps, run_unblock_account-Keeps,
  run_block_account_group-Keeps, run_unblock_account_group-Keeps, run_set_account_currency-Keeps,
  run_clear_account_currency-Keeps, run_set_account_pnl-Keeps,
}

-- What holds after a call: `I` if it returned without an error, else `J`.
abbrev pub After : {A : Type 0} → (Run → Type 0) → (Run → Type 0) → Reply A → Run → Type 0
After I J (ok _) r = I r
After I J (fail _) r = J r
After I J (panics _) r = J r

-- From `I`, a call leads to `K` if it returns without an error, and to `J` if not.
pub record Leads {A : Type 0} (I K J : Run → Type 0) (m : M A) : Type 0 where
  pub run : (r : Run) → I r → After K J (m r).0 (m r).1

abbrev pub Steady : {A : Type 0} (I J : Run → Type 0) → M A → Type 0
Steady I J m = Leads I I J m

-- Everything that a step needs is there, or it does not matter.
abbrev pub StepGiven : {State : Type 0} → Type 0 → ChainPlan State → Step State → Type 0
StepGiven Lax plan (then_step fn) = Given Lax fn
StepGiven Lax plan (pre_trade a b) = Given Lax plan.order × Given Lax a × Given Lax b
StepGiven Lax plan (drop_copy_step a b) = Given Lax plan.order × Given Lax a × Given Lax b
StepGiven Lax plan (check_order a) = Given Lax plan.order × Given Lax a
StepGiven Lax plan (execution_report a b) = Given Lax a × Given Lax b
StepGiven Lax plan (account_adjustment a b) = Given Lax a × Given Lax b
StepGiven Lax plan (block_account a b) = Given Lax a × Given Lax b
StepGiven Lax plan (unblock_account a) = Given Lax a
StepGiven Lax plan (block_account_group a b) = Given Lax plan.group_id × Given Lax a × Given Lax b
StepGiven Lax plan (unblock_account_group a) = Given Lax plan.group_id × Given Lax a
StepGiven Lax plan (set_account_currency a b) = Given Lax a × Given Lax b
StepGiven Lax plan (clear_account_currency a) = Given Lax a
StepGiven Lax plan (set_account_pnl a b) = Given Lax a × Given Lax b

abbrev pub AllGiven : {State : Type 0} → Type 0 → ChainPlan State → List (Step State) → Type 0
AllGiven Lax plan [] = Unit {0}
AllGiven Lax plan (step ∷ rest) = StepGiven Lax plan step × AllGiven Lax plan rest

lax-StepGiven :
    {State : Type 0} {Lax : Type 0} (plan : ChainPlan State) (step : Step State)
    → Lax
    → StepGiven Lax plan step
lax-StepGiven plan (then_step fn) lax = inl lax
lax-StepGiven plan (pre_trade a b) lax = (inl lax, inl lax, inl lax)
lax-StepGiven plan (drop_copy_step a b) lax = (inl lax, inl lax, inl lax)
lax-StepGiven plan (check_order a) lax = (inl lax, inl lax)
lax-StepGiven plan (execution_report a b) lax = (inl lax, inl lax)
lax-StepGiven plan (account_adjustment a b) lax = (inl lax, inl lax)
lax-StepGiven plan (block_account a b) lax = (inl lax, inl lax)
lax-StepGiven plan (unblock_account a) lax = inl lax
lax-StepGiven plan (block_account_group a b) lax = (inl lax, inl lax, inl lax)
lax-StepGiven plan (unblock_account_group a) lax = (inl lax, inl lax)
lax-StepGiven plan (set_account_currency a b) lax = (inl lax, inl lax)
lax-StepGiven plan (clear_account_currency a) lax = inl lax
lax-StepGiven plan (set_account_pnl a b) lax = (inl lax, inl lax)

pub lax-AllGiven :
    {State : Type 0} {Lax : Type 0} (plan : ChainPlan State) (steps : List (Step State))
    → Lax
    → AllGiven Lax plan steps
lax-AllGiven plan [] lax = tt
lax-AllGiven plan (step ∷ rest) lax = (lax-StepGiven plan step lax, lax-AllGiven plan rest lax)

-- The rules by which every step is steady.
pub record StepClosed (Lax : Type 0) (I J : Run → Type 0) : Type 1 where
  pub closed : Closed Lax I
  pub weaken : (r : Run) → I r → J r
  pub missing_order : Lax → (r : Run) → I r → J (log nil_order r)
  pub operation_steady :
      {State : Type 0} (env : Env) (call : Call) (driver : History → Called DriverReply)
      (failure message : String) (kind : HookKind) (on_rejected : Hook State (List ℕ) Void)
      (decide : Hook State Void Decision) (state : State)
      → changes call ≡ true
      → Given Lax on_rejected
      → Given Lax decide
      → Steady I J (operation env call driver failure message kind on_rejected decide state)

module _ {I J : Run → Type 0} where
  pub After-weaken :
      {A : Type 0} → ((r : Run) → I r → J r) → (reply : Reply A) (r : Run) → I r → After I J reply r
  After-weaken w (ok a) r h = h
  After-weaken w (fail e) r h = w r h
  After-weaken w (panics p) r h = w r h

  pub After-weaker :
      {A : Type 0} → ((r : Run) → I r → J r) → (reply : Reply A) (r : Run) → After I J reply r → J r
  After-weaker w (ok a) r h = w r h
  After-weaker w (fail e) r h = h
  After-weaker w (panics p) r h = h

module _ {K L J : Run → Type 0} where
  bind_reply-After :
      {A B : Type 0} (f : A → M B)
      → ((a : A) → Leads K L J (f a))
      → (reply : Reply A) (r : Run) → After K J reply r
      → After L J (bind_reply f reply r).0 (bind_reply f reply r).1
  unfolding bind_reply
  bind_reply-After f k (ok a) r h = (k a).run r h
  bind_reply-After f k (fail e) r h = h
  bind_reply-After f k (panics p) r h = h

  pub >>=-Leads :
      {I : Run → Type 0} {A B : Type 0} {m : M A} {f : A → M B}
      → Leads I K J m
      → ((a : A) → Leads K L J (f a))
      → Leads I L J (m >>= f)
  unfolding ◌>>=◌
  >>=-Leads {m} {f} k l = record { run = λ r h. bind_reply-After f l (m r).0 (m r).1 (k.run r h) }

  pub >>-Leads :
      {I : Run → Type 0} {A B : Type 0} {m : M A} {n : M B}
      → Leads I K J m
      → Leads K L J n
      → Leads I L J (m >> n)
  unfolding ◌>>◌
  >>-Leads k l = >>=-Leads k (λ _. l)

module _ {I J : Run → Type 0} where
  pub Keeps-Steady : {A : Type 0} {m : M A} → ((r : Run) → I r → J r) → Keeps I m → Steady I J m
  Keeps-Steady {m} weaken k = record {
    run = λ r h. After-weaken weaken (m r).0 (m r).1 (k.run r h);
  }

module _ {Lax : Type 0} {I J : Run → Type 0} (c : StepClosed Lax I J) where
  goes_on-Steady : {m : M Void} → Keeps I m → Steady I J (goes_on m)
  goes_on-Steady k = Keeps-Steady c.weaken (>>-Keeps k (return-Keeps false))

  with_order-Steady :
      (order : Option Order) {m : M Bool}
      → Given Lax order
      → Steady I J m
      → Steady I J (with_order order m)
  unfolding with_order
  with_order-Steady none (inl lax) k = record {
    run = λ r h. c.weaken _ (c.closed.nil_group lax r h);
  }
  with_order-Steady none (inr given) k = ground (arith, given)
  with_order-Steady (some order) given k = record { run = k.run }

  with_checked_order-Steady :
      (order : Option Order) {m : M Void}
      → Given Lax order
      → Keeps I m
      → Steady I J (with_checked_order order m)
  unfolding with_checked_order
  with_checked_order-Steady none (inl lax) k = record { run = c.missing_order lax }
  with_checked_order-Steady none (inr given) k = ground (arith, given)
  with_checked_order-Steady (some order) given k = record { run = (Keeps-Steady c.weaken k).run }

  execute_step-Steady :
      {State : Type 0} (env : Env) (plan : ChainPlan State) (step : Step State) (state : State)
      → StepGiven Lax plan step
      → Steady I J (execute_step env plan step state)
  unfolding execute_step execute_pre_trade apply_drop_copy ◌>>◌
  execute_step-Steady env plan (then_step fn) state given =
      goes_on-Steady (run_then-Keeps c.closed fn state given)
  execute_step-Steady env plan (pre_trade on_rejected on_reserved) state given =
      with_order-Steady plan.order given.0
        (c.operation_steady env _ _ _ _ _ on_rejected on_reserved state refl given.1 given.2)
  execute_step-Steady env plan (drop_copy_step on_rejected on_applied) state given =
      with_order-Steady plan.order given.0
        (c.operation_steady env _ _ _ _ _ on_rejected on_applied state refl given.1 given.2)
  execute_step-Steady env plan (check_order on_checked) state given =
      >>=-Leads
        (with_checked_order-Steady plan.order given.0
          (run_check_order-Keeps c.closed env on_checked state given.1))
        λ _. Keeps-Steady c.weaken (return-Keeps false)
  execute_step-Steady env plan (execution_report report on_settled) state given =
      goes_on-Steady
        (apply_execution_report-Keeps c.closed env _ report on_settled state given.0 given.1)
  execute_step-Steady env plan (account_adjustment adjustments on_adjusted) state given =
      goes_on-Steady (
        apply_account_adjustment-Keeps c.closed env _ adjustments on_adjusted state given.0 given.1)
  execute_step-Steady env plan (block_account reason on_blocked) state given =
      goes_on-Steady
        (run_block_account-Keeps c.closed env _ reason on_blocked state given.0 given.1)
  execute_step-Steady env plan (unblock_account on_unblocked) state given =
      goes_on-Steady (run_unblock_account-Keeps c.closed env _ on_unblocked state given)
  execute_step-Steady env plan (block_account_group reason on_blocked) state given =
      goes_on-Steady (
        run_block_account_group-Keeps c.closed env plan.group_id reason on_blocked state given.0
          given.1 given.2)
  execute_step-Steady env plan (unblock_account_group on_unblocked) state given = goes_on-Steady (
      run_unblock_account_group-Keeps c.closed env plan.group_id on_unblocked state given.0 given.1)
  execute_step-Steady env plan (set_account_currency currency on_set) state given =
      goes_on-Steady
        (run_set_account_currency-Keeps c.closed env _ currency on_set state given.0 given.1)
  execute_step-Steady env plan (clear_account_currency on_cleared) state given =
      goes_on-Steady (run_clear_account_currency-Keeps c.closed env _ on_cleared state given)
  execute_step-Steady env plan (set_account_pnl assignment on_set) state given =
      goes_on-Steady
        (run_set_account_pnl-Keeps c.closed env _ assignment on_set state given.0 given.1)

  continue-Steady :
      {rest : M Status} → Steady I J rest → (ended : Bool) → Steady I J (continue rest ended)
  unfolding continue
  continue-Steady k true = Keeps-Steady c.weaken (return-Keeps _)
  continue-Steady k false = k

  pub run_steps-Steady :
      {State : Type 0} (env : Env) (plan : ChainPlan State) (steps : List (Step State))
      (state : State)
      → AllGiven Lax plan steps
      → Steady I J (run_steps env plan steps state)
  unfolding run_steps
  run_steps-Steady env plan [] state given = Keeps-Steady c.weaken (return-Keeps _)
  run_steps-Steady env plan (step ∷ rest) state given =
      >>=-Leads (execute_step-Steady env plan step state given.0)
        (continue-Steady (run_steps-Steady env plan rest state given.1))
