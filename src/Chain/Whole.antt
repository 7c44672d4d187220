-- ===== src/Chain/Whole.antt =====
-- Invariants that hold throughout a run of a chain of asyncengine/scenario.go, however it ends.
use Prim.Native.String.{String}
use pit_go.Base.{ℕ, ◌≡◌, true, Option, none, some, List, [], ◌∷◌}
use pit_go.Errors.{Error, wrap}
use pit_go.Chain.Run.{
  nil_order, opened, committing, rolling_back, finalized, finally_entered, Handle, log, Status,
  Call, changes, HookKind, History, Reply, ok, fail, panics, Called, Hook, Run, call_hook,
  ChainOutcome,
}
use pit_go.Chain.Env.{DriverReply, Env}
use pit_go.Chain.Plan.{Decision, commit, rollback, invalid, Void, ChainPlan}
use pit_go.Chain.Steps.{
  finalizer_ended, operation, keep_handle, finalizing, commit_pending, rollback_pending,
  clear_pending, finalize_decision, answered, accepted,
}
use pit_go.Chain.Task.{
  clean_up_pending, clean_up, finish, conclude, after_begin, execute, run_steps, call_finally,
  fresh_run,
}
use pit_go.Chain.Keeps.{
  Given, Keeps, Closed, >>=-Keeps, >>-Keeps, return-Keeps, throw-Keeps, wrapping-Keeps,
  call_hook-Keeps,
}
use pit_go.Chain.StepKeeps.{enter_mutating-Keeps}
use pit_go.Chain.Steady.{AllGiven, After-weaker, Keeps-Steady, StepClosed, run_steps-Steady}

-- The rules by which every event of a run keeps an invariant.
pub record Whole (Lax : Type 0) (I : Run → Type 0) : Type 1 where
  pub closed : Closed Lax I
  pub missing_order : Lax → (r : Run) → I r → I (log nil_order r)
  pub pending : (p : Option Handle) (r : Run) → I r → I (record r { pending = p })
  pub handle_opened : (h : Handle) (r : Run) → I r → I (log (opened h) r)
  pub commit_entered : (h : Handle) (r : Run) → I r → I (log (committing h) r)
  pub rollback_entered : (h : Handle) (r : Run) → I r → I (log (rolling_back h) r)
  pub finalizer_returned : (h : Handle) (r : Run) → I r → I (log (finalized h) r)

module _ {Lax : Type 0} {I : Run → Type 0} (w : Whole Lax I) where
  keep_handle-Keeps : (handle : Option Handle) → Keeps I (keep_handle handle)
  unfolding keep_handle log
  keep_handle-Keeps none = record { run = λ r k. k }
  keep_handle-Keeps (some h) = record {
    run = λ r k. w.handle_opened h (record r { pending = some h }) (w.pending (some h) r k);
  }

  finalizer_ended-Keeps : (h : Handle) (called : Called Void) → Keeps I (finalizer_ended h called)
  unfolding finalizer_ended log
  finalizer_ended-Keeps h (Called.returned _) = record { run = w.finalizer_returned h }
  finalizer_ended-Keeps h (Called.panicked p) = record { run = λ r k. k }

  commit_pending-Keeps : (env : Env) (h : Handle) → Keeps I (commit_pending env h)
  unfolding commit_pending finalizing log
  commit_pending-Keeps env h = record {
    run = λ r k. (finalizer_ended-Keeps h _).run _ (w.commit_entered h r k);
  }

  rollback_pending-Keeps : (env : Env) (h : Handle) → Keeps I (rollback_pending env h)
  unfolding rollback_pending finalizing log
  rollback_pending-Keeps env h = record {
    run = λ r k. (finalizer_ended-Keeps h _).run _ (w.rollback_entered h r k);
  }

  clear_pending-Keeps : Keeps I clear_pending
  unfolding clear_pending
  clear_pending-Keeps = record { run = w.pending none }

  finalize_decision-Keeps :
      (env : Env) (decision : Decision) (h : Handle) → Keeps I (finalize_decision env decision h)
  unfolding finalize_decision
  finalize_decision-Keeps env commit h = >>-Keeps (commit_pending-Keeps env h) clear_pending-Keeps
  finalize_decision-Keeps env rollback h =
      >>-Keeps (rollback_pending-Keeps env h) clear_pending-Keeps
  finalize_decision-Keeps env (invalid _) h =
      >>-Keeps (rollback_pending-Keeps env h) (>>-Keeps clear_pending-Keeps (throw-Keeps _))

  accepted-Keeps :
      {State : Type 0} (env : Env) (message : String) (kind : HookKind)
      (on_rejected : Hook State (List ℕ) Void) (decide : Hook State Void Decision) (state : State)
      (handle : Option Handle) (rejects : List ℕ)
      → Given Lax on_rejected
      → Given Lax decide
      → Keeps I (accepted env message kind on_rejected decide state handle rejects)
  unfolding accepted
  accepted-Keeps env message kind on_rejected decide state handle (reject ∷ rejects) g_rejected
        g_decide =
      >>-Keeps (wrapping-Keeps _ (call_hook-Keeps w.closed.hooks _ on_rejected state _ g_rejected))
        (return-Keeps true)
  accepted-Keeps env message kind on_rejected decide state none [] g_rejected g_decide =
      throw-Keeps _
  accepted-Keeps env message kind on_rejected decide state (some h) [] g_rejected g_decide =
      >>=-Keeps
        (w.closed.hooks.result _
          (wrapping-Keeps message (call_hook-Keeps w.closed.hooks kind decide state tt g_decide)))
        λ decision. >>-Keeps (finalize_decision-Keeps env decision h) (return-Keeps _)

  answered-Keeps :
      {State : Type 0} (env : Env) (failure message : String) (kind : HookKind)
      (on_rejected : Hook State (List ℕ) Void) (decide : Hook State Void Decision) (state : State)
      (d : DriverReply) (err : Option Error)
      → Given Lax on_rejected
      → Given Lax decide
      → Keeps I (answered env failure message kind on_rejected decide state d err)
  unfolding answered
  answered-Keeps env failure message kind on_rejected decide state d (some e) g_rejected g_decide =
      throw-Keeps _
  answered-Keeps env failure message kind on_rejected decide state d none g_rejected g_decide =
      accepted-Keeps env message kind on_rejected decide state d.handle d.rejects g_rejected
        g_decide

  operation-Keeps :
      {State : Type 0} (env : Env) (call : Call) (driver : History → Called DriverReply)
      (failure message : String) (kind : HookKind) (on_rejected : Hook State (List ℕ) Void)
      (decide : Hook State Void Decision) (state : State)
      → changes call ≡ true
      → Given Lax on_rejected
      → Given Lax decide
      → Keeps I (operation env call driver failure message kind on_rejected decide state)
  unfolding operation
  operation-Keeps env call driver failure message kind on_rejected decide state changed g_rejected
        g_decide =
      >>=-Keeps (enter_mutating-Keeps w.closed call _ changed) λ d.
        >>-Keeps (keep_handle-Keeps d.handle)
          (answered-Keeps env failure message kind on_rejected decide state d _ g_rejected g_decide)

  whole_steps : StepClosed Lax I I
  whole_steps = record {
    closed = w.closed;
    weaken = λ r h. h;
    missing_order = w.missing_order;
    operation_steady =
        λ env call driver failure message kind on_rejected decide state changed g_rejected g_decide.
          Keeps-Steady (λ r h. h)
            (operation-Keeps env call driver failure message kind on_rejected decide state changed
              g_rejected g_decide);
  }

  clean_up_pending-Keeps :
      (env : Env) (pending : Option Handle) (r : Run) → I r → I (clean_up_pending env pending r).1
  unfolding clean_up_pending
  clean_up_pending-Keeps env none r k = k
  clean_up_pending-Keeps env (some h) r k = (rollback_pending-Keeps env h).run r k

  pub clean_up-Keeps : (env : Env) (r : Run) → I r → I (clean_up env r).1
  unfolding clean_up
  clean_up-Keeps env r k = clean_up_pending-Keeps env r.pending r k

  -- The run that the final hook and the outcome see, after a body from `r`.
  pub body-Keeps :
      {State : Type 0} (env : Env) (plan : ChainPlan State) (state : State) (r : Run)
      → AllGiven Lax plan plan.steps
      → I r
      → I (clean_up env (run_steps env plan plan.steps state r).1).1
  body-Keeps env plan state r given k =
      let body = run_steps env plan plan.steps state r in
      clean_up-Keeps env body.1 (
        After-weaker (λ r h. h) body.0 body.1
          ((run_steps-Steady whole_steps env plan plan.steps state given).run r k))

  module _ {Q : Run → Type 0} (last : (r : Run) → I r → Q r)
      (final : (outcome : ChainOutcome) (r : Run) → I r → Q (log (finally_entered outcome) r)) where
    finish-Keeps :
        {State : Type 0} (finally : Hook State ChainOutcome Void) (state : Option State)
        (status : Status) (err : Option Error) (r : Run)
        → I r
        → Q (finish finally state status err r).1
    unfolding finish call_finally
    finish-Keeps finally none status err r k = last r k
    finish-Keeps none (some state) status err r k = last r k
    finish-Keeps (some finally) (some state) status err r k = final _ r k

    conclude-Keeps :
        {State : Type 0} (env : Env) (plan : ChainPlan State) (state : Option State)
        (reply : Reply Status) (r : Run)
        → I (clean_up env r).1
        → Q (conclude env plan state (reply, r)).1
    unfolding conclude
    conclude-Keeps env plan state reply r k = finish-Keeps plan.finally state _ _ _ k

    after_begin-Keeps :
        {State : Type 0} (env : Env) (plan : ChainPlan State) (reply : Reply State) (r : Run)
        → AllGiven Lax plan plan.steps
        → I r
        → Q (after_begin env plan (reply, r)).1
    unfolding after_begin
    after_begin-Keeps env plan (ok state) r given k =
        let body = run_steps env plan plan.steps state r in
        conclude-Keeps env plan (some state) body.0 body.1 (body-Keeps env plan state r given k)
    after_begin-Keeps env plan (fail e) r given k =
        conclude-Keeps env plan none (fail (wrap "async chain begin" e)) r (clean_up-Keeps env r k)
    after_begin-Keeps env plan (panics p) r given k =
        conclude-Keeps env plan none (panics p) r (clean_up-Keeps env r k)

    -- What holds throughout a run holds at its end.
    pub execute-Keeps :
        {State : Type 0} (env : Env) (plan : ChainPlan State)
        → Given Lax plan.begin
        → AllGiven Lax plan plan.steps
        → I fresh_run
        → Q (execute env plan).1
    unfolding execute
    execute-Keeps env plan g_begin given k =
        let begun = call_hook HookKind.begin plan.begin tt tt fresh_run in
        after_begin-Keeps env plan begun.0 begun.1 given
          ((call_hook-Keeps w.closed.hooks HookKind.begin plan.begin tt tt g_begin).run fresh_run k)
