-- ===== src/Chain/Outcome.antt =====
-- What a run of a chain of asyncengine/scenario.go resolves its future with.
use pit_go.Base.{
  ◌≡◌, refl, Bool, true, false, ◌||◌, Option, none, some, List, [], ◌∷◌, ap, subst, if◌then◌else◌,
}
use pit_go.Errors.{Error, Sentinel, wrap, join_errors, is_error}
use pit_go.Chain.Run.{
  HookKind, call_hook, Status, unknown, completed, rejected, failed, ChainOutcome, Hook, History,
  log, Reply, ok, fail, panics, Run, M, bind_reply, ◌>>=◌, return,
}
use pit_go.Chain.Env.{Env}
use pit_go.Chain.Plan.{Void, Step, ChainPlan}
use pit_go.Chain.Task.{
  execute_step, continue, run_steps, fails, resolved_outcome, body_status, mark_unsafe,
  call_finally, Resolution, finish, conclude, after_begin, execute, fresh_run,
}

-- The status of an outcome fits the error: `failed` exactly if there is one, and never `unknown`.
abbrev pub Fits : Status → Option Error → Type 0
Fits completed none = Unit {0}
Fits rejected none = Unit {0}
Fits failed (some _) = Unit {0}
Fits _ _ = ⊥

-- An error of a run that is unsafe to retry says so.
abbrev pub Marked : Option Error → Bool → Type 0
Marked (some e) true = is_error Sentinel.chain_retry_unsafe e ≡ true
Marked _ _ = Unit {0}

abbrev pub Consistent : Resolution → Type 0
Consistent res =
    (res.0.0.err ≡ res.0.1)
    × (res.0.0.retry_unsafe ≡ res.1.retry_unsafe)
    × Fits res.0.0.status res.0.1
    × Marked res.0.1 res.1.retry_unsafe

-- A status that the body of a run ends with.
abbrev Plain : Status → Type 0
Plain completed = Unit {0}
Plain rejected = Unit {0}
Plain _ = ⊥

resolved_outcome-Fits :
    (status : Status) (err : Option Error) (unsafe : Bool)
    → Plain status
    → Fits (resolved_outcome status err unsafe).status err
unfolding resolved_outcome
resolved_outcome-Fits status (some e) unsafe plain = tt
resolved_outcome-Fits completed none unsafe plain = tt
resolved_outcome-Fits rejected none unsafe plain = tt
resolved_outcome-Fits unknown none unsafe plain = elim plain [ ]
resolved_outcome-Fits failed none unsafe plain = elim plain [ ]

or-true : (b : Bool) → (b || true) ≡ true
or-true true = refl
or-true false = refl

mark_unsafe-Marked : (err : Option Error) (unsafe : Bool) → Marked (mark_unsafe err unsafe) unsafe
mark_unsafe-Marked none unsafe = tt
mark_unsafe-Marked (some e) true = or-true _
mark_unsafe-Marked (some e) false = tt

join_errors-Marked :
    (e : Error) (err : Option Error) (unsafe : Bool)
    → Marked (some e) unsafe
    → Marked (join_errors (some e) err) unsafe
join_errors-Marked e none unsafe m = m
join_errors-Marked e (some e2) true m = ap (λ b. b || is_error Sentinel.chain_retry_unsafe e2) m
join_errors-Marked e (some e2) false m = tt

-- The error after the final hook.
whole-Marked :
    (err finally_err : Option Error) (unsafe : Bool)
    → Marked err unsafe
    → Marked
        (join_errors err (if fails err then finally_err else mark_unsafe finally_err unsafe))
        unsafe
whole-Marked none finally_err unsafe m = mark_unsafe-Marked finally_err unsafe
whole-Marked (some e) finally_err unsafe m = join_errors-Marked e finally_err unsafe m

call_finally-retry_unsafe :
    {State : Type 0} (finally : State → ChainOutcome → History → Reply Void) (state : State)
    (outcome : ChainOutcome) (r : Run)
    → r.retry_unsafe ≡ (call_finally finally state outcome r).1.retry_unsafe
unfolding call_finally log
call_finally-retry_unsafe finally state outcome r = refl

finish-Consistent :
    {State : Type 0} (finally : Hook State ChainOutcome Void) (state : Option State)
    (status : Status) (err : Option Error) (r : Run)
    → Plain status
    → Marked err r.retry_unsafe
    → Consistent (finish finally state status err r)
unfolding finish resolved_outcome
finish-Consistent finally none status err r plain m =
    (refl, refl, resolved_outcome-Fits status err r.retry_unsafe plain, m)
finish-Consistent none (some state) status err r plain m =
    (refl, refl, resolved_outcome-Fits status err r.retry_unsafe plain, m)
finish-Consistent (some finally) (some state) status err r plain m =
    let after = call_finally finally state (resolved_outcome status err r.retry_unsafe) r in
    (
      refl,
      refl,
      resolved_outcome-Fits status _ after.1.retry_unsafe plain,
      whole-Marked err after.0 after.1.retry_unsafe (
          subst (Marked err)
            (call_finally-retry_unsafe finally state (resolved_outcome status err r.retry_unsafe) r)
            m),
    )

-- The body ends with a plain status.
abbrev PlainReply : Reply Status → Type 0
PlainReply reply = Plain (body_status reply)

bind_reply-Plain :
    {A : Type 0} (f : A → M Status)
    → ((a : A) (r : Run) → PlainReply (f a r).0)
    → (reply : Reply A) (r : Run) → PlainReply (bind_reply f reply r).0
unfolding bind_reply
bind_reply-Plain f k (ok a) r = k a r
bind_reply-Plain f k (fail e) r = tt
bind_reply-Plain f k (panics p) r = tt

continue-Plain :
    (rest : M Status)
    → ((r : Run) → PlainReply (rest r).0)
    → (ended : Bool) (r : Run) → PlainReply (continue rest ended r).0
unfolding continue return
continue-Plain rest k true r = tt
continue-Plain rest k false r = k r

run_steps-Plain :
    {State : Type 0} (env : Env) (plan : ChainPlan State) (steps : List (Step State))
    (state : State) (r : Run)
    → PlainReply (run_steps env plan steps state r).0
unfolding run_steps ◌>>=◌ return
run_steps-Plain env plan [] state r = tt
run_steps-Plain env plan (step ∷ rest) state r =
    let after = execute_step env plan step state r in
    bind_reply-Plain (continue (run_steps env plan rest state))
      (continue-Plain (run_steps env plan rest state) (run_steps-Plain env plan rest state)) after.0
      after.1

conclude-Consistent :
    {State : Type 0} (env : Env) (plan : ChainPlan State) (state : Option State)
    (reply : Reply Status) (r : Run)
    → PlainReply reply
    → Consistent (conclude env plan state (reply, r))
unfolding conclude
conclude-Consistent env plan state reply r plain =
    finish-Consistent plan.finally state (body_status reply) _ _ plain (mark_unsafe-Marked _ _)

after_begin-Consistent :
    {State : Type 0} (env : Env) (plan : ChainPlan State) (reply : Reply State) (r : Run)
    → Consistent (after_begin env plan (reply, r))
unfolding after_begin
after_begin-Consistent env plan (ok state) r =
    let body = run_steps env plan plan.steps state r in
    conclude-Consistent env plan (some state) body.0 body.1
      (run_steps-Plain env plan plan.steps state r)
after_begin-Consistent env plan (fail e) r =
    conclude-Consistent env plan none (fail (wrap "async chain begin" e)) r tt
after_begin-Consistent env plan (panics p) r = conclude-Consistent env plan none (panics p) r tt

-- Whatever the hooks, the driver and the handles do, panics included, the run of a chain resolves:
-- the outcome carries the error that the future is resolved with, its status is `failed` exactly if
-- there is one and `completed` or `rejected` otherwise, its mark is the run's, and an error of a run
-- that is unsafe to retry matches `ErrChainRetryUnsafe`.
pub execute-Consistent :
    {State : Type 0} (env : Env) (plan : ChainPlan State) → Consistent (execute env plan)
unfolding execute
execute-Consistent env plan =
    let begun = call_hook HookKind.begin plan.begin tt tt fresh_run in
    after_begin-Consistent env plan begun.0 begun.1
