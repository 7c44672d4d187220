-- ===== src/Chain/Settlement.antt =====
-- How a run of a chain of asyncengine/scenario.go ends: the deferred cleanup and the final hook.
use pit_go.Base.{
  ◌≡◌, refl, sym, ap, ◌∙◌, subst, Bool, true, Option, none, some, ◌∷◌, ◌⊎◌, inl, inr, arith,
  if◌then◌else◌,
}
use pit_go.Errors.{Error, wrap, join_errors}
use pit_go.Driver.{is_error_set}
use pit_go.Chain.Run.{
  rolling_back, Handle, log, Status, HookKind, Reply, ok, fail, panics, Called, Hook, Run,
  call_hook, ChainOutcome, History,
}
use pit_go.Chain.Env.{Env}
use pit_go.Chain.Plan.{Void, ChainPlan}
use pit_go.Chain.Steps.{finalizer_ended, finalizing, rollback_pending}
use pit_go.Chain.Task.{
  clean_up_pending, clean_up, finish, conclude, after_begin, execute, run_steps, call_finally,
  fresh_run, mark_unsafe, error_of, body_error, body_status,
}
use pit_go.Chain.Keeps.{call_hook-Keeps}
use pit_go.Chain.Custody.{
  Custody, clear, broken, held, attempted, retried, custody, roll_back_handle, end_handle, Clean,
  Covered, clean, holds, tried, same_handle, same_handle_refl, is_settled,
}
use pit_go.Chain.Steady.{lax-AllGiven, After, After-weaker, run_steps-Steady}
use pit_go.Chain.Handles.{At-hooks, custody_steps}

-- The custody at the end: every handle's finalizer returned, or one panicked and the run failed.
abbrev pub Ends : Option Error → History → Type 0
Ends err h = (custody h ≡ clear) ⊎ ((is_settled (custody h) ≡ true) × (is_error_set err ≡ true))

-- The rollback of the cleanup was entered with custody `c`, which its return clears.
rolled_back-Ends :
    (h : Handle) (called : Called Void) (r : Run)
    → is_settled (custody r.history) ≡ true
    → end_handle (custody r.history) h ≡ clear
    → let after = finalizer_ended h called r in
      Ends (error_of "async chain native cleanup panicked" after.0) after.1.history
unfolding finalizer_ended log
rolled_back-Ends h (Called.returned _) r settled ends = inl ends
rolled_back-Ends h (Called.panicked p) r settled ends = inr (settled, refl)

rollback_pending-Ends :
    (env : Env) (h : Handle) (c : Custody) (r : Run)
    → custody r.history ≡ c
    → is_settled (roll_back_handle c h) ≡ true
    → end_handle (roll_back_handle c h) h ≡ clear
    → let after = rollback_pending env h r in
      Ends (error_of "async chain native cleanup panicked" after.0) after.1.history
unfolding rollback_pending finalizing log
rollback_pending-Ends env h c r at settled ends =
    let now = ap (λ k. roll_back_handle k h) at in
    rolled_back-Ends h (env.rollback_and_close h (rolling_back h ∷ r.history))
      (log (rolling_back h) r) (ap is_settled now ∙ settled) (ap (λ k. end_handle k h) now ∙ ends)

-- A rollback of a handle that is held, or whose finalizer has panicked, is allowed.
roll_back-settles :
    (h : Handle) (after : Custody)
    → is_settled after ≡ true
    → end_handle after h ≡ clear
    → let c = if same_handle h h then after else broken in
      (is_settled c ≡ true) × (end_handle c h ≡ clear)
roll_back-settles h after settled ends =
    let now = ap (λ b. if b then after else broken) (same_handle_refl h) in
    (ap is_settled now ∙ settled, ap (λ k. end_handle k h) now ∙ ends)

ends-clear : (h : Handle) → (if same_handle h h then clear else broken) ≡ clear
ends-clear h = ap (λ b. if b then clear else broken) (same_handle_refl h)

pending-Ends :
    (env : Env) (r : Run) {pending : Option Handle}
    → r.pending ≡ pending
    → Ends (clean_up_pending env pending r).0 (clean_up_pending env pending r).1.history
    → Ends (clean_up env r).0 (clean_up env r).1.history
unfolding clean_up
pending-Ends env r at k =
    subst (λ p. Ends (clean_up_pending env p r).0 (clean_up_pending env p r).1.history) (sym at) k

clean_up-Ends :
    (env : Env) (r : Run) → Covered r → Ends (clean_up env r).0 (clean_up env r).1.history
unfolding clean_up clean_up_pending
clean_up-Ends env r (clean k) = pending-Ends env r k.pending_eq (inl k.custody_eq)
clean_up-Ends env r (holds h k) =
    let (settled, ends) = roll_back-settles h (attempted h) refl (ends-clear h) in
    pending-Ends env r k.pending_eq
      (rollback_pending-Ends env h (held h) r k.custody_eq settled ends)
clean_up-Ends env r (tried h k) =
    let (settled, ends) = roll_back-settles h (retried h) refl (ends-clear h) in
    pending-Ends env r k.pending_eq
      (rollback_pending-Ends env h (attempted h) r k.custody_eq settled ends)

Ends-mono :
    (a b : Option Error) (h : History)
    → (is_error_set a ≡ true → is_error_set b ≡ true)
    → Ends a h
    → Ends b h
Ends-mono a b h f (inl k) = inl k
Ends-mono a b h f (inr (settled, set)) = inr (settled, f set)

mark_unsafe-set :
    (err other : Option Error) (unsafe : Bool)
    → is_error_set other ≡ true
    → is_error_set (mark_unsafe (join_errors err other) unsafe) ≡ true
mark_unsafe-set err other unsafe set = ground arith

join_errors-set :
    (err other : Option Error)
    → is_error_set err ≡ true
    → is_error_set (join_errors err other) ≡ true
join_errors-set err other set = ground arith

finish-Ends :
    {State : Type 0} (finally : Hook State ChainOutcome Void) (state : Option State)
    (status : Status) (err : Option Error) (r : Run)
    → Ends err r.history
    → let res = finish finally state status err r in Ends res.0.1 res.1.history
unfolding finish call_finally log
finish-Ends finally none status err r k = k
finish-Ends none (some state) status err r k = k
finish-Ends (some finally) (some state) status err r k =
    Ends-mono err _ r.history (join_errors-set err _) k

conclude-Ends :
    {State : Type 0} (env : Env) (plan : ChainPlan State) (state : Option State)
    (reply : Reply Status) (r : Run)
    → After Clean Covered reply r
    → let res = conclude env plan state (reply, r) in Ends res.0.1 res.1.history
unfolding conclude
conclude-Ends env plan state reply r k =
    let cleaned = clean_up env r in
    finish-Ends plan.finally state (body_status reply)
      (mark_unsafe (join_errors (body_error reply) cleaned.0) cleaned.1.retry_unsafe) cleaned.1
      (Ends-mono cleaned.0 _ cleaned.1.history
        (mark_unsafe-set (body_error reply) cleaned.0 cleaned.1.retry_unsafe)
        (clean_up-Ends env r (After-weaker (λ r h. clean h) reply r k)))

after_begin-Ends :
    {State : Type 0} (env : Env) (plan : ChainPlan State) (reply : Reply State) (r : Run)
    → Clean r
    → let res = after_begin env plan (reply, r) in Ends res.0.1 res.1.history
unfolding after_begin
after_begin-Ends env plan (ok state) r k =
    let body = run_steps env plan plan.steps state r in
    conclude-Ends env plan (some state) body.0 body.1 (
      (run_steps-Steady custody_steps env plan plan.steps state
          (lax-AllGiven plan plan.steps tt)).run
        r k)
after_begin-Ends env plan (fail e) r k =
    conclude-Ends env plan none (fail (wrap "async chain begin" e)) r (clean k)
after_begin-Ends env plan (panics p) r k = conclude-Ends env plan none (panics p) r (clean k)

-- Whatever the hooks, the driver and the handles do, panics included, a run of a chain takes no
-- second handle while one is pending, commits a handle at most once and before any rollback, and has
-- a finalizer entered for every handle it was given; if the run succeeds, every handle's finalizer
-- has returned.
pub execute-handles_settled :
    {State : Type 0} (env : Env) (plan : ChainPlan State)
    → Ends (execute env plan).0.1 (execute env plan).1.history
unfolding execute
execute-handles_settled env plan =
    let begun = call_hook HookKind.begin plan.begin tt tt fresh_run in
    after_begin-Ends env plan begun.0 begun.1 (
      (call_hook-Keeps At-hooks HookKind.begin plan.begin tt tt (inl tt)).run fresh_run
        (record { pending_eq = refl; custody_eq = refl }))
