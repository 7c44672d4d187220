-- ===== src/Chain/Steps.antt =====
-- The execution of the steps of a chain: the methods of `chainTask` in asyncengine/scenario.go and
-- asyncengine/scenario_admin.go.
use Prim.Native.String.{String}
use pit_go.Base.{ℕ, Bool, true, false, Option, none, some, List, [], ◌∷◌}
use pit_go.Errors.{Error, Sentinel, sentinel, wrap}
use pit_go.Driver.{validate_driver_result}
use pit_go.Chain.Run.{
  Handle, Call, HookKind, History, ok, panics, Called, reply_of, Hook, Run, M, ◌>>=◌, ◌>>◌, return,
  throw, wrapping, log, enter_mutating, call_hook, with_result, opened, committing, rolling_back,
  finalized,
}
use pit_go.Chain.Env.{DriverReply, Env}
use pit_go.Chain.Plan.{or_else, Decision, commit, rollback, invalid, Void}

-- How a call of a finalizer of `h` ends; it may panic.
unfoldable pub finalizer_ended : Handle → Called Void → M Void
unfolding log
finalizer_ended h (Called.returned _) r = (ok tt, log (finalized h) r)
finalizer_ended h (Called.panicked p) r = (panics p, r)

unfoldable pub finalizing : Handle → (Run → Run) → (History → Called Void) → M Void
unfolding finalizer_ended
finalizing h start f r = finalizer_ended h (f (start r).history) (start r)

unfoldable pub commit_pending : Env → Handle → M Void
unfolding finalizing log
commit_pending env h = finalizing h (log (committing h)) (env.commit_and_close h)

unfoldable pub rollback_pending : Env → Handle → M Void
unfolding finalizing log
rollback_pending env h = finalizing h (log (rolling_back h)) (env.rollback_and_close h)

-- `*pending = nil`.
unfoldable pub clear_pending : M Void
clear_pending r = (ok tt, record r { pending = none })

-- `if handle != nil { *pending = … }` on what the driver returned.
unfoldable pub keep_handle : Option Handle → M Void
unfolding log
keep_handle none r = (ok tt, r)
keep_handle (some h) r = (ok tt, log (opened h) (record r { pending = some h }))

-- `finalizeDecision` on the handle that is pending, and the reset of `*pending` after it returned.
unfoldable pub finalize_decision : Env → Decision → Handle → M Void
unfolding commit_pending rollback_pending clear_pending
finalize_decision env commit h = do commit_pending env h; clear_pending
finalize_decision env rollback h = do rollback_pending env h; clear_pending
finalize_decision env (invalid _) h = do
  rollback_pending env h
  clear_pending
  throw (sentinel Sentinel.chain_invalid_decision)

abbrev pub has_handle : Option Handle → Bool
has_handle none = false
has_handle (some _) = true

abbrev pub has_live_handle : Option Handle → Bool
has_live_handle none = false
has_live_handle (some h) = h.live

-- The error of a driver reply: that of its shape, else its own.
unfoldable pub reply_error : DriverReply → Option Error
unfolding validate_driver_result
reply_error d =
    or_else
      (validate_driver_result (has_handle d.handle) (has_live_handle d.handle) d.rejects d.err)
      d.err

abbrev pub is_rollback : Decision → Bool
is_rollback rollback = true
is_rollback _ = false

-- What follows a driver reply without error: the hook for rejects, or the hook that decides.
unfoldable pub accepted :
    {State : Type 0}
    → Env
    → String
    → HookKind
    → Hook State (List ℕ) Void
    → Hook State Void Decision
    → State
    → Option Handle
    → List ℕ
    → M Bool
unfolding finalize_decision
accepted env message kind on_rejected decide state handle (reject ∷ rejects) = do
  wrapping "async chain reject hook"
      (call_hook HookKind.on_rejected on_rejected state (reject ∷ rejects))
  return true
accepted env message kind on_rejected decide state none [] = throw (sentinel Sentinel.driver_result)
accepted env message kind on_rejected decide state (some h) [] = do
  decision ← with_result (wrapping message (call_hook kind decide state tt))
  finalize_decision env decision h
  return (is_rollback decision)

unfoldable pub answered :
    {State : Type 0}
    → Env
    → String
    → String
    → HookKind
    → Hook State (List ℕ) Void
    → Hook State Void Decision
    → State
    → DriverReply
    → Option Error
    → M Bool
unfolding accepted
answered env failure message kind on_rejected decide state d (some e) = throw (wrap failure e)
answered env failure message kind on_rejected decide state d none =
    accepted env message kind on_rejected decide state d.handle d.rejects

-- `executePreTrade` and `applyDropCopy`, which differ in the driver call, the hook and the messages.
unfoldable pub operation :
    {State : Type 0}
    → Env
    → Call
    → (History → Called DriverReply)
    → String
    → String
    → HookKind
    → Hook State (List ℕ) Void
    → Hook State Void Decision
    → State
    → M Bool
unfolding keep_handle reply_error answered
operation env call driver failure message kind on_rejected decide state = do
  d ← enter_mutating call (λ h. reply_of (driver h))
  keep_handle d.handle
  answered env failure message kind on_rejected decide state d (reply_error d)

unfoldable pub execute_pre_trade :
    {State : Type 0} → Env → Hook State (List ℕ) Void → Hook State Void Decision → State → M Bool
unfolding operation
execute_pre_trade env on_rejected on_reserved =
    operation env Call.execute_pre_trade env.execute_pre_trade "async chain execute pre-trade"
      "async chain reserved hook" HookKind.on_reserved on_rejected on_reserved

unfoldable pub apply_drop_copy :
    {State : Type 0} → Env → Hook State (List ℕ) Void → Hook State Void Decision → State → M Bool
unfolding operation
apply_drop_copy env on_rejected on_applied =
    operation env Call.apply_drop_copy env.apply_drop_copy "async chain apply drop copy"
      "async chain applied hook" HookKind.on_applied on_rejected on_applied
