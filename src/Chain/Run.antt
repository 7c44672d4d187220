-- ===== src/Chain/Run.antt =====
-- The environment of a chain of asyncengine/scenario.go and the state of its run. The driver, the
-- hooks and the native handles are code outside the chain, so each is a function from the history of
-- the run, the newest event first, to its reply: they may keep any state and answer anything.
-- Reports, adjustments and driver results are opaque values.
use Prim.Native.String.{String}
use pit_go.Base.{ℕ, Bool, true, false, Option, none, some, List, ◌∷◌, if◌then◌else◌}
use pit_go.Errors.{Error, Recovered, Sentinel, sentinel, wrap, other_value}

-- `pendingFinalizer`: a reservation or a drop-copy operation, and whether its native handle is live.
pub data HandleKind : Type 0 where
  reservation drop_copy : HandleKind

pub record Handle : Type 0 where
  pub kind : HandleKind
  pub id : ℕ
  pub live : Bool

-- The driver calls of the steps.
pub data Call : Type 0 where
  execute_pre_trade apply_drop_copy execute_dry_run apply_execution_report : Call
  apply_account_adjustment block unblock block_group unblock_group : Call
  set_currency clear_currency set_spot_funds_account_pnl : Call

-- The calls before which `retryUnsafe` is set.
abbrev pub changes : Call → Bool
changes execute_dry_run = false
changes _ = true

pub data HookKind : Type 0 where
  begin then_hook on_rejected on_reserved on_applied on_checked report_input on_settled : HookKind
  adjustments_input on_adjusted reason_input on_blocked on_unblocked currency_input : HookKind
  on_set on_cleared assignment_input on_pnl_set : HookKind

-- `ChainOutcomeStatus` and `ChainOutcome`.
pub data Status : Type 0 where
  unknown completed rejected failed : Status

pub record ChainOutcome : Type 0 where
  pub status : Status
  pub err : Option Error
  pub retry_unsafe : Bool

-- What happens in a run that the chain does not keep to itself.
pub data Event : Type 0 where
  hook_entered : HookKind → Event
  nil_called : HookKind → Event
  nil_dereferenced : Event  -- after `retryUnsafe` was set
  nil_order : Event  -- before it
  engine_entered : Call → Event
  opened : Handle → Event
  committing : Handle → Event  -- `CommitAndClose` is called
  rolling_back : Handle → Event  -- `RollbackAndClose` is called
  finalized : Handle → Event  -- the call has returned
  report_opened : ℕ → Event
  report_closed : ℕ → Event
  finally_entered : ChainOutcome → Event

abbrev pub History : Type 0
History = List Event

-- How a call returns: with a value, with an error, or by a panic.
pub data Reply (A : Type 0) : Type 0 where
  ok : A → Reply A
  fail : Error → Reply A
  panics : Recovered → Reply A

-- How a call returns that has no error of its own.
pub data Called (A : Type 0) : Type 0 where
  returned : A → Called A
  panicked : Recovered → Called A

abbrev pub reply_of : {A : Type 0} → Called A → Reply A
reply_of (returned a) = ok a
reply_of (panicked p) = panics p

-- A hook, with the caller's state and what it is told; a nil func is `none`.
abbrev pub Hook : Type 0 → Type 0 → Type 0 → Type 0
Hook State P A = Option (State → P → History → Reply A)

-- The variables of `chainTask.execute` and `chainTask.retryUnsafe`; `result_available` is the
-- `available` flag of the operation result that a hook holds.
pub record Run : Type 0 where
  pub history : History
  pub pending : Option Handle
  pub retry_unsafe : Bool
  pub result_available : Bool

abbrev pub M : Type 0 → Type 0
M A = Run → Reply A × Run

unfoldable pub bind_reply : {A B : Type 0} → (A → M B) → Reply A → Run → Reply B × Run
bind_reply f (ok a) r = f a r
bind_reply f (fail e) r = (fail e, r)
bind_reply f (panics p) r = (panics p, r)

infixl 5 ◌>>=◌ ◌>>◌
unfoldable pub ◌>>=◌ : {A B : Type 0} → M A → (A → M B) → M B
unfolding bind_reply
◌>>=◌ m f r = bind_reply f (m r).0 (m r).1

unfoldable pub ◌>>◌ : {A B : Type 0} → M A → M B → M B
unfolding ◌>>=◌
m >> k = m >>= λ _. k

unfoldable pub return : {A : Type 0} → A → M A
return a r = (ok a, r)

unfoldable pub throw : {A : Type 0} → Error → M A
throw e r = (fail e, r)

abbrev pub wrap_reply : {A : Type 0} → String → Reply A → Reply A
wrap_reply message (ok a) = ok a
wrap_reply message (fail e) = fail (wrap message e)
wrap_reply message (panics p) = panics p

-- `fmt.Errorf("…: %w", err)` on the error of a call.
unfoldable pub wrapping : {A : Type 0} → String → M A → M A
wrapping message m r = (wrap_reply message (m r).0, (m r).1)

unfoldable pub log : Event → Run → Run
log e r = record r { history = e ∷ r.history }

-- A call out of the chain, entered with an event.
unfoldable pub enter : {A : Type 0} → Event → (History → Reply A) → M A
unfolding log
enter e f r = (f (e ∷ r.history), log e r)

-- `t.retryUnsafe = true`, then the driver call that can change state.
unfoldable pub enter_mutating : {A : Type 0} → Call → (History → Reply A) → M A
unfolding enter
enter_mutating call f r = enter (engine_entered call) f (record r { retry_unsafe = true })

abbrev pub nil_func : Recovered
nil_func = other_value "invalid memory address or nil pointer dereference"

-- A call of a hook; to call a nil func panics.
unfoldable pub call_hook : {State P A : Type 0} → HookKind → Hook State P A → State → P → M A
unfolding log enter
call_hook kind none state p r = (panics nil_func, log (nil_called kind) r)
call_hook kind (some f) state p r = enter (hook_entered kind) (f state p) r

-- A hook that gets an operation result: the result is invalidated when the hook returns or panics.
unfoldable pub with_result : {A : Type 0} → M A → M A
with_result m r =
    let after = m (record r { result_available = true }) in
    (after.0, record (after.1) { result_available = false })

-- A read of the operation result: `Lock`, `AccountAdjustments`, `AccountBlock`.
unfoldable pub read_result : {A : Type 0} → (History → Reply A) → M A
read_result f r =
    if r.result_available
    then (f r.history, r)
    else (fail (sentinel Sentinel.chain_result_unavailable), r)

-- Unfolded for the monad's operations together.
unfoldable pub monad_operations : Unit {0}
unfolding ◌>>=◌ ◌>>◌ return throw wrapping log enter enter_mutating call_hook with_result
monad_operations = tt
