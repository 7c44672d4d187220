-- ===== src/Chain/Admission.antt =====
-- Which chains of asyncengine/scenario.go are admitted: an independent description of `validate`.
use pit_go.Base.{
  ◌≡◌, refl, ◌∙◌, Bool, true, false, not, ◌&&◌, Option, none, some, List, [], ◌∷◌, arith,
}
use pit_go.Errors.{Error}
use pit_go.Chain.Plan.{
  Step, then_step, pre_trade, drop_copy_step, check_order, execution_report, account_adjustment,
  block_account, unblock_account, block_account_group, unblock_account_group, set_account_currency,
  clear_account_currency, set_account_pnl, SourceKind, account_source, order_source,
  account_group_source, validate_step, validate_steps, is_nil, or_else,
}

-- Every hook of a step is set.
abbrev pub hooks_set : {State : Type 0} → Step State → Bool
hooks_set (then_step fn) = not (is_nil fn)
hooks_set (pre_trade a b) = not (is_nil a) && not (is_nil b)
hooks_set (drop_copy_step a b) = not (is_nil a) && not (is_nil b)
hooks_set (check_order a) = not (is_nil a)
hooks_set (execution_report a b) = not (is_nil a) && not (is_nil b)
hooks_set (account_adjustment a b) = not (is_nil a) && not (is_nil b)
hooks_set (block_account a b) = not (is_nil a) && not (is_nil b)
hooks_set (unblock_account a) = not (is_nil a)
hooks_set (block_account_group a b) = not (is_nil a) && not (is_nil b)
hooks_set (unblock_account_group a) = not (is_nil a)
hooks_set (set_account_currency a b) = not (is_nil a) && not (is_nil b)
hooks_set (clear_account_currency a) = not (is_nil a)
hooks_set (set_account_pnl a b) = not (is_nil a) && not (is_nil b)

pub data Needs : Type 0 where
  anything an_order an_account a_group : Needs

-- What the source of a chain must provide for a step.
abbrev pub needs : {State : Type 0} → Step State → Needs
needs (then_step _) = anything
needs (pre_trade _ _) = an_order
needs (drop_copy_step _ _) = an_order
needs (check_order _) = an_order
needs (block_account_group _ _) = a_group
needs (unblock_account_group _) = a_group
needs _ = an_account

-- An order names an account.
abbrev pub provides : SourceKind → Needs → Bool
provides _ anything = true
provides order_source an_order = true
provides order_source an_account = true
provides account_source an_account = true
provides account_group_source a_group = true
provides _ _ = false

abbrev pub ready : {State : Type 0} → SourceKind → Step State → Bool
ready kind step = provides kind (needs step) && hooks_set step

abbrev pub all_ready : {State : Type 0} → SourceKind → List (Step State) → Bool
all_ready kind [] = true
all_ready kind (step ∷ rest) = ready kind step && all_ready kind rest

validate_step-ready :
    {State : Type 0} (step : Step State) (kind : SourceKind)
    → is_nil (validate_step step kind) ≡ ready kind step
unfolding validate_step
validate_step-ready (then_step fn) kind = ground arith
validate_step-ready (pre_trade a b) kind = ground arith
validate_step-ready (drop_copy_step a b) kind = ground arith
validate_step-ready (check_order a) kind = ground arith
validate_step-ready (execution_report a b) kind = ground arith
validate_step-ready (account_adjustment a b) kind = ground arith
validate_step-ready (block_account a b) kind = ground arith
validate_step-ready (unblock_account a) kind = ground arith
validate_step-ready (block_account_group a b) kind = ground arith
validate_step-ready (unblock_account_group a) kind = ground arith
validate_step-ready (set_account_currency a b) kind = ground arith
validate_step-ready (clear_account_currency a) kind = ground arith
validate_step-ready (set_account_pnl a b) kind = ground arith

is_nil-or_else : (a b : Option Error) → is_nil (or_else a b) ≡ (is_nil a && is_nil b)
is_nil-or_else none b = refl
is_nil-or_else (some e) b = refl

pub validate_steps-ready :
    {State : Type 0} (steps : List (Step State)) (kind : SourceKind)
    → is_nil (validate_steps steps kind) ≡ all_ready kind steps
unfolding validate_steps
validate_steps-ready [] kind = refl
validate_steps-ready (step ∷ rest) kind =
    is_nil-or_else (validate_step step kind) (validate_steps rest kind)
    ∙ simp (validate_step-ready step kind, validate_steps-ready rest kind)
