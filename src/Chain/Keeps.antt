-- ===== src/Chain/Keeps.antt =====
-- Invariants of a run of a chain of asyncengine/scenario.go: the rules by which a step keeps one.
use Prim.Native.String.{String}
use pit_go.Base.{
  ℕ, ◌≡◌, Bool, true, false, Option, none, some, List, [], ◌==◌, arith, ◌⊎◌, Bool-cases, inl, inr,
}
use pit_go.Errors.{Error}
use pit_go.Chain.Run.{
  Call, changes, HookKind, History, Reply, ok, fail, panics, Hook, Run, M, bind_reply, ◌>>=◌, ◌>>◌,
  return, throw, wrapping, log, enter, call_hook, with_result, hook_entered, nil_called,
  nil_dereferenced, engine_entered,
}
use pit_go.Chain.Env.{Report, Env}
use pit_go.Chain.Plan.{is_nil, Void, OrderCheck, Result, valid, refused}
use pit_go.Chain.Check.{closing_report, check_report, check_rejects, read_report, list_or_fault}
use pit_go.Chain.Apply.{check_account}

-- However the call returns, the invariant holds after it.
pub record Keeps {A : Type 0} (I : Run → Type 0) (m : M A) : Type 0 where
  pub run : (r : Run) → I r → I (m r).1

-- A hook, an order or a group is there, or it does not matter.
abbrev pub Given {ℓ} : {A : Type ℓ} → Type 0 → Option A → Type 0
Given Lax a = Lax ⊎ (is_nil a ≡ false)

-- `Lax` says that a missing hook, order or group does not matter.
-- Hooks, and operation results handed to them, do not disturb the invariant.
pub record HookClosed (Lax : Type 0) (I : Run → Type 0) : Type 1 where
  pub hook : (kind : HookKind) (r : Run) → I r → I (log (hook_entered kind) r)
  pub nil_hook : Lax → (kind : HookKind) (r : Run) → I r → I (log (nil_called kind) r)
  pub result : {A : Type 0} (m : M A) → Keeps I m → Keeps I (with_result m)

-- Nor do driver calls, the dry run included.
pub record Closed (Lax : Type 0) (I : Run → Type 0) : Type 1 where
  pub hooks : HookClosed Lax I
  pub mutating :
      (call : Call) (r : Run)
      → changes call ≡ true
      → I r
      → I (log (engine_entered call) (record r { retry_unsafe = true }))
  pub dry_run : (r : Run) → I r → I (log (engine_entered Call.execute_dry_run) r)
  pub nil_group :
      Lax → (r : Run) → I r → I (log nil_dereferenced (record r { retry_unsafe = true }))
  pub report :
      {State : Type 0} (env : Env) (on_checked : Hook State OrderCheck Void) (state : State)
      (err : Option Error) (report : Report)
      → Given Lax on_checked
      → Keeps I (closing_report env report (check_report env on_checked state err report))

module _ {I : Run → Type 0} where
  pub return-Keeps : {A : Type 0} (a : A) → Keeps I (return a)
  unfolding return
  return-Keeps a = record { run = λ r h. h }

  pub throw-Keeps : {A : Type 0} (e : Error) → Keeps I (throw {A = A} e)
  unfolding throw
  throw-Keeps e = record { run = λ r h. h }

  bind_reply-Keeps :
      {A B : Type 0} (f : A → M B)
      → ((a : A) → Keeps I (f a))
      → (reply : Reply A) (r : Run) → I r
      → I (bind_reply f reply r).1
  unfolding bind_reply
  bind_reply-Keeps f k (ok a) r h = (k a).run r h
  bind_reply-Keeps f k (fail e) r h = h
  bind_reply-Keeps f k (panics p) r h = h

  pub >>=-Keeps :
      {A B : Type 0} {m : M A} {f : A → M B}
      → Keeps I m
      → ((a : A) → Keeps I (f a))
      → Keeps I (m >>= f)
  unfolding ◌>>=◌
  >>=-Keeps {m} {f} k l = record { run = λ r h. bind_reply-Keeps f l (m r).0 (m r).1 (k.run r h) }

  pub >>-Keeps : {A B : Type 0} {m : M A} {n : M B} → Keeps I m → Keeps I n → Keeps I (m >> n)
  unfolding ◌>>◌
  >>-Keeps k l = >>=-Keeps k (λ _. l)

  pub wrapping-Keeps :
      {A : Type 0} (message : String) {m : M A} → Keeps I m → Keeps I (wrapping message m)
  unfolding wrapping
  wrapping-Keeps message k = record { run = λ r h. k.run r h }

  pub read_report-Keeps : {A : Type 0} (f : History → Reply A) → Keeps I (read_report f)
  unfolding read_report
  read_report-Keeps f = record { run = λ r h. h }

  pub list_or_fault-Keeps : (list : Option (List ℕ)) → Keeps I (list_or_fault list)
  unfolding list_or_fault
  list_or_fault-Keeps none = throw-Keeps _
  list_or_fault-Keeps (some list) = return-Keeps list

  pub check_account-Keeps : (account : ℕ) (id : Result ℕ) → Keeps I (check_account account id)
  unfolding check_account
  check_account-Keeps account (refused e) = throw-Keeps e
  check_account-Keeps account (valid id) = elim (Bool-cases (id == account)) [
    | inl same ↦ rw same (return-Keeps tt)
    | inr other ↦ rw other (throw-Keeps _)
  ]

module _ {Lax : Type 0} {I : Run → Type 0} (c : HookClosed Lax I) where
  pub call_hook-Keeps :
      {State P A : Type 0} (kind : HookKind) (hook : Hook State P A) (state : State) (p : P)
      → Given Lax hook
      → Keeps I (call_hook kind hook state p)
  unfolding call_hook enter
  call_hook-Keeps kind none state p (inl lax) = record { run = c.nil_hook lax kind }
  call_hook-Keeps kind none state p (inr given) = ground (arith, given)
  call_hook-Keeps kind (some f) state p given = record { run = c.hook kind }

  pub check_rejects-Keeps :
      (env : Env) (report : Report) (passed : Bool) → Keeps I (check_rejects env report passed)
  unfolding check_rejects
  check_rejects-Keeps env report true = return-Keeps []
  check_rejects-Keeps env report false =
      >>=-Keeps (wrapping-Keeps _ (read_report-Keeps (env.rejects_of report))) list_or_fault-Keeps

  pub check_report-Keeps :
      {State : Type 0} (env : Env) (on_checked : Hook State OrderCheck Void) (state : State)
      (err : Option Error) (report : Report)
      → Given Lax on_checked
      → Keeps I (check_report env on_checked state err report)
  unfolding check_report
  check_report-Keeps env on_checked state (some e) report given = throw-Keeps _
  check_report-Keeps env on_checked state none report given =
      >>=-Keeps (wrapping-Keeps _ (read_report-Keeps (env.is_pass report))) λ passed.
        >>=-Keeps (check_rejects-Keeps env report passed)
          λ rejects. c.result _ (wrapping-Keeps _ (call_hook-Keeps _ on_checked state _ given))
