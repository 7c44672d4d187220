-- ===== src/Chain/Handles.antt =====
-- The steps of asyncengine/scenario.go that take a native handle, and its custody after them.
use Prim.Native.String.{String}
use pit_go.Base.{
  inl, if◌then◌else◌, ℕ, ◌≡◌, refl, ap, ◌∙◌, true, Option, none, some, List, [], ◌∷◌, arith,
}
use pit_go.Errors.{Error}
use pit_go.Chain.Run.{
  report_opened, Handle, log, Call, changes, HookKind, History, Called, Hook, Run, M, throw,
  with_result,
}
use pit_go.Chain.Env.{DriverReply, Env, Report}
use pit_go.Chain.Plan.{Decision, commit, rollback, invalid, Void}
use pit_go.Chain.Steps.{
  finalizer_ended, operation, keep_handle, finalizing, commit_pending, rollback_pending,
  clear_pending, finalize_decision, reply_error, answered, accepted, is_rollback,
}
use pit_go.Chain.Check.{closing_report}
use pit_go.Chain.Keeps.{
  Keeps, Closed, HookClosed, >>-Keeps, return-Keeps, wrapping-Keeps, call_hook-Keeps,
  check_report-Keeps,
}
use pit_go.Chain.StepKeeps.{enter_mutating-Keeps}
use pit_go.Chain.Custody.{
  Custody, clear, broken, held, attempted, commit_handle, roll_back_handle, end_handle, open_handle,
  At, Clean, Covered, clean, holds, tried, same_handle_refl, reply_error-handle,
}
use pit_go.Chain.Steady.{>>=-Leads, >>-Leads, Leads, Steady, Keeps-Steady, StepClosed}

module _ {p : Option Handle} {c : Custody} where
  with_result-At : {A : Type 0} (m : M A) → Keeps (At p c) m → Keeps (At p c) (with_result m)
  unfolding with_result
  with_result-At m k = record {
    run = λ r h.
        let after =
          k.run (record r { result_available = true })
            (record { pending_eq = h.pending_eq; custody_eq = h.custody_eq }) in
        record { pending_eq = after.pending_eq; custody_eq = after.custody_eq };
  }

  pub At-hooks : HookClosed (Unit {0}) (At p c)
  unfolding log
  At-hooks = record {
    hook = λ kind r h. record { pending_eq = h.pending_eq; custody_eq = h.custody_eq };
    nil_hook = λ lax kind r h. record { pending_eq = h.pending_eq; custody_eq = h.custody_eq };
    result = with_result-At;
  }

  closing_report-At :
      {A : Type 0} (env : Env) (report : Report) {body : M A}
      → Keeps (At p c) body
      → Keeps (At p c) (closing_report env report body)
  unfolding closing_report log
  closing_report-At env report {body} k = record {
    run = λ r h.
        let after =
          k.run (log (report_opened report.id) r)
            (record { pending_eq = h.pending_eq; custody_eq = h.custody_eq }) in
        record { pending_eq = after.pending_eq; custody_eq = after.custody_eq };
  }

  At-Closed : Closed (Unit {0}) (At p c)
  unfolding log
  At-Closed = record {
    hooks = At-hooks;
    mutating = λ call r changed h. record { pending_eq = h.pending_eq; custody_eq = h.custody_eq };
    dry_run = λ r h. record { pending_eq = h.pending_eq; custody_eq = h.custody_eq };
    nil_group = λ lax r h. record { pending_eq = h.pending_eq; custody_eq = h.custody_eq };
    report = λ env on_checked state err report given.
        closing_report-At env report
          (check_report-Keeps At-hooks env on_checked state err report (inl tt));
  }

-- A finalizer of `h` was entered; it returns or panics.
finalizer_ended-Leads :
    (h : Handle) (called : Called Void)
    → Leads (At (some h) (attempted h)) (At (some h) clear) Covered (finalizer_ended h called)
unfolding finalizer_ended log
finalizer_ended-Leads h (Called.returned _) = record {
  run = λ r k. record {
    pending_eq = k.pending_eq;
    custody_eq =
        ap (λ c. end_handle c h) k.custody_eq
        ∙ ap (λ b. if b then clear else broken) (same_handle_refl h);
  };
}
finalizer_ended-Leads h (Called.panicked p) = record { run = λ r k. tried h k }

commit_pending-Leads :
    (env : Env) (h : Handle)
    → Leads (At (some h) (held h)) (At (some h) clear) Covered (commit_pending env h)
unfolding commit_pending finalizing log
commit_pending-Leads env h = record {
  run = λ r k. (finalizer_ended-Leads h _).run _ (record {
    pending_eq = k.pending_eq;
    custody_eq =
        ap (λ c. commit_handle c h) k.custody_eq
        ∙ ap (λ b. if b then attempted h else broken) (same_handle_refl h);
  });
}

rollback_pending-Leads :
    (env : Env) (h : Handle)
    → Leads (At (some h) (held h)) (At (some h) clear) Covered (rollback_pending env h)
unfolding rollback_pending finalizing log
rollback_pending-Leads env h = record {
  run = λ r k. (finalizer_ended-Leads h _).run _ (record {
    pending_eq = k.pending_eq;
    custody_eq =
        ap (λ c. roll_back_handle c h) k.custody_eq
        ∙ ap (λ b. if b then attempted h else broken) (same_handle_refl h);
  });
}

clear_pending-Leads : {h : Handle} → Leads (At (some h) clear) Clean Covered clear_pending
unfolding clear_pending
clear_pending-Leads = record {
  run = λ r k. record { pending_eq = refl; custody_eq = k.custody_eq };
}

throw-Leads : {A : Type 0} {K : Run → Type 0} (e : Error) → Leads Clean K Covered (throw {A = A} e)
unfolding throw
throw-Leads e = record { run = λ r k. clean k }

finalize_decision-Leads :
    (env : Env) (decision : Decision) (h : Handle)
    → Leads (At (some h) (held h)) Clean Covered (finalize_decision env decision h)
unfolding finalize_decision
finalize_decision-Leads env commit h = >>-Leads (commit_pending-Leads env h) clear_pending-Leads
finalize_decision-Leads env rollback h = >>-Leads (rollback_pending-Leads env h) clear_pending-Leads
finalize_decision-Leads env (invalid _) h =
    >>-Leads (rollback_pending-Leads env h) (>>-Leads clear_pending-Leads (throw-Leads _))

-- What a driver reply leaves pending.
abbrev Kept : Option Handle → Run → Type 0
Kept none = Clean
Kept (some h) = At (some h) (held h)

Kept-Covered : (handle : Option Handle) (r : Run) → Kept handle r → Covered r
Kept-Covered none r k = clean k
Kept-Covered (some h) r k = holds h k

keep_handle-Leads :
    (handle : Option Handle) → Leads Clean (Kept handle) Covered (keep_handle handle)
unfolding keep_handle log
keep_handle-Leads none = record { run = λ r k. k }
keep_handle-Leads (some h) = record {
  run = λ r k. record { pending_eq = refl; custody_eq = ap (λ c. open_handle c h) k.custody_eq };
}

module _ {State : Type 0} (env : Env) (failure message : String) (kind : HookKind)
    (on_rejected : Hook State (List ℕ) Void) (decide : Hook State Void Decision)
    (state : State) where
  rejected-Leads :
      (handle : Option Handle) (reject : ℕ) (rejects : List ℕ)
      → handle ≡ none
      → Leads
          (Kept handle)
          Clean
          Covered
          (accepted env message kind on_rejected decide state handle (reject ∷ rejects))
  unfolding accepted
  rejected-Leads none reject rejects no_handle =
      Keeps-Steady (λ r k. clean k)
        (>>-Keeps (wrapping-Keeps _ (call_hook-Keeps At-hooks _ on_rejected state _ (inl tt)))
          (return-Keeps true))
  rejected-Leads (some h) reject rejects no_handle = ground arith

  accepted-Leads :
      (handle : Option Handle) (rejects : List ℕ)
      → ((reject : ℕ) (rest : List ℕ) → rejects ≡ reject ∷ rest → handle ≡ none)
      → Leads
          (Kept handle)
          Clean
          Covered
          (accepted env message kind on_rejected decide state handle rejects)
  unfolding accepted
  accepted-Leads handle (reject ∷ rejects) no_handle =
      rejected-Leads handle reject rejects (no_handle reject rejects refl)
  accepted-Leads none [] no_handle = throw-Leads _
  accepted-Leads (some h) [] no_handle =
      >>=-Leads
        (Keeps-Steady (λ r k. holds h k)
          (with_result-At _
            (wrapping-Keeps message (call_hook-Keeps At-hooks kind decide state tt (inl tt)))))
        λ decision.
          >>-Leads (finalize_decision-Leads env decision h)
            (Keeps-Steady (λ r k. clean k) (return-Keeps (is_rollback decision)))

  answered-Leads :
      (d : DriverReply) (err : Option Error)
      → reply_error d ≡ err
      → Leads
          (Kept d.handle)
          Clean
          Covered
          (answered env failure message kind on_rejected decide state d err)
  unfolding answered throw
  answered-Leads d (some e) refused = record { run = Kept-Covered d.handle }
  answered-Leads d none checked =
      accepted-Leads d.handle d.rejects (λ reject rest. reply_error-handle d checked)

  operation-Leads :
      (call : Call) (driver : History → Called DriverReply)
      → changes call ≡ true
      → Steady Clean Covered
          (operation env call driver failure message kind on_rejected decide state)
  unfolding operation
  operation-Leads call driver changed =
      >>=-Leads (Keeps-Steady (λ r k. clean k) (enter_mutating-Keeps At-Closed call _ changed))
        λ d. >>-Leads (keep_handle-Leads d.handle) (answered-Leads d (reply_error d) refl)

pub custody_steps : StepClosed (Unit {0}) Clean Covered
unfolding log
custody_steps = record {
  closed = At-Closed;
  weaken = λ r k. clean k;
  missing_order =
      λ lax r k. clean (record { pending_eq = k.pending_eq; custody_eq = k.custody_eq });
  operation_steady =
      λ env call driver failure message kind on_rejected decide state changed g_rejected g_decide.
        operation-Leads env failure message kind on_rejected decide state call driver changed;
}
