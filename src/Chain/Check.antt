-- ===== src/Chain/Check.antt =====
-- `checkOrder` of asyncengine/scenario.go: the dry run of the source order.
use pit_go.Base.{ℕ, Bool, true, false, Option, none, some, List, []}
use pit_go.Errors.{Error, Sentinel, sentinel, wrap}
use pit_go.Driver.{validate_driver_result}
use pit_go.Chain.Run.{
  Call, HookKind, History, Reply, panics, Called, reply_of, Hook, M, ◌>>=◌, return, throw, wrapping,
  log, enter, call_hook, with_result, report_opened, report_closed, engine_entered, nil_func,
}
use pit_go.Chain.Env.{Report, Env}
use pit_go.Chain.Plan.{or_else, OrderCheck, Void}

-- A panic of `Close` replaces what the body returned.
abbrev pub after_close : {A : Type 0} → Reply A → Called Void → Reply A
after_close reply (Called.returned _) = reply
after_close reply (Called.panicked p) = panics p

-- `defer report.Close()` around a body: `Close` runs however the body ends.
unfoldable pub closing_report : {A : Type 0} → Env → Report → M A → M A
unfolding log
closing_report env report body r =
    let after = body (log (report_opened report.id) r) in
    let closed = log (report_closed report.id) after.1 in
    (after_close after.0 (env.close_report report closed.history), closed)

-- A read of the open report.
unfoldable pub read_report : {A : Type 0} → (History → Reply A) → M A
read_report f r = (f r.history, r)

unfoldable pub list_or_fault : Option (List ℕ) → M (List ℕ)
list_or_fault none = throw (sentinel Sentinel.driver_result)
list_or_fault (some list) = return list

-- The rejects of a check that did not pass; a nil slice is a driver fault.
unfoldable pub check_rejects : Env → Report → Bool → M (List ℕ)
check_rejects env report true = return []
check_rejects env report false =
    wrapping "async chain check order rejects" (read_report (env.rejects_of report))
    >>= list_or_fault

unfoldable pub check_report :
    {State : Type 0} → Env → Hook State OrderCheck Void → State → Option Error → Report → M Void
check_report env on_checked state (some e) report = throw (wrap "async chain check order" e)
check_report env on_checked state none report = do
  passed ← wrapping "async chain check order verdict" (read_report (env.is_pass report))
  rejects ← check_rejects env report passed
  with_result (
      wrapping "async chain checked hook" (
        call_hook HookKind.on_checked on_checked state
          (record { passed = passed; rejects = rejects })))

abbrev has_report : Option Report → Bool
has_report none = false
has_report (some _) = true

abbrev has_live_report : Option Report → Bool
has_live_report none = false
has_live_report (some report) = report.live

unfoldable pub dry_run_error : Option Report → Option Error → Option Error
unfolding validate_driver_result
dry_run_error report err =
    or_else
      (validate_driver_result {Reject = ℕ} (has_report report) (has_live_report report) [] err) err

unfoldable pub checked_reply :
    {State : Type 0}
    → Env
    → Hook State OrderCheck Void
    → State
    → Option Error
    → Option Report
    → M Void
checked_reply env on_checked state err (some report) =
    closing_report env report (check_report env on_checked state err report)
checked_reply env on_checked state (some e) none = throw (wrap "async chain check order" e)
checked_reply env on_checked state none none = λ r. (panics nil_func, r)

unfoldable pub run_check_order :
    {State : Type 0} → Env → Hook State OrderCheck Void → State → M Void
run_check_order env on_checked state = do
  d ← enter (engine_entered Call.execute_dry_run) (λ h. reply_of (env.execute_pre_trade_dry_run h))
  checked_reply env on_checked state (dry_run_error d.report d.err) d.report
