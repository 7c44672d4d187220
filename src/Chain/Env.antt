-- ===== src/Chain/Env.antt =====
-- The driver and the native handles that a chain of asyncengine/scenario.go calls: the interface
-- `Driver` of asyncengine/driver.go, restricted to the calls that chains make.
use pit_go.Base.{ℕ, Bool, Option, List}
use pit_go.Errors.{Error}
use pit_go.Chain.Run.{Handle, History, Reply, Called}

-- What `ExecutePreTrade` and `ApplyDropCopy` return.
pub record DriverReply : Type 0 where
  pub handle : Option Handle
  pub rejects : List ℕ
  pub err : Option Error

-- A dry-run report and whether it is live.
pub record Report : Type 0 where
  pub id : ℕ
  pub live : Bool

pub record DryRunReply : Type 0 where
  pub report : Option Report
  pub err : Option Error

-- An execution report: its operation, if set, with the account, if set.
pub record ExecutionReport : Type 0 where
  pub operation : Option (Option ℕ)
  pub content : ℕ

pub record Env : Type 0 where
  pub execute_pre_trade : History → Called DriverReply
  pub apply_drop_copy : History → Called DriverReply
  pub execute_pre_trade_dry_run : History → Called DryRunReply
  pub is_pass : Report → History → Reply Bool
  -- A nil slice is `none`.
  pub rejects_of : Report → History → Reply (Option (List ℕ))
  pub apply_execution_report : ExecutionReport → History → Reply ℕ
  pub apply_account_adjustment : ℕ → List ℕ → History → Reply ℕ
  pub block : ℕ → ℕ → History → Called (Unit {0})
  pub unblock : ℕ → History → Called (Unit {0})
  pub block_group : ℕ → ℕ → History → Reply (Unit {0})
  pub unblock_group : ℕ → History → Reply (Unit {0})
  pub set_currency : ℕ → ℕ → History → Reply (Unit {0})
  pub clear_currency : ℕ → History → Called (Unit {0})
  pub set_spot_funds_account_pnl : ℕ → ℕ → History → Reply ℕ
  -- `CommitAndClose`, `RollbackAndClose` and the report's `Close`.
  pub commit_and_close : Handle → History → Called (Unit {0})
  pub rollback_and_close : Handle → History → Called (Unit {0})
  pub close_report : Report → History → Called (Unit {0})
