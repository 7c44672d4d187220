-- ===== src/Examples/EngineRuns.antt =====
-- Operations of asyncengine/engine.go on a driver that counts its calls, and a request of
-- asyncengine/request.go that is executed twice and closed.
use pit_go.Base.{ℕ, zero, suc, ◌≡◌, refl, ◌↔◌, true, Option, none, some, List, [], ◌∷◌}
use pit_go.Errors.{Error, sentinel, Sentinel}
use pit_go.Routing.{account_routing_key, group_routing_key}
use pit_go.Chain.Run.{Handle, reservation}
use pit_go.Operations.Calls.{Driver, Operation, block, block_group, method, routed}
use pit_go.Operations.Routes.{subject, same_key_iff}
use pit_go.Operations.Request.{Call, executes, closes, run, new_request}
use pit_go.Operations.Request as Request
use pit_go.Operations.Requests.{AllAccounted, Over, taken_all, request-settled}

-- It refuses to block group 0.
abbrev refusal : ℕ → Option Error
refusal zero = some (sentinel Sentinel.uninitialized_account_group_id)
refusal (suc n) = none

abbrev counting : Driver
counting = record {
  State = ℕ;
  apply_execution_report = λ report n. (n, none, suc n);
  apply_account_adjustment = λ account adjustments n. (n, none, suc n);
  group_of = λ account n. (none, suc n);
  block = λ account reason n. suc n;
  block_with_cause = λ account cause n. (none, suc n);
  unblock = λ account n. suc n;
  unblock_all = λ n. suc n;
  replace_block_reason = λ account reason n. (none, suc n);
  block_group = λ g reason n. (refusal g, suc n);
  unblock_group = λ g n. (refusal g, suc n);
  replace_group_block_reason = λ g reason n. (refusal g, suc n);
}

abbrev account_seven : Operation counting
account_seven = block 7 "late"

abbrev group_seven : Operation counting
group_seven = block_group (record { id = 7; initialized = true }) "late"

same_key_iff_example :
    (account_routing_key 7 ≡ group_routing_key 7)
    ↔ (subject counting account_seven ≡ subject counting group_seven)
unfolding routed method
same_key_iff_example =
    same_key_iff counting account_seven group_seven (account_routing_key 7) (group_routing_key 7)
      refl refl

abbrev given : Handle
given = record { kind = reservation; id = 4; live = true }

abbrev first : Call
first = executes (Request.ran (record { handle = some given; rejects = []; err = none }))

abbrev later : List Call
later = first ∷ closes (Request.aborted (sentinel Sentinel.stopped)) ∷ []

request-settled_example :
    AllAccounted (taken_all (first ∷ later) true) (run (first ∷ later) new_request).0
    × Over (run (first ∷ later) new_request).1
request-settled_example = request-settled first later
