-- ===== src/Operations/Routes.antt =====
-- The routing keys of the operations of asyncengine/engine.go, and what an operation does that no worker runs.
-- A Dynamic engine has a lane for each key; a Sharded one may put several keys on one.
use pit_go.Base.{
  ℕ, ◌≡◌, refl, sym, ap, ◌∙◌, ◌↔◌, Bool, true, false, Option, none, some, inl, inr, ◌⊎◌,
}
use pit_go.Errors.{Error}
use pit_go.Routing.{RoutingKey, account_routing_key, group_routing_key, engine_wide_routing_key}
use pit_go.Chain.Plan.{
  AccountGroupId, Result, valid, refused, extract_account_id, validate_account_group_id,
}
use pit_go.Operations.Calls.{
  Driver, Operation, apply_execution_report, apply_account_adjustment, submit, group_of, unblock,
  block, replace_block_reason, block_with_cause, unblock_all, block_group,
  replace_group_block_reason, unblock_group, method, routed, group_key, account_key, Fate,
  not_submitted, aborted, ran, follow_fate, perform_on, perform, run_task, resolve_error,
}

-- What an operation is about.
pub data Subject : Type 0 where
  one_account : ℕ → Subject
  one_group : ℕ → Subject
  whole_engine : Subject

abbrev reported : Option (Option ℕ) → Option Subject
reported (some (some id)) = some (one_account id)
reported _ = none

abbrev grouped : AccountGroupId → Option Subject
grouped g = elim g.initialized [ true ↦ some (one_group g.id) | false ↦ none ]

-- `none` for a report without an account and a group that is not initialized.
abbrev pub subject : (driver : Driver) → Operation driver → Option Subject
subject driver (apply_execution_report report) = reported report.operation
subject driver (apply_account_adjustment id _) = some (one_account id)
subject driver (submit id _) = some (one_account id)
subject driver (group_of id) = some (one_account id)
subject driver (unblock id) = some (one_account id)
subject driver (block id _) = some (one_account id)
subject driver (replace_block_reason id _) = some (one_account id)
subject driver (block_with_cause id _) = some (one_account id)
subject driver unblock_all = some whole_engine
subject driver (block_group g _) = grouped g
subject driver (replace_group_block_reason g _) = grouped g
subject driver (unblock_group g) = grouped g

abbrev key_of : Subject → RoutingKey
key_of (one_account id) = account_routing_key id
key_of (one_group id) = group_routing_key id
key_of whole_engine = engine_wide_routing_key

key_of-inj : (a b : Subject) → key_of a ≡ key_of b → a ≡ b
key_of-inj (one_account a) (one_account b) h = cc
key_of-inj (one_account a) (one_group b) h = cc
key_of-inj (one_account a) whole_engine h = cc
key_of-inj (one_group a) (one_account b) h = cc
key_of-inj (one_group a) (one_group b) h = cc
key_of-inj (one_group a) whole_engine h = cc
key_of-inj whole_engine (one_account b) h = cc
key_of-inj whole_engine (one_group b) h = cc
key_of-inj whole_engine whole_engine h = refl

-- The key of a subject, if there is one.
abbrev Keyed : Option Subject → Result RoutingKey → Type 0
Keyed none (valid k) = ⊥
Keyed none (refused e) = Unit {0}
Keyed (some a) (valid k) = k ≡ key_of a
Keyed (some a) (refused e) = ⊥

grouped-Keyed :
    (driver : Driver) (id : ℕ) (known : Bool)
    → Keyed (grouped (record { id = id; initialized = known })) (
        group_key driver
          (record { id = id; initialized = known })
          (validate_account_group_id (record { id = id; initialized = known })))
grouped-Keyed driver id true = refl
grouped-Keyed driver id false = tt

reported-Keyed :
    (driver : Driver) (operation : Option (Option ℕ))
    → Keyed (reported operation) (account_key driver (extract_account_id operation))
unfolding extract_account_id
reported-Keyed driver none = tt
reported-Keyed driver (some none) = tt
reported-Keyed driver (some (some id)) = refl

routed-Keyed :
    (driver : Driver) (op : Operation driver) → Keyed (subject driver op) (routed driver op)
unfolding routed method
routed-Keyed driver (apply_execution_report report) = reported-Keyed driver report.operation
routed-Keyed driver (apply_account_adjustment id _) = refl
routed-Keyed driver (submit id _) = refl
routed-Keyed driver (group_of id) = refl
routed-Keyed driver (unblock id) = refl
routed-Keyed driver (block id _) = refl
routed-Keyed driver (replace_block_reason id _) = refl
routed-Keyed driver (block_with_cause id _) = refl
routed-Keyed driver unblock_all = refl
routed-Keyed driver (block_group g _) = grouped-Keyed driver g.id g.initialized
routed-Keyed driver (replace_group_block_reason g _) = grouped-Keyed driver g.id g.initialized
routed-Keyed driver (unblock_group g) = grouped-Keyed driver g.id g.initialized

Keyed-valid :
    (o : Option Subject) (r : Result RoutingKey) (k : RoutingKey)
    → Keyed o r
    → r ≡ valid k
    → (a : Subject) × (o ≡ some a) × (k ≡ key_of a)
Keyed-valid none (valid j) k h at = elim h [ ]
Keyed-valid none (refused e) k h at = cc
Keyed-valid (some a) (valid j) k h at = (a, refl, cc)
Keyed-valid (some a) (refused e) k h at = elim h [ ]

-- Two operations that have a routing key have the same one exactly if they are about the same account, the
-- same group, or both about the whole engine.
pub same_key_iff :
    (driver : Driver) (a b : Operation driver) (j k : RoutingKey)
    → routed driver a ≡ valid j
    → routed driver b ≡ valid k
    → (j ≡ k) ↔ (subject driver a ≡ subject driver b)
same_key_iff driver a b j k at_a at_b =
    let (x, sx, jx) =
      Keyed-valid (subject driver a) (routed driver a) j (routed-Keyed driver a) at_a in
    let (y, sy, ky) =
      Keyed-valid (subject driver b) (routed driver b) k (routed-Keyed driver b) at_b in
    (
      (λ h. sx ∙ ap (λ s. some s) (key_of-inj x y (sym jx ∙ h ∙ ky)) ∙ sym sy),
      (λ h. cc (sx, sy, jx, ky, h)),
    )

fate_lem :
    (driver : Driver) (op : Operation driver) (lanes : RoutingKey → Fate) (s : driver.State)
    (k : RoutingKey) (fate : Fate)
    → lanes k ≡ fate
    → ((j : RoutingKey) × (Path (Result RoutingKey) (valid k) (valid j))
        × (lanes j ≡ ran)
        × (follow_fate driver op fate s ≡ run_task driver op s))
      ⊎ ((e : Error) × ((follow_fate driver op fate s).0.err ≡ some e)
          × ((follow_fate driver op fate s).1 ≡ s))
unfolding resolve_error
fate_lem driver op lanes s k (not_submitted e) h = inr (e, refl, refl)
fate_lem driver op lanes s k (aborted e) h = inr (e, refl, refl)
fate_lem driver op lanes s k ran h = inl (k, refl, h, refl)

followed :
    (driver : Driver) (op : Operation driver) (lanes : RoutingKey → Fate) (s : driver.State)
    (r : Result RoutingKey)
    → ((k : RoutingKey) × (r ≡ valid k)
        × (lanes k ≡ ran)
        × (perform_on driver op r lanes s ≡ run_task driver op s))
      ⊎ ((e : Error) × ((perform_on driver op r lanes s).0.err ≡ some e)
          × ((perform_on driver op r lanes s).1 ≡ s))
unfolding resolve_error
followed driver op lanes s (refused e) = inr (e, refl, refl)
followed driver op lanes s (valid k) = fate_lem driver op lanes s k (lanes k) refl

-- Either a worker of the operation's lane ran its task, and the future has the driver's answer, or the
-- future has an error and nothing was called on the driver.
perform_lem :
    (driver : Driver) (op : Operation driver) (lanes : RoutingKey → Fate) (s : driver.State)
    → ((k : RoutingKey) × (routed driver op ≡ valid k)
        × (lanes k ≡ ran)
        × (perform driver op lanes s ≡ run_task driver op s))
      ⊎ ((e : Error) × ((perform driver op lanes s).0.err ≡ some e)
          × ((perform driver op lanes s).1 ≡ s))
unfolding perform
perform_lem driver op lanes s = followed driver op lanes s (routed driver op)
