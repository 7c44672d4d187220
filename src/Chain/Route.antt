-- ===== src/Chain/Route.antt =====
-- The lane and the account that an admitted chain of asyncengine/scenario.go gets.
use pit_go.Base.{
  ℕ, ◌≡◌, refl, subst, sym, ap, ◌∙◌, inl, inr, Bool, true, false, not, ◌&&◌, Option, none, some,
  List, if◌then◌else◌, Bool-cases,
}
use pit_go.Errors.{Error}
use pit_go.Routing.{account_routing_key, group_routing_key}
use pit_go.Chain.Plan.{
  Step, ChainPlan, Order, AccountGroupId, SourceKind, account_source, order_source,
  account_group_source, Route, Result, valid, refused, validate, validate_steps, validate_routed,
  unless_error, incomplete, route_source, route_order, route_group, extract_account_id, is_nil,
}
use pit_go.Chain.Admission.{all_ready, validate_steps-ready}

abbrev pub kind_of : Option Order → Option AccountGroupId → SourceKind
kind_of (some _) _ = order_source
kind_of none (some _) = account_group_source
kind_of none none = account_source

abbrev names_account : Option (Option ℕ) → Bool
names_account (some (some _)) = true
names_account _ = false

-- An order names its account, and an account group was constructed.
abbrev pub source_complete : Option Order → Option AccountGroupId → Bool
source_complete (some order) _ = names_account order.operation
source_complete none (some group) = group.initialized
source_complete none none = true

abbrev pub is_valid : {A : Type 0} → Result A → Bool
is_valid (valid _) = true
is_valid (refused _) = false

abbrev pub acceptable : {State : Type 0} → ChainPlan State → Bool
acceptable plan =
    not (is_nil plan.begin)
    && (source_complete plan.order plan.group_id
        && all_ready (kind_of plan.order plan.group_id) plan.steps)

-- The route of a source: an order's account, a group's lane, or the account that was given.
abbrev pub Routed : Option Order → Option AccountGroupId → ℕ → Route → Type 0
Routed (some order) _ account route =
    (order.operation ≡ some (some route.account_id))
    × (route.key ≡ account_routing_key route.account_id)
    × (route.kind ≡ order_source)
Routed none (some group) account route =
    (route.account_id ≡ account)
    × (route.key ≡ group_routing_key group.id)
    × (route.kind ≡ account_group_source)
Routed none none account route =
    (route.account_id ≡ account)
    × (route.key ≡ account_routing_key account)
    × (route.kind ≡ account_source)

-- What `route_source` returns: a route of the source, or an error if the source is incomplete.
abbrev RouteOk : Option Order → Option AccountGroupId → ℕ → Result Route → Type 0
RouteOk order group account (valid route) =
    (source_complete order group ≡ true)
    × Routed order group account route
    × (route.kind ≡ kind_of order group)
RouteOk order group account (refused _) = source_complete order group ≡ false

and-false : (b : Bool) → (b && false) ≡ false
and-false true = refl
and-false false = refl

order-RouteOk :
    (operation : Option (Option ℕ)) (group : Option AccountGroupId) (account : ℕ)
    → RouteOk
        (some (record { operation = operation }))
        group
        account
        (route_order (record { operation = operation }))
unfolding route_order extract_account_id
order-RouteOk none group account = refl
order-RouteOk (some none) group account = refl
order-RouteOk (some (some id)) group account = (refl, (refl, refl, refl), refl)

group-RouteOk :
    (id : ℕ) (initialized : Bool) (account : ℕ)
    → let group : AccountGroupId = record { id = id; initialized = initialized } in
      RouteOk none (some group) account (route_group group account)
unfolding route_group
group-RouteOk id true account = (refl, (refl, refl, refl), refl)
group-RouteOk id false account = refl

route_source-RouteOk :
    (order : Option Order) (group : Option AccountGroupId) (account : ℕ)
    → RouteOk order group account (route_source order group account)
unfolding route_source
route_source-RouteOk (some order) group account = order-RouteOk order.operation group account
route_source-RouteOk none (some group) account = group-RouteOk group.id group.initialized account
route_source-RouteOk none none account = (refl, (refl, refl, refl), refl)

-- What `validate_routed` returns for what `route_source` returned.
abbrev AdmittedOk : Option Order → Option AccountGroupId → ℕ → Bool → Result Route → Type 0
AdmittedOk order group account steps_ready (valid route) =
    ((source_complete order group && steps_ready) ≡ true) × Routed order group account route
AdmittedOk order group account steps_ready (refused _) =
    (source_complete order group && steps_ready) ≡ false

unless_error-AdmittedOk :
    (order : Option Order) (group : Option AccountGroupId) (account : ℕ) (err : Option Error)
    (route : Route)
    → RouteOk order group account (valid route)
    → AdmittedOk order group account (is_nil err) (unless_error err route)
unless_error-AdmittedOk order group account none route k = (ap (λ b. b && true) (k.0), k.1)
unless_error-AdmittedOk order group account (some e) route k = and-false _

validate_routed-AdmittedOk :
    {State : Type 0} (steps : List (Step State)) (order : Option Order)
    (group : Option AccountGroupId) (account : ℕ) (routed : Result Route)
    → RouteOk order group account routed
    → AdmittedOk order group account
        (all_ready (kind_of order group) steps)
        (validate_routed steps routed)
unfolding validate_routed
validate_routed-AdmittedOk steps order group account (refused e) k =
    ap (λ b. b && all_ready (kind_of order group) steps) k
validate_routed-AdmittedOk steps order group account (valid route) k =
    subst (λ b. AdmittedOk order group account b (validate_routed steps (valid route)))
      (validate_steps-ready steps route.kind ∙ ap (λ kind. all_ready kind steps) k.2)
      (unless_error-AdmittedOk order group account (validate_steps steps route.kind) route k)

-- What the admission of a plan means.
abbrev pub Admitted : {State : Type 0} → ChainPlan State → Result Route → Type 0
Admitted plan (valid route) =
    (acceptable plan ≡ true) × Routed plan.order plan.group_id plan.account_id route
Admitted plan (refused _) = acceptable plan ≡ false

begun-Admitted :
    {State : Type 0} (plan : ChainPlan State) (result : Result Route)
    → is_nil plan.begin ≡ false
    → AdmittedOk plan.order plan.group_id plan.account_id
        (all_ready (kind_of plan.order plan.group_id) plan.steps)
        result
    → Admitted plan result
begun-Admitted plan (valid route) begun k = (simp (begun, k.0), k.1)
begun-Admitted plan (refused e) begun k = simp (begun, k)

missing-Admitted :
    {State : Type 0} (plan : ChainPlan State) → is_nil plan.begin ≡ true → acceptable plan ≡ false
missing-Admitted plan missing = simp missing

-- `validate` accepts a plan exactly if `Begin` is set, the source is complete (an order names an
-- account, an account group was constructed), every hook of every step is set, and the source provides
-- what every step needs; the lane and the account are then those of the source.
pub validate-Admitted : {State : Type 0} (plan : ChainPlan State) → Admitted plan (validate plan)
unfolding validate
validate-Admitted plan =
    let result =
      validate_routed plan.steps (route_source plan.order plan.group_id plan.account_id) in
    let at =
      λ (b : Bool). Admitted plan (if b then refused (incomplete "Chain.Begin") else result) in
    elim (Bool-cases (is_nil plan.begin)) [
      | inl missing ↦ subst at (sym missing) (missing-Admitted plan missing)
      | inr begun ↦ subst at (sym begun) (
          begun-Admitted plan result begun (
            validate_routed-AdmittedOk plan.steps plan.order plan.group_id plan.account_id _
              (route_source-RouteOk plan.order plan.group_id plan.account_id)))
    ]
