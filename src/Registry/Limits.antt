-- ===== src/Registry/Limits.antt =====
-- What the map of lanes of asyncengine/dynamic.go promises.
use pit_go.Base.{
  ℕ, ◌≤◌, ◌<◌, ◌≡◌, refl, sym, ap, ◌∙◌, subst, Bool, true, false, ◌||◌, List, [], ◌∷◌, length,
  arith, Bool-cases, ◌⊎◌, inl, inr,
}
use pit_go.Routing.{RoutingKey, same_key}
use pit_go.Registry.{
  stopped, Slot, Registry, new_registry, has_lane, has_barrier, create_by, get_or_create, bar_by,
  install_barrier, lift_barrier, retire_lane, mark_stopping, close_lanes,
}
use pit_go.Registry.Invariant.{
  Step, gets, bars, lifts, retires, stops, closes, Reach, start, next, Distinct, Apart, Reach-Inv,
  has_lane-remove, close_all-has_lane,
}

has_lane-same :
    (a b : RoutingKey) (slots : List Slot)
    → same_key a b ≡ true
    → has_lane a slots ≡ has_lane b slots
has_lane-same a b [] h = refl
has_lane-same a b (s ∷ rest) h = ground (arith, has_lane-same a b rest h)

Apart-has_lane :
    (key : RoutingKey) (barriers : List RoutingKey) (slots : List Slot)
    → has_barrier key barriers ≡ true
    → Apart barriers slots
    → has_lane key slots ≡ false
Apart-has_lane key [] slots h a = ground arith
Apart-has_lane key (b ∷ rest) slots h a = elim (Bool-cases (same_key b key)) [
  | inl same ↦ sym (has_lane-same b key slots same) ∙ a.0
  | inr other ↦
      Apart-has_lane key rest slots (sym (ap (λ c. c || has_barrier key rest) other) ∙ h) a.1
]

create_by-max :
    (stopping found barred full : Bool) (key : RoutingKey) (r : Registry)
    → (create_by stopping found barred full key r).0.max_queues ≡ r.max_queues
create_by-max stopping found barred full key r = ground arith

bar_by-max :
    (stopping found barred : Bool) (key : RoutingKey) (r : Registry)
    → (bar_by stopping found barred key r).0.max_queues ≡ r.max_queues
bar_by-max stopping found barred key r = ground arith

Step-max : {r s : Registry} → Step r s → s.max_queues ≡ r.max_queues
unfolding get_or_create install_barrier lift_barrier retire_lane mark_stopping close_lanes
Step-max {r} (gets key) = create_by-max _ _ _ _ key r
Step-max {r} (bars key) = bar_by-max _ _ _ key r
Step-max (lifts key) = refl
Step-max (retires key) = refl
Step-max stops = refl
Step-max (closes stopping) = refl

Reach-max : {max_queues : ℕ} {r : Registry} → Reach max_queues r → r.max_queues ≡ max_queues
unfolding new_registry
Reach-max start = refl
Reach-max (next r s) = Step-max s ∙ Reach-max r

zero_or_positive : (n : ℕ) → (n ≡ 0) ⊎ (0 < n)
zero_or_positive n = omega arith

module _ {max_queues : ℕ} {r : Registry} (reach : Reach max_queues r) where
  -- A routing key has at most one lane, whether the number of lanes is limited or not, and with a limit
  -- set there are never more lanes than it.
  pub lanes-bounded :
      Distinct r.slots × ((max_queues ≡ 0) ⊎ (0 < max_queues × length r.slots ≤ max_queues))
  lanes-bounded =
      let i = Reach-Inv reach in
      let m = Reach-max reach in
      (
        i.distinct,
        elim (zero_or_positive max_queues) [
          | inl unlimited ↦ inl unlimited
          | inr limited ↦ inr (
            limited,
            subst (λ n. length r.slots ≤ n) m (i.bounded (subst (λ n. 0 < n) (sym m) limited)),
          )
        ],
      )

  -- While a cleanup runs behind the barrier of a routing key, the map has no lane for that key, so no
  -- work of the key runs beside it.
  pub barrier-excludes_lane :
      (key : RoutingKey) → has_barrier key r.barriers ≡ true → has_lane key r.slots ≡ false
  barrier-excludes_lane key barred =
      Apart-has_lane key r.barriers r.slots barred (Reach-Inv reach).apart

step-adds_no_lane :
    {r s : Registry}
    → Step r s
    → r.stopping ≡ true
    → (key : RoutingKey) → has_lane key r.slots ≡ false
    → (s.stopping ≡ true) × (has_lane key s.slots ≡ false)
unfolding get_or_create install_barrier lift_barrier retire_lane mark_stopping close_lanes
step-adds_no_lane {r} (gets k) stopping key h = simp stopping (refl, h)
step-adds_no_lane {r} (bars k) stopping key h = simp stopping (refl, h)
step-adds_no_lane {r} (lifts k) stopping key h = (stopping, h)
step-adds_no_lane {r} (retires k) stopping key h = (stopping, has_lane-remove key k r.slots h)
step-adds_no_lane {r} stops stopping key h = (refl, h)
step-adds_no_lane {r} (closes _) stopping key h = (stopping, close_all-has_lane key r.slots ∙ h)

-- Steps one after the other, from a map on.
pub data Steps (r : Registry) : Registry → Type 0 where
  none : Steps r r
  more : {s t : Registry} → Steps r s → Step s t → Steps r t

stopped-adds_no_lane :
    {r s : Registry}
    → Steps r s
    → r.stopping ≡ true
    → (key : RoutingKey) → has_lane key r.slots ≡ false
    → (s.stopping ≡ true) × (has_lane key s.slots ≡ false)
stopped-adds_no_lane none stopping key h = (stopping, h)
stopped-adds_no_lane (more steps step) stopping key h =
    let (still, lacks) = stopped-adds_no_lane steps stopping key h in
    step-adds_no_lane step still key lacks

-- Once stop has marked the map, a key without a lane has none after any further calls, and getOrCreate
-- refuses the key as stopped and leaves the map.
pub stopping-adds_no_lane :
    {r s : Registry}
    → Steps r s
    → r.stopping ≡ true
    → (key : RoutingKey) → has_lane key r.slots ≡ false
    → (has_lane key s.slots ≡ false) × (get_or_create key s ≡ (s, stopped))
unfolding get_or_create
stopping-adds_no_lane steps stopping key h =
    let (still, lacks) = stopped-adds_no_lane steps stopping key h in (lacks, rw still refl)
