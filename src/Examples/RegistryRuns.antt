-- ===== src/Examples/RegistryRuns.antt =====
-- A map of lanes of asyncengine/dynamic.go with a limit of one lane.
use pit_go.Base.{ℕ, ◌<◌, ◌⊎◌, ◌≤◌, ◌≡◌, refl, false, length}
use pit_go.Routing.{account_routing_key}
use pit_go.Registry.{
  stopped, mark_stopping, Registry, new_registry, get_or_create, install_barrier, has_lane, limit,
}
use pit_go.Registry.Invariant.{gets, bars, lifts, closes, Reach, start, next, Distinct}
use pit_go.Registry.Limits.{
  Steps, none, more, stopping-adds_no_lane, lanes-bounded, barrier-excludes_lane,
}

-- Account 1 has the only lane; the cleanup of account 2 runs behind a barrier.
full : (r : Registry) × Reach 1 r
full = (_, next (next start (gets (account_routing_key 1))) (bars (account_routing_key 2)))

full-refuses : (get_or_create (account_routing_key 3) full.0).1 ≡ limit
unfolding full new_registry get_or_create install_barrier
full-refuses = refl

lanes-bounded_example : Distinct full.0.slots × ((Path ℕ 1 0) ⊎ (0 < 1 × length full.0.slots ≤ 1))
lanes-bounded_example = lanes-bounded full.1

barrier-excludes_lane_example : has_lane (account_routing_key 2) full.0.slots ≡ false
unfolding full new_registry get_or_create install_barrier
barrier-excludes_lane_example = barrier-excludes_lane full.1 (account_routing_key 2) refl

-- The map when stop has marked it, and after its lane is closed, the barrier of account 2 is lifted and
-- a submit of account 3 has looked for a lane.
marked : Registry
unfolding full new_registry get_or_create install_barrier mark_stopping
marked = mark_stopping full.0

shut_down : (r : Registry) × Steps marked r
unfolding marked mark_stopping full
shut_down = (
  _,
  more (more (more none (closes refl)) (lifts (account_routing_key 2)))
      (gets (account_routing_key 3)),
)

stopping-adds_no_lane_example :
    (has_lane (account_routing_key 2) shut_down.0.slots ≡ false)
    × (get_or_create (account_routing_key 2) shut_down.0 ≡ (shut_down.0, stopped))
unfolding full marked new_registry get_or_create install_barrier mark_stopping
stopping-adds_no_lane_example = stopping-adds_no_lane shut_down.1 refl (account_routing_key 2) refl
