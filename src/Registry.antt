-- ===== src/Registry.antt =====
-- The map of lanes of asyncengine/dynamic.go: `queues`, `cleanupBarriers`, `stopping`. What is done
-- under `s.mu` is one atomic change; a lane is known here by its key and its `closed` flag.
pub mod Invariant
pub mod Limits
use pit_go.Base.{
  ℕ, ◌+◌, ◌≡◌, Bool, true, false, not, ◌&&◌, ◌||◌, Option, none, some, List, [], ◌∷◌, ltb, leb,
  if◌then◌else◌, length,
}
use pit_go.Routing.{RoutingKey, same_key}

pub record Slot : Type 0 where
  pub key : RoutingKey
  pub closed : Bool

pub record Registry : Type 0 where
  pub slots : List Slot
  pub barriers : List RoutingKey
  pub stopping : Bool
  pub max_queues : ℕ  -- 0 is no limit

unfoldable pub new_registry : ℕ → Registry
new_registry max_queues = record {
  slots = [];
  barriers = [];
  stopping = false;
  max_queues = max_queues;
}

-- The key has a lane, open or closed, in the map.
abbrev pub has_lane : RoutingKey → List Slot → Bool
has_lane key [] = false
has_lane key (s ∷ rest) = same_key s.key key || has_lane key rest

-- `ok && !q.closed.Load()`.
abbrev pub has_open_lane : RoutingKey → List Slot → Bool
has_open_lane key [] = false
has_open_lane key (s ∷ rest) = (same_key s.key key && not s.closed) || has_open_lane key rest

abbrev pub has_barrier : RoutingKey → List RoutingKey → Bool
has_barrier key [] = false
has_barrier key (b ∷ rest) = same_key b key || has_barrier key rest

abbrev pub remove_lane : RoutingKey → List Slot → List Slot
remove_lane key [] = []
remove_lane key (s ∷ rest) =
    let kept = remove_lane key rest in if same_key s.key key then kept else s ∷ kept

abbrev pub remove_barrier : RoutingKey → List RoutingKey → List RoutingKey
remove_barrier key [] = []
remove_barrier key (b ∷ rest) =
    let kept = remove_barrier key rest in if same_key b key then kept else b ∷ kept

-- `s.queues[key] = q` for a new lane.
abbrev pub put_lane : RoutingKey → List Slot → List Slot
put_lane key slots = record { key = key; closed = false } ∷ remove_lane key slots

-- What `getOrCreate` returns, with `created` and `total`, or the barrier that it waits for.
pub data QueueState : Type 0 where
  ready : Bool → ℕ → QueueState
  stopped limit wait_for_barrier : QueueState

abbrev pub at_limit : Registry → Bool
at_limit r = ltb 0 r.max_queues && leb r.max_queues (length r.slots)

abbrev pub create_by : Bool → Bool → Bool → Bool → RoutingKey → Registry → Registry × QueueState
create_by true found barred full key r = (r, stopped)
create_by false true barred full key r = (r, ready false 0)
create_by false false true full key r = (r, wait_for_barrier)
create_by false false false true key r = (r, limit)
create_by false false false false key r =
    let slots = put_lane key r.slots in (record r { slots = slots }, ready true (length slots))

-- The section of `getOrCreate` under `s.mu.Lock`.
unfoldable pub get_or_create : RoutingKey → Registry → Registry × QueueState
get_or_create key r =
    create_by r.stopping (has_open_lane key r.slots) (has_barrier key r.barriers) (at_limit r) key r

abbrev pub bar_by : Bool → Bool → Bool → RoutingKey → Registry → Registry × Bool
bar_by true found barred key r = (r, false)
bar_by false true barred key r = (r, false)
bar_by false false true key r = (r, false)
bar_by false false false key r = (record r { barriers = key ∷ r.barriers }, true)

-- The start of `cleanupWithoutLiveLane` outside a section: whether the cleanup runs now.
unfoldable pub install_barrier : RoutingKey → Registry → Registry × Bool
install_barrier key r =
    bar_by r.stopping (has_open_lane key r.slots) (has_barrier key r.barriers) key r

-- Its end.
unfoldable pub lift_barrier : RoutingKey → Registry → Registry
lift_barrier key r = record r { barriers = remove_barrier key r.barriers }

-- The end of `retireIfIdle`: the lane leaves the map as it is closed.
unfoldable pub retire_lane : RoutingKey → Registry → Registry
retire_lane key r = record r { slots = remove_lane key r.slots }

abbrev pub close_all : List Slot → List Slot
close_all [] = []
close_all (s ∷ rest) = record s { closed = true } ∷ close_all rest

-- `markStoppingAndSnapshot`, and `closeQueueChannels` on the snapshot.
unfoldable pub mark_stopping : Registry → Registry
mark_stopping r = record r { stopping = true }

unfoldable pub close_lanes : Registry → Registry
close_lanes r = record r { slots = close_all r.slots }
