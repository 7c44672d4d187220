-- ===== src/Registry/Invariant.antt =====
-- The states of the map of lanes of asyncengine/dynamic.go: its steps and their invariant.
use pit_go.Base.{
  ℕ, suc, ◌≤◌, ◌<◌, ◌≡◌, refl, sym, ap, ◌∙◌, Bool, true, false, ◌||◌, List, [], ◌∷◌, if◌then◌else◌,
  length, arith,
}
use pit_go.Routing.{RoutingKey, same_key}
use pit_go.Registry.{
  Slot, Registry, new_registry, has_lane, has_open_lane, has_barrier, remove_lane, remove_barrier,
  put_lane, at_limit, create_by, get_or_create, bar_by, install_barrier, lift_barrier, retire_lane,
  close_all, mark_stopping, close_lanes,
}

pub data Step (r : Registry) : Registry → Type 0 where
  gets : (key : RoutingKey) → Step r (get_or_create key r).0
  bars : (key : RoutingKey) → Step r (install_barrier key r).0
  lifts : (key : RoutingKey) → Step r (lift_barrier key r)
  retires : (key : RoutingKey) → Step r (retire_lane key r)
  stops : Step r (mark_stopping r)
  closes : r.stopping ≡ true → Step r (close_lanes r)

pub data Reach (max_queues : ℕ) : Registry → Type 0 where
  start : Reach max_queues (new_registry max_queues)
  next : {r s : Registry} → Reach max_queues r → Step r s → Reach max_queues s

-- No two lanes of the map have the same key.
abbrev pub Distinct : List Slot → Type 0
Distinct [] = Unit {0}
Distinct (s ∷ rest) = (has_lane s.key rest ≡ false) × Distinct rest

-- No key has a barrier and a lane.
abbrev pub Apart : List RoutingKey → List Slot → Type 0
Apart [] slots = Unit {0}
Apart (b ∷ rest) slots = (has_lane b slots ≡ false) × Apart rest slots

abbrev pub AllOpen : List Slot → Type 0
AllOpen [] = Unit {0}
AllOpen (s ∷ rest) = (s.closed ≡ false) × AllOpen rest

pub has_lane-remove :
    (a key : RoutingKey) (slots : List Slot)
    → has_lane a slots ≡ false
    → has_lane a (remove_lane key slots) ≡ false
has_lane-remove a key [] h = refl
has_lane-remove a key (s ∷ rest) h = ground (arith, has_lane-remove a key rest)

removed-has_lane :
    (key : RoutingKey) (slots : List Slot) → has_lane key (remove_lane key slots) ≡ false
removed-has_lane key [] = refl
removed-has_lane key (s ∷ rest) = ground (arith, removed-has_lane key rest)

if-Distinct :
    (b : Bool) (s : Slot) (kept : List Slot)
    → has_lane s.key kept ≡ false
    → Distinct kept
    → Distinct (if b then kept else s ∷ kept)
if-Distinct true s kept h d = d
if-Distinct false s kept h d = (h, d)

if-AllOpen :
    (b : Bool) (s : Slot) (kept : List Slot)
    → s.closed ≡ false
    → AllOpen kept
    → AllOpen (if b then kept else s ∷ kept)
if-AllOpen true s kept h o = o
if-AllOpen false s kept h o = (h, o)

remove_lane-Distinct :
    (key : RoutingKey) (slots : List Slot) → Distinct slots → Distinct (remove_lane key slots)
remove_lane-Distinct key [] d = tt
remove_lane-Distinct key (s ∷ rest) d =
    if-Distinct (same_key s.key key) s (remove_lane key rest) (has_lane-remove s.key key rest d.0)
      (remove_lane-Distinct key rest d.1)

has_open-has_lane :
    (key : RoutingKey) (slots : List Slot)
    → AllOpen slots
    → has_open_lane key slots ≡ has_lane key slots
has_open-has_lane key [] o = refl
has_open-has_lane key (s ∷ rest) o = ground (arith, o.0, has_open-has_lane key rest o.1)

remove_lane-AllOpen :
    (key : RoutingKey) (slots : List Slot) → AllOpen slots → AllOpen (remove_lane key slots)
remove_lane-AllOpen key [] o = tt
remove_lane-AllOpen key (s ∷ rest) o =
    if-AllOpen (same_key s.key key) s (remove_lane key rest) o.0 (remove_lane-AllOpen key rest o.1)

remove_lane-length :
    (key : RoutingKey) (slots : List Slot) → length (remove_lane key slots) ≤ length slots
remove_lane-length key [] = omega arith
remove_lane-length key (s ∷ rest) = ground (arith, remove_lane-length key rest)

pub close_all-has_lane :
    (key : RoutingKey) (slots : List Slot) → has_lane key (close_all slots) ≡ has_lane key slots
close_all-has_lane key [] = refl
close_all-has_lane key (s ∷ rest) = ap (λ b. same_key s.key key || b) (close_all-has_lane key rest)

close_all-length : (slots : List Slot) → length (close_all slots) ≡ length slots
close_all-length [] = refl
close_all-length (s ∷ rest) = ap suc (close_all-length rest)

close_all-Distinct : (slots : List Slot) → Distinct slots → Distinct (close_all slots)
close_all-Distinct [] d = tt
close_all-Distinct (s ∷ rest) d = (close_all-has_lane s.key rest ∙ d.0, close_all-Distinct rest d.1)

-- `Apart` for lanes that are no more than before.
Apart-mono :
    (barriers : List RoutingKey) (slots fewer : List Slot)
    → ((b : RoutingKey) → has_lane b slots ≡ false → has_lane b fewer ≡ false)
    → Apart barriers slots
    → Apart barriers fewer
Apart-mono [] slots fewer f a = tt
Apart-mono (b ∷ rest) slots fewer f a = (f b a.0, Apart-mono rest slots fewer f a.1)

if-Apart :
    (c : Bool) (b : RoutingKey) (kept : List RoutingKey) (slots : List Slot)
    → has_lane b slots ≡ false
    → Apart kept slots
    → Apart (if c then kept else b ∷ kept) slots
if-Apart true b kept slots h a = a
if-Apart false b kept slots h a = (h, a)

remove_barrier-Apart :
    (key : RoutingKey) (barriers : List RoutingKey) (slots : List Slot)
    → Apart barriers slots
    → Apart (remove_barrier key barriers) slots
remove_barrier-Apart key [] slots a = tt
remove_barrier-Apart key (b ∷ rest) slots a =
    if-Apart (same_key b key) b (remove_barrier key rest) slots a.0
      (remove_barrier-Apart key rest slots a.1)

same_key_comm : (a b : RoutingKey) → same_key a b ≡ same_key b a
same_key_comm a b = ground arith

put_lane-Apart :
    (key : RoutingKey) (barriers : List RoutingKey) (slots : List Slot)
    → has_barrier key barriers ≡ false
    → Apart barriers slots
    → Apart barriers (put_lane key slots)
put_lane-Apart key [] slots h a = tt
put_lane-Apart key (b ∷ rest) slots h a = (
  ground (arith, same_key_comm key b, has_lane-remove b key slots a.0),
  put_lane-Apart key rest slots (ground arith) a.1,
)

pub record Inv (r : Registry) : Type 0 where
  pub distinct : Distinct r.slots
  pub apart : Apart r.barriers r.slots
  pub all_open : r.stopping ≡ false → AllOpen r.slots
  pub bounded : 0 < r.max_queues → length r.slots ≤ r.max_queues

create_by-Inv :
    (key : RoutingKey) (r : Registry) (stopping found barred full : Bool)
    → r.stopping ≡ stopping
    → has_barrier key r.barriers ≡ barred
    → at_limit r ≡ full
    → Inv r
    → Inv (create_by stopping found barred full key r).0
create_by-Inv key r true found barred full s b f i = i
create_by-Inv key r false true barred full s b f i = i
create_by-Inv key r false false true full s b f i = i
create_by-Inv key r false false false true s b f i = i
create_by-Inv key r false false false false s b f i = record {
  distinct = (removed-has_lane key r.slots, remove_lane-Distinct key r.slots i.distinct);
  apart = put_lane-Apart key r.barriers r.slots b i.apart;
  all_open = λ running. (refl, remove_lane-AllOpen key r.slots (i.all_open running));
  bounded = λ limited. ground (arith, f, remove_lane-length key r.slots);
}

bar_by-Inv :
    (key : RoutingKey) (r : Registry) (stopping found barred : Bool)
    → r.stopping ≡ stopping
    → has_open_lane key r.slots ≡ found
    → Inv r
    → Inv (bar_by stopping found barred key r).0
bar_by-Inv key r true found barred s f i = i
bar_by-Inv key r false true barred s f i = i
bar_by-Inv key r false false true s f i = i
bar_by-Inv key r false false false s f i = record {
  distinct = i.distinct;
  apart = (sym (has_open-has_lane key r.slots (i.all_open s)) ∙ f, i.apart);
  all_open = i.all_open;
  bounded = i.bounded;
}

pub Step-Inv : {r s : Registry} → Step r s → Inv r → Inv s
unfolding get_or_create install_barrier lift_barrier retire_lane mark_stopping close_lanes
Step-Inv {r} (gets key) i = create_by-Inv key r _ _ _ _ refl refl refl i
Step-Inv {r} (bars key) i = bar_by-Inv key r _ _ _ refl refl i
Step-Inv {r} (lifts key) i = record {
  distinct = i.distinct;
  apart = remove_barrier-Apart key r.barriers r.slots i.apart;
  all_open = i.all_open;
  bounded = i.bounded;
}
Step-Inv {r} (retires key) i = record {
  distinct = remove_lane-Distinct key r.slots i.distinct;
  apart =
      Apart-mono r.barriers r.slots (remove_lane key r.slots)
        (λ b h. has_lane-remove b key r.slots h) i.apart;
  all_open = λ running. remove_lane-AllOpen key r.slots (i.all_open running);
  bounded = λ limited. omega (arith, i.bounded limited, remove_lane-length key r.slots);
}
Step-Inv {r} stops i = record {
  distinct = i.distinct;
  apart = i.apart;
  all_open = λ running. ground arith;
  bounded = i.bounded;
}
Step-Inv {r} (closes stopping) i = record {
  distinct = close_all-Distinct r.slots i.distinct;
  apart =
      Apart-mono r.barriers r.slots (close_all r.slots) (λ b h. close_all-has_lane b r.slots ∙ h)
        i.apart;
  all_open = λ running. ground (arith, stopping);
  bounded = λ limited. omega (arith, i.bounded limited, close_all-length r.slots);
}

pub Reach-Inv : {max_queues : ℕ} {r : Registry} → Reach max_queues r → Inv r
unfolding new_registry
Reach-Inv start = record {
  distinct = tt;
  apart = tt;
  all_open = λ running. tt;
  bounded = λ limited. omega arith;
}
Reach-Inv (next r s) = Step-Inv s (Reach-Inv r)
