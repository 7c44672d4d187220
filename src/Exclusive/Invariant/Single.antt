-- ===== src/Exclusive/Invariant/Single.antt =====
-- What each phase of a section of asyncengine/exclusive.go guarantees of a single lane, and that the
-- steps of that lane keep it.
use pit_go.Base.{◌≡◌, Bool, true, false, not, ◌&&◌, ◌||◌, arith}
use pit_go.Exclusive.{
  Stage, starting, busy, sending, parked, holding, exited, Lane, Phase, absent, registered, waiting,
  enqueuing, collecting, checking, running, withdrawn, is_installed, snapshot_lane, takes_barrier,
  offer_barrier, meet_barrier, free_lane, new_lane,
}
use pit_go.Exclusive.Protocol.{Works, starts, takes, finishes, leaves, drops, exits, at_loop}

abbrev pub is_busy : Stage → Bool
is_busy busy = true
is_busy _ = false

abbrev pub is_parked : Stage → Bool
is_parked parked = true
is_parked _ = false

abbrev pub is_exited : Stage → Bool
is_exited exited = true
is_exited _ = false

abbrev pub is_starting : Stage → Bool
is_starting starting = true
is_starting _ = false

-- At a barrier of the section.
abbrev pub at_barrier : Stage → Bool
at_barrier sending = true
at_barrier parked = true
at_barrier holding = true
at_barrier _ = false

-- The lane has a barrier of the section: in its backlog or in the hands of its worker.
abbrev pub barriered : Lane → Bool
barriered l = l.barrier || at_barrier l.stage

abbrev pub has_parked : Lane → Bool
has_parked l = is_parked l.stage

-- The lane runs nothing until the section ends.
abbrev pub held : Lane → Bool
held l = at_barrier l.stage || is_exited l.stage || l.retired || (is_starting l.stage && l.barrier)

abbrev pub stopped_by : Bool → Lane → Bool
stopped_by stopped l = barriered l || is_exited l.stage || l.retired || stopped

abbrev pub well_formed : Bool → Lane → Bool
well_formed stopped l =
    (not l.retired || not (is_busy l.stage))
    && (not l.owed || not (barriered l))
    && (not l.closed || l.retired || stopped)

abbrev pub phase_ok : Phase → Bool → Lane → Bool
phase_ok waiting stopped l = l.owed || stopped_by stopped l
phase_ok enqueuing stopped l = l.owed || stopped_by stopped l
phase_ok collecting stopped l = stopped_by stopped l
phase_ok checking stopped l = held l || stopped
phase_ok running stopped l = held l
phase_ok _ stopped l = true

abbrev pub lane_ok : Phase → Bool → Lane → Bool
lane_ok p stopped l = well_formed stopped l && phase_ok p stopped l

pub Works-barriered : {l l' : Lane} → Works l l' → barriered l' ≡ barriered l
Works-barriered (starts h k) = ground arith
Works-barriered (takes h k) = ground arith
Works-barriered (finishes h) = ground arith
Works-barriered (leaves h) = ground arith
Works-barriered (drops h k) = ground arith
Works-barriered (exits h k c s) = ground arith

pub Works-parked : {l l' : Lane} → Works l l' → has_parked l' ≡ has_parked l
Works-parked (starts h k) = ground arith
Works-parked (takes h k) = ground arith
Works-parked (finishes h) = ground arith
Works-parked (leaves h) = ground arith
Works-parked (drops h k) = ground arith
Works-parked (exits h k c s) = ground arith

pub Works-lane_ok :
    (p : Phase) (stopped : Bool) {l l' : Lane}
    → Works l l'
    → lane_ok p stopped l ≡ true
    → lane_ok p stopped l' ≡ true
Works-lane_ok absent stopped (starts a b) h = ground arith
Works-lane_ok absent stopped (takes a b) h = ground arith
Works-lane_ok absent stopped (finishes a) h = ground arith
Works-lane_ok absent stopped (leaves a) h = ground arith
Works-lane_ok absent stopped (drops a b) h = ground arith
Works-lane_ok absent stopped (exits a b c s) h = ground arith
Works-lane_ok p stopped (starts a b) h = ground arith
Works-lane_ok p stopped (takes a b) h = ground arith
Works-lane_ok p stopped (finishes a) h = ground arith
Works-lane_ok p stopped (leaves a) h = ground arith
Works-lane_ok p stopped (drops a b) h = ground arith
Works-lane_ok p stopped (exits a b c s) h = ground arith

pub meet-barriered :
    (hard : Bool) (l : Lane) → l.barrier ≡ true → barriered (meet_barrier hard l) ≡ barriered l
meet-barriered true l h = ground arith
meet-barriered false l h = ground arith

pub meet-parked :
    (hard : Bool) (l : Lane)
    → at_loop l.stage ≡ true
    → has_parked (meet_barrier hard l) ≡ has_parked l
meet-parked true l h = ground arith
meet-parked false l h = ground arith

pub meet-lane_ok :
    (p : Phase) (stopped hard : Bool) (l : Lane)
    → l.barrier ≡ true
    → lane_ok p stopped l ≡ true
    → lane_ok p stopped (meet_barrier hard l) ≡ true
meet-lane_ok absent stopped true l b h = ground arith
meet-lane_ok absent stopped false l b h = ground arith
meet-lane_ok p stopped true l b h = ground arith
meet-lane_ok p stopped false l b h = ground arith

pub park-lane_ok :
    (p : Phase) (stopped : Bool) (l : Lane)
    → l.stage ≡ sending
    → lane_ok p stopped l ≡ true
    → lane_ok p stopped (record l { stage = parked }) ≡ true
park-lane_ok absent stopped l b h = ground arith
park-lane_ok p stopped l b h = ground arith

pub retire-lane_ok :
    (p : Phase) (stopped : Bool) (l : Lane)
    → at_loop l.stage ≡ true
    → lane_ok p stopped l ≡ true
    → lane_ok p stopped (record l { retired = true; closed = true }) ≡ true
retire-lane_ok absent stopped l b h = ground arith
retire-lane_ok p stopped l b h = ground arith

pub close-lane_ok :
    (p : Phase) (stopped : Bool) (l : Lane)
    → stopped ≡ true
    → lane_ok p stopped l ≡ true
    → lane_ok p stopped (record l { closed = true }) ≡ true
close-lane_ok absent stopped l st h = ground arith
close-lane_ok p stopped l st h = ground arith

pub stop-lane_ok :
    (p : Phase) (stopped : Bool) (l : Lane) → lane_ok p stopped l ≡ true → lane_ok p true l ≡ true
stop-lane_ok absent stopped l h = ground arith
stop-lane_ok p stopped l h = ground arith

pub offer-lane_ok :
    (p : Phase) (stopped : Bool) (l : Lane)
    → lane_ok p stopped l ≡ true
    → lane_ok p stopped (offer_barrier l) ≡ true
offer-lane_ok absent stopped l h = ground arith
offer-lane_ok p stopped l h = ground arith

-- The barrier is expected if the worker takes it, and no worker parks or goes on by that.
pub offer-barriered :
    (p : Phase) (stopped : Bool) (l : Lane)
    → l.owed ≡ true
    → lane_ok p stopped l ≡ true
    → (barriered l ≡ false) × (barriered (offer_barrier l) ≡ takes_barrier l.stage)
offer-barriered absent stopped l o h = (ground arith, ground arith)
offer-barriered p stopped l o h = (ground arith, ground arith)

pub new-lane_ok :
    (p : Phase) (stopped : Bool) → lane_ok p stopped (new_lane (is_installed p)) ≡ true
new-lane_ok absent stopped = ground arith
new-lane_ok p stopped = ground arith

-- The snapshot of either strategy covers every lane that can run something.
pub snapshot-lane_ok :
    (dynamic stopped : Bool) (l : Lane)
    → barriered l ≡ false
    → lane_ok registered stopped l ≡ true
    → lane_ok waiting stopped (snapshot_lane dynamic l) ≡ true
snapshot-lane_ok true stopped l b h = ground arith
snapshot-lane_ok false stopped l b h = ground arith

pub free-lane_ok :
    (stopped : Bool) (l : Lane)
    → lane_ok withdrawn stopped l ≡ true
    → lane_ok absent stopped (free_lane l) ≡ true
free-lane_ok stopped l h = ground arith
