-- ===== src/Chain/Custody.antt =====
-- The custody of native handles in a run of a chain of asyncengine/scenario.go, read off its history.
use pit_go.Base.{
  ℕ, is_empty, ◌≡◌, refl, ap, Bool, true, false, Option, none, some, List, [], ◌∷◌, ◌==◌,
  if◌then◌else◌, arith,
}
use pit_go.Errors.{Error}
use pit_go.Driver.{validate_driver_result}
use pit_go.Driver.Shape.{validate_driver_result_iff}
use pit_go.Chain.Plan.{or_else}
use pit_go.Chain.Run.{Event, opened, committing, rolling_back, finalized, Handle, History, Run}
use pit_go.Chain.Env.{DriverReply}
use pit_go.Chain.Steps.{reply_error, has_handle, has_live_handle}

-- No handle, one that is held, one whose finalizer was entered and has not returned, and one whose
-- rollback was entered after that; `broken` is everything that must not happen: a second handle, the
-- end of a handle that is not held, a second commit.
pub data Custody : Type 0 where
  clear broken : Custody
  held attempted retried : Handle → Custody

abbrev pub same_handle : Handle → Handle → Bool
same_handle a b = a.id == b.id

abbrev pub open_handle : Custody → Handle → Custody
open_handle clear h = held h
open_handle _ h = broken

abbrev pub commit_handle : Custody → Handle → Custody
commit_handle (held g) h = if same_handle g h then attempted h else broken
commit_handle _ h = broken

abbrev pub roll_back_handle : Custody → Handle → Custody
roll_back_handle (held g) h = if same_handle g h then attempted h else broken
roll_back_handle (attempted g) h = if same_handle g h then retried h else broken
roll_back_handle _ h = broken

abbrev pub end_handle : Custody → Handle → Custody
end_handle (attempted g) h = if same_handle g h then clear else broken
end_handle (retried g) h = if same_handle g h then clear else broken
end_handle _ h = broken

abbrev pub follow : Custody → Event → Custody
follow c (opened h) = open_handle c h
follow c (committing h) = commit_handle c h
follow c (rolling_back h) = roll_back_handle c h
follow c (finalized h) = end_handle c h
follow c _ = c

abbrev pub custody : History → Custody
custody [] = clear
custody (e ∷ h) = follow (custody h) e

-- Whether every event of a run was allowed, and no handle is left that was never finalized.
abbrev pub is_settled : Custody → Bool
is_settled clear = true
is_settled (attempted _) = true
is_settled (retried _) = true
is_settled _ = false

-- A run with a pending finalizer and a custody.
pub record At (pending : Option Handle) (c : Custody) (r : Run) : Type 0 where
  pub pending_eq : r.pending ≡ pending
  pub custody_eq : custody r.history ≡ c

abbrev pub Clean : Run → Type 0
Clean r = At none clear r

-- What the deferred cleanup can find.
pub data Covered (r : Run) : Type 0 where
  clean : Clean r → Covered r
  holds : (h : Handle) → At (some h) (held h) r → Covered r
  tried : (h : Handle) → At (some h) (attempted h) r → Covered r

pub same_handle_refl : (h : Handle) → same_handle h h ≡ true
same_handle_refl h = ground arith

or_else-none : (a b : Option Error) → or_else a b ≡ none → a ≡ none
or_else-none none b h = refl
or_else-none (some e) b h = h

handle-no_rejects :
    (handle : Option Handle) (rejects : List ℕ) (err : Option Error) {reject : ℕ} {rest : List ℕ}
    → validate_driver_result (has_handle handle) (has_live_handle handle) rejects err ≡ none
    → rejects ≡ reject ∷ rest
    → handle ≡ none
handle-no_rejects none rejects err checked rejected = refl
handle-no_rejects (some h) rejects err checked rejected =
    let shape = (validate_driver_result_iff true h.live rejects err).0 checked in
    let filled = ap is_empty rejected in ground (arith, shape.0 refl)

-- A driver reply that passes its check and has rejects has no handle.
pub reply_error-handle :
    (d : DriverReply) {reject : ℕ} {rest : List ℕ}
    → reply_error d ≡ none
    → d.rejects ≡ reject ∷ rest
    → d.handle ≡ none
unfolding reply_error
reply_error-handle d checked rejected =
    handle-no_rejects d.handle d.rejects d.err (or_else-none _ d.err checked) rejected
