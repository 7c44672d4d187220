-- ===== src/Operations/Stop.antt =====
-- `StopGraceful`, `StopHard` and `releaseUnderlying` of asyncengine/engine.go.
use pit_go.Base.{
  ℕ, ◌+◌, ◌≡◌, refl, Bool, true, false, ◌&&◌, ◌||◌, Option, none, some, List, [], ◌∷◌,
  if◌then◌else◌,
}
use pit_go.Errors.{Error}

-- `once`: `stopOnce` is done. `wired`: `stopUnderlying` is not nil. `released` counts its calls.
pub record Stopper : Type 0 where
  pub once : Bool
  pub wired : Bool
  pub released : ℕ

unfoldable pub release_underlying : Stopper → Stopper
release_underlying s =
    if s.once
    then s
    else record s { once = true; released = (if s.wired then 1 else 0) + s.released }

-- Either stop, given what the strategy's stop returns.
unfoldable pub stop : Option Error → Stopper → Option Error × Stopper
unfolding release_underlying
stop none s = (none, release_underlying s)
stop (some e) s = (some e, s)

abbrev pub stop_all : List (Option Error) → Stopper → Stopper
stop_all [] s = s
stop_all (r ∷ rs) s = stop_all rs (stop r s).1

abbrev pub new_stopper : Bool → Stopper
new_stopper wired = record { once = false; wired = wired; released = 0 }

abbrev succeeded : Option Error → Bool
succeeded none = true
succeeded (some e) = false

abbrev pub any_success : List (Option Error) → Bool
any_success [] = false
any_success (r ∷ rs) = succeeded r || any_success rs

stop_all-once :
    (rs : List (Option Error)) (wired : Bool) (n : ℕ)
    → (stop_all rs (record { once = true; wired = wired; released = n })).released ≡ n
unfolding stop release_underlying
stop_all-once [] wired n = refl
stop_all-once (none ∷ rs) wired n = stop_all-once rs wired n
stop_all-once (some e ∷ rs) wired n = stop_all-once rs wired n

-- Whatever stops are called and however each of them ends, the engine below is released once if one of
-- them succeeds and a release was wired, and else never.
released-stop_all :
    (wired : Bool) (rs : List (Option Error))
    → (stop_all rs (new_stopper wired)).released ≡ (if any_success rs && wired then 1 else 0)
unfolding stop release_underlying
released-stop_all wired [] = refl
released-stop_all true (none ∷ rs) = stop_all-once rs true 1
released-stop_all false (none ∷ rs) = stop_all-once rs false 0
released-stop_all wired (some e ∷ rs) = released-stop_all wired rs
