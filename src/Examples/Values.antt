-- ===== src/Examples/Values.antt =====
-- Concrete futures of pkg/future/future.go and driver results of asyncengine/engine.go.
use pit_go.Base.{here, ℕ, ◌≡◌, refl, ◌↔◌, true, none, some, [], ◌∷◌}
use pit_go.Errors.{Error, external, join, sentinel, driver_result}
use pit_go.Driver.{validate_driver_result}
use pit_go.Driver.Shape.{validate_driver_result_iff, ExactlyOne}
use pit_go.Future.{new, resolve, advance, done, await}
use pit_go.Future.Steps.{FutureSystem, first, Reach, start, next, resolves, advances, awaits}
use pit_go.Future.Once.{first_resolution-wins}

-- The calls `Resolve(5, nil)` and, by a shutdown, `Resolve(0, error 1)`. Reader 0 awaits and is released
-- between the two; the second call gets to the once when the first has returned.
raced : (s : FutureSystem ℕ) × Reach 0 s
unfolding resolve advance await new
raced = (
  _,
  next
      (next
        (next
          (next
            (next
              (next (next (next (next start (resolves 5 none refl)) advances) advances) advances)
              (awaits 0 none here))
            advances)
          (resolves 0 (some (external 1)) refl))
        (awaits 0 none here))
      (awaits 0 none here),
)

first_resolution-wins_example :
    (first raced.0.calls ≡ some (5, none)) × (done raced.0.future ≡ true)
unfolding raced resolve advance await new
first_resolution-wins_example = first_resolution-wins raced.1 0 5 none refl

-- There was a second resolution.
raced_calls : raced.0.calls ≡ (5, none) ∷ (0, some (external 1)) ∷ []
unfolding raced resolve advance await new
raced_calls = refl

validate_driver_result_iff_example :
    (validate_driver_result {Reject = ℕ} true true (8 ∷ []) none ≡ none)
    ↔ ((true ≡ true → true ≡ true) × ExactlyOne {Reject = ℕ} true (8 ∷ []) none)
validate_driver_result_iff_example = validate_driver_result_iff true true (8 ∷ []) none

abbrev two_results_error : Error
two_results_error = join (sentinel driver_result) (external 4)

two_results :
    validate_driver_result {Reject = ℕ} true true (8 ∷ []) (some (external 4))
    ≡ some two_results_error
unfolding validate_driver_result
two_results = refl
