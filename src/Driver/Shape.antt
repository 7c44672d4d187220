-- ===== src/Driver/Shape.antt =====
-- The driver results that asyncengine/engine.go accepts.
use pit_go.Base.{◌≡◌, ◌↔◌, ◌⊎◌, Bool, true, false, Option, none, some, List, arith, is_empty}
use pit_go.Errors.{Error, driver_result, is_error}
use pit_go.Driver.{validate_driver_result, is_error_set}

-- Exactly one of a live handle, rejects and an error.
abbrev pub ExactlyOne {ℓ} : {Reject : Type ℓ} → Bool → List Reject → Option Error → Type 0
ExactlyOne live rejects err =
    ((live ≡ true) × (is_empty rejects ≡ true) × (is_error_set err ≡ false))
    ⊎ ((live ≡ false) × (is_empty rejects ≡ false) × (is_error_set err ≡ false))
    ⊎ ((live ≡ false) × (is_empty rejects ≡ true) × (is_error_set err ≡ true))

module _ {ℓ} {Reject : Type ℓ} where
  -- A driver result passes the check exactly when a handle that came with it is live and exactly
  -- one of a live handle, rejects and an error is there.
  pub validate_driver_result_iff :
      (has live : Bool) (rejects : List Reject) (err : Option Error)
      → (validate_driver_result has live rejects err ≡ none)
        ↔ ((has ≡ true → live ≡ true) × ExactlyOne live rejects err)
  unfolding validate_driver_result
  validate_driver_result_iff has live rejects err = (λ h. ground arith, λ h. ground arith)

  -- A result that fails the check is reported as ErrDriverResult, whatever error came with it.
  pub validate_driver_result_error :
      (has live : Bool) (rejects : List Reject) (err : Option Error) {e : Error}
      → validate_driver_result has live rejects err ≡ some e
      → is_error driver_result e ≡ true
  unfolding validate_driver_result
  validate_driver_result_error has live rejects err h = ground arith
