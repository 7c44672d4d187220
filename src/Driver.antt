-- ===== src/Driver.antt =====
-- The shape check of driver results: `validateDriverResult` of asyncengine/engine.go.
pub mod Shape
use pit_go.Base.{
  ℕ, suc, ◌+◌, ◌≡◌, refl, ◌↔◌, ◌⊎◌, Bool, true, false, not, ◌&&◌, Option, none, some, List, [], ◌∷◌,
  ◌==◌, arith, is_empty, if◌then◌else◌,
}
use pit_go.Errors.{Error, Sentinel, sentinel, driver_result, join, join_errors, is_error}

abbrev count_if : Bool → ℕ
count_if b = if b then 1 else 0

abbrev pub is_error_set : Option Error → Bool
is_error_set none = false
is_error_set (some _) = true

-- `hasHandle`, `hasLiveHandle`, the rejects and the error of a driver call.
unfoldable pub validate_driver_result {ℓ} :
    {Reject : Type ℓ} → Bool → Bool → List Reject → Option Error → Option Error
validate_driver_result has_handle has_live_handle rejects err =
    if has_handle && not has_live_handle
    then join_errors (some (sentinel driver_result)) err
    else if count_if has_live_handle
          + count_if (not (is_empty rejects))
          + count_if (is_error_set err)
        == 1
    then none
    else join_errors (some (sentinel driver_result)) err
