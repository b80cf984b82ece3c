-- ===== src/Kernel/Result.antt =====
-- src/app/shared_kernel/ports/result.py: the outcome of an operation as a value.
pub mod Merging
use api_template.Base.{Bool, true, false, Option, none, List, [], ◌∷◌, ◌++◌}
use api_template.Kernel.Errors.{Outcome, returned, raised, runtime_error}

pub data Result {ℓ} (A E : Type ℓ) : Type ℓ where
  ok : A → Result A E
  err : E → Result A E

module _ {ℓ} {A E : Type ℓ} where
  abbrev pub is_ok : Result A E → Bool
  is_ok (ok a) = true
  is_ok (err e) = false

  abbrev pub is_err : Result A E → Bool
  is_err (ok a) = false
  is_err (err e) = true

  unfoldable pub unwrap : Result A E → Outcome A
  unwrap (ok a) = returned a
  unwrap (err e) = raised runtime_error

  unfoldable pub unwrap_or : Result A E → A → A
  unwrap_or (ok a) d = a
  unwrap_or (err e) d = d

  unfoldable pub unwrap_err : Result A E → Outcome E
  unwrap_err (ok a) = raised runtime_error
  unwrap_err (err e) = returned e

module _ {ℓ} {A B E : Type ℓ} where
  unfoldable pub map : (A → B) → Result A E → Result B E
  map f (ok a) = ok (f a)
  map f (err e) = err e

module _ {ℓ} {A E F : Type ℓ} where
  unfoldable pub map_err : (E → F) → Result A E → Result A F
  map_err f (ok a) = ok a
  map_err f (err e) = err (f e)

-- What `merge_errs` finds in an `Err`: a sequence of errors, or one error.
pub data ErrorValue {ℓ} (E : Type ℓ) : Type ℓ where
  one : E → ErrorValue E
  sequence : List E → ErrorValue E

module _ {ℓ} {A E : Type ℓ} where
  -- The loop of `merge_errs`, `errs` being what it has collected.
  unfoldable pub collect_errs : List E → List (Result A (ErrorValue E)) → List E
  collect_errs errs [] = errs
  collect_errs errs (ok a ∷ results) = collect_errs errs results
  collect_errs errs (err (one e) ∷ results) = collect_errs (errs ++ e ∷ []) results
  collect_errs errs (err (sequence es) ∷ results) = collect_errs (errs ++ es) results

  unfoldable pub from_errs : List E → Result (Option A) (List E)
  from_errs [] = ok none
  from_errs (e ∷ errs) = err (e ∷ errs)

  -- The test `if not errs` at the end of `merge_errs` is that of `from_errs`.
  unfoldable pub merge_errs : List (Result A (ErrorValue E)) → Result (Option A) (List E)
  unfolding collect_errs from_errs
  merge_errs results = from_errs (collect_errs [] results)
