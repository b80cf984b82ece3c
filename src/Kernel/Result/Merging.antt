-- ===== src/Kernel/Result/Merging.antt =====
-- What `merge_errs` makes of several results.
use api_template.Base.{◌≡◌, ap, sym, ◌∙◌, List, [], ◌∷◌, ◌++◌, append-nil, append_assoc}
use api_template.Kernel.Result.{
  Result, ok, err, ErrorValue, one, sequence, collect_errs, from_errs, merge_errs,
}

module _ {ℓ} {A E : Type ℓ} where
  -- The errors that a result stands for.
  abbrev pub errors_of : Result A (ErrorValue E) → List E
  errors_of (ok a) = []
  errors_of (err (one e)) = e ∷ []
  errors_of (err (sequence es)) = es

  abbrev pub all_errors : List (Result A (ErrorValue E)) → List E
  all_errors [] = []
  all_errors (r ∷ results) = errors_of r ++ all_errors results

  collect_errs_lem :
      (errs : List E) (results : List (Result A (ErrorValue E)))
      → collect_errs errs results ≡ errs ++ all_errors results
  unfolding collect_errs
  collect_errs_lem errs [] = sym (append-nil errs)
  collect_errs_lem errs (ok a ∷ results) = collect_errs_lem errs results
  collect_errs_lem errs (err (one e) ∷ results) =
      collect_errs_lem (errs ++ e ∷ []) results ∙ append_assoc errs (e ∷ []) (all_errors results)
  collect_errs_lem errs (err (sequence es) ∷ results) =
      collect_errs_lem (errs ++ es) results ∙ append_assoc errs es (all_errors results)

  -- Merged results hold the errors of all of them in their order, and are a success where there is
  -- none: also where a result is an error of an empty sequence.
  pub merge_errs_lem :
      (results : List (Result A (ErrorValue E)))
      → merge_errs results ≡ from_errs (all_errors results)
  unfolding merge_errs
  merge_errs_lem results = ap from_errs (collect_errs_lem [] results)
