-- ===== src/Filtering/Validator/Verdicts.antt =====
-- The validator as a whole: what it accepts.
use mathlib.Core.Logic.Iff
use api_template.Base.{◌≡◌, ◌↔◌, false, [], ◌∷◌, is_none, inl, inr, Bool-cases}
use api_template.Kernel.Errors.{Exn, runtime_error}
use api_template.Filtering.Values.{Value, null, scalar, sequence}
use api_template.Filtering.Specs.{
  FilterLookup, eq, gt, lt, gte, lte, is_in, range, search, json, FilterSpec,
}
use api_template.Filtering.Validator.Details.{invalid_value_detail}
use api_template.Filtering.Validator.Constraints.{LengthIn, validate_length-LengthIn}
use api_template.Filtering.Validator.Accepts.{
  AcceptsScalar, AcceptsRange, conclude-accepted, absent-accepted, refused, validate_scalar-Accepts,
  validate_range-Accepts,
}
use api_template.Filtering.Validator.Members.{AcceptsCollection, validate_collection-Accepts}
use api_template.Filtering.Validator.{
  accepted, failed, validate_length, validate_json, by_lookup, validate,
}

abbrev pub AcceptsJson : FilterSpec → Value → Type 0
AcceptsJson spec null = spec.required ≡ false
AcceptsJson spec (scalar a) = ⊥
AcceptsJson spec (sequence []) = spec.required ≡ false
AcceptsJson spec (sequence (x ∷ xs)) = LengthIn spec.min_length spec.max_length (sequence (x ∷ xs))

-- What a spec accepts, by its lookup: nothing, where that is an order or a search.
abbrev pub Accepts : FilterLookup → FilterSpec → Value → Type 0
Accepts eq spec v = AcceptsScalar spec v
Accepts range spec v = AcceptsRange spec v
Accepts is_in spec v = AcceptsCollection spec v
Accepts json spec v = AcceptsJson spec v
Accepts gt spec v = ⊥
Accepts gte spec v = ⊥
Accepts lt spec v = ⊥
Accepts lte spec v = ⊥
Accepts search spec v = ⊥

validate_json-Accepts :
    (spec : FilterSpec) (v : Value) → (validate_json spec v ≡ accepted) ↔ AcceptsJson spec v
unfolding validate_json
validate_json-Accepts spec null = absent-accepted spec
validate_json-Accepts spec (scalar a) = refused (invalid_value_detail spec ∷ [])
validate_json-Accepts spec (sequence []) = absent-accepted spec
validate_json-Accepts spec (sequence (x ∷ xs)) =
    Iff.trans (conclude-accepted (validate_length spec (sequence (x ∷ xs))))
      (validate_length-LengthIn spec (sequence (x ∷ xs)))

no_lookup : (e : Exn) → (failed e ≡ accepted) ↔ ⊥
no_lookup e = (λ h. cc, λ h. elim h [ ])

by_lookup-Accepts :
    (lookup : FilterLookup) (spec : FilterSpec) (v : Value)
    → (by_lookup lookup spec v ≡ accepted) ↔ Accepts lookup spec v
unfolding by_lookup
by_lookup-Accepts eq spec v = validate_scalar-Accepts spec v
by_lookup-Accepts range spec v = validate_range-Accepts spec v
by_lookup-Accepts is_in spec v = validate_collection-Accepts spec v
by_lookup-Accepts json spec v = validate_json-Accepts spec v
by_lookup-Accepts gt spec v = no_lookup runtime_error
by_lookup-Accepts gte spec v = no_lookup runtime_error
by_lookup-Accepts lt spec v = no_lookup runtime_error
by_lookup-Accepts lte spec v = no_lookup runtime_error
by_lookup-Accepts search spec v = no_lookup runtime_error

-- The validator returns just where the spec has a field and the value is one that the spec accepts:
-- absent and not required; a scalar in its bounds, of a length in its limits, among the choices;
-- two ends, one at least and both where both are required, in order, each in the bounds and among
-- the choices; a collection of distinct values of the base type, each in the bounds and among the
-- choices; or a JSON list of a length in the limits. A spec for an order or a search accepts none.
pub validate-Accepts :
    (spec : FilterSpec) (v : Value)
    → (validate spec v ≡ accepted) ↔ ((is_none spec.field ≡ false) × Accepts spec.lookup spec v)
unfolding validate
validate-Accepts spec v = (
  λ h. elim (Bool-cases (is_none spec.field)) [
    | inl unset ↦ absurd ((no_lookup runtime_error).0 (rw unset at h))
    | inr set ↦ (set, (by_lookup-Accepts spec.lookup spec v).0 (rw set at h))
  ],
  λ h. rw h.0 ((by_lookup-Accepts spec.lookup spec v).1 h.1),
)
