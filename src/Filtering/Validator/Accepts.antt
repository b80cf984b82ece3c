-- ===== src/Filtering/Validator/Accepts.antt =====
-- The values that a spec accepts, said apart from the code, and that the validator accepts these.
use mathlib.Core.Logic.Iff
use api_template.Base.{
  ◌≡◌, refl, ◌↔◌, Bool, true, false, Option, none, some, List, [], ◌∷◌, arith, if◌then◌else◌,
}
use api_template.Kernel.Errors.{Outcome, returned, raised}
use api_template.Kernel.Outcomes.{◌>>=◌}
use api_template.Filtering.Values.{Scalar, Value, null, scalar, sequence, less}
use api_template.Filtering.Specs.{FilterSpec}
use api_template.Filtering.Validator.Details.{Detail, required_detail, range_order_detail}
use api_template.Filtering.Validator.Constraints.{
  InBounds, LengthIn, Chosen, extends, validate_bounds-InBounds, validate_length-LengthIn,
  validate_choices-Chosen,
}
use api_template.Filtering.Validator.{
  accepted, rejected, conclude, absent, scalar_details, validate_scalar, order_details,
  endpoint_details, range_details, validate_ends, validate_range,
}

-- A value, or an end of a range, or a member of a collection, in its bounds and among the choices.
abbrev pub Allowed : FilterSpec → Scalar → Type 0
Allowed spec a = InBounds spec.bounds (scalar a) × Chosen spec.choices (scalar a)

abbrev pub ScalarFits : FilterSpec → Value → Type 0
ScalarFits spec v =
    InBounds spec.bounds v × (LengthIn spec.min_length spec.max_length v × Chosen spec.choices v)

abbrev pub AcceptsScalar : FilterSpec → Value → Type 0
AcceptsScalar spec null = spec.required ≡ false
AcceptsScalar spec (scalar a) = ScalarFits spec (scalar a)
AcceptsScalar spec (sequence xs) = ScalarFits spec (sequence xs)

abbrev pub EndAllowed : FilterSpec → Option Scalar → Type 0
EndAllowed spec none = Unit
EndAllowed spec (some a) = Allowed spec a

-- The ends that are given are allowed; there is one, or both where both are required, and then
-- the higher is not below the lower.
abbrev pub AcceptsEnds : FilterSpec → Option Scalar → Option Scalar → Type 0
AcceptsEnds spec none none = ⊥
AcceptsEnds spec (some low) none = (spec.both_required ≡ false) × Allowed spec low
AcceptsEnds spec none (some high) = (spec.both_required ≡ false) × Allowed spec high
AcceptsEnds spec (some low) (some high) =
    (less high low ≡ returned false) × (Allowed spec low × Allowed spec high)

abbrev pub AcceptsRange : FilterSpec → Value → Type 0
AcceptsRange spec null = spec.required ≡ false
AcceptsRange spec (scalar a) = ⊥
AcceptsRange spec (sequence []) = ⊥
AcceptsRange spec (sequence (low ∷ [])) = ⊥
AcceptsRange spec (sequence (low ∷ high ∷ [])) = AcceptsEnds spec low high
AcceptsRange spec (sequence (low ∷ high ∷ x ∷ xs)) = ⊥

pub conclude-accepted : (m : Outcome (List Detail)) → (conclude m ≡ accepted) ↔ (m ≡ returned [])
unfolding conclude
conclude-accepted (returned []) = (λ h. refl, λ h. refl)
conclude-accepted (returned (d ∷ ds)) = (λ h. absurd (cc), λ h. absurd (cc))
conclude-accepted (raised e) = (λ h. absurd (cc), λ h. absurd (cc))

pub absent-accepted : (spec : FilterSpec) → (absent spec ≡ accepted) ↔ (spec.required ≡ false)
unfolding absent
absent-accepted spec = (λ h. ground arith, λ h. ground arith)

pub scalar_details-Fits :
    (spec : FilterSpec) (v : Value)
    → (conclude (scalar_details spec v) ≡ accepted) ↔ ScalarFits spec v
unfolding scalar_details
scalar_details-Fits spec v = Iff.trans (conclude-accepted (scalar_details spec v)) (
    extends (validate_bounds-InBounds spec v)
      (extends (validate_length-LengthIn spec v) (validate_choices-Chosen spec v)))

pub validate_scalar-Accepts :
    (spec : FilterSpec) (v : Value) → (validate_scalar spec v ≡ accepted) ↔ AcceptsScalar spec v
unfolding validate_scalar
validate_scalar-Accepts spec null = absent-accepted spec
validate_scalar-Accepts spec (scalar a) = scalar_details-Fits spec (scalar a)
validate_scalar-Accepts spec (sequence xs) = scalar_details-Fits spec (sequence xs)

pub endpoint-EndAllowed :
    (spec : FilterSpec) (x : Option Scalar)
    → (endpoint_details spec x ≡ returned []) ↔ EndAllowed spec x
unfolding endpoint_details
endpoint-EndAllowed spec none = (λ h. tt, λ h. refl)
endpoint-EndAllowed spec (some a) =
    extends (validate_bounds-InBounds spec (scalar a)) (validate_choices-Chosen spec (scalar a))

right_order :
    (d : Detail) (r : Outcome Bool)
    → ((r >>= λ wrong. returned (if wrong then d ∷ [] else [])) ≡ returned [])
      ↔ (r ≡ returned false)
right_order d (returned true) = (λ h. absurd (cc), λ h. absurd (cc))
right_order d (returned false) = (λ h. refl, λ h. refl)
right_order d (raised e) = (λ h. absurd (cc), λ h. absurd (cc))

one_end :
    (spec : FilterSpec) (b : Bool) {P : Type 0} (m : Outcome (List Detail))
    → ((m ≡ returned []) ↔ P)
    → ((if b then rejected (required_detail spec ∷ []) else conclude m) ≡ accepted)
      ↔ ((b ≡ false) × P)
one_end spec true m p = (λ h. absurd (cc), λ h. absurd (cc (h.0)))
one_end spec false m p =
    (λ h. (refl, p.0 ((conclude-accepted m).0 h)), λ h. (conclude-accepted m).1 (p.1 h.1))

validate_ends-Accepts :
    (spec : FilterSpec) (low high : Option Scalar)
    → (validate_ends spec low high ≡ accepted) ↔ AcceptsEnds spec low high
unfolding validate_ends range_details order_details
validate_ends-Accepts spec none none = (λ h. cc, λ h. elim h [ ])
validate_ends-Accepts spec (some low) none =
    one_end spec spec.both_required (range_details spec (some low) none) (
      Iff.trans
        (extends Iff.rfl
          (extends (endpoint-EndAllowed spec (some low)) (endpoint-EndAllowed spec none)))
        (λ h. h.1.0, λ h. (refl, (h, tt))))
validate_ends-Accepts spec none (some high) =
    one_end spec spec.both_required (range_details spec none (some high)) (
      Iff.trans
        (extends Iff.rfl
          (extends (endpoint-EndAllowed spec none) (endpoint-EndAllowed spec (some high))))
        (λ h. h.1.1, λ h. (refl, (tt, h))))
validate_ends-Accepts spec (some low) (some high) =
    Iff.trans (conclude-accepted (range_details spec (some low) (some high))) (
      extends (right_order (range_order_detail spec low high) (less high low))
        (extends (endpoint-EndAllowed spec (some low)) (endpoint-EndAllowed spec (some high))))

pub refused : (ds : List Detail) → (rejected ds ≡ accepted) ↔ ⊥
refused ds = (λ h. cc, λ h. elim h [ ])

pub validate_range-Accepts :
    (spec : FilterSpec) (v : Value) → (validate_range spec v ≡ accepted) ↔ AcceptsRange spec v
unfolding validate_range
validate_range-Accepts spec null = absent-accepted spec
validate_range-Accepts spec (scalar a) = refused _
validate_range-Accepts spec (sequence []) = refused _
validate_range-Accepts spec (sequence (low ∷ [])) = refused _
validate_range-Accepts spec (sequence (low ∷ high ∷ [])) = validate_ends-Accepts spec low high
validate_range-Accepts spec (sequence (low ∷ high ∷ x ∷ xs)) = refused _
