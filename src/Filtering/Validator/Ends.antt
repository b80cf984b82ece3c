-- ===== src/Filtering/Validator/Ends.antt =====
-- Values and bounds of one kind, and the checks of them, which end without an exception.
use api_template.Base.{
  ℕ, String, char_count, ◌≡◌, ◌≢◌, refl, Bool, not, ◌&&◌, Option, none, some, List, [], ◌∷◌, ◌++◌,
  All, Bool-cases, is_none, inl, inr, ◌⊎◌, if◌then◌else◌,
}
use api_template.Kernel.Errors.{type_error, Outcome, returned, raised}
use api_template.Kernel.Outcomes.{◌>>=◌}
use api_template.Filtering.Values.{
  ℤ, Scalar, number, boolean, member, text, date, moment, item, Value, null, scalar, sequence,
  by_number, by_text, by_date, by_moment, rank, less, negated, size,
}
use api_template.Filtering.Specs.{FilterLookup, eq, Bounds, FilterSpec}
use api_template.Filtering.Validator.Details.{BoundName, by_gt, by_gte, by_lt, by_lte, Detail}
use api_template.Filtering.Validator.Constraints.{Given}
use api_template.Filtering.Validator.Checks.{
  extend, validate_bound, above, below, validate_bounds, len_of, validate_length, validate_choices,
}
use api_template.Filtering.Validator.{failed, conclude, order_details, endpoint_details}

-- The values that Python orders among themselves.
pub data Kind : Type 0 where
  numbers texts dates moments : Kind

abbrev pub IsOf : Kind → Scalar → Type 0
IsOf numbers a = (n : ℤ) × (rank a ≡ by_number n)
IsOf texts a = (s : String) × (rank a ≡ by_text s)
IsOf dates a = (d : ℕ) × (rank a ≡ by_date d)
IsOf moments a = (t : ℕ) × (rank a ≡ by_moment t)

abbrev pub BoundsOf : Kind → Bounds → Type 0
BoundsOf k b =
    Given (IsOf k) b.gt × Given (IsOf k) b.gte × Given (IsOf k) b.lt × Given (IsOf k) b.lte

-- Only texts have limits on their length.
abbrev pub LimitsOf : Kind → Option ℕ → Option ℕ → Type 0
LimitsOf texts least most = Unit
LimitsOf numbers least most = (least ≡ none) × (most ≡ none)
LimitsOf dates least most = (least ≡ none) × (most ≡ none)
LimitsOf moments least most = (least ≡ none) × (most ≡ none)

-- What a value of a spec of a kind is, by the lookup: for a scalar filter no sequence.
abbrev pub ValueOf : Kind → FilterLookup → Value → Type 0
ValueOf k eq (sequence xs) = ⊥
ValueOf k lookup null = Unit
ValueOf k lookup (scalar a) = IsOf k a
ValueOf k lookup (sequence xs) = All (Given (IsOf k)) xs

-- A check that ends, with whatever details.
abbrev pub Ends {ℓ} : {A : Type ℓ} → Outcome A → Type ℓ
Ends {A} r = (a : A) × (r ≡ returned a)

pub less-Ends : (k : Kind) (a b : Scalar) → IsOf k a → IsOf k b → Ends (less a b)
unfolding less
less-Ends numbers a b (m, p) (n, q) = rw (p, q) (_, refl)
less-Ends texts a b (m, p) (n, q) = rw (p, q) (_, refl)
less-Ends dates a b (m, p) (n, q) = rw (p, q) (_, refl)
less-Ends moments a b (m, p) (n, q) = rw (p, q) (_, refl)

pub negated-Ends : (r : Outcome Bool) → Ends r → Ends (negated r)
unfolding negated
negated-Ends r (b, e) = rw e (not b, refl)

pub extend-Ends : (m n : Outcome (List Detail)) → Ends m → Ends n → Ends (extend m n)
unfolding extend
extend-Ends m n (ds, p) (es, q) = rw (p, q) (ds ++ es, refl)

pub conclude-Ends : (m : Outcome (List Detail)) → Ends m → conclude m ≢ failed type_error
unfolding conclude
conclude-Ends (returned []) e h = cc
conclude-Ends (returned (d ∷ ds)) e h = cc
conclude-Ends (raised x) (ds, e) h = cc

pub bound-Ends :
    (k : Kind) (spec : FilterSpec) (name : BoundName) (test : Scalar → Outcome Bool)
    (bound : Option Scalar)
    → ((b : Scalar) → IsOf k b → Ends (test b))
    → Given (IsOf k) bound
    → Ends (validate_bound spec name test bound)
unfolding validate_bound
bound-Ends k spec name test none t h = ([], refl)
bound-Ends k spec name test (some b) t h = let (x, e) = t b h in rw e (_, refl)

pub bounds-Ends :
    (k : Kind) (spec : FilterSpec) (a : Scalar)
    → BoundsOf k spec.bounds
    → IsOf k a
    → Ends (validate_bounds spec (scalar a))
unfolding validate_bounds
bounds-Ends k spec a h of =
    extend-Ends _ _
      (bound-Ends k spec by_gt (above (scalar a)) spec.bounds.gt (λ b q. less-Ends k b a q of) h.0)
      (extend-Ends _ _
        (bound-Ends k spec by_gte (λ b. negated (below (scalar a) b)) spec.bounds.gte
          (λ b q. negated-Ends (less a b) (less-Ends k a b of q)) h.1)
        (extend-Ends _ _
          (bound-Ends k spec by_lt (below (scalar a)) spec.bounds.lt (λ b q. less-Ends k a b of q)
            h.2)
          (bound-Ends k spec by_lte (λ b. negated (above (scalar a) b)) spec.bounds.lte
            (λ b q. negated-Ends (less b a) (less-Ends k b a q of)) h.3)))

pub size-Ends : (a : Scalar) → IsOf texts a → Ends (size a)
unfolding size
size-Ends (text s) h = (char_count s, refl)
size-Ends (number k n) (s, h) = absurd (cc)
size-Ends (boolean b) (s, h) = absurd (cc)
size-Ends (member enum n) (s, h) = absurd (cc)
size-Ends (date d) (s, h) = absurd (cc)
size-Ends (moment t) (s, h) = absurd (cc)
size-Ends (item i) (s, h) = absurd (cc)

-- The form of `validate_length`, for any limits.
pub measured-Ends :
    (least most : Option ℕ) (r : Outcome ℕ) (f : ℕ → List Detail)
    → ((least ≡ none) × (most ≡ none)) ⊎ Ends r
    → Ends (if is_none least && is_none most then returned [] else (r >>= λ n. returned (f n)))
measured-Ends least most r f (inl (p, q)) = rw (p, q) ([], refl)
measured-Ends least most r f (inr (n, e)) = elim (Bool-cases (is_none least && is_none most)) [
  | inl unlimited ↦ rw unlimited ([], refl)
  | inr limited ↦ rw (limited, e) (f n, refl)
]

pub limited :
    (k : Kind) (least most : Option ℕ) (a : Scalar)
    → LimitsOf k least most
    → IsOf k a
    → ((least ≡ none) × (most ≡ none)) ⊎ Ends (size a)
limited texts least most a h of = inr (size-Ends a of)
limited numbers least most a h of = inl h
limited dates least most a h of = inl h
limited moments least most a h of = inl h

pub length-Ends :
    (k : Kind) (spec : FilterSpec) (a : Scalar)
    → LimitsOf k spec.min_length spec.max_length
    → IsOf k a
    → Ends (validate_length spec (scalar a))
unfolding validate_length len_of
length-Ends k spec a h of =
    measured-Ends spec.min_length spec.max_length (size a) _
      (limited k spec.min_length spec.max_length a h of)

pub choices-Ends : (spec : FilterSpec) (v : Value) → Ends (validate_choices spec v)
unfolding validate_choices
choices-Ends spec v = (_, refl)

pub endpoint-Ends :
    (k : Kind) (spec : FilterSpec) (x : Option Scalar)
    → BoundsOf k spec.bounds
    → Given (IsOf k) x
    → Ends (endpoint_details spec x)
unfolding endpoint_details
endpoint-Ends k spec none h of = ([], refl)
endpoint-Ends k spec (some a) h of =
    extend-Ends _ _ (bounds-Ends k spec a h of) (choices-Ends spec (scalar a))

pub order-Ends :
    (k : Kind) (spec : FilterSpec) (low high : Option Scalar)
    → Given (IsOf k) low
    → Given (IsOf k) high
    → Ends (order_details spec low high)
unfolding order_details
order-Ends k spec none high p q = ([], refl)
order-Ends k spec (some low) none p q = ([], refl)
order-Ends k spec (some low) (some high) p q =
    let (b, e) = less-Ends k high low q p in rw e (_, refl)
