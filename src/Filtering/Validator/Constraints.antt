-- ===== src/Filtering/Validator/Constraints.antt =====
-- What the constraints of a spec say of a value; and that the checks find nothing just there.
use api_template.Base.{
  ℕ, ◌≤◌, ◌≡◌, refl, ◌↔◌, Bool, true, false, Option, none, some, List, [], ◌∷◌, arith, is_none,
  ◌||◌, ◌&&◌, if◌then◌else◌,
}
use mathlib.Core.Logic.Iff
use api_template.Kernel.Errors.{Outcome, returned, raised}
use api_template.Kernel.Outcomes.{◌>>=◌}
use api_template.Filtering.Values.{Scalar, Value, negated}
use api_template.Filtering.Specs.{Bounds, FilterSpec}
use api_template.Filtering.Validator.Details.{
  BoundName, by_gt, by_gte, by_lt, by_lte, Detail, bound_detail, length_detail, choices_detail,
}
use api_template.Filtering.Validator.Checks.{
  extend, validate_bound, too_short, too_long, choices_of, above, below, validate_bounds, len_of,
  validate_length, is_choice, validate_choices,
}

-- `P` of what is given, if it is.
abbrev pub Given {ℓ} : {A : Type ℓ} → (A → Type 0) → Option A → Type 0
Given P none = Unit
Given P (some a) = P a

-- Above `gt`, not below `gte`, below `lt`, not above `lte`.
abbrev pub InBounds : Bounds → Value → Type 0
InBounds b v =
    Given (λ x. above v x ≡ returned true) b.gt
    × (Given (λ x. below v x ≡ returned false) b.gte
        × (Given (λ x. below v x ≡ returned true) b.lt
            × Given (λ x. above v x ≡ returned false) b.lte))

-- Where a length is bounded, the value has one, within the bounds.
abbrev pub LengthIn : Option ℕ → Option ℕ → Value → Type 0
LengthIn none none v = Unit
LengthIn (some least) none v = (n : ℕ) × (len_of v ≡ returned n) × (least ≤ n)
LengthIn none (some most) v = (n : ℕ) × (len_of v ≡ returned n) × (n ≤ most)
LengthIn (some least) (some most) v = (n : ℕ) × (len_of v ≡ returned n) × (least ≤ n) × (n ≤ most)

abbrev pub Chosen : Option (List Scalar) → Value → Type 0
Chosen choices v = Given (λ cs. is_choice v cs ≡ true) choices

extend-none_there :
    (m n : Outcome (List Detail)) → extend m n ≡ returned [] → (m ≡ returned []) × (n ≡ returned [])
unfolding extend
extend-none_there (returned []) (returned []) h = (refl, refl)
extend-none_there (returned []) (returned (e ∷ es)) h = absurd (cc)
extend-none_there (returned []) (raised x) h = absurd (cc)
extend-none_there (returned (d ∷ ds)) (returned es) h = absurd (cc)
extend-none_there (returned (d ∷ ds)) (raised x) h = absurd (cc)
extend-none_there (raised x) n h = absurd (cc)

-- Details put together are none just where each are none.
extend-none :
    (m n : Outcome (List Detail))
    → (extend m n ≡ returned []) ↔ ((m ≡ returned []) × (n ≡ returned []))
unfolding extend
extend-none m n = (extend-none_there m n, λ h. rw (h.0, h.1) refl)

pub extends {κ η} :
    {P : Type κ} {Q : Type η} {m n : Outcome (List Detail)}
    → ((m ≡ returned []) ↔ P)
    → ((n ≡ returned []) ↔ Q)
    → (extend m n ≡ returned []) ↔ (P × Q)
extends {m = m} {n = n} p q = Iff.trans (extend-none m n) (Iff.and p q)

test_true :
    (spec : FilterSpec) (name : BoundName) (r : Outcome Bool)
    → ((r >>= λ holds. returned (if holds then [] else bound_detail spec name ∷ [])) ≡ returned [])
      ↔ (r ≡ returned true)
test_true spec name (returned true) = (λ h. refl, λ h. refl)
test_true spec name (returned false) = (λ h. absurd (cc), λ h. absurd (cc))
test_true spec name (raised e) = (λ h. absurd (cc), λ h. absurd (cc))

negated-true : (r : Outcome Bool) → (negated r ≡ returned true) ↔ (r ≡ returned false)
unfolding negated
negated-true (returned true) = (λ h. absurd (cc), λ h. absurd (cc))
negated-true (returned false) = (λ h. refl, λ h. refl)
negated-true (raised e) = (λ h. absurd (cc), λ h. absurd (cc))

bound_true :
    (spec : FilterSpec) (name : BoundName) (test : Scalar → Outcome Bool) (bound : Option Scalar)
    → (validate_bound spec name test bound ≡ returned [])
      ↔ Given (λ x. test x ≡ returned true) bound
unfolding validate_bound
bound_true spec name test none = (λ h. tt, λ h. refl)
bound_true spec name test (some x) = test_true spec name (test x)

bound_false :
    (spec : FilterSpec) (name : BoundName) (test : Scalar → Outcome Bool) (bound : Option Scalar)
    → (validate_bound spec name (λ x. negated (test x)) bound ≡ returned [])
      ↔ Given (λ x. test x ≡ returned false) bound
unfolding validate_bound
bound_false spec name test none = (λ h. tt, λ h. refl)
bound_false spec name test (some x) =
    Iff.trans (test_true spec name (negated (test x))) (negated-true (test x))

-- A value has no detail of its bounds just where it is in them.
pub validate_bounds-InBounds :
    (spec : FilterSpec) (v : Value)
    → (validate_bounds spec v ≡ returned []) ↔ InBounds spec.bounds v
unfolding validate_bounds
validate_bounds-InBounds spec v = extends (bound_true spec by_gt (above v) spec.bounds.gt) (
    extends (bound_false spec by_gte (below v) spec.bounds.gte) (
      extends (bound_true spec by_lt (below v) spec.bounds.lt)
        (bound_false spec by_lte (above v) spec.bounds.lte)))

length_spec :
    (spec : FilterSpec) (r : Outcome ℕ) (short long : ℕ → Bool)
    → ((r >>= λ n. returned (if short n || long n then length_detail spec ∷ [] else []))
        ≡ returned [])
      ↔ ((n : ℕ) × (r ≡ returned n) × (short n ≡ false) × (long n ≡ false))
length_spec spec (returned n) short long = (
  λ h. (n, refl, ground arith, ground arith),
  λ h.
      let e : n ≡ h.0 = cc in
      let s : short n ≡ false = rw e h.2 in let l : long n ≡ false = rw e h.3 in rw (s, l) refl,
)
length_spec spec (raised e) short long = (λ h. absurd (cc), λ h. absurd (cc (h.1)))

length_lem :
    (spec : FilterSpec) (least most : Option ℕ) (v : Value)
    → ((if is_none least && is_none most
          then returned []
          else (len_of v >>= λ n.
              returned
                (if too_short least n || too_long most n then length_detail spec ∷ [] else [])))
        ≡ returned [])
      ↔ LengthIn least most v
unfolding too_short too_long
length_lem spec none none v = (λ h. tt, λ h. refl)
length_lem spec (some a) none v =
    Iff.trans (length_spec spec (len_of v) (λ n. too_short (some a) n) (λ n. too_long none n))
      (λ h. (h.0, h.1, ground arith), λ h. (h.0, h.1, ground arith, refl))
length_lem spec none (some b) v =
    Iff.trans (length_spec spec (len_of v) (λ n. too_short none n) (λ n. too_long (some b) n))
      (λ h. (h.0, h.1, ground arith), λ h. (h.0, h.1, refl, ground arith))
length_lem spec (some a) (some b) v =
    Iff.trans (length_spec spec (len_of v) (λ n. too_short (some a) n) (λ n. too_long (some b) n))
      (λ h. (h.0, h.1, ground arith, ground arith), λ h. (h.0, h.1, ground arith, ground arith))

pub validate_length-LengthIn :
    (spec : FilterSpec) (v : Value)
    → (validate_length spec v ≡ returned []) ↔ LengthIn spec.min_length spec.max_length v
unfolding validate_length
validate_length-LengthIn spec v = length_lem spec spec.min_length spec.max_length v

choice_spec :
    (spec : FilterSpec) (b : Bool)
    → (returned (if b then [] else choices_detail spec ∷ []) ≡ returned []) ↔ (b ≡ true)
choice_spec spec true = (λ h. refl, λ h. refl)
choice_spec spec false = (λ h. absurd (cc), λ h. absurd (cc))

choices_lem :
    (spec : FilterSpec) (v : Value) (choices : Option (List Scalar))
    → (returned (choices_of spec v choices) ≡ returned []) ↔ Chosen choices v
choices_lem spec v none = (λ h. tt, λ h. refl)
choices_lem spec v (some cs) = choice_spec spec (is_choice v cs)

pub validate_choices-Chosen :
    (spec : FilterSpec) (v : Value)
    → (validate_choices spec v ≡ returned []) ↔ Chosen spec.choices v
unfolding validate_choices
validate_choices-Chosen spec v = choices_lem spec v spec.choices
