-- ===== src/Filtering/Validator/Members.antt =====
-- The collections that a spec accepts, said apart from the code, and that the validator accepts these.
use mathlib.Core.Logic.Iff
use api_template.Base.{
  ◌≡◌, ◌≢◌, refl, ap, ◌∙◌, ◌⊎◌, inl, inr, ◌↔◌, true, false, Option, none, some, List, [], ◌∷◌, ◌++◌,
  map, All, arith, Bool-cases, is_none, all, any, not, ◌||◌, if◌then◌else◌,
}
use api_template.Kernel.Errors.{returned}
use api_template.Filtering.Values.{
  Scalar, Value, null, scalar, sequence, listed, same, is_instance, BaseType,
}
use api_template.Filtering.Specs.{FilterSpec}
use api_template.Filtering.Validator.Details.{invalid_value_detail}
use api_template.Filtering.Validator.Constraints.{extends}
use api_template.Filtering.Validator.Accepts.{
  Allowed, conclude-accepted, absent-accepted, endpoint-EndAllowed, refused,
}
use api_template.Filtering.Validator.{
  accepted, conclude, present, member_details, duplicates, duplicate_details, collection_details,
  validate_members, validate_collection,
}

-- No two places hold the same value.
abbrev pub Distinct : List Scalar → Type 0
Distinct [] = Unit
Distinct (a ∷ xs) = All (λ x. same x a ≡ false) xs × Distinct xs

-- Absent, or values alone: of the base type, allowed, and distinct, also where the spec does not
-- ask that they be unique.
abbrev pub AcceptsMembers : FilterSpec → List (Option Scalar) → Type 0
AcceptsMembers spec xs =
    ((all is_none xs ≡ true) × (spec.required ≡ false))
    ⊎ ((a : Scalar) × (rest : List Scalar) × (xs ≡ map some (a ∷ rest))
        × All (λ x. is_instance x spec.base_type ≡ true) (a ∷ rest)
        × All (Allowed spec) (a ∷ rest)
        × Distinct (a ∷ rest))

abbrev pub AcceptsCollection : FilterSpec → Value → Type 0
AcceptsCollection spec null = spec.required ≡ false
AcceptsCollection spec (scalar a) = ⊥
AcceptsCollection spec (sequence xs) = AcceptsMembers spec xs

grown-ne :
    (a : Scalar) (found : List Scalar) → (if listed a found then found else found ++ a ∷ []) ≢ []
unfolding listed
grown-ne a [] h = cc
grown-ne a (b ∷ found) h = elim (Bool-cases (listed a (b ∷ found))) [
  | inl e ↦ let g : b ∷ found ≡ [] = rw e at h in cc
  | inr e ↦ let g : b ∷ (found ++ a ∷ []) ≡ [] = rw e at h in cc
]

-- Not in a list with one member more.
unseen_there :
    (a : Scalar) (seen xs : List Scalar)
    → All (λ x. listed x (a ∷ seen) ≡ false) xs
    → All (λ x. same x a ≡ false) xs × All (λ x. listed x seen ≡ false) xs
unfolding listed
unseen_there a seen [] h = (tt, tt)
unseen_there a seen (x ∷ xs) h =
    let ih = unseen_there a seen xs h.1 in
    let head : (same x a || any (same x) seen) ≡ false = h.0 in
    ((ground arith, ih.0), (ground arith, ih.1))

unseen_back :
    (a : Scalar) (seen xs : List Scalar)
    → All (λ x. same x a ≡ false) xs
    → All (λ x. listed x seen ≡ false) xs
    → All (λ x. listed x (a ∷ seen) ≡ false) xs
unfolding listed
unseen_back a seen [] h k = tt
unseen_back a seen (x ∷ xs) h k = (rw h.0 k.0, unseen_back a seen xs h.1 k.1)

unrepeated_there :
    (seen found xs : List Scalar)
    → duplicates seen found xs ≡ []
    → (found ≡ []) × All (λ x. listed x seen ≡ false) xs × Distinct xs
unfolding duplicates
unrepeated_there seen found [] h = (h, tt, tt)
unrepeated_there seen found (a ∷ xs) h = elim (Bool-cases (listed a seen)) [
  | inl e ↦
      let g : duplicates seen (if listed a found then found else found ++ a ∷ []) xs ≡ [] =
        rw e at h in
      absurd (
        grown-ne a found
          (unrepeated_there seen (if listed a found then found else found ++ a ∷ []) xs g).0)
  | inr e ↦
      let g : duplicates (a ∷ seen) found xs ≡ [] = rw e at h in
      let ih = unrepeated_there (a ∷ seen) found xs g in
      let split = unseen_there a seen xs ih.1 in (ih.0, (e, split.1), (split.0, ih.2))
]

unrepeated_back :
    (seen xs : List Scalar)
    → All (λ x. listed x seen ≡ false) xs
    → Distinct xs
    → duplicates seen [] xs ≡ []
unfolding duplicates
unrepeated_back seen [] h d = refl
unrepeated_back seen (a ∷ xs) h d =
    rw h.0 (unrepeated_back (a ∷ seen) xs (unseen_back a seen xs d.0 h.1) d.1)

unseen_nil : (xs : List Scalar) → All (λ x. listed x [] ≡ false) xs
unfolding listed
unseen_nil [] = tt
unseen_nil (x ∷ xs) = (refl, unseen_nil xs)

duplicate_details-none :
    (spec : FilterSpec) (found : List Scalar)
    → (returned (duplicate_details spec found) ≡ returned []) ↔ (found ≡ [])
duplicate_details-none spec [] = (λ h. refl, λ h. refl)
duplicate_details-none spec (a ∷ found) = (λ h. absurd (cc), λ h. absurd (cc))

duplicates-Distinct : (xs : List Scalar) → (duplicates [] [] xs ≡ []) ↔ Distinct xs
duplicates-Distinct xs =
    (λ h. (unrepeated_there [] [] xs h).2, λ d. unrepeated_back [] xs (unseen_nil xs) d)

member_details-Allowed :
    (spec : FilterSpec) (xs : List Scalar)
    → (member_details spec xs ≡ returned []) ↔ All (Allowed spec) xs
unfolding member_details
member_details-Allowed spec [] = (λ h. tt, λ h. refl)
member_details-Allowed spec (a ∷ xs) =
    extends (endpoint-EndAllowed spec (some a)) (member_details-Allowed spec xs)

collection_details-Fits :
    (spec : FilterSpec) (xs : List Scalar)
    → (conclude (collection_details spec xs) ≡ accepted) ↔ (All (Allowed spec) xs × Distinct xs)
unfolding collection_details
collection_details-Fits spec xs = Iff.trans (conclude-accepted (collection_details spec xs)) (
    extends (member_details-Allowed spec xs)
      (Iff.trans (duplicate_details-none spec (duplicates [] [] xs)) (duplicates-Distinct xs)))

typed_there :
    (t : BaseType) (xs : List Scalar)
    → any (λ a. not (is_instance a t)) xs ≡ false
    → All (λ a. is_instance a t ≡ true) xs
typed_there t [] h = tt
typed_there t (a ∷ xs) h = (ground arith, typed_there t xs (ground arith))

typed_back :
    (t : BaseType) (xs : List Scalar)
    → All (λ a. is_instance a t ≡ true) xs
    → any (λ a. not (is_instance a t)) xs ≡ false
typed_back t [] h = refl
typed_back t (a ∷ xs) h = rw h.0 (typed_back t xs h.1)

present_all : (xs : List (Option Scalar)) → any is_none xs ≡ false → xs ≡ map some (present xs)
unfolding present
present_all [] h = refl
present_all (none ∷ xs) h = absurd (cc)
present_all (some a ∷ xs) h = ap (λ t. some a ∷ t) (present_all xs h)

present-map : (xs : List Scalar) → present (map some xs) ≡ xs
unfolding present
present-map [] = refl
present-map (a ∷ xs) = ap (λ t. a ∷ t) (present-map xs)

any-map-some : (xs : List Scalar) → any is_none (map some xs) ≡ false
any-map-some [] = refl
any-map-some (a ∷ xs) = any-map-some xs

members_nonempty :
    (spec : FilterSpec) (xs : List (Option Scalar)) (ys : List Scalar)
    → all is_none xs ≡ false
    → xs ≡ map some ys
    → All (λ x. is_instance x spec.base_type ≡ true) ys
    → All (Allowed spec) ys × Distinct ys
    → AcceptsMembers spec xs
members_nonempty spec xs [] some_value e typed fits =
    absurd (let g : all {A = Option Scalar} is_none [] ≡ false = rw e at some_value in cc)
members_nonempty spec xs (a ∷ rest) some_value e typed fits =
    inr (a, rest, e, typed, fits.0, fits.1)

members_there :
    (spec : FilterSpec) (xs : List (Option Scalar))
    → validate_members spec xs ≡ accepted
    → AcceptsMembers spec xs
unfolding validate_members
members_there spec xs h = elim (Bool-cases (all is_none xs)) [
  | inl absent_all ↦ inl (absent_all, (absent-accepted spec).0 (rw absent_all at h))
  | inr some_value ↦ elim (Bool-cases (any is_none xs)) [
    | inl gap ↦ absurd ((refused (invalid_value_detail spec ∷ [])).0 (rw (some_value, gap) at h))
    | inr full ↦ elim (Bool-cases (any (λ a. not (is_instance a spec.base_type)) (present xs))) [
      | inl untyped ↦
          absurd
            ((refused (invalid_value_detail spec ∷ [])).0 (rw (some_value, full, untyped) at h))
      | inr typed ↦
          members_nonempty spec xs (present xs) some_value (present_all xs full)
            (typed_there spec.base_type (present xs) typed)
            ((collection_details-Fits spec (present xs)).0 (rw (some_value, full, typed) at h))
    ]
  ]
]

members_of :
    (spec : FilterSpec) (a : Scalar) (rest : List Scalar)
    → All (λ x. is_instance x spec.base_type ≡ true) (a ∷ rest)
    → All (Allowed spec) (a ∷ rest) × Distinct (a ∷ rest)
    → validate_members spec (map some (a ∷ rest)) ≡ accepted
unfolding validate_members
members_of spec a rest typed fits =
    rw (any-map-some rest, present-map rest, typed.0, typed_back spec.base_type rest typed.1)
      ((collection_details-Fits spec (a ∷ rest)).1 fits)

members_back :
    (spec : FilterSpec) (xs : List (Option Scalar))
    → AcceptsMembers spec xs
    → validate_members spec xs ≡ accepted
unfolding validate_members
members_back spec xs (inl (absent_all, optional)) =
    rw absent_all ((absent-accepted spec).1 optional)
members_back spec xs (inr (a, rest, e, typed, allowed, distinct)) =
    ap (validate_members spec) e ∙ members_of spec a rest typed (allowed, distinct)

pub validate_collection-Accepts :
    (spec : FilterSpec) (v : Value)
    → (validate_collection spec v ≡ accepted) ↔ AcceptsCollection spec v
unfolding validate_collection
validate_collection-Accepts spec null = absent-accepted spec
validate_collection-Accepts spec (scalar a) = refused (invalid_value_detail spec ∷ [])
validate_collection-Accepts spec (sequence xs) = (members_there spec xs, members_back spec xs)
