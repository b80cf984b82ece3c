-- ===== src/Filtering/Litestar/Structured.antt =====
-- litestar_integration.py: that `_is_structured` finds a model wherever it stands in an annotation.
use api_template.Base.{
  ℕ, zero, suc, ◌≤◌, ◌<◌, Bool, true, false, ◌||◌, List, [], ◌∷◌, ◌≡◌, refl, sym, ◌∙◌, any, All,
  All-mono, Bool-cases, inl, inr, arith,
}
use api_template.Filtering.Litestar.Annotations.{
  Annotation, builtin, none_type, enum_class, model, generic_type, union, annotated, Arguments,
  no_argument, argument, is_none_type, sole_or, unwrap, unwrap_each, get_args, structured_base,
  is_structured_within, depth, depth_each, is_structured,
}

-- Whether a model occurs anywhere in an annotation.
abbrev mutual
  pub mentions_model : Annotation → Bool
  mentions_model (builtin b) = false
  mentions_model none_type = false
  mentions_model (enum_class values) = false
  mentions_model (model fields) = true
  mentions_model (generic_type args) = mentioned args
  mentions_model (union args) = mentioned args
  mentions_model (annotated t) = mentions_model t

  mentioned : Arguments → Bool
  mentioned no_argument = false
  mentioned (argument t args) = mentions_model t || mentioned args

none-mentions : (t : Annotation) → is_none_type t ≡ true → mentions_model t ≡ false
none-mentions none_type h = refl
none-mentions (builtin b) h = refl
none-mentions (enum_class values) h = refl
none-mentions (model fields) h = absurd (cc)
none-mentions (generic_type args) h = absurd (cc)
none-mentions (union args) h = absurd (cc)
none-mentions (annotated t) h = absurd (cc)

or_false : (b : Bool) → (b || false) ≡ b
or_false true = refl
or_false false = refl

sole_or-mentions :
    (t : Annotation) (us : List Annotation)
    → any mentions_model us ≡ mentions_model t
    → mentions_model (sole_or t us) ≡ mentions_model t
sole_or-mentions t [] h = refl
sole_or-mentions t (u ∷ []) h = sym (or_false (mentions_model u)) ∙ h
sole_or-mentions t (u ∷ v ∷ us) h = refl

mutual
  unfolding unwrap

  unwrap-mentions : (t : Annotation) → mentions_model (unwrap t) ≡ mentions_model t
  unwrap-mentions (builtin b) = refl
  unwrap-mentions none_type = refl
  unwrap-mentions (enum_class values) = refl
  unwrap-mentions (model fields) = refl
  unwrap-mentions (generic_type args) = refl
  unwrap-mentions (union args) =
      sole_or-mentions (union args) (unwrap_each args) (unwrap_each-mentions args)
  unwrap-mentions (annotated t) = unwrap-mentions t

  unwrap_each-mentions : (args : Arguments) → any mentions_model (unwrap_each args) ≡ mentioned args
  unwrap_each-mentions no_argument = refl
  unwrap_each-mentions (argument t args) = elim (Bool-cases (is_none_type t)) [
    | inl e ↦ rw (e, none-mentions t e) (unwrap_each-mentions args)
    | inr e ↦ rw (e, unwrap-mentions t, unwrap_each-mentions args) refl
  ]

sole_or-depth :
    (t : Annotation) (us : List Annotation) (n : ℕ)
    → depth t ≡ suc n
    → All (λ u. depth u ≤ n) us
    → depth (sole_or t us) ≤ depth t
sole_or-depth t [] n e h = omega arith
sole_or-depth t (u ∷ []) n e h = omega (arith, h.0)
sole_or-depth t (u ∷ v ∷ us) n e h = omega arith

mutual
  unfolding unwrap

  unwrap-depth : (t : Annotation) → depth (unwrap t) ≤ depth t
  unwrap-depth (builtin b) = omega arith
  unwrap-depth none_type = omega arith
  unwrap-depth (enum_class values) = omega arith
  unwrap-depth (model fields) = omega arith
  unwrap-depth (generic_type args) = omega arith
  unwrap-depth (union args) =
      sole_or-depth (union args) (unwrap_each args) (depth_each args) refl (unwrap_each-depth args)
  unwrap-depth (annotated t) = omega (arith, unwrap-depth t)

  unwrap_each-depth : (args : Arguments) → All (λ u. depth u ≤ depth_each args) (unwrap_each args)
  unwrap_each-depth no_argument = tt
  unwrap_each-depth (argument t args) =
      let rest : All (λ u. depth u ≤ depth_each (argument t args)) (unwrap_each args) =
        All-mono (λ u. depth u ≤ depth_each args) (λ u. depth u ≤ depth_each (argument t args))
          (unwrap_each args) (λ u h. omega (arith, h)) (unwrap_each-depth args) in
      elim (Bool-cases (is_none_type t)) [
        | inl e ↦ rw e rest
        | inr e ↦ rw e (omega (arith, unwrap-depth t), rest)
      ]

abbrev MentionsWithin : ℕ → Type 0
MentionsWithin n = (t : Annotation) → depth t < n → is_structured_within n t ≡ mentions_model t

any-mentioned :
    (n : ℕ)
    → MentionsWithin n
    → (args : Arguments) → depth_each args < n
    → any (is_structured_within n) (get_args args) ≡ mentioned args
any-mentioned n ih no_argument h = refl
any-mentioned n ih (argument t args) h =
    rw (ih t (omega (arith, h)), any-mentioned n ih args (omega (arith, h))) refl

structured_base-mentions :
    (n : ℕ)
    → MentionsWithin n
    → (t : Annotation) → depth t ≤ n
    → structured_base (is_structured_within n) t ≡ mentions_model t
structured_base-mentions n ih (builtin b) h = refl
structured_base-mentions n ih none_type h = refl
structured_base-mentions n ih (enum_class values) h = refl
structured_base-mentions n ih (model fields) h = refl
structured_base-mentions n ih (generic_type args) h = any-mentioned n ih args (omega (arith, h))
structured_base-mentions n ih (union args) h = any-mentioned n ih args (omega (arith, h))
structured_base-mentions n ih (annotated t) h =
    or_false (is_structured_within n t) ∙ ih t (omega (arith, h))

within-mentions : (n : ℕ) → MentionsWithin n
unfolding is_structured_within
within-mentions zero t h = absurd (omega (arith, h))
within-mentions (suc n) t h =
    structured_base-mentions n (within-mentions n) (unwrap t) (omega (arith, h, unwrap-depth t))
    ∙ unwrap-mentions t

-- A field is taken for structured just where a model occurs anywhere in its annotation: under any
-- Optional, Union, Annotated and generic type.
pub is_structured-mentions : (t : Annotation) → is_structured t ≡ mentions_model t
unfolding is_structured
is_structured-mentions t = within-mentions (suc (depth t)) t (omega arith)
