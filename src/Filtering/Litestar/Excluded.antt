-- ===== src/Filtering/Litestar/Excluded.antt =====
-- litestar_integration.py: that a path parameter is not documented as a parameter of the query.
use api_template.Base.{
  String, str_eq, str_eq_iff, Bool, true, false, ◌||◌, Option-cases, List, [], ◌∷◌, ◌++◌, any,
  Bool-cases, ◌≡◌, refl, inl, inr, arith, if◌then◌else◌,
}
use api_template.Filtering.Parser.{extract_spec}
use api_template.Filtering.Litestar.OpenApi.{Python}
use api_template.Filtering.Litestar.Parameters.{
  ModelField, QueryModel, param_for_ordering, documented_field, field_parameters, each_field,
  build_query_parameters, is_named,
}

any-append :
    {A : Type 0} (p : A → Bool) (xs ys : List A) → any p (xs ++ ys) ≡ (any p xs || any p ys)
any-append p [] ys = refl
any-append p (x ∷ xs) ys = ground (arith, any-append p xs ys)

module _ (python : Python) where
  documented_field-name :
      (f : ModelField) → (documented_field python f (extract_spec f.metadata)).name ≡ f.name
  unfolding documented_field
  documented_field-name f = elim (Option-cases (extract_spec f.metadata)) [
    | inl e ↦ rw e refl
    | inr (spec, e) ↦ rw e refl
  ]

  field_parameters-excluded :
      (model : QueryModel) (exclude : List String) (name : String) (f : ModelField)
      → any (str_eq name) exclude ≡ true
      → any (is_named name) (field_parameters python model exclude f) ≡ false
  unfolding field_parameters
  field_parameters-excluded model exclude name f h = elim (Bool-cases (str_eq f.name name)) [
    | inl e ↦
        let excluded : any (str_eq f.name) exclude ≡ true = rw ((str_eq_iff f.name name).0 e) h in
        ground arith
    | inr e ↦
        let name_e : (documented_field python f (extract_spec f.metadata)).name ≡ f.name =
          documented_field-name f in
        ground arith
  ]

  each_field-excluded :
      (model : QueryModel) (exclude : List String) (name : String) (fs : List ModelField)
      → any (str_eq name) exclude ≡ true
      → any (is_named name) (each_field python model exclude fs) ≡ false
  unfolding each_field
  each_field-excluded model exclude name [] h = refl
  each_field-excluded model exclude name (f ∷ fs) h =
      rw
        (
          any-append (is_named name) (field_parameters python model exclude f)
              (each_field python model exclude fs),
          field_parameters-excluded model exclude name f h,
          each_field-excluded model exclude name fs h,
        )
        refl

  -- A path parameter is not among the parameters that a model is documented by, unless it is called
  -- ordering.
  pub build_query_parameters-excluded :
      (model : QueryModel) (exclude : List String) (name : String)
      → any (str_eq name) exclude ≡ true
      → str_eq "ordering" name ≡ false
      → any (is_named name) (build_query_parameters python model exclude) ≡ false
  unfolding build_query_parameters param_for_ordering
  build_query_parameters-excluded model exclude name h k =
      let rest : any (is_named name) (each_field python model exclude model.model_fields) ≡ false =
        each_field-excluded model exclude name model.model_fields h in
      rw
        (
          any-append (is_named name)
              (if model.is_ordering then param_for_ordering model ∷ [] else [])
              (each_field python model exclude model.model_fields),
          rest,
        )
        (elim (Bool-cases model.is_ordering) [ inl e ↦ rw (e, k) refl | inr e ↦ rw e refl ])
