-- ===== src/Filtering/Litestar/Injected.antt =====
-- litestar_integration.py: what becomes of the path parameters when those of the filters are added.
use api_template.Base.{
  String, str_eq, str_eq_iff, Bool, true, false, not, Option, none, some, Option-cases, List, [],
  ◌∷◌, any, filter, filter-append, All, append-nil, Bool-cases, ◌≡◌, refl, ◌∙◌, inl, inr, arith,
}
use api_template.Kernel.Dicts.{Dict, get_item, get_item-set_item}
use api_template.Filtering.Litestar.OpenApi.{Python}
use api_template.Filtering.Litestar.Excluded.{build_query_parameters-excluded}
use api_template.Filtering.Litestar.Parameters.{
  Parameter, QueryModel, build_query_parameters, Handler, Route, http_route, other_route, Operation,
  PathItem, find_query_model, parameters_of, is_named, replace_parameters, on_operation,
  inject_methods, inject_model, inject_handlers, on_path, inject_filter_parameters,
}

filter-none : {A : Type 0} (p : A → Bool) (xs : List A) → any p xs ≡ false → filter p xs ≡ []
filter-none p [] h = refl
filter-none p (x ∷ xs) h = ground (arith, filter-none p xs)

-- What is dropped has another name.
filter-kept :
    (params : List Parameter) (name : String)
    → any (is_named name) params ≡ false
    → (xs : List Parameter)
    → filter (is_named name) (filter (λ p. not (any (is_named p.name) params)) xs)
      ≡ filter (is_named name) xs
filter-kept params name h [] = refl
filter-kept params name h (x ∷ xs) = elim (Bool-cases (str_eq x.name name)) [
  | inl e ↦
      let kept : any (is_named x.name) params ≡ false = rw ((str_eq_iff x.name name).0 e) h in
      rw (kept, e, filter-kept params name h xs) refl
  | inr e ↦ elim (Bool-cases (any (is_named x.name) params)) [
    | inl k ↦ rw (k, e, filter-kept params name h xs) refl
    | inr k ↦ rw (k, e, filter-kept params name h xs) refl
  ]
]

-- What has a new name is dropped.
filter-dropped :
    (params : List Parameter) (name : String)
    → any (is_named name) params ≡ true
    → (xs : List Parameter)
    → filter (is_named name) (filter (λ p. not (any (is_named p.name) params)) xs) ≡ []
filter-dropped params name h [] = refl
filter-dropped params name h (x ∷ xs) = elim (Bool-cases (str_eq x.name name)) [
  | inl e ↦
      let dropped : any (is_named x.name) params ≡ true = rw ((str_eq_iff x.name name).0 e) h in
      rw (dropped, filter-dropped params name h xs) refl
  | inr e ↦ elim (Bool-cases (any (is_named x.name) params)) [
    | inl k ↦ rw (k, filter-dropped params name h xs) refl
    | inr k ↦ rw (k, e, filter-dropped params name h xs) refl
  ]
]

-- The parameters of a name that is documented are the new ones.
pub replace_parameters-replaces :
    (params : List Parameter) (name : String) (operation : Operation)
    → any (is_named name) params ≡ true
    → filter (is_named name) (parameters_of (replace_parameters params operation))
      ≡ filter (is_named name) params
unfolding replace_parameters
replace_parameters-replaces params name operation h =
    rw
      (
        filter-append (is_named name)
            (filter (λ p. not (any (is_named p.name) params)) (parameters_of operation)) params,
        filter-dropped params name h (parameters_of operation),
      )
      refl

replace_parameters-keeps :
    (params : List Parameter) (name : String) (operation : Operation)
    → any (is_named name) params ≡ false
    → filter (is_named name) (parameters_of (replace_parameters params operation))
      ≡ filter (is_named name) (parameters_of operation)
unfolding replace_parameters
replace_parameters-keeps params name operation h =
    rw
      (
        filter-append (is_named name)
            (filter (λ p. not (any (is_named p.name) params)) (parameters_of operation)) params,
        filter-kept params name h (parameters_of operation),
        filter-none (is_named name) params h,
        append-nil (filter (is_named name) (parameters_of operation)),
      )
      refl

abbrev listed : Option Operation → List Parameter
listed none = []
listed (some operation) = parameters_of operation

-- The parameters of a name that an operation of a path has.
abbrev named_at : String → String → PathItem → List Parameter
named_at name method item = filter (is_named name) (listed (get_item method item))

abbrev item_of : Option PathItem → PathItem
item_of none = []
item_of (some item) = item

-- The parameters of a name that are documented for an operation: of a path, by its method.
abbrev pub documented : String → String → String → Dict PathItem → List Parameter
documented name path method paths = named_at name method (item_of (get_item path paths))

-- A route of a path has the name among its path parameters.
abbrev pub Carries : String → String → Route → Type 0
Carries name path other_route = Unit
Carries name path (http_route path_format path_parameters handlers) =
    path_format ≡ path → any (str_eq name) path_parameters ≡ true

module _ (python : Python) (lower : String → String) (name : String) where
  on_operation-keeps :
      (params : List Parameter) (changed method : String) (item : PathItem)
      → any (is_named name) params ≡ false
      → named_at name method (on_operation python lower params changed item (get_item changed item))
        ≡ named_at name method item
  unfolding on_operation
  on_operation-keeps params changed method item h = elim (Option-cases (get_item changed item)) [
    | inl e ↦ rw e refl
    | inr (operation, e) ↦
        rw (e, get_item-set_item method changed (replace_parameters params operation) item)
          (elim (Bool-cases (str_eq changed method)) [
            | inl k ↦
                let there : get_item method item ≡ some operation =
                  rw (← (str_eq_iff changed method).0 k) e in
                rw (k, there) (replace_parameters-keeps params name operation h)
            | inr k ↦ rw k refl
          ])
  ]

  inject_methods-keeps :
      (params : List Parameter) (methods : List String) (method : String) (item : PathItem)
      → any (is_named name) params ≡ false
      → named_at name method (inject_methods python lower params methods item)
        ≡ named_at name method item
  unfolding inject_methods
  inject_methods-keeps params [] method item h = refl
  inject_methods-keeps params (m ∷ methods) method item h =
      inject_methods-keeps params methods method
        (on_operation python lower params (lower m) item (get_item (lower m) item)) h
      ∙ on_operation-keeps params (lower m) method item h

  inject_model-keeps :
      (path_parameters : List String) (handler : Handler) (model : Option QueryModel)
      (method : String) (item : PathItem)
      → any (str_eq name) path_parameters ≡ true
      → str_eq "ordering" name ≡ false
      → named_at name method (inject_model python lower path_parameters handler model item)
        ≡ named_at name method item
  unfolding inject_model
  inject_model-keeps path_parameters handler none method item h k = refl
  inject_model-keeps path_parameters handler (some model) method item h k =
      inject_methods-keeps (build_query_parameters python model path_parameters)
        handler.http_methods method item
        (build_query_parameters-excluded python model path_parameters name h k)

  inject_handlers-keeps :
      (path_parameters : List String) (handlers : List Handler) (method : String) (item : PathItem)
      → any (str_eq name) path_parameters ≡ true
      → str_eq "ordering" name ≡ false
      → named_at name method (inject_handlers python lower path_parameters handlers item)
        ≡ named_at name method item
  unfolding inject_handlers
  inject_handlers-keeps path_parameters [] method item h k = refl
  inject_handlers-keeps path_parameters (handler ∷ handlers) method item h k =
      inject_handlers-keeps path_parameters handlers method
        (inject_model python lower path_parameters handler (find_query_model handler) item) h k
      ∙ inject_model-keeps path_parameters handler (find_query_model handler) method item h k

  on_path-keeps :
      (path_format : String) (path_parameters : List String) (handlers : List Handler)
      (path method : String) (paths : Dict PathItem)
      → (path_format ≡ path → any (str_eq name) path_parameters ≡ true)
      → str_eq "ordering" name ≡ false
      → documented name path method (
          on_path python lower path_format path_parameters handlers paths
            (get_item path_format paths))
        ≡ documented name path method paths
  unfolding on_path
  on_path-keeps path_format path_parameters handlers path method paths h k =
      elim (Option-cases (get_item path_format paths)) [
        | inl e ↦ rw e refl
        | inr (item, e) ↦
            rw
              (
                e,
                get_item-set_item path path_format
                    (inject_handlers python lower path_parameters handlers item) paths,
              )
              (elim (Bool-cases (str_eq path_format path)) [
                | inl t ↦
                    let same : path_format ≡ path = (str_eq_iff path_format path).0 t in
                    let there : get_item path paths ≡ some item = rw (← same) e in
                    rw (t, there)
                      (inject_handlers-keeps path_parameters handlers method item (h same) k)
                | inr t ↦ rw t refl
              ])
      ]

  -- A parameter that the routes of a path have in their path stays as it was documented: no
  -- parameter of that name is added, dropped or changed in any operation of the path, unless the
  -- name is ordering.
  pub inject_filter_parameters-keeps :
      (routes : List Route) (path method : String) (paths : Dict PathItem)
      → All (Carries name path) routes
      → str_eq "ordering" name ≡ false
      → documented name path method (inject_filter_parameters python lower routes paths)
        ≡ documented name path method paths
  unfolding inject_filter_parameters
  inject_filter_parameters-keeps [] path method paths h k = refl
  inject_filter_parameters-keeps (other_route ∷ routes) path method paths h k =
      inject_filter_parameters-keeps routes path method paths h.1 k
  inject_filter_parameters-keeps (http_route path_format path_parameters handlers ∷ routes) path
        method paths h k =
      inject_filter_parameters-keeps routes path method
        (on_path python lower path_format path_parameters handlers paths
          (get_item path_format paths))
        h.1 k
      ∙ on_path-keeps path_format path_parameters handlers path method paths h.0 k
