-- ===== src/Filtering/Litestar/Sources.antt =====
-- litestar_integration.py: which source of a request each key of a bound query model comes from.
use api_template.Base.{
  String, str_eq, str_eq_iff, Option, none, some, Option-cases, List, [], ◌∷◌, Bool-cases, ◌≡◌,
  refl, ap, ◌∙◌, ◌↔◌, inl, inr, if◌then◌else◌,
}
use api_template.Kernel.Dicts.{
  Dict, set_item, get_item, last_or, get_item-set_item, get_item-update,
}
use api_template.Filtering.Litestar.Bound.{
  Body, unreadable, object, not_an_object, Request, bound, Validated, valid, errors, failing,
  non_null, keep_first, merge_body, merge_sources, bind_answer, path_bound_query,
}

-- Where the value of a key comes from, said apart from the code: the path if it has the key, else a
-- value of the body that is not null, else the first one of the query string.
module _ {V : Type 0} where
  abbrev pub or_else : Option V → Option V → Option V
  or_else none o = o
  or_else (some v) o = some v

  abbrev last_given : String → Option V → List (String × Option V) → Option V
  last_given key found [] = found
  last_given key found ((k, none) ∷ items) = last_given key found items
  last_given key found ((k, some v) ∷ items) =
      last_given key (if str_eq k key then some v else found) items

  abbrev in_body : String → Body V → Option V
  in_body key unreadable = none
  in_body key (object items) = last_given key none items
  in_body key not_an_object = none

  abbrev pub source_of : String → Request V → Option V
  source_of key r =
      or_else (last_or key none r.path_params)
        (or_else (in_body key r.body) (get_item key r.query_params))

  or_else-none : (o : Option V) → o ≡ or_else o none
  or_else-none none = refl
  or_else-none (some v) = refl

  or_else-given :
      (o : Option V) (v : V) (found : Option V)
      → or_else o (some v) ≡ or_else (or_else o (some v)) found
  or_else-given none v found = refl
  or_else-given (some w) v found = refl

  last_or-else :
      (key : String) (found : Option V) (pairs : List (String × V))
      → last_or key found pairs ≡ or_else (last_or key none pairs) found
  last_or-else key found [] = refl
  last_or-else key found ((k, v) ∷ pairs) = elim (Bool-cases (str_eq k key)) [
    | inl e ↦
        rw e (rw (last_or-else key (some v) pairs) (or_else-given (last_or key none pairs) v found))
    | inr e ↦ rw e (last_or-else key found pairs)
  ]

  last_or-non_null :
      (key : String) (found : Option V) (items : List (String × Option V))
      → last_or key found (non_null items) ≡ last_given key found items
  unfolding non_null
  last_or-non_null key found [] = refl
  last_or-non_null key found ((k, none) ∷ items) = last_or-non_null key found items
  last_or-non_null key found ((k, some v) ∷ items) =
      last_or-non_null key (if str_eq k key then some v else found) items

  -- A first value set where there was none, and one that is passed over.
  kept_new :
      (key k : String) (v : V) (d : Dict V) (rest : Option V)
      → get_item k d ≡ none
      → or_else (get_item key (set_item k v d)) rest
        ≡ or_else (get_item key d) (if str_eq k key then some v else rest)
  kept_new key k v d rest h = elim (Bool-cases (str_eq k key)) [
    | inl e ↦
        let unset : get_item key d ≡ none = rw (← (str_eq_iff k key).0 e) h in
        rw (get_item-set_item key k v d, e, unset) refl
    | inr e ↦ rw (get_item-set_item key k v d, e) refl
  ]

  kept_old :
      (key k : String) (v w : V) (d : Dict V) (rest : Option V)
      → get_item k d ≡ some w
      → or_else (get_item key d) rest
        ≡ or_else (get_item key d) (if str_eq k key then some v else rest)
  kept_old key k v w d rest h = elim (Bool-cases (str_eq k key)) [
    | inl e ↦
        let found : get_item key d ≡ some w = rw (← (str_eq_iff k key).0 e) h in rw (e, found) refl
    | inr e ↦ rw e refl
  ]

  get_item-keep_first :
      (key : String) (d : Dict V) (pairs : List (String × V))
      → get_item key (keep_first d pairs) ≡ or_else (get_item key d) (get_item key pairs)
  unfolding get_item
  get_item-keep_first key d [] = or_else-none (get_item key d)
  get_item-keep_first key d ((k, v) ∷ pairs) = elim (Option-cases (get_item k d)) [
    | inl e ↦
        rw e (
          get_item-keep_first key (set_item k v d) pairs
          ∙ kept_new key k v d (get_item key pairs) e)
    | inr (w, e) ↦
        rw e (get_item-keep_first key d pairs ∙ kept_old key k v w d (get_item key pairs) e)
  ]

  merge_body-source :
      (key : String) (raw : Dict V) (body : Body V)
      → get_item key (merge_body raw body) ≡ or_else (in_body key body) (get_item key raw)
  unfolding merge_body
  merge_body-source key raw unreadable = refl
  merge_body-source key raw (object items) =
      get_item-update key raw (non_null items)
      ∙ (last_or-else key (get_item key raw) (non_null items)
          ∙ ap (λ o. or_else o (get_item key raw)) (last_or-non_null key none items))
  merge_body-source key raw not_an_object = refl

  merge_sources-source :
      (key : String) (r : Request V) → get_item key (merge_sources r) ≡ source_of key r
  unfolding merge_sources
  merge_sources-source key r =
      let first : Dict V = keep_first [] r.query_params in
      let raw : Dict V = merge_body first r.body in
      get_item-update key raw r.path_params
      ∙ (last_or-else key (get_item key raw) r.path_params
          ∙ ap (or_else (last_or key none r.path_params)) (
              merge_body-source key first r.body
              ∙ ap (or_else (in_body key r.body)) (get_item-keep_first key [] r.query_params)))

module _ {V Q : Type 0} where
  bind_answer-valid :
      (model_validate : Dict V → Validated Q) (r : Request V) (result : Validated Q) (q : Q)
      → (bind_answer model_validate r result ≡ bound q) ↔ (result ≡ valid q)
  bind_answer-valid model_validate r (valid p) q =
      (λ h. (let same : p ≡ q = cc in ap valid same), λ h. (let same : p ≡ q = cc in ap bound same))
  bind_answer-valid model_validate r (errors es) q = (λ h. absurd (cc), λ h. absurd (cc))
  bind_answer-valid model_validate r (failing e) q = (λ h. absurd (cc), λ h. absurd (cc))

  -- A route is given a model just where that is validated from values of which each comes from the
  -- path where the path has its key, else from the body where that is an object with a value for it
  -- that is not null, else from the first value of the query string, and no other key has a value.
  pub path_bound_query-sources :
      (model_validate : Dict V → Validated Q) (r : Request V)
      → (raw : Dict V) × ((key : String) → get_item key raw ≡ source_of key r)
        × ((q : Q) → (path_bound_query model_validate r ≡ bound q) ↔ (model_validate raw ≡ valid q))
  unfolding path_bound_query
  path_bound_query-sources model_validate r = (
    merge_sources r,
    λ key. merge_sources-source key r,
    λ q. bind_answer-valid model_validate r (model_validate (merge_sources r)) q,
  )
