-- ===== src/Filtering/Litestar/Bound.antt =====
-- litestar_integration.py: `path_bound_query`, which builds a query model from the query string, the
-- body and the path. The values and the model's own validation are not code of this repository.
use api_template.Base.{
  String, text_append, Option, none, some, is_none, List, [], ◌∷◌, map, if◌then◌else◌,
}
use api_template.Kernel.Errors.{Exn}
use api_template.Kernel.Texts.{is_empty}
use api_template.Kernel.Dicts.{Dict, set_item, get_item, update}

-- What `request.json()` gives: it raises, or gives an object, whose values may be null, or another
-- value.
pub data Body (V : Type 0) : Type 0 where
  unreadable : Body V
  object : List (String × Option V) → Body V
  not_an_object : Body V

pub record Request (V : Type 0) : Type 0 where
  pub method : String
  pub url : String
  pub query_params : List (String × V)
  pub body : Body V
  pub path_params : List (String × V)

-- An error of pydantic: where it is, and what it says.
pub record FieldError : Type 0 where
  pub loc : List String
  pub msg : String

pub record ErrorEntry : Type 0 where
  pub key : String
  pub message : String

-- The dependency gives a model, raises a ValidationException, or lets another exception through.
pub data Bound (Q : Type 0) : Type 0 where
  bound : Q → Bound Q
  invalid : (detail : String) → (extra : List ErrorEntry) → Bound Q
  escaped : Exn → Bound Q

pub data Validated (Q : Type 0) : Type 0 where
  valid : Q → Validated Q
  errors : List FieldError → Validated Q
  failing : Exn → Validated Q

-- `{k: v for k, v in body.items() if v is not None}`
unfoldable pub non_null {ℓ} : {V : Type ℓ} → List (String × Option V) → List (String × V)
non_null [] = []
non_null ((k, none) ∷ items) = non_null items
non_null ((k, some v) ∷ items) = (k, v) ∷ non_null items

module _ {V : Type 0} where
  -- `dict()` over a MultiDict: the first value of each key.
  abbrev pub keep_first : Dict V → List (String × V) → Dict V
  keep_first d [] = d
  keep_first d ((k, v) ∷ pairs) =
      keep_first (if is_none (get_item k d) then set_item k v d else d) pairs

  unfoldable pub merge_body : Dict V → Body V → Dict V
  unfolding non_null update
  merge_body raw unreadable = raw
  merge_body raw (object items) = update raw (non_null items)
  merge_body raw not_an_object = raw

  -- `raw` as the model is validated from.
  unfoldable pub merge_sources : Request V → Dict V
  unfolding merge_body update get_item set_item
  merge_sources r = update (merge_body (keep_first [] r.query_params) r.body) r.path_params

-- `".".join(str(p) for p in loc)`
unfoldable pub dotted : List String → String
dotted [] = ""
dotted (p ∷ []) = p
dotted (p ∷ q ∷ ps) = text_append p (text_append "." (dotted (q ∷ ps)))

unfoldable pub error_entry : FieldError → ErrorEntry
unfolding dotted is_empty
error_entry e = record {
  key = if is_empty (dotted e.loc) then "detail" else dotted e.loc;
  message = e.msg;
}

module _ {V Q : Type 0} (model_validate : Dict V → Validated Q) where
  abbrev pub bind_answer : Request V → Validated Q → Bound Q
  bind_answer r (valid q) = bound q
  bind_answer r (failing e) = escaped e
  bind_answer r (errors es) =
      invalid (text_append "Validation failed for " (text_append r.method (text_append " " r.url)))
        (map error_entry es)

  -- `_dependency`
  unfoldable pub path_bound_query : Request V → Bound Q
  unfolding merge_sources error_entry
  path_bound_query r = bind_answer r (model_validate (merge_sources r))
