-- ===== src/Filtering/Litestar/Tests.antt =====
-- The theorems on query models at concrete models, requests and documents, and runs of the code.
use api_template.Base.{ℕ, String, true, false, Option, none, some, List, [], ◌∷◌, ◌≡◌, refl, ◌↔◌}
use api_template.Kernel.Dicts.{Dict, get_item}
use api_template.Filtering.Values.{pos, int, decimal, Scalar, number, numeric_type}
use api_template.Filtering.Specs.{eq, FilterSpec, default_spec}
use api_template.Filtering.Parser.{unrelated}
use api_template.Filtering.Litestar.Annotations.{
  Builtin, builtin, none_type, model, generic_type, union, annotated, Annotation, no_argument,
  argument, no_field, field, is_structured,
}
use api_template.Filtering.Litestar.Structured.{mentions_model, is_structured-mentions}
use api_template.Filtering.Litestar.OpenApi.{openapi_integer, schema_of, Python, schema_for_spec}
use api_template.Filtering.Litestar.Parameters.{
  Parameter, ModelField, QueryModel, base_model, not_a_model, Handler, Route, http_route,
  other_route, PathItem, inject_filter_parameters,
}
use api_template.Filtering.Litestar.Injected.{documented, inject_filter_parameters-keeps}
use api_template.Filtering.Litestar.Bound.{
  object, Request, bound, Validated, valid, path_bound_query,
}
use api_template.Filtering.Litestar.Sources.{source_of, path_bound_query-sources}

-- Optional[Annotated[list[Item], ...]]
abbrev items : Annotation
items = union (
    argument
      (annotated
        (generic_type (argument (model (field "id" (builtin Builtin.int) no_field)) no_argument)))
      (argument none_type no_argument))

is_structured-mentions_example : is_structured items ≡ mentions_model items
is_structured-mentions_example = is_structured-mentions items

structured_run : is_structured items ≡ true
unfolding is_structured
structured_run = refl

flat_run :
    is_structured (union (argument (builtin Builtin.str) (argument none_type no_argument))) ≡ false
unfolding is_structured
flat_run = refl

abbrev python : Python
python = record {
  item_model = items;
  enum_values = λ enum. [];
  class_name = λ base. "Item";
  str_number = λ n. "2";
  str_scalar = λ a. "a";
  dumps_one = λ item. "[{}]";
}

-- A price from 1 up, below 10, given as decimals.
abbrev price : FilterSpec
price = record (default_spec (numeric_type int)) {
  field = some "price";
  bounds = record {
    gt = none;
    gte = some (number decimal (pos 1));
    lt = some (number decimal (pos 10));
    lte = none;
  };
}

abbrev three : Scalar
three = number int (pos 3)

documented_bounds_run : (schema_for_spec python eq price).minimum ≡ some (number int (pos 1))
unfolding schema_for_spec
documented_bounds_run = refl

abbrev plain_field : String → Builtin → ModelField
plain_field name b = record {
  name = name;
  annotation = builtin b;
  metadata = unrelated ∷ [];
  is_required = false;
  description = none;
}

-- A list of the objects of an owner: the owner is in the path, the name in the query string.
abbrev owned : QueryModel
owned = record {
  is_ordering = true;
  is_query = true;
  allowed_fields = "name" ∷ [];
  model_fields = plain_field "owner" Builtin.int ∷ plain_field "name" Builtin.str ∷ [];
}

abbrev in_path : Parameter
in_path = record {
  name = "owner";
  param_in = "path";
  style = none;
  schema = schema_of openapi_integer none;
  description = none;
  required = true;
  explode = none;
  example = none;
}

abbrev opaque : Parameter
opaque = record in_path { name = "name"; param_in = "query" }

abbrev handler : Handler
handler = record {
  signature = some (not_a_model ∷ base_model owned ∷ []);
  http_methods = "get" ∷ [];
}

abbrev routes : List Route
routes = other_route ∷ http_route "/owners/{owner}" ("owner" ∷ []) (handler ∷ []) ∷ []

abbrev paths : Dict PathItem
paths = ("/owners/{owner}", ("get", some (in_path ∷ opaque ∷ [])) ∷ []) ∷ []

inject_filter_parameters-keeps_example :
    documented "owner" "/owners/{owner}" "get"
      (inject_filter_parameters python (λ m. m) routes paths)
    ≡ documented "owner" "/owners/{owner}" "get" paths
inject_filter_parameters-keeps_example =
    inject_filter_parameters-keeps python (λ m. m) "owner" routes "/owners/{owner}" "get" paths
      (tt, (λ h. refl, tt)) refl

abbrev names_of : List Parameter → List String
names_of [] = []
names_of (p ∷ ps) = p.name ∷ names_of ps

abbrev names_at : Option PathItem → List String
names_at (some ((method, some ps) ∷ rest)) = names_of ps
names_at item = []

injected_run :
    names_at (get_item "/owners/{owner}" (inject_filter_parameters python (λ m. m) routes paths))
    ≡ "owner" ∷ "ordering" ∷ "name" ∷ []
unfolding inject_filter_parameters
injected_run = refl

abbrev request : Request ℕ
request = record {
  method = "POST";
  url = "/owners/7";
  query_params = ("owner", 1) ∷ ("limit", 5) ∷ ("limit", 6) ∷ ("name", 2) ∷ [];
  body = object (("name", some 3) ∷ ("limit", none) ∷ []);
  path_params = ("owner", 7) ∷ [];
}

-- A model that takes any values.
abbrev model_validate : Dict ℕ → Validated (Dict ℕ)
model_validate raw = valid raw

bound_run :
    path_bound_query model_validate request ≡ bound (("owner", 7) ∷ ("limit", 5) ∷ ("name", 3) ∷ [])
unfolding path_bound_query
bound_run = refl

path_bound_query-sources_example :
    (raw : Dict ℕ) × ((key : String) → get_item key raw ≡ source_of key request)
    × ((q : Dict ℕ)
        → (path_bound_query model_validate request ≡ bound q) ↔ (model_validate raw ≡ valid q))
path_bound_query-sources_example = path_bound_query-sources model_validate request
