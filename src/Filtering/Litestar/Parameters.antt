-- ===== src/Filtering/Litestar/Parameters.antt =====
-- litestar_integration.py: the parameters that document a query model, and their place in the OpenAPI
-- document of the application.
use api_template.Base.{
  String, text_append, str_eq, Bool, true, false, not, ◌&&◌, Option, none, some, List, [], ◌∷◌,
  ◌++◌, any, filter, if◌then◌else◌,
}
use api_template.Kernel.Dicts.{Dict, get_item, set_item}
use api_template.Filtering.Specs.{FilterLookup, json, FilterSpec}
use api_template.Filtering.Parser.{Metadata, extract_spec}
use api_template.Filtering.Litestar.Annotations.{Annotation, is_structured}
use api_template.Filtering.Litestar.OpenApi.{
  openapi_string, Schema, schema_of, comma_separated, Python, schema_for_spec, schema_for_plain,
}

pub record Parameter : Type 0 where
  pub name : String
  pub param_in : String
  pub style : Option String
  pub schema : Schema
  pub description : Option String
  pub required : Bool
  pub explode : Option Bool
  pub example : Option String

-- A field of a query model, as pydantic describes it.
pub record ModelField : Type 0 where
  pub name : String
  pub annotation : Annotation
  pub metadata : List Metadata
  pub is_required : Bool
  pub description : Option String

-- A model, with whether it is a subclass of OrderingQueryMixin, and of that, FilterMeta or Query.
pub record QueryModel : Type 0 where
  pub is_ordering : Bool
  pub is_query : Bool
  pub allowed_fields : List String
  pub model_fields : List ModelField

abbrev ordering_description : List String → String
unfolding comma_separated
ordering_description allowed =
    text_append
      "comma separated fields for ordering. char `-` in beginning of field for setting direction to `desc`. otherwise, to `asc`. **Allowed fields**: "
      (comma_separated allowed)

-- `_param_for_ordering`
unfoldable pub param_for_ordering : QueryModel → Parameter
unfolding ordering_description
param_for_ordering model = record {
  name = "ordering";
  param_in = "query";
  style = some "query";
  schema = record (schema_of openapi_string none) {
    title = some "ordering";
    examples = some ("-created_at" ∷ "-created_at,name" ∷ "name,-created_at" ∷ []);
    description = some (ordering_description model.allowed_fields);
  };
  description = some (ordering_description model.allowed_fields);
  required = false;
  explode = some false;
  example = some "-created_at,name";
}

abbrev pub is_json : FilterLookup → Bool
is_json json = true
is_json lookup = false

-- `spec is None or spec.lookup is not FilterLookupEnum.JSON`
abbrev pub not_json : Option FilterSpec → Bool
not_json none = true
not_json (some spec) = not (is_json spec.lookup)

module _ (python : Python) where
  unfoldable pub documented_field : ModelField → Option FilterSpec → Parameter
  unfolding schema_for_spec schema_for_plain
  documented_field f none = record {
    name = f.name;
    param_in = "query";
    style = none;
    schema = schema_for_plain python f.annotation;
    description = f.description;
    required = f.is_required;
    explode = none;
    example = none;
  }
  documented_field f (some spec) = record {
    name = f.name;
    param_in = "query";
    style = none;
    schema = schema_for_spec python spec.lookup spec;
    description = spec.description;
    required = f.is_required;
    explode = none;
    example = none;
  }

  -- One turn of the loop over the fields.
  unfoldable pub field_parameters :
      QueryModel → (exclude : List String) → ModelField → List Parameter
  unfolding documented_field is_structured extract_spec
  field_parameters model exclude f =
      if str_eq f.name "ordering" && model.is_ordering
      then []
      else if any (str_eq f.name) exclude
      then []
      else if is_structured f.annotation && not_json (extract_spec f.metadata)
      then []
      else documented_field f (extract_spec f.metadata) ∷ []

  unfoldable pub each_field :
      QueryModel → (exclude : List String) → List ModelField → List Parameter
  unfolding field_parameters
  each_field model exclude [] = []
  each_field model exclude (f ∷ fs) =
      field_parameters model exclude f ++ each_field model exclude fs

  -- `_build_query_parameters`
  unfoldable pub build_query_parameters : QueryModel → (exclude : List String) → List Parameter
  unfolding param_for_ordering each_field
  build_query_parameters model exclude =
      (if model.is_ordering then param_for_ordering model ∷ [] else [])
      ++ each_field model exclude model.model_fields

-- The annotation of a parameter of a handler: a model, or anything else.
pub data TypeDef : Type 0 where
  base_model : QueryModel → TypeDef
  not_a_model : TypeDef

pub record Handler : Type 0 where
  -- the signature, where it is parsed
  pub signature : Option (List TypeDef)
  pub http_methods : List String

pub data Route : Type 0 where
  http_route :
      (path_format : String) → (path_parameters : List String) → (handlers : List Handler) → Route
  other_route : Route

-- The parameters of an operation, which may be missing; the operations of a path by their methods.
abbrev pub Operation : Type 0
Operation = Option (List Parameter)

abbrev pub PathItem : Type 0
PathItem = Dict Operation

unfoldable pub first_query_model : List TypeDef → Option QueryModel
first_query_model [] = none
first_query_model (base_model model ∷ rest) =
    let later = first_query_model rest in if model.is_query then some model else later
first_query_model (not_a_model ∷ rest) = first_query_model rest

-- `_find_query_model`
unfoldable pub find_query_model : Handler → Option QueryModel
unfolding first_query_model
find_query_model handler = elim handler.signature [
  | none ↦ none
  | some parameters ↦ first_query_model parameters
]

abbrev pub parameters_of : Operation → List Parameter
parameters_of none = []
parameters_of (some ps) = ps

abbrev pub is_named : String → Parameter → Bool
is_named name p = str_eq p.name name

-- `kept + params`
unfoldable pub replace_parameters : List Parameter → Operation → Operation
replace_parameters params operation =
    some (filter (λ p. not (any (is_named p.name) params)) (parameters_of operation) ++ params)

module _ (python : Python) (lower : String → String) where
  unfoldable pub on_operation : List Parameter → String → PathItem → Option Operation → PathItem
  unfolding replace_parameters set_item
  on_operation params method item none = item
  on_operation params method item (some operation) =
      set_item method (replace_parameters params operation) item

  unfoldable pub inject_methods : List Parameter → List String → PathItem → PathItem
  unfolding on_operation get_item
  inject_methods params [] item = item
  inject_methods params (method ∷ methods) item =
      inject_methods params methods
        (on_operation params (lower method) item (get_item (lower method) item))

  unfoldable pub inject_model :
      (path_parameters : List String) → Handler → Option QueryModel → PathItem → PathItem
  unfolding inject_methods build_query_parameters
  inject_model path_parameters handler none item = item
  inject_model path_parameters handler (some model) item =
      inject_methods (build_query_parameters python model path_parameters) handler.http_methods item

  unfoldable pub inject_handlers :
      (path_parameters : List String) → List Handler → PathItem → PathItem
  unfolding inject_model find_query_model
  inject_handlers path_parameters [] item = item
  inject_handlers path_parameters (handler ∷ handlers) item =
      inject_handlers path_parameters handlers
        (inject_model path_parameters handler (find_query_model handler) item)

  unfoldable pub on_path :
      String → List String → List Handler → Dict PathItem → Option PathItem → Dict PathItem
  unfolding inject_handlers set_item
  on_path path_format path_parameters handlers paths none = paths
  on_path path_format path_parameters handlers paths (some item) =
      set_item path_format (inject_handlers path_parameters handlers item) paths

  -- `inject_filter_parameters`, on the paths of the document.
  unfoldable pub inject_filter_parameters : List Route → Dict PathItem → Dict PathItem
  unfolding on_path get_item
  inject_filter_parameters [] paths = paths
  inject_filter_parameters (other_route ∷ routes) paths = inject_filter_parameters routes paths
  inject_filter_parameters (http_route path_format path_parameters handlers ∷ routes) paths =
      inject_filter_parameters routes
        (on_path path_format path_parameters handlers paths (get_item path_format paths))
