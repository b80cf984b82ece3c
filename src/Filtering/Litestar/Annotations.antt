-- ===== src/Filtering/Litestar/Annotations.antt =====
-- litestar_integration.py: `_unwrap` and `_is_structured` on the annotations of a query model.
use api_template.Base.{
  ℕ, zero, suc, max, String, Bool, true, false, List, [], ◌∷◌, any, if◌then◌else◌,
}
use api_template.Filtering.Values.{Scalar}

-- The classes that the code looks up: those of a column, or any other.
pub data Builtin : Type 0 where
  decimal int float bool date datetime str other_class : Builtin

-- An annotation: a class, which may be a model, or an enumeration with the values of its members; a
-- generic type with its arguments; a union; or `Annotated`, whose metadata plays no part here.
mutual
  pub data Annotation : Type 0 where
    builtin : Builtin → Annotation
    none_type : Annotation
    enum_class : (values : List Scalar) → Annotation
    model : Fields → Annotation
    generic_type : Arguments → Annotation
    union : Arguments → Annotation
    annotated : Annotation → Annotation

  pub data Arguments : Type 0 where
    no_argument : Arguments
    argument : Annotation → Arguments → Arguments

  -- The names of a model's fields with their annotations.
  pub data Fields : Type 0 where
    no_field : Fields
    field : String → Annotation → Fields → Fields

abbrev pub is_none_type : Annotation → Bool
is_none_type none_type = true
is_none_type t = false

-- The only member of a list, or else the annotation itself.
abbrev pub sole_or : Annotation → List Annotation → Annotation
sole_or t [] = t
sole_or t (u ∷ []) = u
sole_or t (u ∷ v ∷ us) = t

-- `_unwrap`, and its results on the arguments of a union that are not None.
unfoldable mutual
  pub unwrap : Annotation → Annotation
  unwrap (builtin b) = builtin b
  unwrap none_type = none_type
  unwrap (enum_class values) = enum_class values
  unwrap (model fields) = model fields
  unwrap (generic_type args) = generic_type args
  unwrap (union args) = sole_or (union args) (unwrap_each args)
  unwrap (annotated t) = unwrap t

  pub unwrap_each : Arguments → List Annotation
  unwrap_each no_argument = []
  unwrap_each (argument t args) =
      let rest = unwrap_each args in let u = unwrap t in if is_none_type t then rest else u ∷ rest

-- `get_args`
abbrev pub get_args : Arguments → List Annotation
get_args no_argument = []
get_args (argument t args) = t ∷ get_args args

-- `_is_structured`, called again on the arguments of a type that has an origin.
abbrev pub structured_base : (Annotation → Bool) → Annotation → Bool
structured_base again (model fields) = true
structured_base again (generic_type args) = any again (get_args args)
structured_base again (union args) = any again (get_args args)
structured_base again (builtin b) = false
structured_base again none_type = false
structured_base again (enum_class values) = false
structured_base again (annotated t) = any again (t ∷ [])

unfoldable pub is_structured_within : ℕ → Annotation → Bool
unfolding unwrap
is_structured_within zero t = false
is_structured_within (suc n) t = structured_base (is_structured_within n) (unwrap t)

-- How deep types stand in each other.
abbrev mutual
  pub depth : Annotation → ℕ
  depth (builtin b) = 0
  depth none_type = 0
  depth (enum_class values) = 0
  depth (model fields) = 0
  depth (generic_type args) = suc (depth_each args)
  depth (union args) = suc (depth_each args)
  depth (annotated t) = suc (depth t)

  pub depth_each : Arguments → ℕ
  depth_each no_argument = 0
  depth_each (argument t args) = max (depth t) (depth_each args)

-- `_is_structured`: no call goes deeper than the annotation.
unfoldable pub is_structured : Annotation → Bool
unfolding is_structured_within
is_structured t = is_structured_within (suc (depth t)) t
