-- ===== src/Filtering/Factories/Refused.antt =====
-- What a filter of Booleans is left with.
use api_template.Base.{String, ◌≡◌, refl, Bool, true, false, Option, [], ◌∷◌}
use api_template.Filtering.Values.{same, Scalar, scalar}
use api_template.Filtering.Factories.{boolean}
use api_template.Filtering.Validator.Details.{choices_detail}
use api_template.Filtering.Validator.{rejected, validate}
use api_template.Filtering.Meta.{with_field}

-- A filter that `boolean` makes refuses every Boolean, with a detail of its choices: these are the
-- texts of the two values.
pub boolean-refuses :
    (required : Bool) (description : Option String) (name : String) (b : Bool)
    → validate (with_field (boolean required description) name) (scalar (Scalar.boolean b))
      ≡ rejected (choices_detail (with_field (boolean required description) name) ∷ [])
unfolding validate with_field boolean choices_detail same
boolean-refuses required description name true = refl
boolean-refuses required description name false = refl
