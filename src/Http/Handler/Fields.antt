-- ===== src/Http/Handler/Fields.antt =====
-- What an exception with several details, each with a field and a message, is told.
use api_template.Base.{String, true, none, some, List, [], ◌∷◌, map, all, ◌≡◌, refl}
use api_template.Kernel.Errors.{Message, returned}
use api_template.Kernel.Dicts.{Dict, get_item, update, last_or, get_item-update}
use api_template.Http.Errors.{
  Detail, AppException, app_exception, by_field, field_message, has_field_message, format_many,
  format_details, format_app_exception,
}
use api_template.Http.Handler.{Host, Request, exception_handler}

module _ {P : Type 0} (host : Host P) (request : Request) where
  -- An exception with two details or more, all of them with a field and a message, is answered by
  -- the status 400, whatever its own, and by one message for each field: that of its last detail.
  pub exception_handler-fields :
      (e : AppException P) (c d : Detail P) (ds : List (Detail P))
      → e.details ≡ some (c ∷ d ∷ ds)
      → all has_field_message (c ∷ d ∷ ds) ≡ true
      → (told : Dict Message) × ((exception_handler host request (app_exception e)).1
          ≡ returned (record { status_code = 400; content = by_field told }))
        × ((field : String)
            → get_item field told ≡ last_or field none (map field_message (c ∷ d ∷ ds)))
  unfolding exception_handler format_app_exception format_details format_many get_item
  exception_handler-fields e c d ds given whole = (
    update [] (map field_message (c ∷ d ∷ ds)),
    rw (given, whole) refl,
    λ field. get_item-update field [] (map field_message (c ∷ d ∷ ds)),
  )
