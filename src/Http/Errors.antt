-- ===== src/Http/Errors.antt =====
-- api/http/middlewares/exception_middleware.py, with the exception of
-- shared_kernel/errors/app_exception.py: the response to an exception, and the telemetry event that
-- goes with it. The text of an exception, its masking and the sink of events are given.
use api_template.Base.{
  ℕ, String, str_eq, text_append, Bool, true, false, not, ◌&&◌, Option, none, some, List, [], ◌∷◌,
  map, all, if◌then◌else◌,
}
use api_template.Kernel.Errors.{
  StatusCode, AppExceptionDetail, Message, text, formatted, type_error, Outcome, returned, raised,
}
use api_template.Kernel.Outcomes.{◌>>=◌}
use api_template.Kernel.Dicts.{Dict, update}
use api_template.Kernel.Texts.{is_empty}

-- A detail, whose payload is a dict or None.
abbrev pub Detail : Type 0 → Type 0
Detail P = AppExceptionDetail (Option (Dict P))

-- `AppException`, as it is made: `details` is a list that may be empty, or was not given.
pub record AppException (P : Type 0) : Type 0 where
  pub message : String
  pub details : Option (List (Detail P))
  pub exception_status : Option StatusCode
  pub status_code : Option ℕ

-- An error of a pydantic model: where it is, and what it says.
pub record FieldError : Type 0 where
  pub loc : List String
  pub msg : String

pub record HttpException (P : Type 0) : Type 0 where
  pub status_code : ℕ
  pub detail : String
  pub extra : Option P

-- What ends a request: by its class, in the order in which the handler asks for it.
pub data Failure (P : Type 0) : Type 0 where
  app_exception : AppException P → Failure P
  validation_error : List FieldError → Failure P
  http_exception : HttpException P → Failure P
  unexpected : (message : String) → Failure P

-- What stands under a key of a payload: the two keys that are set first, or a value of the payload.
pub data Item (P : Type 0) : Type 0 where
  message_item : Option Message → Item P
  status_item : StatusCode → Item P
  value_item : P → Item P

-- The body of a response.
pub data Content (P : Type 0) : Type 0 where
  -- {field: message, "payload": {...}}; where the field is "payload", only that
  field_and_payload : (field : String) → Option Message → Dict (Item P) → Content P
  only_payload : Dict (Item P) → Content P
  -- {"detail": ...}
  detail_message : Message → Content P
  detail_text : String → Content P
  -- `model_dump()`, and a list of them
  dumped : Detail P → Content P
  all_dumped : List (Detail P) → Content P
  -- {field: message, ...}
  by_field : Dict Message → Content P
  by_location : Dict String → Content P
  -- detail, extra and status_code, without what is empty
  http_content : (detail : Option String) → Option P → (status_code : Option ℕ) → Content P
  -- the text of an exception, unless it is empty, which only a debug environment shows
  debug_content : (detail : Option String) → (url method : String) → Content P

-- `not message`
unfoldable pub is_blank : Option Message → Bool
unfolding is_empty
is_blank none = true
is_blank (some (text s)) = is_empty s
is_blank (some (formatted before n after)) = false

unfoldable pub is_blank_text : Option String → Bool
unfolding is_empty
is_blank_text none = true
is_blank_text (some s) = is_empty s

abbrev message_or : Message → Option Message → Message
message_or m none = m
message_or m (some n) = n

abbrev text_or : Option String → String
text_or none = ""
text_or (some s) = s

module _ {P : Type 0} where
  -- `{"message": ..., "status": ..., **payload}`; `**None` is a TypeError.
  unfoldable pub payload_of : Detail P → Option (Dict P) → Outcome (Dict (Item P))
  unfolding update
  payload_of d none = raised type_error
  payload_of d (some payload) = returned (
      update (("message", message_item d.message) ∷ ("status", status_item d.status) ∷ [])
        (map (λ (k, v). (k, value_item v)) payload))

  abbrev with_payload : String → Option Message → Dict (Item P) → Content P
  with_payload field message payload =
      if str_eq field "payload"
      then only_payload payload
      else field_and_payload field message payload

  abbrev dump_or_message : Detail P → Option Message → Content P
  dump_or_message d none = dumped d
  dump_or_message d (some m) = if is_blank (some m) then dumped d else detail_message m

  -- The branch of a single detail.
  unfoldable pub format_one : Detail P → Outcome (Content P)
  unfolding payload_of is_blank is_blank_text
  format_one d = if is_blank_text d.field then returned (dump_or_message d d.message) else do
    payload ← payload_of d d.payload
    returned (with_payload (text_or d.field) d.message payload)

  -- `d.field and d.message`
  unfoldable pub has_field_message : Detail P → Bool
  unfolding is_blank is_blank_text
  has_field_message d = not (is_blank_text d.field) && not (is_blank d.message)

  abbrev pub field_message : Detail P → String × Message
  field_message d = (text_or d.field, message_or (text "") d.message)

  -- The branch of several details.
  unfoldable pub format_many : List (Detail P) → Content P
  unfolding has_field_message update
  format_many ds =
      if all has_field_message ds
      then by_field (update [] (map field_message ds))
      else all_dumped ds

  unfoldable pub format_details : String → List (Detail P) → Outcome (Content P)
  unfolding format_one format_many
  format_details message [] = returned (detail_text message)
  format_details message (d ∷ []) = format_one d
  format_details message (d ∷ e ∷ ds) = returned (format_many (d ∷ e ∷ ds))

  -- `_format_app_exception`
  unfoldable pub format_app_exception :
      AppException P → Option (List (Detail P)) → Outcome (Content P)
  unfolding format_details
  format_app_exception e none = returned (detail_text e.message)
  format_app_exception e (some ds) = format_details e.message ds

unfoldable pub join_dots : List String → String
join_dots [] = ""
join_dots (s ∷ []) = s
join_dots (s ∷ t ∷ ss) = text_append s (text_append "." (join_dots (t ∷ ss)))

abbrev location : String → String
location s = if is_empty s then "detail" else s

-- `_format_validation_error`
unfoldable pub format_validation_error : List FieldError → Dict String
unfolding join_dots update is_empty
format_validation_error errors = update [] (map (λ e. (location (join_dots e.loc), e.msg)) errors)
