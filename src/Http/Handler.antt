-- ===== src/Http/Handler.antt =====
-- api/http/middlewares/exception_middleware.py: `exception_handler`, which emits a telemetry event
-- and answers, by the class of the exception.
pub mod Told
pub mod Alerts
pub mod Fields
use api_template.Base.{
  ℕ, ◌-◌, zero, suc, String, text_append, char_count, ltb, leb, Bool, true, false, Option, none,
  some, List, [], ◌∷◌, if◌then◌else◌,
}
use Prim.Native.String
use api_template.Kernel.Errors.{Exn, Outcome, returned, raised}
use api_template.Kernel.Outcomes.{◌>>=◌}
use api_template.Kernel.Texts.{is_empty}
use api_template.Telemetry.Composer.{TelemetryEvent, kind_log}
use api_template.Http.Errors.{
  AppException, HttpException, Failure, app_exception, validation_error, http_exception, unexpected,
  Content, by_location, http_content, debug_content, detail_text, format_app_exception,
  format_validation_error,
}

-- What the handler asks of Python, of the two regular expressions of the mask, and of the sink of
-- the events, each of which may raise.
pub record Host (P : Type 0) : Type 0 where
  pub current_service : String
  pub text_of : Failure P → Outcome String
  pub traceback_of : Failure P → Outcome String
  pub mask_text : String → Outcome String
  pub sink : TelemetryEvent → Outcome (Unit {0})
  pub should_debug : Bool

pub record Request : Type 0 where
  pub url : String
  pub method : String

pub record Response (P : Type 0) : Type 0 where
  pub status_code : ℕ
  pub content : Content P

-- `msg[:n]`
unfoldable pub first_chars : ℕ → String → String
first_chars zero s = ""
first_chars (suc n) String.[] = ""
first_chars (suc n) (String.◌∷◌ c s) = String.◌∷◌ c (first_chars n s)

abbrev pub unless_empty : String → Option String
unless_empty s = if is_empty s then none else some s

-- The text of an unexpected exception as it is shown.
unfoldable pub shortened : String → String
unfolding first_chars
shortened msg = if ltb 500 (char_count msg) then text_append (first_chars 497 msg) "..." else msg

-- The `try` of `_emit_error_event`: an exception means that there is no event.
abbrev pub swallowed : Outcome TelemetryEvent → List TelemetryEvent
swallowed (returned event) = event ∷ []
swallowed (raised e) = []

-- The level of the event for a response with this status.
abbrev pub level_of : (status_code : ℕ) → String
level_of status_code = if leb 500 status_code then "ERROR" else "WARNING"

module _ {P : Type 0} (host : Host P) (request : Request) where
  open host use {current_service, text_of, traceback_of, mask_text, sink, should_debug}

  abbrev pub error_event : (status_code : ℕ) → (level message : String) → TelemetryEvent
  error_event status_code level message = record {
    service = current_service;
    level = level;
    kind = kind_log;
    url = some request.url;
    status_code = some status_code;
    message = some message;
  }

  -- `_emit_error_event`, with the events that have reached the sink.
  unfoldable pub emit_error_event :
      Failure P → (status_code : ℕ) → (level : String) → List TelemetryEvent
  emit_error_event exc status_code level = swallowed (do
    said ← text_of exc
    message ← mask_text said
    stack ← traceback_of exc
    traceback ← mask_text stack
    done ← sink (error_event status_code level message)
    returned (error_event status_code level message))

  -- A handler's answer, or the exception in which making it ends.
  abbrev pub answer : (status_code : ℕ) → Outcome (Content P) → Outcome (Response P)
  answer status_code (returned content) =
      returned (record { status_code = status_code; content = content })
  answer status_code (raised e) = raised e

  unfoldable pub internal_content : String → Content P
  unfolding shortened is_empty
  internal_content message =
      if should_debug
      then debug_content (unless_empty (shortened message)) request.url request.method
      else detail_text "Internal Server Error"

  -- `exception_handler`: the events that it has emitted, and its response.
  unfoldable pub exception_handler : Failure P → List TelemetryEvent × Outcome (Response P)
  unfolding emit_error_event format_app_exception format_validation_error internal_content
  exception_handler (app_exception e) = (
    emit_error_event (app_exception e) 400 "WARNING",
    answer 400 (format_app_exception e e.details),
  )
  exception_handler (validation_error errors) = (
    emit_error_event (validation_error errors) 422 "WARNING",
    answer 422 (returned (by_location (format_validation_error errors))),
  )
  exception_handler (http_exception h) = (
    emit_error_event (http_exception h) h.status_code (level_of h.status_code),
    answer h.status_code
        (returned (http_content (unless_empty h.detail) h.extra (some h.status_code))),
  )
  exception_handler (unexpected message) = (
    emit_error_event (unexpected message) 500 "ERROR",
    answer 500 (returned (internal_content message)),
  )
