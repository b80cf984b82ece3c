-- ===== src/Http/Tests.antt =====
-- Exceptions of concrete requests, and what the daemon does with their events.
use api_template.Base.{
  ℕ, String, str_eq, true, false, Option, none, some, [], ◌∷◌, leb, ◌≡◌, refl, if◌then◌else◌,
}
use api_template.Kernel.Errors.{text, duplicated, required_value, returned}
use api_template.Telemetry.Composer.{TelemetryEvent, kind_log, dispatch}
use api_template.Telemetry.Runner.{
  TelemetryConfig, TelegramConfig, excluded_prefixes, enabled, postgres_writer, telegram_writer,
  global_pipeline, build_routes,
}
use api_template.Http.Errors.{Detail, AppException, http_exception, Failure}
use api_template.Http.Handler.{Host, Request, Response, exception_handler}
use api_template.Http.Handler.Alerts.{submitted, offered, exception_handler-alerts}

abbrev host : Host (Unit {0})
host = record {
  current_service = "api";
  text_of = λ exc. returned "it broke";
  traceback_of = λ exc. returned "a stack";
  mask_text = λ s. returned s;
  sink = λ event. returned tt;
  should_debug = false;
}

abbrev request : Request
request = record { url = "https://api.example.org/api/v1/users"; method = "GET" }

-- `logging.getLevelName`
abbrev level_name : String → Option ℕ
level_name s =
    if str_eq s "WARNING"
    then some 30
    else if str_eq s "ERROR"
    then some 40
    else if str_eq s "INFO"
    then some 20
    else none

abbrev defaults : TelemetryConfig
defaults = record {
  min_level = "INFO";
  telegram_min_level = "ERROR";
  exclude_url_prefixes = "/healthcheck,/api/v1/docs";
  postgres_enabled = true;
  telegram_enabled = true;
  postgres_batch_size = 200;
}

abbrev bot : TelegramConfig
bot = record { bot_token = some "token"; chat_id = some "-100" }

abbrev unavailable : Failure (Unit {0})
unavailable = http_exception (record { status_code = 503; detail = "busy"; extra = none })

abbrev broken : TelemetryEvent
broken = record {
  service = "api";
  level = "ERROR";
  kind = kind_log;
  url = some "https://api.example.org/api/v1/users";
  status_code = some 503;
  message = some "it broke";
}

exception_handler-alerts_example :
    (s : ℕ) × (broken.status_code ≡ some s)
    × ((r : Response (Unit {0}))
        → (exception_handler host request unavailable).1 ≡ returned r
        → r.status_code ≡ s)
    × (dispatch (global_pipeline level_name defaults) (build_routes level_name defaults bot) broken
        ≡ returned (
            submitted broken (postgres_writer level_name defaults)
            ∷ offered broken (leb 500 s) (telegram_writer level_name defaults)
            ∷ []))
unfolding exception_handler enabled excluded_prefixes
exception_handler-alerts_example =
    exception_handler-alerts host request level_name defaults bot unavailable broken
      (record { warning = refl; error = refl; least = refl; alerting = refl }) refl refl refl refl
      refl refl

abbrev taken_email : Detail (Unit {0})
taken_email = record {
  status = duplicated;
  message = some (text "taken");
  field = some "email";
  payload = some [];
}

abbrev no_phone : Detail (Unit {0})
no_phone = record {
  status = required_value;
  message = some (text "required");
  field = some "phone";
  payload = some [];
}

abbrev refused : AppException (Unit {0})
refused = record {
  message = "refused";
  details = some (taken_email ∷ no_phone ∷ []);
  exception_status = none;
  status_code = some 409;
}
