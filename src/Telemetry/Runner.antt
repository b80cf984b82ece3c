-- ===== src/Telemetry/Runner.antt =====
-- modules/telemetry/runner.py: the composer of the daemon, from the settings of
-- shared_kernel/config/infra_configs.py.
use api_template.Base.{
  ℕ, String, str_eq, Bool, true, false, not, ◌&&◌, Option, none, some, List, [], ◌∷◌, ◌++◌, map,
  filter, if◌then◌else◌,
}
use api_template.Kernel.Errors.{returned}
use api_template.Kernel.Outcomes.{◌>>=◌}
use api_template.Kernel.Texts.{split_comma, strip, is_empty}
use api_template.Telemetry.Writer.{new_writer}
use api_template.Telemetry.Composer.{
  kind_system, RecordFilter, min_level, exclude_urls, status_at_least, passes, Route,
}

-- The fields of `TelemetryConfig` and `TelegramConfig` that the composer is built from.
pub record TelemetryConfig : Type 0 where
  pub min_level : String
  pub telegram_min_level : String
  pub exclude_url_prefixes : String
  pub postgres_enabled : Bool
  pub telegram_enabled : Bool
  pub postgres_batch_size : ℕ

pub record TelegramConfig : Type 0 where
  pub bot_token : Option String
  pub chat_id : Option String

-- `excluded_prefixes`
unfoldable pub excluded_prefixes : TelemetryConfig → List String
unfolding split_comma strip is_empty
excluded_prefixes cfg =
    map strip (filter (λ p. not (is_empty (strip p))) (split_comma cfg.exclude_url_prefixes))

unfoldable pub is_given : Option String → Bool
unfolding is_empty
is_given none = false
is_given (some s) = not (is_empty s)

-- `TelegramConfig.enabled`
unfoldable pub enabled : TelegramConfig → Bool
unfolding is_given
enabled cfg = is_given cfg.bot_token && is_given cfg.chat_id

module _ (level_name : String → Option ℕ) where
  -- `_telegram_route`
  unfoldable pub telegram_route : (least : String) → RecordFilter
  unfolding min_level status_at_least
  telegram_route least event = if str_eq event.kind kind_system then returned true else do
    at_level ← min_level level_name least event
    if at_level then returned true else status_at_least 500 false event

  abbrev pub postgres_writer : TelemetryConfig → Route
  postgres_writer cfg = record {
    writer = new_writer 50_000 cfg.postgres_batch_size;
    destination = passes [];
  }

  abbrev pub telegram_writer : TelemetryConfig → Route
  telegram_writer cfg = record {
    writer = new_writer 10_000 1;
    destination = telegram_route cfg.telegram_min_level;
  }

  -- The filters of the global pipeline.
  unfoldable pub global_pipeline : TelemetryConfig → List RecordFilter
  unfolding min_level excluded_prefixes exclude_urls
  global_pipeline cfg =
      min_level level_name cfg.min_level ∷ exclude_urls (excluded_prefixes cfg) ∷ []

  -- The routes of `build_composer`.
  unfoldable pub build_routes : TelemetryConfig → TelegramConfig → List Route
  unfolding enabled new_writer passes telegram_route
  build_routes cfg telegram =
      (if cfg.postgres_enabled then postgres_writer cfg ∷ [] else [])
      ++ (if cfg.telegram_enabled && enabled telegram then telegram_writer cfg ∷ [] else [])
