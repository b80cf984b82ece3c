-- ===== src/Http/Handler/Alerts.antt =====
-- Which exceptions of a request are stored and which are alerted, through the composer.
use mathlib.Core.Path.{ap₂, subst}
use api_template.Base.{
  ℕ, String, str_eq, starts_with, Bool, true, false, ◌||◌, Bool-cases, Option, some, [], ◌∷◌, any,
  leb, ◌≡◌, refl, sym, ap, ◌∙◌, inl, inr, if◌then◌else◌,
}
use api_template.Kernel.Errors.{returned}
use api_template.Telemetry.Writer.{submit}
use api_template.Telemetry.Composer.{
  TelemetryEvent, kind_system, Route, level_no, min_level, exclude_urls, status_at_least, passes,
  offer, offer_all, dispatch_if, dispatch,
}
use api_template.Telemetry.Runner.{
  TelemetryConfig, TelegramConfig, excluded_prefixes, enabled, telegram_route, postgres_writer,
  telegram_writer, global_pipeline, build_routes,
}
use api_template.Http.Errors.{Failure}
use api_template.Http.Handler.Told.{told}
use api_template.Http.Handler.{Host, Request, Response, error_event, level_of, exception_handler}

-- The levels of Python's logging, as the settings name them.
pub record Levels (level_name : String → Option ℕ) (cfg : TelemetryConfig) : Type 0 where
  pub warning : level_name "WARNING" ≡ some 30
  pub error : level_name "ERROR" ≡ some 40
  pub least : level_name cfg.min_level ≡ some 20
  pub alerting : level_name cfg.telegram_min_level ≡ some 40

-- A route that an event was submitted to.
abbrev pub submitted : TelemetryEvent → Route → Route
submitted event route = record route { writer = submit event route.writer }

either : (b c : Bool) → (if b then returned true else returned c) ≡ returned (b || c)
either true c = refl
either false c = refl

numbered :
    (b : Bool) → (leb 20 (if b then 40 else 30) ≡ true) × ((leb 40 (if b then 40 else 30) || b) ≡ b)
numbered true = (refl, refl)
numbered false = (refl, refl)

-- A route by what its filter answers.
abbrev pub offered : TelemetryEvent → Bool → Route → Route
offered event b route = if b then submitted event route else route

offer-answered :
    (event : TelemetryEvent) (b : Bool) (route : Route)
    → route.destination event ≡ returned b
    → offer event (route.destination event) route ≡ offered event b route
unfolding offer
offer-answered event true route h = rw h refl
offer-answered event false route h = rw h refl

-- The events of a level with this number.
module _ {P : Type 0} (host : Host P) (request : Request) (level_name : String → Option ℕ) where
  level_no-named : (t : String) (n : ℕ) → level_name t ≡ some n → level_no level_name t ≡ n
  unfolding level_no
  level_no-named t n h = rw (level_no, h) refl

  min_level-at :
      (least : String) (event : TelemetryEvent) (a n : ℕ)
      → level_no level_name least ≡ a
      → level_no level_name event.level ≡ n
      → min_level level_name least event ≡ returned (leb a n)
  unfolding min_level
  min_level-at least event a n h k = rw (h, k) refl

  status_at_least-at :
      (event : TelemetryEvent) (s : ℕ)
      → event.status_code ≡ some s
      → status_at_least 500 false event ≡ returned (leb 500 s)
  unfolding status_at_least
  status_at_least-at event s h = rw h refl

  telegram_route-at :
      (least : String) (event : TelemetryEvent) (a n s : ℕ)
      → str_eq event.kind kind_system ≡ false
      → event.status_code ≡ some s
      → level_no level_name least ≡ a
      → level_no level_name event.level ≡ n
      → telegram_route level_name least event ≡ returned (leb a n || leb 500 s)
  unfolding telegram_route min_level
  telegram_route-at least event a n s apart status h k =
      rw (apart, h, k, status_at_least-at event s status) (either (leb a n) (leb 500 s))

  level_of-no :
      (cfg : TelemetryConfig) (s : ℕ)
      → Levels level_name cfg
      → level_no level_name (level_of s) ≡ (if leb 500 s then 40 else 30)
  level_of-no cfg s levels = elim (Bool-cases (leb 500 s)) [
    | inl e ↦ rw e (level_no-named "ERROR" 40 levels.error)
    | inr e ↦ rw e (level_no-named "WARNING" 30 levels.warning)
  ]

  module _ (cfg : TelemetryConfig) (telegram : TelegramConfig) where
    dispatch-routed :
        (event : TelemetryEvent) (b : Bool)
        → str_eq event.kind kind_system ≡ false
        → passes (global_pipeline level_name cfg) event ≡ returned true
        → telegram_route level_name cfg.telegram_min_level event ≡ returned b
        → cfg.postgres_enabled ≡ true
        → cfg.telegram_enabled ≡ true
        → enabled telegram ≡ true
        → dispatch (global_pipeline level_name cfg) (build_routes level_name cfg telegram) event
          ≡ returned (
              submitted event (postgres_writer level_name cfg)
              ∷ offered event b (telegram_writer level_name cfg)
              ∷ [])
    unfolding dispatch dispatch_if offer_all build_routes passes
    dispatch-routed event b apart gate route p t on =
        rw (apart, gate, p, t, on)
          (ap returned (
            ap₂ (λ x y. x ∷ y ∷ [])
              (offer-answered event true (postgres_writer level_name cfg) refl)
              (offer-answered event b (telegram_writer level_name cfg) route)))

    passes_global :
        (event : TelemetryEvent) (n : ℕ)
        → level_no level_name cfg.min_level ≡ 20
        → level_no level_name event.level ≡ n
        → leb 20 n ≡ true
        → exclude_urls (excluded_prefixes cfg) event ≡ returned true
        → passes (global_pipeline level_name cfg) event ≡ returned true
    unfolding global_pipeline passes min_level
    passes_global event n h k enough url = rw (h, k, enough, url) refl

    dispatch-told :
        (s : ℕ) (m : String)
        → Levels level_name cfg
        → cfg.postgres_enabled ≡ true
        → cfg.telegram_enabled ≡ true
        → enabled telegram ≡ true
        → any (starts_with request.url) (excluded_prefixes cfg) ≡ false
        → str_eq request.url "" ≡ false
        → let e : TelemetryEvent = error_event host request s (level_of s) m in
          dispatch (global_pipeline level_name cfg) (build_routes level_name cfg telegram) e
          ≡ returned (
              submitted e (postgres_writer level_name cfg)
              ∷ offered e (leb 500 s) (telegram_writer level_name cfg)
              ∷ [])
    unfolding exclude_urls
    dispatch-told s m levels p t on url given =
        let e : TelemetryEvent = error_event host request s (level_of s) m in
        let number = level_of-no cfg s levels in
        let (stored, alerted) = numbered (leb 500 s) in
        dispatch-routed e (leb 500 s) refl
          (passes_global e _ (level_no-named cfg.min_level 20 levels.least) number stored
            (rw (given, url) refl))
          (telegram_route-at cfg.telegram_min_level e 40 _ s refl refl
              (level_no-named cfg.telegram_min_level 40 levels.alerting) number
            ∙ ap returned alerted)
          p t on

    -- A request that ends in an exception, whose event reaches the sink and whose address is not
    -- excluded, with the default levels and both destinations enabled: the event is stored; it is
    -- alerted just where the status of the response is 500 or more; and the event and the response
    -- have the same status.
    pub exception_handler-alerts :
        (exc : Failure P) (event : TelemetryEvent)
        → Levels level_name cfg
        → cfg.postgres_enabled ≡ true
        → cfg.telegram_enabled ≡ true
        → enabled telegram ≡ true
        → any (starts_with request.url) (excluded_prefixes cfg) ≡ false
        → str_eq request.url "" ≡ false
        → (exception_handler host request exc).0 ≡ event ∷ []
        → (s : ℕ) × (event.status_code ≡ some s)
          × ((r : Response P)
              → (exception_handler host request exc).1 ≡ returned r
              → r.status_code ≡ s)
          × (dispatch (global_pipeline level_name cfg) (build_routes level_name cfg telegram) event
              ≡ returned (
                  submitted event (postgres_writer level_name cfg)
                  ∷ offered event (leb 500 s) (telegram_writer level_name cfg)
                  ∷ []))
    exception_handler-alerts exc event levels p t on url given emitted =
        let (s, ((m, same), responded)) = told host request exc event emitted in
        let routed = dispatch-told s m levels p t on url given in
        (
          s,
          ap (λ (e : TelemetryEvent). e.status_code) same,
          responded,
          subst
              (λ (e : TelemetryEvent).
                dispatch (global_pipeline level_name cfg) (build_routes level_name cfg telegram) e
                ≡ returned (
                    submitted e (postgres_writer level_name cfg)
                    ∷ offered e (leb 500 s) (telegram_writer level_name cfg)
                    ∷ []))
              (sym same) routed,
        )
