-- ===== src/Http/Handler/Told.antt =====
-- The event that an exception is told by, and that the response has its status.
use api_template.Base.{ℕ, String, some, [], ◌∷◌, ◌≡◌, sym, ap}
use api_template.Kernel.Errors.{Outcome, returned, raised}
use api_template.Kernel.Outcomes.{◌>>=◌}
use api_template.Telemetry.Composer.{TelemetryEvent}
use api_template.Http.Errors.{
  Failure, app_exception, validation_error, http_exception, unexpected, format_app_exception,
  Content, by_location, http_content, format_validation_error,
}
use api_template.Http.Handler.{
  Host, Request, Response, swallowed, error_event, emit_error_event, answer, level_of, unless_empty,
  internal_content, exception_handler,
}

swallowed-bind :
    {A : Type 0} (m : Outcome A) (f : A → Outcome TelemetryEvent) (e : TelemetryEvent)
    → swallowed (m >>= f) ≡ e ∷ []
    → (a : A) × (swallowed (f a) ≡ e ∷ [])
swallowed-bind (returned a) f e h = (a, h)
swallowed-bind (raised x) f e h = absurd (cc)

module _ {P : Type 0} (host : Host P) (request : Request) where
  emitted_event :
      (exc : Failure P) (s : ℕ) (level : String) (event : TelemetryEvent)
      → emit_error_event host request exc s level ≡ event ∷ []
      → (m : String) × (event ≡ error_event host request s level m)
  unfolding emit_error_event
  emitted_event exc s level event h =
      let (said, h1) = swallowed-bind (host.text_of exc) _ event h in
      let (m, h2) = swallowed-bind (host.mask_text said) _ event h1 in
      let (stack, h3) = swallowed-bind (host.traceback_of exc) _ event h2 in
      let (masked, h4) = swallowed-bind (host.mask_text stack) _ event h3 in
      let (done, h5) = swallowed-bind (host.sink (error_event host request s level m)) _ event h4 in
      (m, cc)

  -- An event, and the response if there is one, with the same status.
  abbrev pub Told : TelemetryEvent → Outcome (Response P) → ℕ → Type 0
  Told event response s =
      ((m : String) × (event ≡ error_event host request s (level_of s) m))
      × ((r : Response P) → response ≡ returned r → r.status_code ≡ s)

  answered :
      (s : ℕ) (c : Outcome (Content P)) (r : Response P)
      → answer host request s c ≡ returned r
      → r.status_code ≡ s
  answered s (returned c) r h =
      let same : record { status_code = s; content = c } ≡ r = cc in
      sym (ap (λ (x : Response P). x.status_code) same)
  answered s (raised e) r h = absurd (cc)

  pub told :
      (exc : Failure P) (event : TelemetryEvent)
      → (exception_handler host request exc).0 ≡ event ∷ []
      → (s : ℕ) × Told event (exception_handler host request exc).1 s
  unfolding exception_handler
  told (app_exception e) event h = (
    400,
    (
      emitted_event (app_exception e) 400 "WARNING" event h,
      answered 400 (format_app_exception e e.details),
    ),
  )
  told (validation_error errors) event h = (
    422,
    (
      emitted_event (validation_error errors) 422 "WARNING" event h,
      answered 422 (returned (by_location (format_validation_error errors))),
    ),
  )
  told (http_exception x) event h = (
    x.status_code,
    (
      emitted_event (http_exception x) x.status_code _ event h,
      answered x.status_code
          (returned (http_content (unless_empty x.detail) x.extra (some x.status_code))),
    ),
  )
  told (unexpected message) event h = (
    500,
    (
      emitted_event (unexpected message) 500 "ERROR" event h,
      answered 500 (returned (internal_content host request message)),
    ),
  )
