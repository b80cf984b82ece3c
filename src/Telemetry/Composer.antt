-- ===== src/Telemetry/Composer.antt =====
-- modules/telemetry/filters and modules/telemetry/composer.py: filters, their composition, and the
-- dispatch of an event to the writers whose destination filter lets it pass. A filter may raise.
pub mod Dispatch
use api_template.Base.{
  ℕ, String, str_eq, starts_with, Bool, true, false, not, ◌&&◌, ◌||◌, Option, none, some, List, [],
  ◌∷◌, any, leb, if◌then◌else◌,
}
use api_template.Kernel.Errors.{Outcome, returned, raised}
use api_template.Telemetry.Writer.{Writer, submit}

-- The fields of `TelemetryEvent` that the filters, the composer and the reader use.
pub record TelemetryEvent : Type 0 where
  pub service : String
  pub level : String
  pub kind : String
  pub url : Option String
  pub status_code : Option ℕ
  pub message : Option String

abbrev pub kind_system : String
kind_system = "system"

abbrev pub kind_log : String
kind_log = "log"

abbrev pub RecordFilter : Type 0
RecordFilter = TelemetryEvent → Outcome Bool

-- `_level_no`, where `level_name` is what `logging.getLevelName` answers for the upper case of a
-- name: a number, or nothing where it answers a text.
unfoldable pub level_no : (String → Option ℕ) → String → ℕ
level_no level_name level = elim (level_name level) [ none ↦ 20 | some n ↦ n ]

-- `MinLevel`, `ServiceIn`, `KindIn`, `StatusAtLeast`, `ExcludeUrls`, `Not` and `AnyOf`
unfoldable pub min_level : (String → Option ℕ) → String → RecordFilter
unfolding level_no
min_level level_name level event =
    returned (leb (level_no level_name level) (level_no level_name event.level))

unfoldable pub service_in : List String → RecordFilter
service_in services event = returned (any (λ s. str_eq event.service s) services)

unfoldable pub kind_in : List String → RecordFilter
kind_in kinds event = returned (any (λ k. str_eq event.kind k) kinds)

unfoldable pub status_at_least : ℕ → Bool → RecordFilter
status_at_least code pass_when_missing event = elim event.status_code [
  | none ↦ returned pass_when_missing
  | some status ↦ returned (leb code status)
]

unfoldable pub exclude_urls : List String → RecordFilter
exclude_urls prefixes event = elim event.url [
  | none ↦ returned true
  | some url ↦
      returned (if str_eq url "" then true else not (any (λ p. starts_with url p) prefixes))
]

unfoldable pub negated : RecordFilter → RecordFilter
negated flt event = elim (flt event) [ returned b ↦ returned (not b) | raised e ↦ raised e ]

unfoldable pub any_of : List RecordFilter → RecordFilter
any_of [] event = returned false
any_of (flt ∷ filters) event =
    let rest = any_of filters event in
    elim (flt event) [ returned b ↦ if b then returned true else rest | raised e ↦ raised e ]

-- `FilterPipeline.passes`
unfoldable pub passes : List RecordFilter → RecordFilter
passes [] event = returned true
passes (flt ∷ filters) event =
    let rest = passes filters event in
    elim (flt event) [ returned b ↦ if b then rest else returned false | raised e ↦ raised e ]

-- A route: a writer, and the filter of its destination.
pub record Route : Type 0 where
  pub writer : Writer TelemetryEvent
  pub destination : RecordFilter

-- One round of the loop of `dispatch`, by what the destination filter answers: one that raises is
-- logged.
unfoldable pub offer : TelemetryEvent → Outcome Bool → Route → Route
offer event (returned true) route = record route { writer = submit event route.writer }
offer event (returned false) route = route
offer event (raised e) route = route

unfoldable pub offer_all : TelemetryEvent → List Route → List Route
unfolding offer
offer_all event [] = []
offer_all event (route ∷ routes) =
    offer event (route.destination event) route ∷ offer_all event routes

-- `dispatch`, by what the global pipeline answers, and whole: it is not asked about a system event.
unfoldable pub dispatch_if : Outcome Bool → TelemetryEvent → List Route → Outcome (List Route)
unfolding offer_all
dispatch_if (returned true) event routes = returned (offer_all event routes)
dispatch_if (returned false) event routes = returned routes
dispatch_if (raised e) event routes = raised e

unfoldable pub dispatch : List RecordFilter → List Route → TelemetryEvent → Outcome (List Route)
unfolding dispatch_if passes
dispatch global routes event =
    if str_eq event.kind kind_system
    then dispatch_if (returned true) event routes
    else dispatch_if (passes global event) event routes
