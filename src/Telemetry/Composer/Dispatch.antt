-- ===== src/Telemetry/Composer/Dispatch.antt =====
-- What a pipeline lets pass, and what a dispatch leaves in the writers.
use api_template.Base.{◌≡◌, refl, str_eq, Bool, true, false, List, [], ◌∷◌, All, ◌↔◌, arith}
use api_template.Kernel.Errors.{Outcome, returned, raised}
use api_template.Telemetry.Writer.{submit}
use api_template.Telemetry.Composer.{
  TelemetryEvent, kind_system, RecordFilter, passes, Route, offer, offer_all, dispatch, dispatch_if,
}

passes_there :
    (fs : List RecordFilter) (e : TelemetryEvent)
    → passes fs e ≡ returned true
    → All (λ flt. flt e ≡ returned true) fs
unfolding passes
passes_there [] e h = tt
passes_there (flt ∷ fs) e h = (ground arith, passes_there fs e (ground arith))

passes_back :
    (fs : List RecordFilter) (e : TelemetryEvent)
    → All (λ flt. flt e ≡ returned true) fs
    → passes fs e ≡ returned true
unfolding passes
passes_back [] e h = refl
passes_back (flt ∷ fs) e h = rw h.0 (passes_back fs e h.1)

-- A pipeline lets an event pass just where every one of its filters does, none of them raising.
pub passes-All :
    (filters : List RecordFilter) (e : TelemetryEvent)
    → (passes filters e ≡ returned true) ↔ All (λ flt. flt e ≡ returned true) filters
passes-All filters e = (passes_there filters e, passes_back filters e)

-- The routes whose filter lets the event pass have it submitted, and the others are as they were,
-- whatever another route's filter does.
pub data Offered (e : TelemetryEvent) : List Route → List Route → Type 0 where
  none_left : Offered e [] []
  taken :
      (route : Route) (before after : List Route)
      → route.destination e ≡ returned true
      → Offered e before after
      → Offered e (route ∷ before) (record route { writer = submit e route.writer } ∷ after)
  passed_by :
      (route : Route) (before after : List Route)
      → (route.destination e ≡ returned true → ⊥)
      → Offered e before after
      → Offered e (route ∷ before) (route ∷ after)

offer-Offered :
    (e : TelemetryEvent) (route : Route) (r : Outcome Bool) (before after : List Route)
    → route.destination e ≡ r
    → Offered e before after
    → Offered e (route ∷ before) (offer e r route ∷ after)
unfolding offer
offer-Offered e route (returned true) before after h o = taken route before after h o
offer-Offered e route (returned false) before after h o = passed_by route before after (λ g. cc) o
offer-Offered e route (raised x) before after h o = passed_by route before after (λ g. cc) o

offer_all-Offered :
    (e : TelemetryEvent) (routes : List Route) → Offered e routes (offer_all e routes)
unfolding offer_all
offer_all-Offered e [] = none_left
offer_all-Offered e (route ∷ routes) =
    offer-Offered e route (route.destination e) routes (offer_all e routes) refl
      (offer_all-Offered e routes)

-- A system event is offered to every route and the dispatch does not raise, whatever the global
-- pipeline would say: each writer whose filter lets it pass gets it, and a filter that raises keeps
-- it from its own writer only.
pub dispatch_system :
    (global : List RecordFilter) (routes : List Route) (e : TelemetryEvent)
    → str_eq e.kind kind_system ≡ true
    → (after : List Route) × (dispatch global routes e ≡ returned after) × Offered e routes after
unfolding dispatch dispatch_if
dispatch_system global routes e system =
    (offer_all e routes, rw system refl, offer_all-Offered e routes)
