-- ===== src/Identity/Session/Publishing.antt =====
-- The order in which `publish_many` of infra/event_sourcing/event_bus.py gives events to the bus.
use api_template.Base.{
  ℕ, ◌≡◌, refl, List, ◌++◌, filter, ◌==◌, sorted_by, Ascending, sorted_by-Ascending,
  sorted_by_stable,
}
use api_template.Identity.Data.{Event}
use api_template.Identity.Session.{World, publish_many}

-- Events that are published together reach the bus after what it was given before, in ascending
-- order of their `order`; those of one `order` are the same as were given, in the same sequence.
pub publish_many_order :
    (events : List Event) (n : ℕ) (w : World)
    → (sent : List Event) × ((publish_many events w).1.published ≡ w.published ++ sent)
      × Ascending (λ e. e.order) sent
      × (filter (λ e. e.order == n) sent ≡ filter (λ e. e.order == n) events)
unfolding publish_many
publish_many_order events n w = (
  sorted_by (λ e. e.order) events,
  refl,
  sorted_by-Ascending (λ e. e.order) events,
  sorted_by_stable (λ e. e.order) n events,
)
