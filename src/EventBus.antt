-- ===== src/EventBus.antt =====
-- infra/event_sourcing/event_bus.py: the handlers of an event's class, each between the calls of the
-- handler middlewares, and all of them between those of the publisher middlewares. What a handler or
-- a middleware does to the state of the process is given: it may change it, and may raise.
pub mod Calls
mod Tests
use api_template.Base.{
  ℕ, String, str_eq, Bool, true, false, Option, List, [], ◌∷◌, ◌++◌, map, filter, sorted_by,
}
use api_template.Kernel.Errors.{Exn, Outcome, returned, raised}

abbrev pub Effect : Type 0 → Type 0
Effect S = S → Outcome (Unit {0}) × S

abbrev after_first : {S : Type 0} → Outcome (Unit {0}) × S → Effect S → Outcome (Unit {0}) × S
after_first (returned done, s) next = next s
after_first (raised e, s) next = (raised e, s)

-- One await after another: an exception ends the coroutine.
infixr 30 ◌then◌
abbrev pub ◌then◌ : {S : Type 0} → Effect S → Effect S → Effect S
(first then next) s = after_first (first s) next

abbrev pub nothing : {S : Type 0} → Effect S
nothing s = (returned tt, s)

-- `for x in xs: await f(x)`
abbrev pub for_each : {S A : Type 0} → (A → Effect S) → List A → Effect S
for_each f [] = nothing
for_each f (x ∷ xs) = f x then for_each f xs

-- The class of an event, what orders it, and the id that it carries.
pub record BaseEvent : Type 0 where
  pub event_class : String
  pub event_id : ℕ
  pub order : ℕ

-- A handler, with what `id` answers for it.
pub record Handler (S : Type 0) : Type 0 where
  pub ident : ℕ
  pub handle : BaseEvent → Effect S

pub record PublisherMiddleware (S : Type 0) : Type 0 where
  pub before_publish : BaseEvent → Effect S
  pub after_publish : BaseEvent → Effect S

pub record HandlerMiddleware (S : Type 0) : Type 0 where
  pub before_handler : BaseEvent → Handler S → Effect S
  pub after_handler : BaseEvent → Handler S → Effect S

-- A subscription: a class of events, and the factory of a handler, which makes it anew for each
-- event, from the state of the process, and does nothing else.
pub record Subscription (S : Type 0) : Type 0 where
  pub event_class : String
  pub handler_f : S → Handler S

pub record EventBus (S : Type 0) : Type 0 where
  pub subscriptions : List (Subscription S)
  pub publisher_middlewares : List (PublisherMiddleware S)
  pub handler_middlewares : List (HandlerMiddleware S)

module _ {S : Type 0} where
  unfoldable pub subscribe : String → (S → Handler S) → EventBus S → EventBus S
  subscribe event_class handler_f bus = record bus {
    subscriptions =
        bus.subscriptions ++ record { event_class = event_class; handler_f = handler_f } ∷ [];
  }

  -- `_wrap_handler_factory`
  unfoldable pub wrapper : EventBus S → BaseEvent → Subscription S → Effect S
  wrapper bus event sub s =
      let handler = sub.handler_f s in
      (for_each (λ m. m.before_handler event handler) bus.handler_middlewares
          then handler.handle event
          then for_each (λ m. m.after_handler event handler) bus.handler_middlewares)
        s

  unfoldable pub handlers_for : EventBus S → String → List (Subscription S)
  handlers_for bus event_class =
      filter (λ sub. str_eq sub.event_class event_class) bus.subscriptions

  unfoldable pub publish : EventBus S → BaseEvent → Effect S
  unfolding wrapper handlers_for
  publish bus event =
      for_each (λ m. m.before_publish event) bus.publisher_middlewares
      then for_each (wrapper bus event) (handlers_for bus event.event_class)
      then for_each (λ m. m.after_publish event) bus.publisher_middlewares

  unfoldable pub publish_many : EventBus S → List BaseEvent → Effect S
  unfolding publish
  publish_many bus events = for_each (publish bus) (sorted_by (λ e. e.order) events)
