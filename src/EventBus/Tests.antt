-- ===== src/EventBus/Tests.antt =====
-- A bus with a handler that raises for one event, whose state is a list of what was done.
use api_template.Base.{ℕ, List, [], ◌∷◌, ◌++◌, ◌≡◌, refl, ◌==◌, sorted_by, if◌then◌else◌}
use api_template.Kernel.Errors.{type_error, returned, raised}
use api_template.EventBus.{Effect, BaseEvent, Handler, Subscription, EventBus, publish_many}
use api_template.EventBus.Calls.{around, all_calls, Ended, publish_many-Ended}

abbrev Log : Type 0
Log = List ℕ

abbrev note : ℕ → Effect Log
note n log = (returned tt, log ++ n ∷ [])

abbrev registered : (event_id order : ℕ) → BaseEvent
registered event_id order = record {
  event_class = "UserRegisteredEvent";
  event_id = event_id;
  order = order;
}

-- It raises for the event 2.
abbrev mail : Handler Log
mail = record {
  ident = 7;
  handle = λ event log.
      if event.event_id == 2 then (raised type_error, log) else note event.event_id log;
}

abbrev bus : EventBus Log
bus = record {
  subscriptions = record { event_class = "UserRegisteredEvent"; handler_f = λ log. mail } ∷ [];
  publisher_middlewares =
      record { before_publish = λ event. note 100; after_publish = λ event. note 200 } ∷ [];
  handler_middlewares =
      record { before_handler = λ event h. note 300; after_handler = λ event h. note 400 } ∷ [];
}

-- By their order the event 1 comes first; the event 3 is not published after that which raises.
abbrev events : List BaseEvent
events = registered 3 9 ∷ registered 2 5 ∷ registered 1 0 ∷ []

raised_run :
    publish_many bus events [] ≡ (raised type_error, 100 ∷ 300 ∷ 1 ∷ 400 ∷ 200 ∷ 100 ∷ 300 ∷ [])
unfolding publish_many sorted_by
raised_run = refl

publish_many-Ended_example :
    (handled : BaseEvent → Subscription Log → Effect Log) × ((event : BaseEvent)
        (sub : Subscription Log) (t : Log)
      → Ended (around bus event (sub.handler_f t)) t (handled event sub t))
    × Ended
        (all_calls handled bus (sorted_by (λ e. e.order) events))
        []
        (publish_many bus events [])
publish_many-Ended_example = publish_many-Ended bus events []
