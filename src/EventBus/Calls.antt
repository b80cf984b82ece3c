-- ===== src/EventBus/Calls.antt =====
-- What the bus does for events, as one list of calls, of which none is made after an exception.
use mathlib.Core.Path.{subst}
use api_template.Base.{
  append_assoc, String, str_eq, Bool-cases, List, [], ◌∷◌, ◌++◌, map, sorted_by, ◌≡◌, refl, sym, ap,
  ◌∙◌, inl, inr, if◌then◌else◌,
}
use api_template.Kernel.Errors.{Outcome, returned, raised}
use api_template.Telemetry.Writer.Steps.{concat}
use api_template.EventBus.{
  Effect, after_first, ◌then◌, for_each, BaseEvent, Handler, Subscription, EventBus, wrapper,
  handlers_for, publish, publish_many,
}

module _ {S : Type 0} where
  -- The calls that a handler of an event is run by.
  abbrev pub around : EventBus S → BaseEvent → Handler S → List (Effect S)
  around bus event handler =
      map (λ m. m.before_handler event handler) bus.handler_middlewares
      ++ (handler.handle event ∷ map (λ m. m.after_handler event handler) bus.handler_middlewares)

  -- The subscriptions to the class of an event, in their order, by what is done for each.
  abbrev pub subscribed :
      (Subscription S → Effect S) → String → List (Subscription S) → List (Effect S)
  subscribed handled event_class [] = []
  subscribed handled event_class (sub ∷ subs) =
      let rest = subscribed handled event_class subs in
      if str_eq sub.event_class event_class then handled sub ∷ rest else rest

  -- The calls for an event, and for events, by what is done for an event and a subscription.
  abbrev pub calls :
      (BaseEvent → Subscription S → Effect S) → EventBus S → BaseEvent → List (Effect S)
  calls handled bus event =
      map (λ m. m.before_publish event) bus.publisher_middlewares
      ++ (subscribed (handled event) event.event_class bus.subscriptions
          ++ map (λ m. m.after_publish event) bus.publisher_middlewares)

  abbrev pub all_calls :
      (BaseEvent → Subscription S → Effect S) → EventBus S → List BaseEvent → List (Effect S)
  all_calls handled bus events = concat (map (calls handled bus) events)

  -- Calls that all return, from one state to another.
  abbrev pub Return : List (Effect S) → (from to : S) → Type 0
  Return [] from to = from ≡ to
  Return (call ∷ rest) from to =
      (next : S) × (call from ≡ (returned tt, next)) × Return rest next to

  -- How calls end: all return, or those before one that raises do.
  abbrev pub Ended : List (Effect S) → S → Outcome (Unit {0}) × S → Type 0
  Ended effects s (returned done, t) = Return effects s t
  Ended effects s (raised e, t) =
      (before : List (Effect S)) × (call : Effect S) × (after : List (Effect S)) × (at : S)
      × (effects ≡ before ++ call ∷ after)
      × Return before s at
      × (call at ≡ (raised e, t))

  Return-append :
      (xs ys : List (Effect S)) (s t u : S) → Return xs s t → Return ys t u → Return (xs ++ ys) s u
  Return-append [] ys s t u h k = rw h k
  Return-append (x ∷ xs) ys s t u (next, e, h) k = (next, e, Return-append xs ys next t u h k)

  later-Ended :
      (xs ys : List (Effect S)) (s t : S) (r : Outcome (Unit {0}) × S)
      → Return xs s t
      → Ended ys t r
      → Ended (xs ++ ys) s r
  later-Ended xs ys s t (returned done, u) h k = Return-append xs ys s t u h k
  later-Ended xs ys s t (raised e, u) h (before, call, after, at, same, ran, raises) = (
    xs ++ before,
    call,
    after,
    at,
    ap (λ q. xs ++ q) same ∙ sym (append_assoc xs before (call ∷ after)),
    Return-append xs before s t at h ran,
    raises,
  )

  then-Ended :
      (xs ys : List (Effect S)) (s : S) (r : Outcome (Unit {0}) × S) (next : Effect S)
      → Ended xs s r
      → ((t : S) → Ended ys t (next t))
      → Ended (xs ++ ys) s (after_first r next)
  then-Ended xs ys s (returned done, t) next h k = later-Ended xs ys s t (next t) h (k t)
  then-Ended xs ys s (raised e, t) next (before, call, after, at, same, ran, raises) k = (
    before,
    call,
    after ++ ys,
    at,
    ap (λ q. q ++ ys) same ∙ append_assoc before (call ∷ after) ys,
    ran,
    raises,
  )

  one-Ended :
      (call : Effect S) (s : S) (r : Outcome (Unit {0}) × S) → call s ≡ r → Ended (call ∷ []) s r
  one-Ended call s (returned done, t) h = (t, h, refl)
  one-Ended call s (raised e, t) h = ([], call, [], s, refl, refl, h)

  module _ {A : Type 0} where
    for_each-Ended :
        (f : A → Effect S) (per : A → List (Effect S)) (xs : List A) (s : S)
        → ((x : A) (t : S) → Ended (per x) t (f x t))
        → Ended (concat (map per xs)) s (for_each f xs s)
    for_each-Ended f per [] s h = refl
    for_each-Ended f per (x ∷ xs) s h =
        then-Ended (per x) (concat (map per xs)) s (f x s) (for_each f xs) (h x s)
          (λ t. for_each-Ended f per xs t h)

    effects-Ended : (f : A → Effect S) (xs : List A) (s : S) → Ended (map f xs) s (for_each f xs s)
    effects-Ended f [] s = refl
    effects-Ended f (x ∷ xs) s =
        then-Ended (f x ∷ []) (map f xs) s (f x s) (for_each f xs) (one-Ended (f x) s (f x s) refl)
          (λ t. effects-Ended f xs t)

  handlers_for-subscribed :
      (handled : Subscription S → Effect S) (event_class : String) (bus : EventBus S)
      (subs : List (Subscription S))
      → map handled (handlers_for (record bus { subscriptions = subs }) event_class)
        ≡ subscribed handled event_class subs
  unfolding handlers_for
  handlers_for-subscribed handled event_class bus [] = refl
  handlers_for-subscribed handled event_class bus (sub ∷ subs) =
      elim (Bool-cases (str_eq sub.event_class event_class)) [
        | inl e ↦
            rw e
              (ap (λ fs. handled sub ∷ fs) (handlers_for-subscribed handled event_class bus subs))
        | inr e ↦ rw e (handlers_for-subscribed handled event_class bus subs)
      ]

  -- A handler is made for the event, and run between the calls of the handler middlewares.
  wrapper-Ended :
      (bus : EventBus S) (event : BaseEvent) (sub : Subscription S) (s : S)
      → Ended (around bus event (sub.handler_f s)) s (wrapper bus event sub s)
  unfolding wrapper
  wrapper-Ended bus event sub s =
      let handler = sub.handler_f s in
      let ms = bus.handler_middlewares in
      let last = map (λ m. m.after_handler event handler) ms in
      let finished : Effect S = for_each (λ m. m.after_handler event handler) ms in
      then-Ended (map (λ m. m.before_handler event handler) ms) (handler.handle event ∷ last) s
        (for_each (λ m. m.before_handler event handler) ms s) (handler.handle event then finished)
        (effects-Ended (λ m. m.before_handler event handler) ms s)
        (λ t.
          then-Ended (handler.handle event ∷ []) last t (handler.handle event t) finished
            (one-Ended (handler.handle event) t (handler.handle event t) refl)
            (λ u. effects-Ended (λ m. m.after_handler event handler) ms u))

  publish-Ended :
      (bus : EventBus S) (event : BaseEvent) (s : S)
      → Ended (calls (wrapper bus) bus event) s (publish bus event s)
  unfolding publish
  publish-Ended bus event s =
      let subs = handlers_for bus event.event_class in
      let ms = bus.publisher_middlewares in
      let wrapped = subscribed (wrapper bus event) event.event_class bus.subscriptions in
      let last = map (λ m. m.after_publish event) ms in
      let handled : Effect S = for_each (wrapper bus event) subs in
      let finished : Effect S = for_each (λ m. m.after_publish event) ms in
      let chosen : map (wrapper bus event) subs ≡ wrapped =
        handlers_for-subscribed (wrapper bus event) event.event_class bus bus.subscriptions in
      then-Ended (map (λ m. m.before_publish event) ms) (wrapped ++ last) s
        (for_each (λ m. m.before_publish event) ms s) (handled then finished)
        (effects-Ended (λ m. m.before_publish event) ms s)
        (λ t.
          then-Ended wrapped last t (handled t) finished
            (subst (λ fs. Ended fs t (handled t)) chosen (effects-Ended (wrapper bus event) subs t))
            (λ u. effects-Ended (λ m. m.after_publish event) ms u))

  -- Events that are published together are handled by one list of calls, by ascending order: for
  -- each event what the publisher middlewares do before it, what is done for the subscriptions to
  -- its class in their order, and what the middlewares do after it. For a subscription a handler is
  -- made from the state then, and its calls are what the handler middlewares do before it, the
  -- handler, and what they do after it. Either all calls return, or the first that raises ends the
  -- publication with its exception and its state, and none after it is made.
  pub publish_many-Ended :
      (bus : EventBus S) (events : List BaseEvent) (s : S)
      → (handled : BaseEvent → Subscription S → Effect S) × ((event : BaseEvent)
            (sub : Subscription S) (t : S)
          → Ended (around bus event (sub.handler_f t)) t (handled event sub t))
        × Ended
            (all_calls handled bus (sorted_by (λ e. e.order) events))
            s
            (publish_many bus events s)
  unfolding publish_many
  publish_many-Ended bus events s = (
    wrapper bus,
    wrapper-Ended bus,
    for_each-Ended (publish bus) (calls (wrapper bus) bus) (sorted_by (λ e. e.order) events) s
        (publish-Ended bus),
  )
