-- ===== src/Events/Delivery.antt =====
-- The state of the in-process provider of packages/events/src/in-process-orchestrator.ts, and
-- event-delivery.ts and handler-registry.ts: what calls handlers, and their ends. `H` is a handler and
-- `P` a payload; subscriptions and timeouts are numbers. A subscription is here the state that it
-- settles in. The timers that are set and the handlers that are running are beside the provider's own
-- fields.
use orijs.Common.{
  ℕ, zero, suc, Bool, Option, none, some, or_else, List, [], ◌∷◌, ◌++◌, map, String,
  String-discrete, length, ℕ_discrete, get_elem?,
}
use orijs.JsMap.{JsMap, get, set}
use orijs.Events.Subscription.{SubscriptionState, pending, resolved, rejected}

pub record EventMessage (P : Type 0) : Type 0 where
  pub event_name : String
  pub payload : P
  pub correlation_id : ℕ
  pub causation_id : Option ℕ
  pub timestamp : ℕ

pub record EmitOptions : Type 0 where
  pub delay : Option ℕ
  pub idempotency_key : Option String
  pub causation_id : Option ℕ

-- What a timer does when it fires: it delivers a message to the handlers, for a subscription.
pub record Delayed (P : Type 0) : Type 0 where
  pub message : EventMessage P
  pub subscription : ℕ
  pub key : Option String

pub data EventError (E : Type 0) : Type 0 where
  event_cancelled provider_stopped : EventError E
  handler_error : E → EventError E

-- A handler that was called; only the first one of a delivery settles its subscription.
pub record Execution (H P : Type 0) : Type 0 where
  pub handler : H
  pub message : EventMessage P
  pub subscription : Option ℕ

pub record InProcessEventProvider (H P V E : Type 0) : Type 0 where
  pub handlers : JsMap String (List H)
  pub pending_timeouts : List ℕ
  pub pending_delayed_by_key : JsMap String (ℕ × ℕ)
  pub processed_idempotency_keys : JsMap String ℕ
  pub started : Bool
  pub idempotency_key_ttl_ms : ℕ
  pub cleaning : Bool
  pub subscriptions : JsMap ℕ (SubscriptionState V (EventError E))
  pub timers : JsMap ℕ (Delayed P)
  pub running : List (Execution H P)
  pub next : ℕ

module _ {V E : Type 0} where
  -- `_resolve` and `_reject` settle a pending subscription.
  abbrev pub settled_state :
      SubscriptionState V E → Option (SubscriptionState V E) → Option (SubscriptionState V E)
  settled_state t (some pending) = some t
  settled_state t o = none

  abbrev pub with_state :
      ℕ
      → Option (SubscriptionState V E)
      → JsMap ℕ (SubscriptionState V E)
      → JsMap ℕ (SubscriptionState V E)
  with_state r none m = m
  with_state r (some t) m = set ℕ_discrete r t m

  unfoldable pub settle :
      ℕ → SubscriptionState V E → JsMap ℕ (SubscriptionState V E) → JsMap ℕ (SubscriptionState V E)
  settle r t m = with_state r (settled_state t (get ℕ_discrete r m)) m

module _ {H P V E : Type 0} where
  -- `subscribe` of the registry
  unfoldable pub subscribe :
      String → H → InProcessEventProvider H P V E → InProcessEventProvider H P V E
  subscribe event_name handler p = record p {
    handlers =
        set String-discrete event_name
          (or_else (get String-discrete event_name p.handlers) [] ++ (handler ∷ [])) p.handlers;
  }

  abbrev pub get_handlers : String → InProcessEventProvider H P V E → List H
  get_handlers event_name p = or_else (get String-discrete event_name p.handlers) []

  abbrev pub handler_count : String → InProcessEventProvider H P V E → ℕ
  handler_count event_name p = length (get_handlers event_name p)

module _ {H P : Type 0} where
  abbrev pub executions : List H → EventMessage P → ℕ → List (Execution H P)
  executions [] message r = []
  executions (handler ∷ rest) message r =
      record { handler = handler; message = message; subscription = some r }
      ∷ map (λ (h : H). record { handler = h; message = message; subscription = none }) rest

module _ {H P V E : Type 0} (undefined : V) where
  abbrev pub delivered :
      List H → EventMessage P → ℕ → InProcessEventProvider H P V E → InProcessEventProvider H P V E
  delivered [] message r p = record p {
    subscriptions = settle r (resolved undefined) p.subscriptions;
  }
  delivered (h ∷ hs) message r p = record p { running = p.running ++ executions (h ∷ hs) message r }

  unfoldable pub deliver :
      EventMessage P → ℕ → InProcessEventProvider H P V E → InProcessEventProvider H P V E
  deliver message r p = delivered (get_handlers message.event_name p) message r p

pub data HandlerEnd (V E : Type 0) : Type 0 where
  returns : V → HandlerEnd V E
  throws : E → HandlerEnd V E

abbrev pub remove_at : {A : Type 0} → ℕ → List A → List A
remove_at i [] = []
remove_at zero (x ∷ xs) = xs
remove_at (suc i) (x ∷ xs) = x ∷ remove_at i xs

abbrev pub end_state : {V E : Type 0} → HandlerEnd V E → SubscriptionState V (EventError E)
end_state (returns v) = resolved v
end_state (throws e) = rejected (handler_error e)

module _ {H P V E : Type 0} where
  abbrev pub settled_by :
      Option ℕ → HandlerEnd V E → InProcessEventProvider H P V E → InProcessEventProvider H P V E
  settled_by none end p = p
  settled_by (some r) end p = record p { subscriptions = settle r (end_state end) p.subscriptions }

  -- The end of a handler in `executeHandler`.
  unfoldable pub finish :
      ℕ → HandlerEnd V E → InProcessEventProvider H P V E → InProcessEventProvider H P V E
  finish i end p = elim (get_elem? p.running i) [
    | none ↦ p
    | some x ↦ settled_by x.subscription end (record p { running = remove_at i p.running })
  ]
