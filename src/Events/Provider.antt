-- ===== src/Events/Provider.antt =====
-- packages/events/src/in-process-orchestrator.ts: the in-process provider.
use orijs.Common.{
  ℕ, suc, ◌-◌, Bool, true, false, Option, none, some, List, [], ◌∷◌, String, String-discrete, ltb,
  if◌then◌else◌, ℕ_discrete, holds,
}
use orijs.JsMap.{JsMap, get, set, delete, has, add, remove}
use orijs.Events.Subscription.{SubscriptionState, pending, resolved, rejected}
use orijs.Events.Delivery.{
  EventMessage, EmitOptions, Delayed, EventError, InProcessEventProvider, settle, subscribe,
  deliver, HandlerEnd, finish, event_cancelled, provider_stopped,
}

-- An empty key is none.
abbrev pub truthy_key : Option String → Option String
truthy_key none = none
truthy_key (some key) = if holds (String-discrete key "") then none else some key

module _ {H P V E : Type 0} where
  abbrev pub with_entry :
      Option String → ℕ → ℕ → InProcessEventProvider H P V E → InProcessEventProvider H P V E
  with_entry none timeout r p = p
  with_entry (some key) timeout r p = record p {
    pending_delayed_by_key = set String-discrete key (timeout, r) p.pending_delayed_by_key;
  }

  abbrev pub without_entry :
      Option String → InProcessEventProvider H P V E → InProcessEventProvider H P V E
  without_entry none p = p
  without_entry (some key) p = record p {
    pending_delayed_by_key = delete String-discrete key p.pending_delayed_by_key;
  }

  unfoldable pub schedule_delivery :
      EventMessage P
      → ℕ
      → Option String
      → InProcessEventProvider H P V E
      → InProcessEventProvider H P V E
  schedule_delivery message r key p =
      let timeout = p.next in
      with_entry key timeout r (record p {
        next = suc p.next;
        timers =
            set ℕ_discrete timeout (record { message = message; subscription = r; key = key })
              p.timers;
        pending_timeouts = add ℕ_discrete timeout p.pending_timeouts;
      })

  abbrev pub is_duplicate : Option String → InProcessEventProvider H P V E → Bool
  is_duplicate none p = false
  is_duplicate (some key) p = has String-discrete key p.processed_idempotency_keys

  abbrev pub marked :
      ℕ → Option String → InProcessEventProvider H P V E → InProcessEventProvider H P V E
  marked now none p = p
  marked now (some key) p = record p {
    processed_idempotency_keys = set String-discrete key now p.processed_idempotency_keys;
  }

  -- `createSubscription`
  abbrev pub created : InProcessEventProvider H P V E → InProcessEventProvider H P V E
  created p = record p {
    subscriptions = set ℕ_discrete p.next pending p.subscriptions;
    next = suc p.next;
  }

module _ {H P V E : Type 0} (undefined : V) where
  abbrev pub sent :
      Option ℕ
      → Option String
      → EventMessage P
      → ℕ
      → InProcessEventProvider H P V E
      → InProcessEventProvider H P V E
  sent none key message r p = deliver undefined message r p
  sent (some delay) key message r p =
      if ltb 0 delay then schedule_delivery message r key p else deliver undefined message r p

  -- `emit`; the subscription has the number that was next.
  unfoldable pub emit :
      ℕ
      → String
      → P
      → EmitOptions
      → InProcessEventProvider H P V E
      → ℕ × InProcessEventProvider H P V E
  emit now event_name payload options p =
      let r = p.next in
      let key = truthy_key options.idempotency_key in
      let p1 = created p in
      (
        r,
        if is_duplicate key p1
            then record p1 { subscriptions = settle r (resolved undefined) p1.subscriptions }
            else sent options.delay key
                (record {
                  event_name = event_name;
                  payload = payload;
                  correlation_id = r;
                  causation_id = options.causation_id;
                  timestamp = now;
                })
                r (marked now key p1),
      )

  -- The timer of a delayed event fires.
  unfoldable pub fire : ℕ → InProcessEventProvider H P V E → InProcessEventProvider H P V E
  fire timeout p = elim (get ℕ_discrete timeout p.timers) [
    | none ↦ p
    | some d ↦ deliver undefined d.message d.subscription (
        without_entry d.key (record p {
          timers = delete ℕ_discrete timeout p.timers;
          pending_timeouts = remove ℕ_discrete timeout p.pending_timeouts;
        }))
  ]

-- The loop of the cleanup.
unfoldable pub unexpired : ℕ → ℕ → JsMap String ℕ → JsMap String ℕ
unexpired now ttl [] = []
unexpired now ttl ((key, timestamp) ∷ m) =
    if ltb ttl (now - timestamp)
    then unexpired now ttl m
    else (key, timestamp) ∷ unexpired now ttl m

-- The loop of `stop` over the delayed events with a key.
unfoldable pub reject_all :
    {V E : Type 0}
    → JsMap String (ℕ × ℕ)
    → JsMap ℕ (SubscriptionState V (EventError E))
    → JsMap ℕ (SubscriptionState V (EventError E))
reject_all [] m = m
reject_all ((key, entry) ∷ rest) m = reject_all rest (settle entry.1 (rejected provider_stopped) m)

-- `clearTimeout` for each of the pending timeouts.
unfoldable pub clear_all : {P : Type 0} → List ℕ → JsMap ℕ (Delayed P) → JsMap ℕ (Delayed P)
clear_all [] m = m
clear_all (timeout ∷ rest) m = clear_all rest (delete ℕ_discrete timeout m)

module _ {H P V E : Type 0} where
  unfoldable pub cancel :
      String → InProcessEventProvider H P V E → Bool × InProcessEventProvider H P V E
  cancel key p = elim (get String-discrete key p.pending_delayed_by_key) [
    | none ↦ (false, p)
    | some entry ↦ (
      true,
      record p {
        timers = delete ℕ_discrete entry.0 p.timers;
        pending_delayed_by_key = delete String-discrete key p.pending_delayed_by_key;
        pending_timeouts = remove ℕ_discrete entry.0 p.pending_timeouts;
        subscriptions = settle entry.1 (rejected event_cancelled) p.subscriptions;
        processed_idempotency_keys = delete String-discrete key p.processed_idempotency_keys;
      },
    )
  ]

  unfoldable pub stop : InProcessEventProvider H P V E → InProcessEventProvider H P V E
  stop p = record p {
    timers = clear_all p.pending_timeouts p.timers;
    pending_timeouts = [];
    subscriptions = reject_all p.pending_delayed_by_key p.subscriptions;
    pending_delayed_by_key = [];
    processed_idempotency_keys = [];
    cleaning = false;
    started = false;
  }

  abbrev pub start : InProcessEventProvider H P V E → InProcessEventProvider H P V E
  start p = record p { started = true }

  -- `cleanupExpiredIdempotencyKeys`, which the interval calls.
  unfoldable pub clean_up : ℕ → InProcessEventProvider H P V E → InProcessEventProvider H P V E
  clean_up now p =
      if p.cleaning
      then record p {
        processed_idempotency_keys =
            unexpired now p.idempotency_key_ttl_ms p.processed_idempotency_keys;
      }
      else p

abbrev pub fresh_provider : {H P V E : Type 0} → ℕ → InProcessEventProvider H P V E
fresh_provider ttl = record {
  handlers = [];
  pending_timeouts = [];
  pending_delayed_by_key = [];
  processed_idempotency_keys = [];
  started = false;
  idempotency_key_ttl_ms = ttl;
  cleaning = true;
  subscriptions = [];
  timers = [];
  running = [];
  next = 0;
}

-- What happens to a provider.
pub data Event (H P V E : Type 0) : Type 0 where
  emits : ℕ → String → P → EmitOptions → Event H P V E
  subscribes : String → H → Event H P V E
  fires : ℕ → Event H P V E
  finishes : ℕ → HandlerEnd V E → Event H P V E
  cancels : String → Event H P V E
  cleans : ℕ → Event H P V E
  starts stops : Event H P V E

module _ {H P V E : Type 0} (undefined : V) where
  abbrev pub happen :
      Event H P V E → InProcessEventProvider H P V E → InProcessEventProvider H P V E
  happen (emits now event_name payload options) p =
      (emit undefined now event_name payload options p).1
  happen (subscribes event_name handler) p = subscribe event_name handler p
  happen (fires timeout) p = fire undefined timeout p
  happen (finishes i end) p = finish i end p
  happen (cancels key) p = (cancel key p).1
  happen (cleans now) p = clean_up now p
  happen starts p = start p
  happen stops p = stop p

  unfoldable pub happen_all :
      List (Event H P V E) → InProcessEventProvider H P V E → InProcessEventProvider H P V E
  happen_all [] p = p
  happen_all (ev ∷ evs) p = happen_all evs (happen ev p)
