-- ===== src/Events/Subscription.antt =====
-- packages/events/src/event-subscription.ts. A callback is a number; `throws` says which ones throw.
pub mod Agreement
use orijs.Common.{
  ℕ, ◌≡◌, refl, Bool, true, false, Option, none, some, List, [], ◌∷◌, ◌++◌, if◌then◌else◌,
}

pub data SubscriptionState (V E : Type 0) : Type 0 where
  pending : SubscriptionState V E
  resolved : V → SubscriptionState V E
  rejected : E → SubscriptionState V E

-- The calls of callbacks.
pub data Notice (V E : Type 0) : Type 0 where
  called : ℕ → V → Notice V E
  failed : ℕ → E → Notice V E

-- `promise` is the state of the promise, if there is one.
pub record EventSubscription (V E : Type 0) : Type 0 where
  pub state : SubscriptionState V E
  pub subscribe_callback : Option ℕ
  pub error_callback : Option ℕ
  pub promise : Option (SubscriptionState V E)
  pub has_promise_handlers : Bool
  pub notices : List (Notice V E)

module _ {V E : Type 0} where
  abbrev pub create_subscription : EventSubscription V E
  create_subscription = record {
    state = pending;
    subscribe_callback = none;
    error_callback = none;
    promise = none;
    has_promise_handlers = false;
    notices = [];
  }

  abbrev pub notify : Notice V E → EventSubscription V E → EventSubscription V E
  notify n s = record s { notices = s.notices ++ (n ∷ []) }

  abbrev pub notify_resolved :
      ℕ → SubscriptionState V E → EventSubscription V E → EventSubscription V E
  notify_resolved callback (resolved v) s = notify (called callback v) s
  notify_resolved callback _ s = s

  abbrev pub notify_rejected :
      ℕ → SubscriptionState V E → EventSubscription V E → EventSubscription V E
  notify_rejected callback (rejected e) s = notify (failed callback e) s
  notify_rejected callback _ s = s

  unfoldable pub subscribe : ℕ → EventSubscription V E → EventSubscription V E
  subscribe callback s =
      notify_resolved callback s.state (record s { subscribe_callback = some callback })

  unfoldable pub catch_error : ℕ → EventSubscription V E → EventSubscription V E
  catch_error callback s =
      notify_rejected callback s.state (record s { error_callback = some callback })

  -- `promiseHandlers?.resolve(value)`, and the same for `reject`
  abbrev pub settle_promise : SubscriptionState V E → EventSubscription V E → EventSubscription V E
  settle_promise t s = if s.has_promise_handlers then record s { promise = some t } else s

  -- A callback that throws ends the call.
  abbrev pub settle :
      (ℕ → Bool)
      → SubscriptionState V E
      → Option ℕ
      → (ℕ → Notice V E)
      → EventSubscription V E
      → EventSubscription V E
  settle throws t none note s = settle_promise t (record s { state = t })
  settle throws t (some callback) note s =
      let s1 = notify (note callback) (record s { state = t }) in
      if throws callback then s1 else settle_promise t s1

  abbrev pub if_pending :
      SubscriptionState V E → EventSubscription V E → EventSubscription V E → EventSubscription V E
  if_pending pending settled s = settled
  if_pending _ settled s = s

  -- `_resolve`
  unfoldable pub resolve : (ℕ → Bool) → V → EventSubscription V E → EventSubscription V E
  resolve throws v s =
      if_pending s.state (settle throws (resolved v) s.subscribe_callback (λ c. called c v) s) s

  -- `_reject`
  unfoldable pub reject : (ℕ → Bool) → E → EventSubscription V E → EventSubscription V E
  reject throws e s =
      if_pending s.state (settle throws (rejected e) s.error_callback (λ c. failed c e) s) s

  abbrev pub has_handlers : SubscriptionState V E → Bool → Bool
  has_handlers pending b = true
  has_handlers _ b = b

  -- `toPromise` with no timeout
  unfoldable pub to_promise : EventSubscription V E → EventSubscription V E
  to_promise s = elim s.promise [
    | none ↦ record s {
      promise = some s.state;
      has_promise_handlers = has_handlers s.state s.has_promise_handlers;
    }
    | some t ↦ s
  ]

pub data Use (V E : Type 0) : Type 0 where
  subscribes catches : ℕ → Use V E
  resolves : V → Use V E
  rejects : E → Use V E
  awaits : Use V E

module _ {V E : Type 0} (throws : ℕ → Bool) where
  abbrev pub perform : Use V E → EventSubscription V E → EventSubscription V E
  perform (subscribes c) s = subscribe c s
  perform (catches c) s = catch_error c s
  perform (resolves v) s = resolve throws v s
  perform (rejects e) s = reject throws e s
  perform awaits s = to_promise s

  unfoldable pub perform_all : List (Use V E) → EventSubscription V E → EventSubscription V E
  perform_all [] s = s
  perform_all (u ∷ us) s = perform_all us (perform u s)
