-- ===== src/Events/Keys.antt =====
-- Events with an idempotency key, their cancellation, and what `stop` leaves.
use orijs.Common.{
  ℕ, suc, ◌≡◌, refl, sym, ap, ◌∙◌, subst, true, false, none, some, is_some, List, [], String,
  String-discrete, ℕ_discrete, ltb, arith, All,
}
use orijs.JsMap.{JsMap, get, set, delete, has, add}
use orijs.JsMap.Laws.{get-set_self, get-delete_self}
use orijs.Events.Subscription.{pending, resolved, rejected}
use orijs.Events.Delivery.{EmitOptions, Delayed, event_cancelled, InProcessEventProvider}
use orijs.Events.Provider.{
  truthy_key, schedule_delivery, marked, created, emit, cancel, clear_all, reject_all, stop, Event,
  happen_all,
}
use orijs.Events.Marks.{cancel_at, settle_at, Marked, Spares, sent-Marked, happen_all-Marked}

module _ {H P V E : Type 0} where
  -- An event that is emitted with the key of a marked one.
  duplicate_emit :
      (key : String) (ts ttl : ℕ) (undefined : V) (now : ℕ) (event_name : String) (payload : P)
      (options : EmitOptions) (p : InProcessEventProvider H P V E)
      → truthy_key options.idempotency_key ≡ some key
      → Marked key ts ttl p
      → (get ℕ_discrete p.next (emit undefined now event_name payload options p).1.subscriptions
          ≡ some (resolved undefined))
        × ((emit undefined now event_name payload options p).1.timers ≡ p.timers)
        × ((emit undefined now event_name payload options p).1.running ≡ p.running)
  unfolding emit Marked
  duplicate_emit key ts ttl undefined now event_name payload options p k h =
      rw (emit, k, h.0)
        (
          ap (get ℕ_discrete p.next) (
                settle_at p.next (resolved undefined)
                  (set ℕ_discrete p.next pending p.subscriptions)
                  (get-set_self ℕ_discrete p.next pending p.subscriptions))
              ∙ get-set_self ℕ_discrete p.next (resolved undefined) _,
          refl,
          refl,
        )

  first_emit-Marked :
      (key : String) (undefined : V) (now : ℕ) (event_name : String) (payload : P)
      (options : EmitOptions) (p : InProcessEventProvider H P V E)
      → truthy_key options.idempotency_key ≡ some key
      → has String-discrete key p.processed_idempotency_keys ≡ false
      → Marked key now p.idempotency_key_ttl_ms (emit undefined now event_name payload options p).1
  unfolding emit Marked
  first_emit-Marked key undefined now event_name payload options p k h =
      rw (emit, k, h)
        (sent-Marked key now p.idempotency_key_ttl_ms undefined options.delay (some key) _ p.next
          (marked now (some key) (created p))
          (get-set_self String-discrete key now p.processed_idempotency_keys, refl))

  -- After an event was emitted with a key that is not the empty string and was not processed, and until
  -- the provider is stopped, the key is cancelled or a cleanup finds it older than its time to live,
  -- emitting an event with that key sets no timer and calls no handler, and its subscription is
  -- resolved with undefined, whatever else happened in between.
  pub emitted_once :
      (undefined : V) (key : String) (now later : ℕ) (event_name other_name : String)
      (payload other_payload : P) (options other_options : EmitOptions) (evs : List (Event H P V E))
      (p q : InProcessEventProvider H P V E)
      → truthy_key options.idempotency_key ≡ some key
      → truthy_key other_options.idempotency_key ≡ some key
      → has String-discrete key p.processed_idempotency_keys ≡ false
      → All (Spares key now p.idempotency_key_ttl_ms) evs
      → q ≡ happen_all undefined evs (emit undefined now event_name payload options p).1
      → (get ℕ_discrete q.next
            (emit undefined later other_name other_payload other_options q).1.subscriptions
          ≡ some (resolved undefined))
        × ((emit undefined later other_name other_payload other_options q).1.timers ≡ q.timers)
        × ((emit undefined later other_name other_payload other_options q).1.running ≡ q.running)
  emitted_once undefined key now later event_name other_name payload other_payload options
        other_options evs p q k l h s e =
      duplicate_emit key now p.idempotency_key_ttl_ms undefined later other_name other_payload
        other_options q l
        (subst (Marked key now p.idempotency_key_ttl_ms) (sym e) (
          happen_all-Marked key now p.idempotency_key_ttl_ms undefined evs _ s
            (first_emit-Marked key undefined now event_name payload options p k h)))

  -- Cancelling a delayed event that is noted under its key clears its timer, rejects its subscription
  -- if that is pending, and frees the key.
  cancel_withdraws :
      (key : String) (t r : ℕ) (p : InProcessEventProvider H P V E)
      → get String-discrete key p.pending_delayed_by_key ≡ some (t, r)
      → get ℕ_discrete r p.subscriptions ≡ some pending
      → ((cancel key p).0 ≡ true)
        × (get ℕ_discrete t (cancel key p).1.timers ≡ none)
        × (get ℕ_discrete r (cancel key p).1.subscriptions ≡ some (rejected event_cancelled))
        × (get String-discrete key (cancel key p).1.pending_delayed_by_key ≡ none)
        × (has String-discrete key (cancel key p).1.processed_idempotency_keys ≡ false)
  cancel_withdraws key t r p e h = rw (cancel_at key (t, r) p e) (
    refl,
    get-delete_self ℕ_discrete t p.timers,
    ap (get ℕ_discrete r) (settle_at r (rejected event_cancelled) p.subscriptions h)
        ∙ get-set_self ℕ_discrete r (rejected event_cancelled) p.subscriptions,
    get-delete_self String-discrete key p.pending_delayed_by_key,
    ap is_some (get-delete_self String-discrete key p.processed_idempotency_keys),
  )

-- A provider with nothing under way.
abbrev pub IsIdle : {H P V E : Type 0} → InProcessEventProvider H P V E → Type 0
IsIdle p =
    (p.timers ≡ []) × (p.running ≡ []) × (p.pending_timeouts ≡ []) × (p.pending_delayed_by_key ≡ [])

module _ {P : Type 0} where
  only_timer :
      (t : ℕ) (d : Delayed P) (ts : List ℕ) (m : JsMap ℕ (Delayed P))
      → ts ≡ []
      → m ≡ []
      → clear_all (add ℕ_discrete t ts) (set ℕ_discrete t d m) ≡ []
  unfolding add set clear_all delete
  only_timer t d ts m e f = rw (e, f) (ground arith)

module _ {H P V E : Type 0} where
  -- A delayed event with no key is scheduled.
  emit_delayed :
      (undefined : V) (now delay : ℕ) (event_name : String) (payload : P) (options : EmitOptions)
      (p : InProcessEventProvider H P V E)
      → options.delay ≡ some (suc delay)
      → truthy_key options.idempotency_key ≡ none
      → (emit undefined now event_name payload options p).1
        ≡ schedule_delivery
            (record {
              event_name = event_name;
              payload = payload;
              correlation_id = p.next;
              causation_id = options.causation_id;
              timestamp = now;
            })
            p.next
            none
            (created p)
  unfolding emit
  emit_delayed undefined now delay event_name payload options p d k =
      rw (emit, k, d, positive delay) refl
    where
      positive : (n : ℕ) → ltb 0 (suc n) ≡ true
      positive n = ground arith

  -- A delayed event with no key that is pending when the provider is stopped is forgotten: its
  -- subscription stays pending, no timer is set and no handler is running. Nothing else is under way.
  pub stop_strands :
      (undefined : V) (now delay : ℕ) (event_name : String) (payload : P) (options : EmitOptions)
      (p : InProcessEventProvider H P V E)
      → IsIdle p
      → options.delay ≡ some (suc delay)
      → truthy_key options.idempotency_key ≡ none
      → (get ℕ_discrete p.next
            (stop (emit undefined now event_name payload options p).1).subscriptions
          ≡ some pending)
        × ((stop (emit undefined now event_name payload options p).1).timers ≡ [])
        × ((stop (emit undefined now event_name payload options p).1).running ≡ [])
  unfolding stop schedule_delivery reject_all
  stop_strands undefined now delay event_name payload options p (a, b, c, e) d k =
      rw (emit_delayed undefined now delay event_name payload options p d k) (
        ap
              (λ m.
                get ℕ_discrete p.next
                  (reject_all m (set ℕ_discrete p.next pending p.subscriptions)))
              e
            ∙ get-set_self ℕ_discrete p.next pending p.subscriptions,
        only_timer (suc p.next) _ p.pending_timeouts p.timers c a,
        b,
      )
