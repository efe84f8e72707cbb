-- ===== src/Events/Marks.antt =====
-- How long the key of an event stays marked.
use orijs.Common.{
  ℕ, ◌-◌, ◌≤◌, ◌≡◌, ◌≢◌, refl, sym, ap, ◌∙◌, subst, ite, Bool, true, false, Option, none, some,
  is_some, List, [], ◌∷◌, String, String-discrete, ℕ_discrete, ltb, get_elem?, if◌then◌else◌, arith,
  All,
}
use orijs.JsMap.{JsMap, get, set, delete, remove}
use orijs.JsMap.Laws.{get-set_ne, get-delete_ne}
use orijs.Events.Subscription.{SubscriptionState, pending, resolved, rejected}
use orijs.Events.Delivery.{
  EventMessage, EmitOptions, Delayed, event_cancelled, Execution, InProcessEventProvider, settle,
  subscribe, get_handlers, delivered, deliver, HandlerEnd, remove_at, settled_by, finish,
}
use orijs.Events.Provider.{
  truthy_key, without_entry, schedule_delivery, is_duplicate, marked, created, sent, emit, fire,
  cancel, unexpired, clean_up, Event, emits, subscribes, fires, finishes, cancels, cleans, starts,
  stops, happen, happen_all,
}
use orijs.Events.Awaiting.{some-injective}

-- A cleanup keeps what has not expired.
get-unexpired :
    (now ttl ts : ℕ) (key : String) (m : JsMap String ℕ)
    → now - ts ≤ ttl
    → get String-discrete key m ≡ some ts
    → get String-discrete key (unexpired now ttl m) ≡ some ts
unfolding get unexpired
get-unexpired now ttl ts key [] h e = e
get-unexpired now ttl ts key ((k, t) ∷ m) h e =
    by_tests (get-unexpired now ttl ts key m h) (String-discrete k key) refl e (ltb ttl (now - t))
      refl
  where
    by_tests :
        (get String-discrete key m ≡ some ts
          → get String-discrete key (unexpired now ttl m) ≡ some ts)
        → (d : Dec (k ≡ key)) → String-discrete k key ≡ d
        → ite d (some t) (get String-discrete key m) ≡ some ts
        → (b : Bool) → ltb ttl (now - t) ≡ b
        → get String-discrete key (if b then unexpired now ttl m else (k, t) ∷ unexpired now ttl m)
          ≡ some ts
    by_tests rec (yes q) u e true g = absurd (ground (arith, h, g, some-injective t ts e))
    by_tests rec (yes q) u e false g = rw u e
    by_tests rec (no n) u e true g = rec e
    by_tests rec (no n) u e false g = rw u (rec e)

true_is_not_false : true ≡ false → ⊥
true_is_not_false e = cc

module _ {V E : Type 0} where
  pub settle_at :
      (r : ℕ) (t : SubscriptionState V E) (m : JsMap ℕ (SubscriptionState V E))
      → get ℕ_discrete r m ≡ some pending
      → settle r t m ≡ set ℕ_discrete r t m
  unfolding settle
  settle_at r t m e = rw (settle, e) refl

module _ {H P V E : Type 0} where
  cancel-none :
      (key : String) (p : InProcessEventProvider H P V E)
      → get String-discrete key p.pending_delayed_by_key ≡ none
      → cancel key p ≡ (false, p)
  unfolding cancel
  cancel-none key p e = rw (cancel, e) refl

  pub cancel_at :
      (key : String) (entry : ℕ × ℕ) (p : InProcessEventProvider H P V E)
      → get String-discrete key p.pending_delayed_by_key ≡ some entry
      → cancel key p ≡ (
        true,
        record p {
          timers = delete ℕ_discrete entry.0 p.timers;
          pending_delayed_by_key = delete String-discrete key p.pending_delayed_by_key;
          pending_timeouts = remove ℕ_discrete entry.0 p.pending_timeouts;
          subscriptions = settle entry.1 (rejected event_cancelled) p.subscriptions;
          processed_idempotency_keys = delete String-discrete key p.processed_idempotency_keys;
        },
      )
  unfolding cancel
  cancel_at key entry p e = rw (cancel, e) refl

  unfoldable pub Marked : String → ℕ → ℕ → InProcessEventProvider H P V E → Type 0
  Marked key ts ttl p =
      (get String-discrete key p.processed_idempotency_keys ≡ some ts)
      × (p.idempotency_key_ttl_ms ≡ ttl)

  -- The keys do not depend on deliveries.
  deliver-Marked :
      (key : String) (ts ttl : ℕ) (undefined : V) (message : EventMessage P) (r : ℕ)
      (p : InProcessEventProvider H P V E)
      → Marked key ts ttl p
      → Marked key ts ttl (deliver undefined message r p)
  unfolding deliver Marked
  deliver-Marked key ts ttl undefined message r p h =
      by_handlers (get_handlers message.event_name p)
    where
      by_handlers : (hs : List H) → Marked key ts ttl (delivered undefined hs message r p)
      by_handlers [] = h
      by_handlers (x ∷ hs) = h

  schedule_delivery-Marked :
      (key : String) (ts ttl : ℕ) (message : EventMessage P) (r : ℕ) (k : Option String)
      (p : InProcessEventProvider H P V E)
      → Marked key ts ttl p
      → Marked key ts ttl (schedule_delivery message r k p)
  unfolding schedule_delivery Marked
  schedule_delivery-Marked key ts ttl message r none p h = h
  schedule_delivery-Marked key ts ttl message r (some k) p h = h

  -- Neither a cancellation of the key nor a cleanup that finds it expired nor a stop.
  abbrev pub Spares : String → ℕ → ℕ → Event H P V E → Type 0
  Spares key ts ttl (cancels k) = k ≢ key
  Spares key ts ttl (cleans now) = now - ts ≤ ttl
  Spares key ts ttl stops = ⊥
  Spares key ts ttl _ = Unit

  pub sent-Marked :
      (key : String) (ts ttl : ℕ) (undefined : V) (delay : Option ℕ) (k : Option String)
      (message : EventMessage P) (r : ℕ) (p : InProcessEventProvider H P V E)
      → Marked key ts ttl p
      → Marked key ts ttl (sent undefined delay k message r p)
  sent-Marked key ts ttl undefined none k message r p h =
      deliver-Marked key ts ttl undefined message r p h
  sent-Marked key ts ttl undefined (some delay) k message r p h = by_delay (ltb 0 delay)
    where
      by_delay :
          (b : Bool)
          → Marked key ts ttl
              (if b then schedule_delivery message r k p else deliver undefined message r p)
      by_delay true = schedule_delivery-Marked key ts ttl message r k p h
      by_delay false = deliver-Marked key ts ttl undefined message r p h

  marked-Marked :
      (key : String) (ts ttl now : ℕ) (k : Option String) (p : InProcessEventProvider H P V E)
      → is_duplicate k p ≡ false
      → Marked key ts ttl p
      → Marked key ts ttl (marked now k p)
  unfolding Marked
  marked-Marked key ts ttl now none p d h = h
  marked-Marked key ts ttl now (some k) p d h = (
    get-set_ne String-discrete key k now p.processed_idempotency_keys (λ q. true_is_not_false (
          sym (ap is_some (ap (λ x. get String-discrete x p.processed_idempotency_keys) q ∙ h.0))
          ∙ d))
        ∙ h.0,
    h.1,
  )

  emit-Marked :
      (key : String) (ts ttl : ℕ) (undefined : V) (now : ℕ) (event_name : String) (payload : P)
      (options : EmitOptions) (p : InProcessEventProvider H P V E)
      → Marked key ts ttl p
      → Marked key ts ttl (emit undefined now event_name payload options p).1
  unfolding emit Marked
  emit-Marked key ts ttl undefined now event_name payload options p h =
      by_test (is_duplicate k (created p)) refl
    where
      k : Option String
      k = truthy_key options.idempotency_key

      message : EventMessage P
      message = record {
        event_name = event_name;
        payload = payload;
        correlation_id = p.next;
        causation_id = options.causation_id;
        timestamp = now;
      }

      by_test :
          (b : Bool)
          → is_duplicate k (created p) ≡ b
          → Marked key ts ttl (
              if b
              then record (created p) {
                subscriptions = settle p.next (resolved undefined) (created p).subscriptions;
              }
              else sent undefined options.delay k message p.next (marked now k (created p)))
      by_test true e = h
      by_test false e =
          sent-Marked key ts ttl undefined options.delay k message p.next _
            (marked-Marked key ts ttl now k (created p) e h)

  fire-Marked :
      (key : String) (ts ttl : ℕ) (undefined : V) (timeout : ℕ) (p : InProcessEventProvider H P V E)
      → Marked key ts ttl p
      → Marked key ts ttl (fire undefined timeout p)
  unfolding fire Marked
  fire-Marked key ts ttl undefined timeout p h = by_timer (get ℕ_discrete timeout p.timers)
    where
      spared :
          (k : Option String) (q : InProcessEventProvider H P V E)
          → Marked key ts ttl q
          → Marked key ts ttl (without_entry k q)
      spared none q h = h
      spared (some k) q h = h

      by_timer :
          (o : Option (Delayed P))
          → Marked key ts ttl (elim o [
            | none ↦ p
            | some d ↦ deliver undefined d.message d.subscription (
                without_entry d.key (record p {
                  timers = delete ℕ_discrete timeout p.timers;
                  pending_timeouts = remove ℕ_discrete timeout p.pending_timeouts;
                }))
          ])
      by_timer none = h
      by_timer (some d) =
          deliver-Marked key ts ttl undefined d.message d.subscription _ (spared d.key _ h)

  finish-Marked :
      (key : String) (ts ttl i : ℕ) (end : HandlerEnd V E) (p : InProcessEventProvider H P V E)
      → Marked key ts ttl p
      → Marked key ts ttl (finish i end p)
  unfolding finish Marked
  finish-Marked key ts ttl i end p h = by_running (get_elem? p.running i)
    where
      kept :
          (o : Option ℕ) (q : InProcessEventProvider H P V E)
          → Marked key ts ttl q
          → Marked key ts ttl (settled_by o end q)
      kept none q h = h
      kept (some r) q h = h

      by_running :
          (o : Option (Execution H P))
          → Marked key ts ttl (elim o [
            | none ↦ p
            | some x ↦ settled_by x.subscription end (record p { running = remove_at i p.running })
          ])
      by_running none = h
      by_running (some x) = kept x.subscription _ h

  cancel-Marked :
      (key k : String) (ts ttl : ℕ) (p : InProcessEventProvider H P V E)
      → k ≢ key
      → Marked key ts ttl p
      → Marked key ts ttl (cancel k p).1
  unfolding Marked
  cancel-Marked key k ts ttl p n h = by_entry (get String-discrete k p.pending_delayed_by_key) refl
    where
      by_entry :
          (o : Option (ℕ × ℕ))
          → get String-discrete k p.pending_delayed_by_key ≡ o
          → Marked key ts ttl (cancel k p).1
      by_entry none e = subst (λ c. Marked key ts ttl c.1) (sym (cancel-none k p e)) h
      by_entry (some entry) e =
          subst (λ c. Marked key ts ttl c.1) (sym (cancel_at k entry p e))
            (get-delete_ne String-discrete key k p.processed_idempotency_keys n ∙ h.0, h.1)

  clean_up-Marked :
      (key : String) (ts ttl now : ℕ) (p : InProcessEventProvider H P V E)
      → now - ts ≤ ttl
      → Marked key ts ttl p
      → Marked key ts ttl (clean_up now p)
  unfolding clean_up Marked
  clean_up-Marked key ts ttl now p l h = by_test p.cleaning
    where
      by_test :
          (b : Bool)
          → Marked key ts ttl (
              if b
              then record p {
                processed_idempotency_keys =
                    unexpired now p.idempotency_key_ttl_ms p.processed_idempotency_keys;
              }
              else p)
      by_test true = (
        get-unexpired now p.idempotency_key_ttl_ms ts key p.processed_idempotency_keys
            (subst (λ x. now - ts ≤ x) (sym h.1) l) h.0,
        h.1,
      )
      by_test false = h

  happen-Marked :
      (key : String) (ts ttl : ℕ) (undefined : V) (ev : Event H P V E)
      (p : InProcessEventProvider H P V E)
      → Spares key ts ttl ev
      → Marked key ts ttl p
      → Marked key ts ttl (happen undefined ev p)
  unfolding Marked subscribe
  happen-Marked key ts ttl undefined (emits now event_name payload options) p s h =
      emit-Marked key ts ttl undefined now event_name payload options p h
  happen-Marked key ts ttl undefined (subscribes event_name handler) p s h = h
  happen-Marked key ts ttl undefined (fires timeout) p s h =
      fire-Marked key ts ttl undefined timeout p h
  happen-Marked key ts ttl undefined (finishes i end) p s h = finish-Marked key ts ttl i end p h
  happen-Marked key ts ttl undefined (cancels k) p s h = cancel-Marked key k ts ttl p s h
  happen-Marked key ts ttl undefined (cleans now) p s h = clean_up-Marked key ts ttl now p s h
  happen-Marked key ts ttl undefined starts p s h = h
  happen-Marked key ts ttl undefined stops p s h = absurd s

  pub happen_all-Marked :
      (key : String) (ts ttl : ℕ) (undefined : V) (evs : List (Event H P V E))
      (p : InProcessEventProvider H P V E)
      → All (Spares key ts ttl) evs
      → Marked key ts ttl p
      → Marked key ts ttl (happen_all undefined evs p)
  unfolding happen_all
  happen_all-Marked key ts ttl undefined [] p s h = h
  happen_all-Marked key ts ttl undefined (ev ∷ evs) p s h =
      happen_all-Marked key ts ttl undefined evs (happen undefined ev p) s.1
        (happen-Marked key ts ttl undefined ev p s.0 h)
