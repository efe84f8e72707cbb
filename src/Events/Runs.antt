-- ===== src/Events/Runs.antt =====
-- Every subscription of a provider that is not stopped will be settled by somebody.
use orijs.Common.{
  ℕ, ◌≡◌, ◌≢◌, refl, sym, ap, ◌∙◌, Bool, true, false, Option, none, some, List, [], ◌∷◌, String,
  All, String-discrete, ℕ_discrete, ltb, get_elem?, if◌then◌else◌,
}
use orijs.JsMap.{get, delete, remove}
use orijs.JsMap.Laws.{get-set_self}
use orijs.Events.Subscription.{pending, resolved, rejected}
use orijs.Events.Delivery.{
  EventMessage, EmitOptions, Delayed, event_cancelled, Execution, InProcessEventProvider, settle,
  subscribe, get_handlers, delivered, deliver, HandlerEnd, returns, throws, remove_at, end_state,
  settled_by, finish,
}
use orijs.Events.Provider.{
  truthy_key, without_entry, schedule_delivery, is_duplicate, marked, created, sent, emit, fire,
  cancel, unexpired, clean_up, fresh_provider, Event, emits, subscribes, fires, finishes, cancels,
  cleans, starts, stops, happen, happen_all,
}
use orijs.Events.Awaiting.{
  some-injective, Awaited, Valid, create-Valid, settle-Valid, run-Valid, set_timer-Valid,
  set_entry-Valid, delete_entry-Valid, clear_timer-Valid, end-Valid,
}

end_is_not_pending : {V E : Type 0} (end : HandlerEnd V E) → end_state end ≢ pending
end_is_not_pending (returns v) e = cc
end_is_not_pending (throws d) e = cc

module _ {H P V E : Type 0} where
  abbrev pub ValidFor : Option ℕ → InProcessEventProvider H P V E → Type 0
  ValidFor exempt p =
      Valid exempt p.timers p.pending_delayed_by_key p.subscriptions p.running p.next

  pub deliver-ValidFor :
      (undefined : V) (message : EventMessage P) (r : ℕ) (p : InProcessEventProvider H P V E)
      → ValidFor (some r) p
      → ValidFor none (deliver undefined message r p)
  unfolding deliver
  deliver-ValidFor undefined message r p v = by_handlers (get_handlers message.event_name p)
    where
      by_handlers : (hs : List H) → ValidFor none (delivered undefined hs message r p)
      by_handlers [] = settle-Valid r (resolved undefined) _ _ _ _ _ (λ e. cc) v
      by_handlers (h ∷ hs) = run-Valid r _ _ _ _ _ _ _ refl v

  schedule_delivery-ValidFor :
      (message : EventMessage P) (r : ℕ) (key : Option String) (p : InProcessEventProvider H P V E)
      → ValidFor (some r) p
      → ValidFor none (schedule_delivery message r key p)
  unfolding schedule_delivery
  schedule_delivery-ValidFor message r none p v =
      set_timer-Valid (record { message = message; subscription = r; key = none }) _ _ _ _ _ v
  schedule_delivery-ValidFor message r (some key) p v =
      set_entry-Valid key p.next (record { message = message; subscription = r; key = some key }) _
        _ _ _ _
        (get-set_self ℕ_discrete p.next
          (record { message = message; subscription = r; key = some key }) p.timers)
        (set_timer-Valid (record { message = message; subscription = r; key = some key }) _ _ _ _ _
          v)

  without_entry-ValidFor :
      (exempt : Option ℕ) (key : Option String) (p : InProcessEventProvider H P V E)
      → ValidFor exempt p
      → ValidFor exempt (without_entry key p)
  without_entry-ValidFor exempt none p v = v
  without_entry-ValidFor exempt (some key) p v = delete_entry-Valid exempt key _ _ _ _ _ v

  marked-ValidFor :
      (exempt : Option ℕ) (now : ℕ) (key : Option String) (p : InProcessEventProvider H P V E)
      → ValidFor exempt p
      → ValidFor exempt (marked now key p)
  marked-ValidFor exempt now none p v = v
  marked-ValidFor exempt now (some key) p v = v

  emit-ValidFor :
      (undefined : V) (now : ℕ) (event_name : String) (payload : P) (options : EmitOptions)
      (p : InProcessEventProvider H P V E)
      → ValidFor none p
      → ValidFor none (emit undefined now event_name payload options p).1
  unfolding emit
  emit-ValidFor undefined now event_name payload options p v =
      by_tests (is_duplicate key (created p)) options.delay
    where
      key : Option String
      key = truthy_key options.idempotency_key

      message : EventMessage P
      message = record {
        event_name = event_name;
        payload = payload;
        correlation_id = p.next;
        causation_id = options.causation_id;
        timestamp = now;
      }

      made : ValidFor (some p.next) (created p)
      made = create-Valid _ _ _ _ _ v

      sent_on :
          (delay : Option ℕ)
          → ValidFor none (sent undefined delay key message p.next (marked now key (created p)))
      sent_on none =
          deliver-ValidFor undefined message p.next _ (marked-ValidFor _ now key (created p) made)
      sent_on (some delay) = by_delay (ltb 0 delay)
        where
          by_delay :
              (b : Bool)
              → ValidFor none (
                  if b
                  then schedule_delivery message p.next key (marked now key (created p))
                  else deliver undefined message p.next (marked now key (created p)))
          by_delay true =
              schedule_delivery-ValidFor message p.next key _
                (marked-ValidFor _ now key (created p) made)
          by_delay false =
              deliver-ValidFor undefined message p.next _
                (marked-ValidFor _ now key (created p) made)

      by_tests :
          (b : Bool) (delay : Option ℕ)
          → ValidFor none (
              if b
              then record (created p) {
                subscriptions = settle p.next (resolved undefined) (created p).subscriptions;
              }
              else sent undefined delay key message p.next (marked now key (created p)))
      by_tests true delay = settle-Valid p.next (resolved undefined) _ _ _ _ _ (λ e. cc) made
      by_tests false delay = sent_on delay

  fire-ValidFor :
      (undefined : V) (timeout : ℕ) (p : InProcessEventProvider H P V E)
      → ValidFor none p
      → ValidFor none (fire undefined timeout p)
  unfolding fire
  fire-ValidFor undefined timeout p v = by_timer (get ℕ_discrete timeout p.timers) refl
    where
      by_timer :
          (o : Option (Delayed P))
          → get ℕ_discrete timeout p.timers ≡ o
          → ValidFor none (elim o [
            | none ↦ p
            | some d ↦ deliver undefined d.message d.subscription (
                without_entry d.key (record p {
                  timers = delete ℕ_discrete timeout p.timers;
                  pending_timeouts = remove ℕ_discrete timeout p.pending_timeouts;
                }))
          ])
      by_timer none e = v
      by_timer (some d) e = deliver-ValidFor undefined d.message d.subscription _ (
          without_entry-ValidFor (some d.subscription) d.key _ (
            clear_timer-Valid timeout d.subscription _ _ _ _ _
              (λ c h. ap (λ (z : Delayed P). z.subscription) (some-injective c d (sym h ∙ e))) v))

  finish-ValidFor :
      (i : ℕ) (end : HandlerEnd V E) (p : InProcessEventProvider H P V E)
      → ValidFor none p
      → ValidFor none (finish i end p)
  unfolding finish
  finish-ValidFor i end p v = by_running (get_elem? p.running i) refl
    where
      settled-ValidFor :
          (o : Option ℕ) (q : InProcessEventProvider H P V E)
          → ValidFor o q
          → ValidFor none (settled_by o end q)
      settled-ValidFor none q w = w
      settled-ValidFor (some r) q w =
          settle-Valid r (end_state end) _ _ _ _ _ (end_is_not_pending end) w

      by_running :
          (o : Option (Execution H P))
          → get_elem? p.running i ≡ o
          → ValidFor none (elim o [
            | none ↦ p
            | some x ↦ settled_by x.subscription end (record p { running = remove_at i p.running })
          ])
      by_running none e = v
      by_running (some x) e = settled-ValidFor x.subscription _ (end-Valid i x _ _ _ _ _ e v)

  cancel-ValidFor :
      (key : String) (p : InProcessEventProvider H P V E)
      → ValidFor none p
      → ValidFor none (cancel key p).1
  unfolding cancel
  cancel-ValidFor key p v = by_entry (get String-discrete key p.pending_delayed_by_key) refl
    where
      by_entry :
          (o : Option (ℕ × ℕ))
          → get String-discrete key p.pending_delayed_by_key ≡ o
          → ValidFor none
              (elim o as (λ x. Bool × InProcessEventProvider H P V E) [
                | none ↦ (false, p)
                | some entry ↦ (
                  true,
                  record p {
                    timers = delete ℕ_discrete entry.0 p.timers;
                    pending_delayed_by_key = delete String-discrete key p.pending_delayed_by_key;
                    pending_timeouts = remove ℕ_discrete entry.0 p.pending_timeouts;
                    subscriptions = settle entry.1 (rejected event_cancelled) p.subscriptions;
                    processed_idempotency_keys =
                        delete String-discrete key p.processed_idempotency_keys;
                  },
                )
              ]).1
      by_entry none e = v
      by_entry (some entry) e =
          settle-Valid entry.1 (rejected event_cancelled) _ _ _ _ _ (λ q. cc)
            (delete_entry-Valid (some entry.1) key _ _ _ _ _ (
              clear_timer-Valid entry.0 entry.1 _ _ _ _ _ (λ d h. v.entries_agree key entry d e h)
                v))

  clean_up-ValidFor :
      (now : ℕ) (p : InProcessEventProvider H P V E)
      → ValidFor none p
      → ValidFor none (clean_up now p)
  unfolding clean_up
  clean_up-ValidFor now p v = by_test p.cleaning
    where
      by_test :
          (b : Bool)
          → ValidFor none (
              if b
              then record p {
                processed_idempotency_keys =
                    unexpired now p.idempotency_key_ttl_ms p.processed_idempotency_keys;
              }
              else p)
      by_test true = v
      by_test false = v

  subscribe-ValidFor :
      (event_name : String) (handler : H) (p : InProcessEventProvider H P V E)
      → ValidFor none p
      → ValidFor none (subscribe event_name handler p)
  unfolding subscribe
  subscribe-ValidFor event_name handler p v = v

  abbrev pub IsNotStop : Event H P V E → Type 0
  IsNotStop stops = ⊥
  IsNotStop _ = Unit

  happen-ValidFor :
      (undefined : V) (ev : Event H P V E) (p : InProcessEventProvider H P V E)
      → IsNotStop ev
      → ValidFor none p
      → ValidFor none (happen undefined ev p)
  happen-ValidFor undefined (emits now event_name payload options) p a v =
      emit-ValidFor undefined now event_name payload options p v
  happen-ValidFor undefined (subscribes event_name handler) p a v =
      subscribe-ValidFor event_name handler p v
  happen-ValidFor undefined (fires timeout) p a v = fire-ValidFor undefined timeout p v
  happen-ValidFor undefined (finishes i end) p a v = finish-ValidFor i end p v
  happen-ValidFor undefined (cancels key) p a v = cancel-ValidFor key p v
  happen-ValidFor undefined (cleans now) p a v = clean_up-ValidFor now p v
  happen-ValidFor undefined starts p a v = v
  happen-ValidFor undefined stops p a v = absurd a

  happen_all-ValidFor :
      (undefined : V) (evs : List (Event H P V E)) (p : InProcessEventProvider H P V E)
      → All IsNotStop evs
      → ValidFor none p
      → ValidFor none (happen_all undefined evs p)
  unfolding happen_all
  happen_all-ValidFor undefined [] p a v = v
  happen_all-ValidFor undefined (ev ∷ evs) p a v =
      happen_all-ValidFor undefined evs (happen undefined ev p) a.1
        (happen-ValidFor undefined ev p a.0 v)

  -- In a provider that was not stopped, a subscription that is pending is awaited: a timer is set that
  -- will deliver its event, or the handler is running whose end settles it.
  pub pending_is_Awaited :
      (undefined : V) (ttl : ℕ) (evs : List (Event H P V E)) (r : ℕ)
      → All IsNotStop evs
      → get ℕ_discrete r (happen_all undefined evs (fresh_provider ttl)).subscriptions
        ≡ some pending
      → Awaited
          (happen_all undefined evs (fresh_provider ttl)).timers
          (happen_all undefined evs (fresh_provider ttl)).running
          r
  unfolding get
  pending_is_Awaited undefined ttl evs r a h =
      let v = happen_all-ValidFor undefined evs (fresh_provider ttl) a (record {
        timers_old = λ t d e. cc;
        subs_old = λ j s e. cc;
        entries_old = λ k e f. cc;
        entries_agree = λ k e d f. cc;
        awaited = λ j e. cc;
      }) in
      v.awaited r h (λ e. cc)
