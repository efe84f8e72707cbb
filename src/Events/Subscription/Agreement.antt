-- ===== src/Events/Subscription/Agreement.antt =====
-- The state of a subscription, its promise and its callbacks tell the same.
use orijs.Common.{
  ℕ, ◌≡◌, ◌≢◌, refl, Bool, true, false, Option, none, some, List, [], ◌∷◌, ◌++◌, All, All-append,
  append-nil, ap, subst, sym, if◌then◌else◌, arith,
}
use orijs.Events.Subscription.{
  SubscriptionState, pending, resolved, rejected, Notice, called, failed, EventSubscription,
  create_subscription, notify, subscribe, catch_error, resolve, reject, to_promise, Use, subscribes,
  catches, resolves, rejects, awaits, perform, perform_all, settle_promise, settle, if_pending,
  notify_resolved, notify_rejected, has_handlers,
}

module _ {V E : Type 0} where
  -- A callback was told how the subscription was settled.
  abbrev pub Says : SubscriptionState V E → Notice V E → Type 0
  Says (resolved v) (called c w) = w ≡ v
  Says (rejected e) (failed c d) = d ≡ e
  Says _ _ = ⊥

  -- Of the state, the promise, whether there are handlers for it, and the calls of callbacks.
  pub record AgreesOn (t : SubscriptionState V E) (p : Option (SubscriptionState V E)) (h : Bool)
      (ns : List (Notice V E)) : Type 0 where
    pub promised : (u : SubscriptionState V E) → p ≡ some u → u ≡ t
    pub handled : p ≡ some pending → h ≡ true
    pub unhandled : p ≡ none → h ≡ false
    pub told : All (Says t) ns

  abbrev pub Agrees : EventSubscription V E → Type 0
  Agrees s = AgreesOn s.state s.promise s.has_promise_handlers s.notices

  every_told :
      (t : SubscriptionState V E) (ns : List (Notice V E)) → All (Says pending) ns → All (Says t) ns
  every_told t [] h = tt
  every_told t (n ∷ ns) h = absurd h.0

  -- What becomes of a promise when its subscription is settled.
  settled-promise :
      (t : SubscriptionState V E) (p : Option (SubscriptionState V E)) (h : Bool)
      (ns ms : List (Notice V E))
      → t ≢ pending
      → AgreesOn pending p h ns
      → All (Says t) ms
      → AgreesOn t (if h then some t else p) h (ns ++ ms)
  settled-promise t none true ns ms n a m = absurd (clash (a.unhandled refl))
    where
      clash : true ≡ false → ⊥
      clash e = cc
  settled-promise t none false ns ms n a m = record {
    promised = λ u e. cc;
    handled = λ e. cc;
    unhandled = λ e. refl;
    told = All-append (Says t) ns ms (every_told t ns a.told) m;
  }
  settled-promise t (some u) true ns ms n a m = record {
    promised = λ u e. cc;
    handled = λ e. refl;
    unhandled = λ e. cc;
    told = All-append (Says t) ns ms (every_told t ns a.told) m;
  }
  settled-promise t (some u) false ns ms n a m =
      absurd (clash (a.handled (ap some (a.promised u refl))))
    where
      clash : false ≡ true → ⊥
      clash e = cc

  settle_promise-Agrees :
      (t : SubscriptionState V E) (s : EventSubscription V E)
      → s.state ≡ t
      → AgreesOn t
          (if s.has_promise_handlers then some t else s.promise)
          s.has_promise_handlers
          s.notices
      → Agrees (settle_promise t s)
  settle_promise-Agrees t s st a = by_test s.has_promise_handlers refl
    where
      with_handlers :
          (b : Bool)
          → s.has_promise_handlers ≡ b
          → AgreesOn s.state (if b then some t else s.promise) s.has_promise_handlers s.notices
      with_handlers b e =
          subst (λ u. AgreesOn u (if b then some t else s.promise) s.has_promise_handlers s.notices)
            (sym st)
            (subst
              (λ b. AgreesOn t (if b then some t else s.promise) s.has_promise_handlers s.notices) e
              a)

      by_test :
          (b : Bool)
          → s.has_promise_handlers ≡ b
          → Agrees (if b then record s { promise = some t } else s)
      by_test true e = with_handlers true e
      by_test false e = with_handlers false e

module _ {V E : Type 0} (throws : ℕ → Bool) (tame : (c : ℕ) → throws c ≡ false) where
  settle-Agrees :
      (t : SubscriptionState V E) (callback : Option ℕ) (note : ℕ → Notice V E)
      (s : EventSubscription V E)
      → t ≢ pending
      → ((c : ℕ) → Says t (note c))
      → s.state ≡ pending
      → Agrees s
      → Agrees (settle throws t callback note s)
  settle-Agrees t none note s n says e a =
      settle_promise-Agrees t (record s { state = t }) refl
        (subst
          (AgreesOn t (if s.has_promise_handlers then some t else s.promise) s.has_promise_handlers)
          (append-nil s.notices)
          (settled-promise t s.promise s.has_promise_handlers s.notices [] n
            (subst (λ u. AgreesOn u s.promise s.has_promise_handlers s.notices) e a) tt))
  settle-Agrees t (some c) note s n says e a = rw (tame c) (
      settle_promise-Agrees t (notify (note c) (record s { state = t })) refl (
        settled-promise t s.promise s.has_promise_handlers s.notices (note c ∷ []) n
          (subst (λ u. AgreesOn u s.promise s.has_promise_handlers s.notices) e a) (says c, tt)))

  resolve-Agrees : (v : V) (s : EventSubscription V E) → Agrees s → Agrees (resolve throws v s)
  unfolding resolve
  resolve-Agrees v s a = by_state s.state refl
    where
      by_state :
          (t : SubscriptionState V E)
          → s.state ≡ t
          → Agrees
              (if_pending t (settle throws (resolved v) s.subscribe_callback (λ c. called c v) s) s)
      by_state pending e =
          settle-Agrees (resolved v) s.subscribe_callback (λ c. called c v) s (λ e. cc) (λ c. refl)
            e a
      by_state (resolved w) e = a
      by_state (rejected d) e = a

  reject-Agrees : (d : E) (s : EventSubscription V E) → Agrees s → Agrees (reject throws d s)
  unfolding reject
  reject-Agrees d s a = by_state s.state refl
    where
      by_state :
          (t : SubscriptionState V E)
          → s.state ≡ t
          → Agrees
              (if_pending t (settle throws (rejected d) s.error_callback (λ c. failed c d) s) s)
      by_state pending e =
          settle-Agrees (rejected d) s.error_callback (λ c. failed c d) s (λ e. cc) (λ c. refl) e a
      by_state (resolved w) e = a
      by_state (rejected b) e = a

module _ {V E : Type 0} where
  -- One more notice, which says what the state is.
  told-Agrees :
      (s : EventSubscription V E) (n : Notice V E)
      → Says s.state n
      → Agrees s
      → AgreesOn s.state s.promise s.has_promise_handlers (s.notices ++ (n ∷ []))
  told-Agrees s n h a = record {
    promised = a.promised;
    handled = a.handled;
    unhandled = a.unhandled;
    told = All-append (Says s.state) s.notices (n ∷ []) a.told (h, tt);
  }

  subscribe-Agrees : (c : ℕ) (s : EventSubscription V E) → Agrees s → Agrees (subscribe c s)
  unfolding subscribe
  subscribe-Agrees c s a = by_state s.state refl
    where
      by_state :
          (t : SubscriptionState V E)
          → s.state ≡ t
          → Agrees (notify_resolved c t (record s { subscribe_callback = some c }))
      by_state pending e = a
      by_state (rejected d) e = a
      by_state (resolved v) e =
          told-Agrees s (called c v) (subst (λ t. Says t (called c v)) (sym e) refl) a

  catch_error-Agrees : (c : ℕ) (s : EventSubscription V E) → Agrees s → Agrees (catch_error c s)
  unfolding catch_error
  catch_error-Agrees c s a = by_state s.state refl
    where
      by_state :
          (t : SubscriptionState V E)
          → s.state ≡ t
          → Agrees (notify_rejected c t (record s { error_callback = some c }))
      by_state pending e = a
      by_state (resolved d) e = a
      by_state (rejected d) e =
          told-Agrees s (failed c d) (subst (λ t. Says t (failed c d)) (sym e) refl) a

  to_promise-Agrees : (s : EventSubscription V E) → Agrees s → Agrees (to_promise s)
  unfolding to_promise
  to_promise-Agrees s a = by_promise s.promise
    where
      handlers :
          (t : SubscriptionState V E)
          → s.state ≡ t
          → some s.state ≡ some pending
          → has_handlers t s.has_promise_handlers ≡ true
      handlers pending e h = refl
      handlers (resolved v) e h = cc
      handlers (rejected v) e h = cc

      by_promise :
          (p : Option (SubscriptionState V E))
          → Agrees (elim p [
            | none ↦ record s {
              promise = some s.state;
              has_promise_handlers = has_handlers s.state s.has_promise_handlers;
            }
            | some t ↦ s
          ])
      by_promise (some t) = a
      by_promise none = record {
        promised = λ u h. cc;
        handled = handlers s.state refl;
        unhandled = λ h. cc;
        told = a.told;
      }

module _ {V E : Type 0} (throws : ℕ → Bool) (tame : (c : ℕ) → throws c ≡ false) where
  perform-Agrees :
      (u : Use V E) (s : EventSubscription V E) → Agrees s → Agrees (perform throws u s)
  perform-Agrees (subscribes c) s a = subscribe-Agrees c s a
  perform-Agrees (catches c) s a = catch_error-Agrees c s a
  perform-Agrees (resolves v) s a = resolve-Agrees throws tame v s a
  perform-Agrees (rejects d) s a = reject-Agrees throws tame d s a
  perform-Agrees awaits s a = to_promise-Agrees s a

  go-Agrees :
      (us : List (Use V E)) (s : EventSubscription V E)
      → Agrees s
      → Agrees (perform_all throws us s)
  unfolding perform_all
  go-Agrees [] s a = a
  go-Agrees (u ∷ us) s a = go-Agrees us (perform throws u s) (perform-Agrees u s a)

  -- Whatever is done with a subscription whose callbacks do not throw, its promise is in the state of
  -- the subscription, and each call of a callback told that state: a callback for values is only called
  -- with the value it was resolved with, and one for errors with the error it was rejected with.
  pub perform_all-Agrees :
      (us : List (Use V E)) → Agrees (perform_all throws us create_subscription)
  perform_all-Agrees us =
      go-Agrees us create_subscription
        (record { promised = λ u h. cc; handled = λ h. cc; unhandled = λ h. refl; told = tt })

module _ {V E : Type 0} (throws : ℕ → Bool) where
  -- A subscription that was resolved, and whose promise is pending.
  Stranded : V → EventSubscription V E → Type 0
  Stranded v s = (s.state ≡ resolved v) × (s.promise ≡ some pending)

  perform-Stranded :
      (v : V) (u : Use V E) (s : EventSubscription V E)
      → Stranded v s
      → Stranded v (perform throws u s)
  unfolding Stranded subscribe catch_error resolve reject to_promise
  perform-Stranded v (subscribes c) s (e, p) = rw e (refl, p)
  perform-Stranded v (catches c) s (e, p) = rw e (refl, p)
  perform-Stranded v (resolves w) s (e, p) = rw e (refl, p)
  perform-Stranded v (rejects d) s (e, p) = rw e (refl, p)
  perform-Stranded v awaits s (e, p) = rw p (e, refl)

  perform_all-Stranded :
      (v : V) (us : List (Use V E)) (s : EventSubscription V E)
      → Stranded v s
      → Stranded v (perform_all throws us s)
  unfolding perform_all
  perform_all-Stranded v [] s h = h
  perform_all-Stranded v (u ∷ us) s h =
      perform_all-Stranded v us (perform throws u s) (perform-Stranded v u s h)

  -- If the callback of a pending subscription throws when it is resolved, and its promise was asked
  -- for before that, the promise stays pending whatever is done then, though the subscription is
  -- resolved.
  pub throwing_callback_strands :
      (v : V) (c : ℕ) (us : List (Use V E)) (s : EventSubscription V E)
      → s.state ≡ pending
      → s.promise ≡ some pending
      → s.subscribe_callback ≡ some c
      → throws c ≡ true
      → ((perform_all throws us (resolve throws v s)).state ≡ resolved v)
        × ((perform_all throws us (resolve throws v s)).promise ≡ some pending)
  unfolding Stranded resolve
  throwing_callback_strands v c us s e p k t =
      perform_all-Stranded v us (resolve throws v s) (ground (arith, e, p, k, t))
