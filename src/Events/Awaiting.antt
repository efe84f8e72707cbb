-- ===== src/Events/Awaiting.antt =====
-- Whether somebody will settle a subscription that is pending.
use orijs.Common.{
  ℕ, zero, suc, ◌<◌, ◌≡◌, ◌≢◌, refl, sym, ap, ◌∙◌, subst, ◌⊎◌, inl, inr, Option, none, some, List,
  [], ◌∷◌, ◌++◌, String, String-discrete, ℕ_discrete, In, first, later, In-append_left,
  In-append_right, get_elem?, arith,
}
use orijs.JsMap.{JsMap, get, set, delete}
use orijs.JsMap.Laws.{
  get-set_inversion, get-delete_inversion, get-set_self, get-set_ne, get-delete_ne,
}
use orijs.Events.Subscription.{SubscriptionState, pending, resolved, rejected}
use orijs.Events.Delivery.{
  Delayed, EventError, Execution, settled_state, with_state, settle, remove_at,
}

pub some-injective : {A : Type 0} (a b : A) → some a ≡ some b → a ≡ b
some-injective a b h = cc

In-remove_at :
    {A : Type 0} (i : ℕ) (xs : List A) (y x : A)
    → In y xs
    → get_elem? xs i ≡ some x
    → In y (remove_at i xs) ⊎ (y ≡ x)
In-remove_at i [] y x h e = cc
In-remove_at zero (z ∷ xs) y x (first p) e = inr (p ∙ some-injective z x e)
In-remove_at zero (z ∷ xs) y x (later h) e = inl h
In-remove_at (suc i) (z ∷ xs) y x (first p) e = inl (first p)
In-remove_at (suc i) (z ∷ xs) y x (later h) e = elim (In-remove_at i xs y x h e) [
  | inl l ↦ inl (later l)
  | inr r ↦ inr r
]

-- A settled subscription: what is pending after that was pending, and is another one.
module _ {V E : Type 0} where
  settle-inversion :
      (r j : ℕ) (t s : SubscriptionState V E) (subs : JsMap ℕ (SubscriptionState V E))
      → t ≢ pending
      → get ℕ_discrete j (settle r t subs) ≡ some s
      → (s ≡ pending → (r ≢ j) × (get ℕ_discrete j subs ≡ some pending))
        × ((u : SubscriptionState V E) × (get ℕ_discrete j subs ≡ some u))
  unfolding settle
  settle-inversion r j t s subs n h = by_found (get ℕ_discrete r subs) refl h
    where
      not_other :
          (o : Option (SubscriptionState V E))
          → get ℕ_discrete r subs ≡ o
          → o ≢ some pending
          → get ℕ_discrete j subs ≡ some s
          → (s ≡ pending → (r ≢ j) × (get ℕ_discrete j subs ≡ some pending))
            × ((u : SubscriptionState V E) × (get ℕ_discrete j subs ≡ some u))
      not_other o e m h = (
        (λ p.
            ((λ q. m (sym e ∙ ap (λ x. get ℕ_discrete x subs) q ∙ h ∙ ap some p)), h ∙ ap some p)),
        (s, h),
      )

      by_found :
          (o : Option (SubscriptionState V E))
          → get ℕ_discrete r subs ≡ o
          → get ℕ_discrete j (with_state r (settled_state t o) subs) ≡ some s
          → (s ≡ pending → (r ≢ j) × (get ℕ_discrete j subs ≡ some pending))
            × ((u : SubscriptionState V E) × (get ℕ_discrete j subs ≡ some u))
      by_found none e h = not_other none e (λ q. cc) h
      by_found (some (resolved v)) e h = not_other (some (resolved v)) e (λ q. cc) h
      by_found (some (rejected d)) e h = not_other (some (rejected d)) e (λ q. cc) h
      by_found (some pending) e h = elim (get-set_inversion ℕ_discrete j r t s subs h) [
        | inl (p, q) ↦
            ((λ u. absurd (n (q ∙ u))), (pending, ap (λ x. get ℕ_discrete x subs) (sym p) ∙ e))
        | inr (m, g) ↦ ((λ u. (m, g ∙ ap some u)), (s, g))
      ]

module _ {H P : Type 0} where
  -- A timer is set that will deliver the event of the subscription, or the handler is running whose
  -- end settles it.
  abbrev pub Awaited : JsMap ℕ (Delayed P) → List (Execution H P) → ℕ → Type 0
  Awaited timers running r =
      ((t : ℕ) × (d : Delayed P) × (get ℕ_discrete t timers ≡ some d) × (d.subscription ≡ r))
      ⊎ ((x : Execution H P) × In x running × (x.subscription ≡ some r))

module _ {H P V E : Type 0} where
  -- Of the timers, the delayed events with a key, the subscriptions, the running handlers and the next
  -- number. The subscription that is exempt may be pending with nobody to settle it.
  pub record Valid (exempt : Option ℕ) (timers : JsMap ℕ (Delayed P))
      (entries : JsMap String (ℕ × ℕ)) (subs : JsMap ℕ (SubscriptionState V (EventError E)))
      (running : List (Execution H P)) (next : ℕ) : Type 0 where
    pub timers_old : (t : ℕ) (d : Delayed P) → get ℕ_discrete t timers ≡ some d → t < next
    pub subs_old :
        (r : ℕ) (s : SubscriptionState V (EventError E)) → get ℕ_discrete r subs ≡ some s → r < next
    pub entries_old : (k : String) (e : ℕ × ℕ) → get String-discrete k entries ≡ some e → e.0 < next
    pub entries_agree :
        (k : String) (e : ℕ × ℕ) (d : Delayed P)
        → get String-discrete k entries ≡ some e
        → get ℕ_discrete e.0 timers ≡ some d
        → d.subscription ≡ e.1
    pub awaited :
        (r : ℕ) → get ℕ_discrete r subs ≡ some pending → exempt ≢ some r → Awaited timers running r

  -- A new subscription.
  pub create-Valid :
      (timers : JsMap ℕ (Delayed P)) (entries : JsMap String (ℕ × ℕ))
      (subs : JsMap ℕ (SubscriptionState V (EventError E))) (running : List (Execution H P))
      (next : ℕ)
      → Valid none timers entries subs running next
      → Valid (some next) timers entries (set ℕ_discrete next pending subs) running (suc next)
  create-Valid timers entries subs running next v = record {
    timers_old = λ t d h. omega (arith, v.timers_old t d h);
    subs_old = λ r s h. elim (get-set_inversion ℕ_discrete r next pending s subs h) [
      | inl (e, f) ↦ omega (arith, e)
      | inr (n, g) ↦ omega (arith, v.subs_old r s g)
    ];
    entries_old = λ k e h. omega (arith, v.entries_old k e h);
    entries_agree = v.entries_agree;
    awaited = λ r h n. elim (get-set_inversion ℕ_discrete r next pending pending subs h) [
      | inl (e, f) ↦ absurd (n (ap some e))
      | inr (m, g) ↦ v.awaited r g (λ e. cc)
    ];
  }

  -- The exempt subscription is settled.
  pub settle-Valid :
      (r : ℕ) (t : SubscriptionState V (EventError E)) (timers : JsMap ℕ (Delayed P))
      (entries : JsMap String (ℕ × ℕ)) (subs : JsMap ℕ (SubscriptionState V (EventError E)))
      (running : List (Execution H P)) (next : ℕ)
      → t ≢ pending
      → Valid (some r) timers entries subs running next
      → Valid none timers entries (settle r t subs) running next
  settle-Valid r t timers entries subs running next n v = record {
    timers_old = v.timers_old;
    subs_old = λ j s h. let (p, q) = settle-inversion r j t s subs n h in v.subs_old j q.0 q.1;
    entries_old = v.entries_old;
    entries_agree = v.entries_agree;
    awaited = λ j h m.
        let (p, q) = settle-inversion r j t pending subs n h in
        v.awaited j (p refl).1 (λ e. (p refl).0 (some-injective r j e));
  }

  -- A handler of the exempt subscription starts, with others.
  pub run-Valid :
      (r : ℕ) (x : Execution H P) (more : List (Execution H P)) (timers : JsMap ℕ (Delayed P))
      (entries : JsMap String (ℕ × ℕ)) (subs : JsMap ℕ (SubscriptionState V (EventError E)))
      (running : List (Execution H P)) (next : ℕ)
      → x.subscription ≡ some r
      → Valid (some r) timers entries subs running next
      → Valid none timers entries subs (running ++ (x ∷ more)) next
  run-Valid r x more timers entries subs running next e v = record {
    timers_old = v.timers_old;
    subs_old = v.subs_old;
    entries_old = v.entries_old;
    entries_agree = v.entries_agree;
    awaited = λ j h m. elim (ℕ_discrete r j) [
      | yes q ↦ inr (x, In-append_right running (x ∷ more) (first refl), e ∙ ap some q)
      | no n ↦ elim (v.awaited j h (λ u. n (some-injective r j u))) [
        | inl w ↦ inl w
        | inr (y, i, f) ↦ inr (y, In-append_left running (x ∷ more) i, f)
      ]
    ];
  }

  -- A timer is set for the exempt subscription.
  pub set_timer-Valid :
      (d : Delayed P) (timers : JsMap ℕ (Delayed P)) (entries : JsMap String (ℕ × ℕ))
      (subs : JsMap ℕ (SubscriptionState V (EventError E))) (running : List (Execution H P))
      (next : ℕ)
      → Valid (some d.subscription) timers entries subs running next
      → Valid none (set ℕ_discrete next d timers) entries subs running (suc next)
  set_timer-Valid d timers entries subs running next v = record {
    timers_old = λ t c h. elim (get-set_inversion ℕ_discrete t next d c timers h) [
      | inl (e, f) ↦ omega (arith, e)
      | inr (n, g) ↦ omega (arith, v.timers_old t c g)
    ];
    subs_old = λ r s h. omega (arith, v.subs_old r s h);
    entries_old = λ k e h. omega (arith, v.entries_old k e h);
    entries_agree = λ k e c h g. elim (get-set_inversion ℕ_discrete e.0 next d c timers g) [
      | inl (p, f) ↦ absurd (omega (arith, v.entries_old k e h, p))
      | inr (n, f) ↦ v.entries_agree k e c h f
    ];
    awaited = λ j h m. elim (ℕ_discrete d.subscription j) [
      | yes q ↦ inl (next, d, get-set_self ℕ_discrete next d timers, q)
      | no n ↦ elim (v.awaited j h (λ u. n (some-injective d.subscription j u))) [
        | inl (t, c, g, f) ↦ inl (
          t,
          c,
          get-set_ne ℕ_discrete t next d timers (λ p. omega (arith, v.timers_old t c g, p)) ∙ g,
          f,
        )
        | inr w ↦ inr w
      ]
    ];
  }

  -- A delayed event with a key is noted, with the timer that was set for it.
  pub set_entry-Valid :
      (key : String) (t : ℕ) (d : Delayed P) (timers : JsMap ℕ (Delayed P))
      (entries : JsMap String (ℕ × ℕ)) (subs : JsMap ℕ (SubscriptionState V (EventError E)))
      (running : List (Execution H P)) (next : ℕ)
      → get ℕ_discrete t timers ≡ some d
      → Valid none timers entries subs running next
      → Valid none timers (set String-discrete key (t, d.subscription) entries) subs running next
  set_entry-Valid key t d timers entries subs running next g v = record {
    timers_old = v.timers_old;
    subs_old = v.subs_old;
    awaited = v.awaited;
    entries_old = λ k e h.
        elim (get-set_inversion String-discrete k key (t, d.subscription) e entries h) [
          | inl (p, f) ↦ subst (λ (w : ℕ × ℕ). w.0 < next) f (v.timers_old t d g)
          | inr (n, f) ↦ v.entries_old k e f
        ];
    entries_agree = λ k e c h l.
        elim (get-set_inversion String-discrete k key (t, d.subscription) e entries h) [
          | inl (p, f) ↦
              subst (λ (w : ℕ × ℕ). get ℕ_discrete w.0 timers ≡ some c → c.subscription ≡ w.1) f
                (λ q. ap (λ (z : Delayed P). z.subscription) (some-injective c d (sym q ∙ g))) l
          | inr (n, f) ↦ v.entries_agree k e c f l
        ];
  }

  pub delete_entry-Valid :
      (exempt : Option ℕ) (key : String) (timers : JsMap ℕ (Delayed P))
      (entries : JsMap String (ℕ × ℕ)) (subs : JsMap ℕ (SubscriptionState V (EventError E)))
      (running : List (Execution H P)) (next : ℕ)
      → Valid exempt timers entries subs running next
      → Valid exempt timers (delete String-discrete key entries) subs running next
  delete_entry-Valid exempt key timers entries subs running next v = record {
    timers_old = v.timers_old;
    subs_old = v.subs_old;
    awaited = v.awaited;
    entries_old =
        λ k e h. v.entries_old k e (get-delete_inversion String-discrete k key e entries h).1;
    entries_agree =
        λ k e c h. v.entries_agree k e c (get-delete_inversion String-discrete k key e entries h).1;
  }

  -- A timer is cleared, so that its subscription is exempt.
  pub clear_timer-Valid :
      (t r : ℕ) (timers : JsMap ℕ (Delayed P)) (entries : JsMap String (ℕ × ℕ))
      (subs : JsMap ℕ (SubscriptionState V (EventError E))) (running : List (Execution H P))
      (next : ℕ)
      → ((d : Delayed P) → get ℕ_discrete t timers ≡ some d → d.subscription ≡ r)
      → Valid none timers entries subs running next
      → Valid (some r) (delete ℕ_discrete t timers) entries subs running next
  clear_timer-Valid t r timers entries subs running next only v = record {
    timers_old = λ u d h. v.timers_old u d (get-delete_inversion ℕ_discrete u t d timers h).1;
    subs_old = v.subs_old;
    entries_old = v.entries_old;
    entries_agree =
        λ k e c h g. v.entries_agree k e c h (get-delete_inversion ℕ_discrete e.0 t c timers g).1;
    awaited = λ j h m. elim (v.awaited j h (λ u. cc)) [
      | inr w ↦ inr w
      | inl (u, c, g, f) ↦ elim (ℕ_discrete t u) [
        | yes q ↦ absurd (m (ap some (sym (only c (ap (λ x. get ℕ_discrete x timers) q ∙ g)) ∙ f)))
        | no n ↦ inl (u, c, get-delete_ne ℕ_discrete u t timers n ∙ g, f)
      ]
    ];
  }

  -- The end of a handler takes it from those that are running.
  pub end-Valid :
      (i : ℕ) (x : Execution H P) (timers : JsMap ℕ (Delayed P)) (entries : JsMap String (ℕ × ℕ))
      (subs : JsMap ℕ (SubscriptionState V (EventError E))) (running : List (Execution H P))
      (next : ℕ)
      → get_elem? running i ≡ some x
      → Valid none timers entries subs running next
      → Valid x.subscription timers entries subs (remove_at i running) next
  end-Valid i x timers entries subs running next at v = record {
    timers_old = v.timers_old;
    subs_old = v.subs_old;
    entries_old = v.entries_old;
    entries_agree = v.entries_agree;
    awaited = λ j h m. elim (v.awaited j h (λ u. cc)) [
      | inl w ↦ inl w
      | inr (y, w, f) ↦ elim (In-remove_at i running y x w at) [
        | inl k ↦ inr (y, k, f)
        | inr e ↦ absurd (m (ap (λ (z : Execution H P). z.subscription) (sym e) ∙ f))
      ]
    ];
  }
