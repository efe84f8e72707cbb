-- ===== src/Container/Cycles.antt =====
-- The circular dependencies that container.ts reports are real ones.
use orijs.Common.{
  ℕ, zero, suc, ◌≡◌, refl, subst, ◌⊎◌, inl, inr, true, false, some, List, [], ◌∷◌, arith,
  Option-cases, Bool-cases, All, All-mono, In,
}
use orijs.JsMap.{JsMap, get, contains, add}
use orijs.Container.{
  Token, class, symbol, text, Token-discrete, Built, ResolveError, circular_dependency,
  token_not_registered, service_not_registered, async_constructor, constructor_threw, Container,
  Resolved, error, prepare_resolution, ◌>>=◌, each, store, enter, finally, resolve_internal,
  resolve,
}
use orijs.Container.Resolving.{Extends, prepare-inversion, resolve_internal-Leaves}
use orijs.Container.Failures.{FailsWith, each-FailsWith, finally-FailsWith}

-- The second service is among the registered dependencies of the first, directly or not.
pub data DependsOn (registry : JsMap Token (List Token)) (a : Token) : Token → Type 0 where
  direct :
      {b : Token} (deps : List Token)
      → get Token-discrete a registry ≡ some deps
      → In b deps
      → DependsOn registry a b
  further :
      {b c : Token} (deps : List Token)
      → DependsOn registry a b
      → get Token-discrete b registry ≡ some deps
      → In c deps
      → DependsOn registry a c

All-contains :
    (P : Token → Type 0) (t : Token) (s : List Token)
    → All P s
    → contains Token-discrete t s ≡ true
    → P t
unfolding contains
All-contains P t [] h e = absurd (empty e)
  where
    empty : false ≡ true → ⊥
    empty e = cc
All-contains P t (j ∷ s) (h, hs) e = elim (Token-discrete j t) [
  | yes same ↦ subst P same h
  | no other ↦ All-contains P t s hs (ground arith)
]

All-add :
    (P : Token → Type 0) (t : Token) (s : List Token)
    → P t
    → All P s
    → All P (add Token-discrete t s)
unfolding add
All-add P t [] p h = (p, tt)
All-add P t (j ∷ s) p (h, hs) = ground (arith, All-add P t s p hs)

-- An error about a cycle names a service that depends on itself.
abbrev SoundError : {X : Type 0} → JsMap Token (List Token) → ResolveError X → Type 0
SoundError registry (circular_dependency t chain) = DependsOn registry t t
SoundError registry (token_not_registered t) = Unit
SoundError registry (service_not_registered t) = Unit
SoundError registry (async_constructor t) = Unit
SoundError registry (constructor_threw x) = Unit

-- Every service being resolved leads to the token.
abbrev LeadsTo : {V : Type 0} → Token → Container V → Type 0
LeadsTo t c = All (λ s. DependsOn c.registry s t) c.resolving

sound_of :
    {X : Type 0} (registry : JsMap Token (List Token)) (x y : ResolveError X)
    → x ≡ y
    → SoundError registry x
    → SoundError registry y
sound_of registry x y same h = subst (SoundError registry) same h

module _ {V : Type 0} where
  further_on :
      (token dep : Token) (deps : List Token) (c : Container V)
      → get Token-discrete token c.registry ≡ some deps
      → In dep deps
      → LeadsTo token c
      → LeadsTo dep (enter token c)
  further_on token dep deps c g m l =
      All-add (λ s. DependsOn c.registry s dep) token c.resolving (direct deps g m)
        (All-mono (λ s. DependsOn c.registry s token) (λ s. DependsOn c.registry s dep) c.resolving
          (λ s d. further deps d g m) l)

module _ {V X : Type 0} where
  abbrev IsSound : {A : Type 0} → JsMap Token (List Token) → Resolved A V X → Type 0
  IsSound registry r = FailsWith (SoundError registry) r

  prepare-IsSound :
      (token : Token) (c : Container V) (e : ResolveError X)
      → LeadsTo token c
      → prepare_resolution token c ≡ inl e
      → SoundError c.registry e
  unfolding prepare_resolution
  prepare-IsSound (symbol n) c e l p =
      sound_of c.registry (token_not_registered (symbol n)) e (cc) tt
  prepare-IsSound (text s) c e l p = sound_of c.registry (token_not_registered (text s)) e (cc) tt
  prepare-IsSound (class n) c e l p =
      elim (Bool-cases (contains Token-discrete (class n) c.resolving)) [
        | inl h ↦
            sound_of c.registry (circular_dependency (class n) c.resolving) e (ground arith)
              (All-contains (λ s. DependsOn c.registry s (class n)) (class n) c.resolving l h)
        | inr h ↦ elim (Option-cases (get Token-discrete (class n) c.registry)) [
          | inl g ↦ sound_of c.registry (service_not_registered (class n)) e (ground arith) tt
          | inr (deps, g) ↦ absurd (ground arith)
        ]
      ]

  module _ (construct : Token → List V → Built V X) where
    resolve_internal-IsSound :
        (fuel : ℕ) (token : Token) (c : Container V)
        → LeadsTo token c
        → IsSound c.registry (resolve_internal construct fuel token c)
    unfolding resolve_internal
    resolve_internal-IsSound zero token c l = tt
    resolve_internal-IsSound (suc fuel) token c l =
        elim (Option-cases (get Token-discrete token c.instances)) [
          | inr (v, e) ↦ rw (e, resolve_internal) tt
          | inl e ↦
              rw (e, resolve_internal)
                (by_prepared (prepare_resolution token c) refl (resolve_internal-IsSound fuel))
        ]
      where
        moved :
            (t : Token) (d : Container V)
            → Extends (enter token c) d
            → LeadsTo t (enter token c)
            → LeadsTo t d
        moved t d q h = rw (q.same_resolving, q.same_registry) h

        by_prepared :
            (r : ResolveError X ⊎ (Token × List Token))
            → prepare_resolution token c ≡ r
            → ((t : Token) (d : Container V)
                → LeadsTo t d
                → IsSound d.registry (resolve_internal construct fuel t d))
            → IsSound c.registry (elim r [
              | inl e ↦ error e c
              | inr (service, deps) ↦ finally service (
                  each (resolve_internal construct fuel) deps (enter service c) >>= λ vs c'.
                  store service (construct service vs) c')
            ])
        by_prepared (inl e) p ih = prepare-IsSound token c e l p
        by_prepared (inr (service, deps)) p ih =
            let (same, free, found) = prepare-inversion token c p in
            rw same (
              finally-FailsWith (SoundError c.registry) construct token _ tt (λ x. tt)
                (each-FailsWith (SoundError c.registry) (resolve_internal construct fuel)
                  (resolve_internal-Leaves construct fuel) deps (enter token c)
                  (λ t d m q.
                    subst (λ reg. IsSound reg (resolve_internal construct fuel t d)) q.same_registry
                      (ih t d (moved t d q (further_on token t deps c found m l))))))

    error-Sound :
        (registry : JsMap Token (List Token)) (r : Resolved V V X) (t : Token) (chain : List Token)
        (d : Container V)
        → IsSound registry r
        → r ≡ error (circular_dependency t chain) d
        → DependsOn registry t t
    error-Sound registry r t chain d h e = subst (IsSound registry) e h

    -- When a resolution that starts with nothing being resolved reports a circular dependency at a
    -- service, that service depends on itself through the registered dependencies. So on a graph
    -- with no cycle `resolve` never reports one.
    pub circular_is_real :
        (token t : Token) (chain : List Token) (c d : Container V)
        → c.resolving ≡ []
        → resolve construct token c ≡ error (circular_dependency t chain) d
        → DependsOn c.registry t t
    unfolding resolve
    circular_is_real token t chain c d h e =
        error-Sound c.registry _ t chain d (resolve_internal-IsSound _ token c (rw h tt)) e
