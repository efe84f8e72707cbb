-- ===== src/Container/Singletons.antt =====
-- Instances of container.ts are cached, and every exit of a resolution restores the container.
use orijs.Common.{◌≡◌, subst, List, suc}
use orijs.JsMap.{size}
use orijs.Container.{Token, Built, Container, Resolved, ok, resolve_internal, resolve}
use orijs.Container.Resolving.{Extends, Leaves, IsCached, resolve_internal-Leaves}

module _ {V X : Type 0} (construct : Token → List V → Built V X) where
  -- A resolution that gives an instance has cached it under the token. Whether it gives an instance
  -- or an error, the registrations and the set of services being resolved are what they were, and no
  -- instance that was cached has been replaced or dropped.
  pub resolve-Leaves :
      (token : Token) (c : Container V) → Leaves (IsCached token) c (resolve construct token c)
  unfolding resolve
  resolve-Leaves token c = resolve_internal-Leaves construct (suc (suc (size c.registry))) token c

  cached :
      (token : Token) (v : V) (d : Container V)
      → IsCached token v d
      → resolve construct token d ≡ ok v d
  unfolding resolve resolve_internal
  cached token v d e = rw (e, resolve_internal)

  -- A service is a singleton: after a resolution has given an instance, a second resolution of the
  -- token, and one after any other resolution that succeeded in between, gives the same instance and
  -- changes nothing.
  pub resolve_again :
      (token other : Token) (c d e : Container V) (v w : V)
      → resolve construct token c ≡ ok v d
      → resolve construct other d ≡ ok w e
      → (resolve construct token d ≡ ok v d) × (resolve construct token e ≡ ok v e)
  resolve_again token other c d e v w p q = (cached token v d first, cached token v e second)
    where
      of_ok :
          (t : Token) (a b : Container V) (x : V) (r : Resolved V V X)
          → Leaves (IsCached t) a r
          → r ≡ ok x b
          → Extends a b × IsCached t x b
      of_ok t a b x (ok y s) h same = subst (λ r. Leaves (IsCached t) a r) same h
      of_ok t a b x _ h same = cc

      first : IsCached token v d
      first = (of_ok token c d v (resolve construct token c) (resolve-Leaves token c) p).1

      second : IsCached token v e
      second =
          (of_ok other d e w (resolve construct other d) (resolve-Leaves other d) q).0.keeps token v
            first
