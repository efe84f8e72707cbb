-- ===== src/Container/Async.antt =====
-- `resolveInternalAsync` of packages/core/src/container.ts, up to the first wait of each call.
-- An async function runs until its first `await` at once. Each call of `resolveInternalAsync`
-- therefore marks its service as being resolved and starts the calls for all its dependencies, and
-- only then waits, also when it has none. In this phase no instance is stored and no service leaves
-- the set; a call that fails rejects its promise, and `Promise.all` rejects with it.
mod Calls
pub mod Sharing
use orijs.Common.{ℕ, zero, suc, Option, none, some, List, [], ◌∷◌, inl, inr}
use orijs.JsMap.{get, size}
use orijs.Container.{Token, Token-discrete, ResolveError, Container, prepare_resolution, enter}

-- The container after the phase, and the first error in the order of the calls.
abbrev pub Started : Type 0 → Type 0 → Type 0
Started V X = Container V × Option (ResolveError X)

abbrev first_of : {X : Type 0} → Option X → Option X → Option X
first_of none e = e
first_of (some e) e' = some e

module _ {V X : Type 0} where
  -- `deps.map((dep) => this.resolveInternalAsync(dep))`: every call is made, whatever the others do.
  unfoldable pub start_each :
      (Token → Container V → Started V X) → List Token → Container V → Started V X
  start_each f [] c = (c, none)
  start_each f (dep ∷ deps) c =
      let (c', e) = f dep c in let (c'', e') = start_each f deps c' in (c'', first_of e e')

  unfoldable pub start_internal : ℕ → Token → Container V → Started V X
  start_internal zero token c = (c, none)
  start_internal (suc fuel) token c = elim (get Token-discrete token c.instances) [
    | some v ↦ (c, none)
    | none ↦ elim (prepare_resolution token c) [
      | inl e ↦ (c, some e)
      | inr (service, deps) ↦ start_each (start_internal fuel) deps (enter service c)
    ]
  ]

  -- `resolveAsync` rejects with this error, if there is one.
  unfoldable pub resolve_async_error : Token → Container V → Option (ResolveError X)
  resolve_async_error token c = (start_internal (suc (suc (size c.registry))) token c).1
