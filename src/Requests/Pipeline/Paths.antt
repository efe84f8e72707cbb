-- ===== src/Requests/Pipeline/Paths.antt =====
-- The two paths of the handler that the pipeline makes for a route, and the chain of interceptors.
use orijs.Common.{
  ℕ, suc, zero, ◌≡◌, refl, ap, ◌∙◌, true, false, Option, none, some, is_some, List, [], ◌∷◌,
  get_elem?, length, String, arith,
}
use orijs.JsMap.{JsMap}
use orijs.Websocket.{Text}
use orijs.Requests.Response.{Response, error_response}
use orijs.Requests.Context.{Outcome, returned, threw_response, threw, threw_own, Context, Action}
use orijs.Requests.Pipeline.{
  GuardCall, Handler, Interceptor, Route, finalize_response, run_guards, build_interceptor_chain,
  execute_with_interceptors, guard_call, fast_path, after_guards, full_outcome, full_path, is_plain,
}

module _ {B E D W O : Type 0} where
  -- The first interceptor is the outermost, and calls the second one.
  abbrev pub nested :
      List (Interceptor B E D W O)
      → GuardCall B E D W O
      → Action (Response B) B E D W O
      → Action (Response B) B E D W O
  nested [] call inner = inner
  nested (x ∷ xs) call inner = x call (nested xs call inner)

  chain-cons :
      (x : Interceptor B E D W O) (xs : List (Interceptor B E D W O)) (call : GuardCall B E D W O)
      (i : ℕ) (chain : Action (Response B) B E D W O)
      → build_interceptor_chain (x ∷ xs) call (suc i) chain
        ≡ x call (build_interceptor_chain xs call i chain)
  unfolding build_interceptor_chain
  chain-cons x xs call zero chain = refl
  chain-cons x xs call (suc i) chain = chain-cons x xs call i _

  chain-nested :
      (xs : List (Interceptor B E D W O)) (call : GuardCall B E D W O)
      (chain : Action (Response B) B E D W O)
      → build_interceptor_chain xs call (length xs) chain ≡ nested xs call chain
  unfolding build_interceptor_chain
  chain-nested [] call chain = refl
  chain-nested (x ∷ xs) call chain =
      chain-cons x xs call (length xs) chain ∙ ap (x call) (chain-nested xs call chain)

  -- The loop over the interceptors, which starts from the last one, nests them in their order round
  -- the handler.
  execute-nested :
      (interceptors : List (Interceptor B E D W O)) (handler : Handler B E D W O)
      (call : GuardCall B E D W O)
      → execute_with_interceptors interceptors handler call
        ≡ nested interceptors call (handler call)
  unfolding execute_with_interceptors
  execute-nested interceptors handler call = chain-nested interceptors call (handler call)

-- The response that a handler throws, if it does.
abbrev pub thrown : {B E : Type 0} → Outcome (Response B) B E → Option (Response B)
thrown (returned r) = none
thrown (threw_response r) = some r
thrown (threw e) = none
thrown (threw_own e) = none

none_there : {A : Type 0} (xs : List A) → is_some (get_elem? xs 0) ≡ false → xs ≡ []
none_there [] h = refl
none_there (x ∷ xs) h = cc

none_of : {A : Type 0} (o : Option A) → is_some o ≡ false → o ≡ none
none_of none h = refl
none_of (some a) h = cc

module _ {B E D W O : Type 0} (lower : String → String) (parse : String → Option W)
    (cors : Option (List (String × String))) (correlation_id : String) where
  -- On a route with no guards, interceptors, validators and data, where the fast path is taken, the
  -- full path would do the same: the context is the same, and so is the response unless the handler
  -- throws a response. Then the full path gives that response, and the fast path an internal error.
  pub paths_agree :
      (route : Route B E D W O) (params : JsMap Text Text) (c : Context D W O)
      → is_plain route ≡ true
      → ((full_path lower parse cors correlation_id route params c).1
          ≡ (fast_path lower parse cors correlation_id route c).1)
        × ((full_path lower parse cors correlation_id route params c).0
            ≡ elim (thrown (route.handler (guard_call route) c).0) [
              | none ↦ (fast_path lower parse cors correlation_id route c).0
              | some r ↦ finalize_response lower cors r
            ])
        × ((fast_path lower parse cors correlation_id route c).0
            ≡ elim (thrown (route.handler (guard_call route) c).0) [
              | none ↦ (full_path lower parse cors correlation_id route params c).0
              | some r ↦ finalize_response lower cors (error_response correlation_id)
            ])
  unfolding full_path fast_path full_outcome after_guards run_guards
  paths_agree route params c h = ground (
    arith,
    none_there route.guards,
    none_there route.interceptors,
    none_of route.schema,
    none_of route.param_validators,
  )
