-- ===== src/Requests/Pipeline.antt =====
-- packages/core/src/controllers/request-pipeline.ts. Guards, interceptors, handlers and validators are
-- functions on the context; a handler and an interceptor are also given `ctx.guards`.
pub mod Gates
pub mod Paths
use orijs.Common.{
  ℕ, suc, zero, Bool, true, false, not, ◌&&◌, ◌||◌, ◌⊎◌, inl, inr, Option, none, some, or_else,
  is_some, List, [], ◌∷◌, ◌++◌, map, get_elem?, length, String, String-discrete, ◌==◌,
  if◌then◌else◌,
}
use orijs.JsMap.{JsMap, get}
use orijs.Websocket.{Text, Text-discrete}
use orijs.Requests.Response.{
  ValidationError, invalid_parameter, invalid_json, Response, forbidden, validation_error,
  error_response, set_headers,
}
use orijs.Requests.Validation.{HttpMethod, Schema, validate_params, validate_request}
use orijs.Requests.Context.{
  Outcome, returned, threw_response, threw, threw_own, ParsedBody, Context, Action, ◌>>=◌, json,
  guards, set_validated_query, set_validated_body,
}

-- What a guard returns: a response of its own, or whether it lets the request pass.
pub data GuardResult (B : Type 0) : Type 0 where
  reply : Response B → GuardResult B
  activates : Bool → GuardResult B

module _ (B E D W O : Type 0) where
  abbrev pub Guard : Type 0
  Guard = Action (GuardResult B) B E D W O

  abbrev pub GuardCall : Type 0
  GuardCall = O → Action (Unit {0}) B E D W O

  abbrev pub Handler : Type 0
  Handler = GuardCall → Action (Response B) B E D W O

  abbrev pub Interceptor : Type 0
  Interceptor = GuardCall → Action (Response B) B E D W O → Action (Response B) B E D W O

-- `route` with its guards, interceptors and parameter validators resolved.
pub record Route (B E D W O : Type 0) : Type 0 where
  pub method : HttpMethod
  pub guards : List (Guard B E D W O)
  pub defer_guards : Bool
  pub interceptors : List (Interceptor B E D W O)
  pub param_validators : Option (JsMap Text (Text → Bool))
  pub schema : Option (Schema W)
  pub has_data : Bool
  pub handler : Handler B E D W O

module _ {B : Type 0} where
  -- `addCorsHeaders`, if there are any.
  unfoldable pub finalize_response :
      (String → String) → Option (List (String × String)) → Response B → Response B
  finalize_response lower none r = r
  finalize_response lower (some cors) r = record r { headers = set_headers lower cors r.headers }

  unfoldable pub apply_response_headers :
      {D W O : Type 0} → (String → String) → Response B → Context D W O → Response B
  apply_response_headers lower r c = elim c.response_headers [
    | none ↦ r
    | some headers ↦ record r { headers = set_headers lower headers r.headers }
  ]

module _ {B E D W O : Type 0} where
  abbrev pub judged :
      GuardResult B
      → Outcome (Option (Response B)) B E × Context D W O
      → Context D W O
      → Outcome (Option (Response B)) B E × Context D W O
  judged (reply r) rest c = (returned (some r), c)
  judged (activates false) rest c = (returned (some forbidden), c)
  judged (activates true) rest c = rest

  unfoldable pub run_guards : List (Guard B E D W O) → Action (Option (Response B)) B E D W O
  run_guards [] c = (returned none, c)
  run_guards (guard ∷ gs) c = guard c >>= λ g c'. judged g (run_guards gs c') c'

  -- `buildInterceptorChain`: `i` is one more than the index of the loop.
  unfoldable pub build_interceptor_chain :
      List (Interceptor B E D W O)
      → GuardCall B E D W O
      → ℕ
      → Action (Response B) B E D W O
      → Action (Response B) B E D W O
  build_interceptor_chain interceptors call zero chain = chain
  build_interceptor_chain interceptors call (suc i) chain =
      build_interceptor_chain interceptors call i (elim (get_elem? interceptors i) [
        | none ↦ chain
        | some interceptor ↦ interceptor call chain
      ])

  unfoldable pub execute_with_interceptors :
      List (Interceptor B E D W O)
      → Handler B E D W O
      → GuardCall B E D W O
      → Action (Response B) B E D W O
  execute_with_interceptors interceptors handler call c =
      build_interceptor_chain interceptors call (length interceptors) (handler call) c

  -- `setRouteData`, if there are any.
  abbrev pub with_route_data : Route B E D W O → Context D W O → Context D W O
  with_route_data route c = if route.has_data then record c { has_route_data = true } else c

  -- `ctx.guards` on this route.
  abbrev pub guard_call : Route B E D W O → GuardCall B E D W O
  guard_call route = guards (run_guards route.guards)

  abbrev pub is_plain : Route B E D W O → Bool
  is_plain route =
      not (is_some (get_elem? route.guards 0))
      && not (is_some (get_elem? route.interceptors 0))
      && not (is_some route.schema)
      && not (is_some route.param_validators)
      && not route.has_data

-- `createHandler`: `cors` are the headers of every response, `lower` is what the platform does to a
-- header's name, and `parse` is `Json.parse`.
module _ {B E : Type 0} (lower : String → String) (cors : Option (List (String × String)))
    (correlation_id : String) where
  -- The handlers of errors of the two paths.
  abbrev pub answer_fast : Outcome (Response B) B E → Response B
  answer_fast (returned r) = finalize_response lower cors r
  answer_fast (threw_response r) = finalize_response lower cors (error_response correlation_id)
  answer_fast (threw e) = finalize_response lower cors (error_response correlation_id)
  answer_fast (threw_own e) = finalize_response lower cors (error_response correlation_id)

  abbrev pub answer_full : Outcome (Response B) B E → Response B
  answer_full (returned r) = finalize_response lower cors r
  answer_full (threw_response r) = finalize_response lower cors r
  answer_full (threw e) = finalize_response lower cors (error_response correlation_id)
  answer_full (threw_own e) = finalize_response lower cors (error_response correlation_id)

module _ {B E D W O : Type 0} (lower : String → String) (parse : String → Option W)
    (cors : Option (List (String × String))) (correlation_id : String) where
  abbrev with_headers : Response B → Context D W O → Outcome (Response B) B E × Context D W O
  with_headers r c = (returned (apply_response_headers lower r c), c)

  unfoldable pub fast_path : Route B E D W O → Context D W O → Response B × Context D W O
  fast_path route c =
      let (outcome, c') = route.handler (guard_call route) c >>= with_headers in
      (answer_fast lower cors correlation_id outcome, c')

  abbrev handled : Route B E D W O → Action (Response B) B E D W O
  handled route c =
      (if is_some (get_elem? route.interceptors 0)
        then execute_with_interceptors route.interceptors route.handler (guard_call route) c
        else route.handler (guard_call route) c)
      >>= with_headers

  -- A response that ends the request, or what follows.
  abbrev or_respond :
      Option (Response B)
      → (Context D W O → Outcome (Response B) B E × Context D W O)
      → Context D W O
      → Outcome (Response B) B E × Context D W O
  or_respond (some r) rest c = (returned r, c)
  or_respond none rest c = rest c

  abbrev request_valid :
      Route B E D W O → JsMap Text Text → Context D W O → Option (Response B) × Context D W O
  request_valid route params c = elim route.schema [
    | none ↦ (none, c)
    | some schema ↦ validate_request parse schema route.method params c
  ]

  abbrev params_valid : Route B E D W O → JsMap Text Text → Option (Response B)
  params_valid route params = elim route.param_validators [
    | none ↦ none
    | some validators ↦ validate_params validators params
  ]

  -- What follows the guards.
  unfoldable pub after_guards : Route B E D W O → JsMap Text Text → Action (Response B) B E D W O
  after_guards route params c =
      or_respond (params_valid route params)
        (λ c1.
          let (refusal, c2) = request_valid route params c1 in
          or_respond refusal (handled route) c2)
        c

  unfoldable pub full_outcome : Route B E D W O → JsMap Text Text → Action (Response B) B E D W O
  full_outcome route params c =
      let c1 = with_route_data route c in
      if route.defer_guards && is_some (get_elem? route.guards 0)
      then after_guards route params (record c1 { has_guard_runner = true })
      else (run_guards route.guards c1 >>= λ refusal.
          or_respond refusal (after_guards route params))

  unfoldable pub full_path :
      Route B E D W O → JsMap Text Text → Context D W O → Response B × Context D W O
  full_path route params c =
      let (outcome, c') = full_outcome route params c in
      (answer_full lower cors correlation_id outcome, c')

  unfoldable pub handle_request :
      Route B E D W O → JsMap Text Text → Context D W O → Response B × Context D W O
  handle_request route params c =
      if is_plain route then fast_path route c else full_path route params c
