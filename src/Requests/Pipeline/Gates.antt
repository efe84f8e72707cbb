-- ===== src/Requests/Pipeline/Gates.antt =====
-- What stands between a request and its handler.
use orijs.Common.{
  ◌≢◌, append-is_nil, ◌≡◌, refl, sym, ap, ◌∙◌, true, false, ◌⊎◌, inl, inr, Option, none, some,
  is_some, List, [], ◌∷◌, ◌++◌, get_elem?, String, arith,
}
use orijs.JsMap.{JsMap}
use orijs.Websocket.{Text}
use orijs.Requests.Response.{Response, forbidden, ValidationError}
use orijs.Requests.Context.{
  Outcome, returned, threw_response, threw, threw_own, ParsedBody, parsed_value, Context, json,
  set_validated_body,
}
use orijs.Requests.Validation.{
  HttpMethod, Schema, has_body, validate_request, prefix_errors, params_checked, query_checked,
  body_checked, body_validated, body_prefix, if_errors,
}
use orijs.Requests.Pipeline.{
  GuardResult, reply, activates, Guard, Route, finalize_response, run_guards, judged,
  with_route_data, full_outcome, full_path, handle_request,
}

-- The response with which a guard ends the request.
abbrev pub refusal_of : {B : Type 0} → GuardResult B → Option (Response B)
refusal_of (reply r) = some r
refusal_of (activates true) = none
refusal_of (activates false) = some forbidden

module _ {B E D W O : Type 0} where
  -- Each of the guards lets the request pass, and they lead from the one context to the other.
  abbrev pub Passes : List (Guard B E D W O) → Context D W O → Context D W O → Type 0
  Passes [] c d = c ≡ d
  Passes (g ∷ gs) c d = (e : Context D W O) × (g c ≡ (returned (activates true), e)) × Passes gs e d

  run_guards-refusal :
      (gs after : List (Guard B E D W O)) (g : Guard B E D W O) (v : GuardResult B) (r : Response B)
      (c d e : Context D W O)
      → Passes gs c d
      → g d ≡ (returned v, e)
      → refusal_of v ≡ some r
      → run_guards (gs ++ g ∷ after) c ≡ (returned (some r), e)
  unfolding run_guards
  run_guards-refusal [] after g v r c d e p q h = rw (p, run_guards, q) (by_result v h)
    where
      by_result :
          (w : GuardResult B)
          → refusal_of w ≡ some r
          → judged w (run_guards after e) e ≡ (returned (some r), e)
      by_result (reply x) h = ap (λ o. (returned o, e)) h
      by_result (activates true) h = absurd (apart h)
        where
          apart : none ≡ some r → ⊥
          apart a = cc
      by_result (activates false) h = ap (λ o. (returned o, e)) h
  run_guards-refusal (x ∷ gs) after g v r c d e (f, p, ps) q h =
      rw (run_guards, p) (run_guards-refusal gs after g v r f d e ps q h)

  some_guard :
      (gs after : List (Guard B E D W O)) (g : Guard B E D W O)
      → is_some (get_elem? (gs ++ g ∷ after) 0) ≡ true
  some_guard [] after g = refl
  some_guard (x ∷ gs) after g = refl

module _ {B E D W O : Type 0} (lower : String → String) (parse : String → Option W)
    (cors : Option (List (String × String))) (correlation_id : String) where
  -- Where guards are not deferred, the first guard that does not let a request pass decides the
  -- response: its own, or 403. That is so whatever the later guards, the validators, the interceptors
  -- and the handler are, and they leave the context alone.
  pub first_refusal :
      (route : Route B E D W O) (params : JsMap Text Text)
      (gs later_guards : List (Guard B E D W O)) (g : Guard B E D W O) (v : GuardResult B)
      (r : Response B) (c d e : Context D W O)
      → route.guards ≡ gs ++ g ∷ later_guards
      → route.defer_guards ≡ false
      → Passes gs (with_route_data route c) d
      → g d ≡ (returned v, e)
      → refusal_of v ≡ some r
      → handle_request lower parse cors correlation_id route params c
        ≡ (finalize_response lower cors r, e)
  unfolding handle_request full_path full_outcome
  first_refusal route params gs later_guards g v r c d e split eager passes q h = ground (
    arith,
    ap (λ l. run_guards l (with_route_data route c)) split
        ∙ run_guards-refusal gs later_guards g v r (with_route_data route c) d e passes q h,
    ap (λ l. is_some (get_elem? l 0)) split ∙ some_guard gs later_guards g,
  )

module _ {B E D W O : Type 0} where
  -- What an accepted body leaves in the context.
  body-inversion :
      (v : ParsedBody W → List ValidationError ⊎ W)
      → ((b : ParsedBody W) → v b ≢ inl [])
      → (o : Outcome (ParsedBody W) B E × Context D W O) → (body_validated v o).0 ≡ []
      → (b : ParsedBody W) × (w : W) × (v b ≡ inr w)
        × ((body_validated v o).1 ≡ set_validated_body w o.1)
  unfolding prefix_errors
  body-inversion v k (returned b, c) h = by_result (v b) refl h
    where
      Checked : List ValidationError ⊎ W → List ValidationError × Context D W O
      Checked (inl errors) = (prefix_errors body_prefix errors, c)
      Checked (inr w) = ([], set_validated_body w c)

      by_result :
          (r : List ValidationError ⊎ W)
          → v b ≡ r
          → (Checked r).0 ≡ []
          → (x : ParsedBody W) × (w : W) × (v x ≡ inr w) × ((Checked r).1 ≡ set_validated_body w c)
      by_result (inr w) e h = (b, w, e, refl)
      by_result (inl []) e h = absurd (k b e)
      by_result (inl (x ∷ xs)) e h = cc
  body-inversion v k (threw_response r, c) h = cc
  body-inversion v k (threw e, c) h = cc
  body-inversion v k (threw_own e, c) h = cc

if_errors-none :
    {B : Type 0} (errors : List ValidationError) → if_errors {B = B} errors ≡ none → errors ≡ []
if_errors-none [] h = refl
if_errors-none (e ∷ errors) h = cc

module _ {B D W O : Type 0} where
  -- A body that the validator of the schema has accepted is what the handler reads: where the method
  -- has a body and the request was found valid, `ctx.json` gives the value that the validator gave
  -- for the body. The validator does not refuse with no errors.
  validated_body_is_read :
      (parse : String → Option W) (schema : Schema W) (method : HttpMethod)
      (params : JsMap Text Text) (v : ParsedBody W → List ValidationError ⊎ W) (c d : Context D W O)
      → schema.body ≡ some v
      → has_body method ≡ true
      → ((b : ParsedBody W) → v b ≢ inl [])
      → validate_request {B = B} parse schema method params c ≡ (none, d)
      → (b : ParsedBody W) × (w : W) × (v b ≡ inr w)
        × (json {B = B} {E = ⊥} parse d ≡ (returned (parsed_value w), d))
  unfolding validate_request json set_validated_body
  validated_body_is_read parse schema method params v c d s m k h =
      let (b, w, e, f) = body-inversion v k (json {B = ⊥} {E = ⊥} parse c1) no_errors in
      (b, w, e, rw (sym left ∙ f) refl)
    where
      c1 : Context D W O
      c1 = (query_checked schema.query c).1

      body_done :
          body_checked parse schema.body method c1
          ≡ body_validated v (json {B = ⊥} {E = ⊥} parse c1)
      body_done = rw (s, m) refl

      all_errors : List ValidationError
      all_errors =
          (params_checked schema.params params ++ (query_checked schema.query c).0)
          ++ (body_checked parse schema.body method c1).0

      no_errors : (body_validated v (json {B = ⊥} {E = ⊥} parse c1)).0 ≡ []
      no_errors =
          ap (λ x. x.0) (sym body_done)
          ∙ (append-is_nil _ (body_checked parse schema.body method c1).0
              (if_errors-none {B = B} all_errors (ap (λ x. x.0) h))).1

      left : (body_validated v (json {B = ⊥} {E = ⊥} parse c1)).1 ≡ d
      left = ap (λ x. x.1) (sym body_done) ∙ ap (λ x. x.1) h
