-- ===== src/Requests/Validation.antt =====
-- The validation of requests in packages/core/src/controllers/request-pipeline.ts.
use orijs.Common.{
  Bool, true, false, ◌⊎◌, inl, inr, Option, none, some, List, [], ◌∷◌, ◌++◌, map, String, ◌==◌,
  if◌then◌else◌,
}
use orijs.JsMap.{JsMap, get}
use orijs.Websocket.{Text, Text-discrete}
use orijs.Requests.Response.{
  ValidationError, invalid_parameter, invalid_json, Response, validation_error,
}
use orijs.Requests.Context.{
  Outcome, returned, ParsedBody, Context, json, set_validated_query, set_validated_body,
}

-- A validator gives errors or the value.
pub record Schema (W : Type 0) : Type 0 where
  pub params : Option (JsMap Text Text → List ValidationError ⊎ W)
  pub query : Option (Unit {0} → List ValidationError ⊎ W)
  pub body : Option (ParsedBody W → List ValidationError ⊎ W)

pub data HttpMethod : Type 0 where
  get_method post put patch delete head options : HttpMethod

abbrev pub has_body : HttpMethod → Bool
has_body post = true
has_body put = true
has_body patch = true
has_body _ = false

-- The `replace` of `/` by `.`.
unfoldable pub dotted : Text → Text
dotted [] = []
dotted (c ∷ cs) = (if c == 47 then 46 else c) ∷ dotted cs

abbrev normalized_path : Text → Text
normalized_path [] = []
normalized_path (c ∷ cs) = if c == 47 then dotted cs else c ∷ cs

abbrev joined_path : Text → Text → Text
joined_path pre [] = pre
joined_path pre (c ∷ cs) = pre ++ 46 ∷ c ∷ cs

unfoldable pub prefix_errors : Text → List ValidationError → List ValidationError
prefix_errors pre errors =
    map (λ (e : ValidationError). record e { path = joined_path pre (normalized_path e.path) })
      errors

-- params, query and body
abbrev params_prefix : Text
params_prefix = 112 ∷ 97 ∷ 114 ∷ 97 ∷ 109 ∷ 115 ∷ []

abbrev query_prefix : Text
query_prefix = 113 ∷ 117 ∷ 101 ∷ 114 ∷ 121 ∷ []

abbrev pub body_prefix : Text
body_prefix = 98 ∷ 111 ∷ 100 ∷ 121 ∷ []

abbrev param_error : Text → ValidationError
param_error name = record { path = params_prefix ++ 46 ∷ name; message = invalid_parameter name }

abbrev param_is_valid : Option Text → (Text → Bool) → Bool
param_is_valid none f = false
param_is_valid (some value) f = f value

-- The loop of `validateParams`.
unfoldable pub param_errors : JsMap Text (Text → Bool) → JsMap Text Text → List ValidationError
param_errors [] params = []
param_errors ((name, validator) ∷ validators) params =
    let rest = param_errors validators params in
    if param_is_valid (get Text-discrete name params) validator
    then rest
    else param_error name ∷ rest

module _ {B : Type 0} where
  abbrev pub if_errors : List ValidationError → Option (Response B)
  if_errors [] = none
  if_errors (e ∷ errors) = some (validation_error (e ∷ errors))

  unfoldable pub validate_params : JsMap Text (Text → Bool) → JsMap Text Text → Option (Response B)
  validate_params validators params = if_errors (param_errors validators params)

abbrev pub body_error : ValidationError
body_error = record { path = body_prefix; message = invalid_json }

module _ {W : Type 0} where
  abbrev pub params_checked :
      Option (JsMap Text Text → List ValidationError ⊎ W) → JsMap Text Text → List ValidationError
  params_checked none params = []
  params_checked (some v) params = elim (v params) [
    | inl errors ↦ prefix_errors params_prefix errors
    | inr w ↦ []
  ]

module _ {D W O : Type 0} where
  abbrev pub query_checked :
      Option (Unit {0} → List ValidationError ⊎ W)
      → Context D W O
      → List ValidationError × Context D W O
  query_checked none c = ([], c)
  query_checked (some v) c = elim (v tt) [
    | inl errors ↦ (prefix_errors query_prefix errors, c)
    | inr w ↦ ([], set_validated_query w c)
  ]

module _ {B E D W O : Type 0} where
  abbrev pub body_validated :
      (ParsedBody W → List ValidationError ⊎ W)
      → Outcome (ParsedBody W) B E × Context D W O
      → List ValidationError × Context D W O
  body_validated v (returned b, c) = elim (v b) [
    | inl errors ↦ (prefix_errors body_prefix errors, c)
    | inr w ↦ ([], set_validated_body w c)
  ]
  body_validated v (_, c) = (body_error ∷ [], c)

module _ {D W O : Type 0} where
  abbrev pub body_checked :
      (String → Option W)
      → Option (ParsedBody W → List ValidationError ⊎ W)
      → HttpMethod
      → Context D W O
      → List ValidationError × Context D W O
  body_checked parse none method c = ([], c)
  body_checked parse (some v) method c =
      if has_body method then body_validated v (json {B = ⊥} {E = ⊥} parse c) else ([], c)

module _ {B D W O : Type 0} where
  -- The query is part of the request, so its validator is given nothing.
  unfoldable pub validate_request :
      (String → Option W)
      → Schema W
      → HttpMethod
      → JsMap Text Text
      → Context D W O
      → Option (Response B) × Context D W O
  validate_request parse schema method params c =
      let (query_errors, c') = query_checked schema.query c in
      let (body_errors, c'') = body_checked parse schema.body method c' in
      (if_errors ((params_checked schema.params params ++ query_errors) ++ body_errors), c'')
