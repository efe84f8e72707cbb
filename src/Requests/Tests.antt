-- ===== src/Requests/Tests.antt =====
-- The theorems on the request pipeline at small routes.
use orijs.Common.{
  ℕ, ◌≡◌, ◌≢◌, refl, true, false, ◌⊎◌, inl, inr, Option, none, some, List, [], ◌∷◌, String,
}
use orijs.Websocket.{Text}
use orijs.Requests.Response.{Response, custom, forbidden, error_response, ValidationError}
use orijs.Requests.Context.{
  returned, threw_response, Outcome, Context, ParsedBody, parsed_value, parsed_text, json_type,
  json, set_validated_body,
}
use orijs.Requests.Validation.{post, Schema, validate_request}
use orijs.Requests.Pipeline.{
  activates, Guard, GuardCall, Route, finalize_response, fast_path, full_path, handle_request,
}
use orijs.Requests.Pipeline.Gates.{first_refusal}
use orijs.Requests.Pipeline.Paths.{paths_agree}

abbrev Request : Type 0
Request = Context ℕ ℕ ℕ

abbrev fresh : Request
fresh = record {
  user = 0;
  body = some "7";
  parsed_body = none;
  parse_type = none;
  validated_query = none;
  response_headers = none;
  has_route_data = false;
  has_guard_runner = false;
  guard_options = none;
  guards_executed = false;
}

abbrev page : Response ℕ
page = record { status = 200; headers = []; body = custom 1 }

-- The first guard marks the context, the second one denies.
abbrev marks : Guard ℕ ℕ ℕ ℕ ℕ
marks c = (returned (activates true), record c { user = 5 })

abbrev denies : Guard ℕ ℕ ℕ ℕ ℕ
denies c = (returned (activates false), c)

abbrev guarded : Route ℕ ℕ ℕ ℕ ℕ
guarded = record {
  method = post;
  guards = marks ∷ denies ∷ [];
  defer_guards = false;
  interceptors = [];
  param_validators = none;
  schema = none;
  has_data = false;
  handler = λ call c. (returned page, c);
}

abbrev same : String → String
same name = name

abbrev seven : String → Option ℕ
seven s = some 7

first_refusal_example :
    handle_request same seven (some (("vary", "origin") ∷ [])) "id" guarded [] fresh
    ≡ (finalize_response same (some (("vary", "origin") ∷ [])) forbidden, record fresh { user = 5 })
first_refusal_example =
    first_refusal same seven (some (("vary", "origin") ∷ [])) "id" guarded [] (marks ∷ []) [] denies
      (activates false) forbidden fresh (record fresh { user = 5 }) (record fresh { user = 5 }) refl
      refl (record fresh { user = 5 }, refl, refl) refl refl

abbrev throws : Route ℕ ℕ ℕ ℕ ℕ
throws = record guarded { guards = []; handler = λ call c. (threw_response page, c) }

paths_agree_example :
    ((full_path same seven none "id" throws [] fresh).1
      ≡ (fast_path same seven none "id" throws fresh).1)
    × ((full_path same seven none "id" throws [] fresh).0 ≡ finalize_response same none page)
    × ((fast_path same seven none "id" throws fresh).0
        ≡ finalize_response same none (error_response "id"))
paths_agree_example = paths_agree same seven none "id" throws [] fresh refl

abbrev adds_one :
    GuardCall ℕ ℕ ℕ ℕ ℕ
    → (Request → Outcome (Response ℕ) ℕ ℕ × Request)
    → Request
    → Outcome (Response ℕ) ℕ ℕ × Request
adds_one call next c = next (record c { user = 1 })

abbrev accepts : ParsedBody ℕ → List ValidationError ⊎ ℕ
accepts (parsed_value w) = inr 8
accepts (parsed_text s) = inr 9

abbrev with_body : Schema ℕ
with_body = record { params = none; query = none; body = some accepts }

abbrev after : Request
after = record fresh {
  body = none;
  parsed_body = some (parsed_value 8);
  parse_type = some json_type;
}

accepts-no_empty : (b : ParsedBody ℕ) → accepts b ≢ inl []
accepts-no_empty (parsed_value w) e = cc
accepts-no_empty (parsed_text s) e = cc

is_accepted : validate_request {B = ℕ} seven with_body post [] fresh ≡ (none, after)
unfolding validate_request json set_validated_body
is_accepted = refl

-- `id` is `a-1`.
abbrev id_name : Text
id_name = 105 ∷ 100 ∷ []

abbrev id_value : Text
id_value = 97 ∷ 45 ∷ 49 ∷ []
