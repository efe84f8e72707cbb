-- ===== src/Requests/Response.antt =====
-- packages/core/src/controllers/response.ts: the responses that the pipeline makes. `lower` is what
-- the platform's `Headers` does to a name.
use orijs.Common.{ℕ, List, [], ◌∷◌, String, String-discrete}
use orijs.JsMap.{JsMap, set}
use orijs.Websocket.{Text}

-- A text is the list of its characters' codes.
pub data Message : Type 0 where
  invalid_parameter : Text → Message
  invalid_json : Message
  of_validator : String → Message

pub record ValidationError : Type 0 where
  pub path : Text
  pub message : Message

-- A body of a handler's own, or one of the framework.
pub data Body (B : Type 0) : Type 0 where
  custom : B → Body B
  forbidden_body : Body B
  validation_errors : List ValidationError → Body B
  internal_error : String → Body B

pub record Response (B : Type 0) : Type 0 where
  pub status : ℕ
  pub headers : JsMap String String
  pub body : Body B

module _ {B : Type 0} where
  -- `forbidden`
  abbrev pub forbidden : Response B
  forbidden = record {
    status = 403;
    headers = ("content-type", "application/json") ∷ [];
    body = forbidden_body;
  }

  -- `validationError`
  abbrev pub validation_error : List ValidationError → Response B
  validation_error errors = record {
    status = 422;
    headers = ("content-type", "application/json") ∷ [];
    body = validation_errors errors;
  }

  -- `error`, without details
  abbrev pub error_response : String → Response B
  error_response correlation_id = record {
    status = 500;
    headers = ("content-type", "application/json") ∷ [];
    body = internal_error correlation_id;
  }

-- `newHeaders.set` for each pair.
unfoldable pub set_headers :
    (String → String) → List (String × String) → JsMap String String → JsMap String String
set_headers lower [] headers = headers
set_headers lower ((name, value) ∷ rest) headers =
    set_headers lower rest (set String-discrete (lower name) value headers)
