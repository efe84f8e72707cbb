-- ===== src/Requests/Context.antt =====
-- packages/core/src/controllers/request-context.ts: the state of one request. `D` is what guards and
-- handlers keep in the context, `W` is a parsed value, `O` the options of guards.
use orijs.Common.{
  Bool, true, not, Option, none, some, or_else, List, [], ◌∷◌, ◌++◌, String, if◌then◌else◌,
}
use orijs.Requests.Response.{Response}

pub data ParseType : Type 0 where
  json_type text_type : ParseType

pub data ContextError : Type 0 where
  already_text already_json body_unreadable invalid_json_text : ContextError
  guards_not_deferred guards_called_twice : ContextError

-- What a call may end with: handlers throw responses, too.
pub data Outcome (A B E : Type 0) : Type 0 where
  returned : A → Outcome A B E
  threw_response : Response B → Outcome A B E
  threw : E → Outcome A B E
  threw_own : ContextError → Outcome A B E

-- A parsed body is a value or a text.
pub data ParsedBody (W : Type 0) : Type 0 where
  parsed_value : W → ParsedBody W
  parsed_text : String → ParsedBody W

-- `body` is what reading the request gives; it can be read once.
pub record Context (D W O : Type 0) : Type 0 where
  pub user : D
  pub body : Option String
  pub parsed_body : Option (ParsedBody W)
  pub parse_type : Option ParseType
  pub validated_query : Option W
  pub response_headers : Option (List (String × String))
  pub has_route_data : Bool
  pub has_guard_runner : Bool
  pub guard_options : Option O
  pub guards_executed : Bool

abbrev pub Action : Type 0 → Type 0 → Type 0 → Type 0 → Type 0 → Type 0 → Type 0
Action A B E D W O = Context D W O → Outcome A B E × Context D W O

module _ {B E D W O : Type 0} where
  infixl 5 ◌>>=◌
  abbrev pub ◌>>=◌ :
      {A A' : Type 0}
      → Outcome A B E × Context D W O
      → (A → Context D W O → Outcome A' B E × Context D W O)
      → Outcome A' B E × Context D W O
  (returned a, c) >>= k = k a c
  (threw_response r, c) >>= k = (threw_response r, c)
  (threw e, c) >>= k = (threw e, c)
  (threw_own e, c) >>= k = (threw_own e, c)

module _ {D W O : Type 0} where
  unfoldable pub set_validated_query : W → Context D W O → Context D W O
  set_validated_query w c = record c { validated_query = some w }

  unfoldable pub set_validated_body : W → Context D W O → Context D W O
  set_validated_body w c = record c {
    parsed_body = some (parsed_value w);
    parse_type = some json_type;
  }

  unfoldable pub set_response_header : String → String → Context D W O → Context D W O
  set_response_header name value c = record c {
    response_headers = some (or_else c.response_headers [] ++ (name, value) ∷ []);
  }

module _ {B E D W O : Type 0} (parse : String → Option W) where
  abbrev parse_read : Option String → Context D W O → Outcome (ParsedBody W) B E × Context D W O
  parse_read none c = (threw_own body_unreadable, c)
  parse_read (some s) c = elim (parse s) [
    | none ↦ (threw_own invalid_json_text, record c { body = none })
    | some w ↦ (
      returned (parsed_value w),
      record c { body = none; parsed_body = some (parsed_value w); parse_type = some json_type },
    )
  ]

  abbrev json_of : Option ParseType → Option (ParsedBody W) → Action (ParsedBody W) B E D W O
  json_of (some text_type) b c = (threw_own already_text, c)
  json_of _ (some b) c = (returned b, c)
  json_of _ none c = parse_read c.body c

  -- `json`; `parse` is `Json.parse`.
  unfoldable pub json : Action (ParsedBody W) B E D W O
  json c = json_of c.parse_type c.parsed_body c

module _ {B E D W O : Type 0} where
  abbrev text_read : Option String → Context D W O → Outcome (ParsedBody W) B E × Context D W O
  text_read none c = (threw_own body_unreadable, c)
  text_read (some s) c = (
    returned (parsed_text s),
    record c { body = none; parsed_body = some (parsed_text s); parse_type = some text_type },
  )

  abbrev text_of : Option ParseType → Option (ParsedBody W) → Action (ParsedBody W) B E D W O
  text_of (some json_type) b c = (threw_own already_json, c)
  text_of _ (some b) c = (returned b, c)
  text_of _ none c = text_read c.body c

  -- `text`
  unfoldable pub text : Action (ParsedBody W) B E D W O
  text c = text_of c.parse_type c.parsed_body c

  abbrev refused : Option (Response B) → Context D W O → Outcome (Unit {0}) B E × Context D W O
  refused none c = (returned tt, c)
  refused (some r) c = (threw_response r, c)

  -- `guards`; the runner is what `setGuardRunner` was given, if it was called.
  unfoldable pub guards : Action (Option (Response B)) B E D W O → O → Action (Unit {0}) B E D W O
  guards runner options c =
      if not c.has_guard_runner
      then (threw_own guards_not_deferred, c)
      else (if c.guards_executed
          then (threw_own guards_called_twice, c)
          else runner (record c { guard_options = some options; guards_executed = true })
            >>= refused)
