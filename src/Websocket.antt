-- ===== src/Websocket.antt =====
-- packages/websocket/src/in-proc-provider.ts and validation.ts: the in-process WebSocket provider.
-- A string is the list of its UTF-16 code units; Bun's server is the list of what was published.
pub mod Ids
pub mod Indices
pub mod Subscriptions
pub mod Contract
mod Tests
use orijs.Common.{
  ℕ, zero, suc, ◌+◌, ◌≤◌, ◌<◌, ◌≡◌, refl, sym, ap, ◌∙◌, subst, ◌≢◌, ◌⊎◌, inl, inr, ite, Bool, true,
  false, not, ◌&&◌, ◌||◌, Option, none, some, List, [], ◌∷◌, ◌++◌, map, ℕ_discrete, arith, length,
  All, In, first, later, if◌then◌else◌, ltb, leb, is_some, holds, or_else, Bool-cases, Option-cases,
}
use orijs.JsMap
use orijs.JsMap.{JsMap, get, set, delete, contains, add, remove, size}

abbrev pub Text : Type 0
Text = List ℕ

unfoldable pub Text-discrete : Discrete Text
unfolding ℕ_discrete
Text-discrete = hlevel ℕ_discrete

pub data WsError : Type 0 where
  topic_empty topic_too_long topic_characters : WsError
  socket_id_empty socket_id_format : WsError
  not_ready : WsError

abbrev pub between : ℕ → ℕ → ℕ → Bool
between a b c = leb a c && leb c b

-- `[\w:.\-]`
unfoldable pub is_topic_char : ℕ → Bool
is_topic_char c =
    between 97 122 c
    || between 65 90 c
    || between 48 57 c
    || between 95 95 c
    || between 58 58 c
    || between 46 46 c
    || between 45 45 c

abbrev pub all_chars : (ℕ → Bool) → Text → Bool
all_chars p [] = true
all_chars p (c ∷ cs) = p c && all_chars p cs

-- `validateTopic`: the error it throws
unfoldable pub validate_topic : Text → Option WsError
validate_topic [] = some topic_empty
validate_topic (c ∷ cs) =
    if ltb 256 (length (c ∷ cs))
    then some topic_too_long
    else (if all_chars is_topic_char (c ∷ cs) then none else some topic_characters)

-- The classes of characters in `UUID_V4_REGEX`, which ignores case.
pub data CharClass : Type 0 where
  hex dash four variant : CharClass

unfoldable pub is_hex : ℕ → Bool
is_hex c = between 48 57 c || between 97 102 c || between 65 70 c

unfoldable pub is_in_class : CharClass → ℕ → Bool
is_in_class hex c = is_hex c
is_in_class dash c = between 45 45 c
is_in_class four c = between 52 52 c
is_in_class variant c = between 56 57 c || between 97 98 c || between 65 66 c

abbrev pub matches : List CharClass → Text → Bool
matches [] [] = true
matches [] (c ∷ cs) = false
matches (k ∷ ks) [] = false
matches (k ∷ ks) (c ∷ cs) = is_in_class k c && matches ks cs

abbrev pub repeat : ℕ → CharClass → List CharClass → List CharClass
repeat zero k ks = ks
repeat (suc n) k ks = k ∷ repeat n k ks

abbrev pub uuid_v4 : List CharClass
uuid_v4 = repeat 8 hex (
    dash
    ∷ repeat 4 hex
        (dash ∷ four ∷ repeat 3 hex (dash ∷ variant ∷ repeat 3 hex (dash ∷ repeat 12 hex []))))

unfoldable pub validate_socket_id : Text → Option WsError
validate_socket_id [] = some socket_id_empty
validate_socket_id (c ∷ cs) = if matches uuid_v4 (c ∷ cs) then none else some socket_id_format

pub record Provider (M : Type 0) : Type 0 where
  pub server : Option (List (Text × M))
  pub started : Bool
  pub local_subscriptions : JsMap Text (List Text)
  pub socket_topics : JsMap Text (List Text)
  pub connected_sockets : List Text

-- A `get` that puts an empty set where there is none, and the set's `add`.
unfoldable pub insert : Text → Text → JsMap Text (List Text) → JsMap Text (List Text)
insert k e m = set Text-discrete k (add Text-discrete e (or_else (get Text-discrete k m) [])) m

abbrev pub keep_if_any : Text → List Text → JsMap Text (List Text) → JsMap Text (List Text)
keep_if_any k [] m = delete Text-discrete k m
keep_if_any k (e ∷ es) m = set Text-discrete k (e ∷ es) m

-- The set's `delete`, and the map's when that leaves nothing.
unfoldable pub withdraw : Text → Text → JsMap Text (List Text) → JsMap Text (List Text)
withdraw k e m = elim (get Text-discrete k m) [
  | none ↦ m
  | some es ↦ keep_if_any k (remove Text-discrete e es) m
]

-- `for (const topic of topics)` in `disconnect`
unfoldable pub withdraw_all : List Text → Text → JsMap Text (List Text) → JsMap Text (List Text)
withdraw_all [] e m = m
withdraw_all (k ∷ ks) e m = withdraw_all ks e (withdraw k e m)

-- `__socket__:${socketId}`
abbrev pub socket_topic : Text → Text
socket_topic socket = 95 ∷ 95 ∷ 115 ∷ 111 ∷ 99 ∷ 107 ∷ 101 ∷ 116 ∷ 95 ∷ 95 ∷ 58 ∷ socket

-- Whether the reverse index loses its last topic of the socket.
abbrev pub last_topic : Text → Option (List Text) → Bool
last_topic topic none = false
last_topic topic (some topics) = elim (remove Text-discrete topic topics) [
  | [] ↦ true
  | e ∷ es ↦ false
]

-- What the rejection of `publish` says is dropped, what `publish` throws is not.
abbrev pub caught : Option WsError → Option WsError
caught (some not_ready) = none
caught e = e

abbrev pub either_error : Option WsError → Option WsError → Option WsError
either_error (some e) f = some e
either_error none f = f

module _ {M : Type 0} where
  abbrev pub guarded : Option WsError → Provider M → Provider M → Option WsError × Provider M
  guarded (some e) q p = (some e, p)
  guarded none q p = (none, q)

  unfoldable pub start : Provider M → Provider M
  start p = if p.started then p else record p { started = true }

  unfoldable pub stop : Provider M → Provider M
  stop p =
      if p.started
      then record p {
        server = none;
        started = false;
        local_subscriptions = [];
        socket_topics = [];
        connected_sockets = [];
      }
      else p

  unfoldable pub set_server : List (Text × M) → Provider M → Provider M
  set_server server p = record p { server = some server }

  abbrev pub publish_to :
      Option (List (Text × M)) → Text → M → Provider M → Option WsError × Provider M
  publish_to none topic message p = (some not_ready, p)
  publish_to (some server) topic message p =
      (none, record p { server = some (server ++ (topic, message) ∷ []) })

  unfoldable pub publish : Text → M → Provider M → Option WsError × Provider M
  publish topic message p = elim (validate_topic topic) [
    | some e ↦ (some e, p)
    | none ↦ publish_to p.server topic message p
  ]

  unfoldable pub send : Text → M → Provider M → Option WsError × Provider M
  send socket message p = elim (validate_socket_id socket) [
    | some e ↦ (some e, p)
    | none ↦ let r = publish (socket_topic socket) message p in (caught r.0, r.1)
  ]

  -- `broadcast`, to the topic "__broadcast__"
  unfoldable pub broadcast : M → Provider M → Option WsError × Provider M
  broadcast message p =
      let r =
        publish (95 ∷ 95 ∷ 98 ∷ 114 ∷ 111 ∷ 97 ∷ 100 ∷ 99 ∷ 97 ∷ 115 ∷ 116 ∷ 95 ∷ 95 ∷ []) message
          p in
      (caught r.0, r.1)

  unfoldable pub subscribed : Text → Text → Provider M → Provider M
  subscribed socket topic p = record p {
    local_subscriptions = insert topic socket p.local_subscriptions;
    socket_topics = insert socket topic p.socket_topics;
    connected_sockets = add Text-discrete socket p.connected_sockets;
  }

  unfoldable pub subscribe : Text → Text → Provider M → Option WsError × Provider M
  subscribe socket topic p =
      guarded (either_error (validate_socket_id socket) (validate_topic topic))
        (subscribed socket topic p) p

  unfoldable pub unsubscribed : Text → Text → Provider M → Provider M
  unsubscribed socket topic p = record p {
    local_subscriptions = withdraw topic socket p.local_subscriptions;
    socket_topics = withdraw socket topic p.socket_topics;
    connected_sockets =
        if last_topic topic (get Text-discrete socket p.socket_topics)
        then remove Text-discrete socket p.connected_sockets
        else p.connected_sockets;
  }

  unfoldable pub unsubscribe : Text → Text → Provider M → Option WsError × Provider M
  unsubscribe socket topic p =
      guarded (either_error (validate_socket_id socket) (validate_topic topic))
        (unsubscribed socket topic p) p

  unfoldable pub disconnected : Text → Provider M → Provider M
  disconnected socket p = record p {
    local_subscriptions =
        withdraw_all (or_else (get Text-discrete socket p.socket_topics) []) socket
          p.local_subscriptions;
    socket_topics = delete Text-discrete socket p.socket_topics;
    connected_sockets = remove Text-discrete socket p.connected_sockets;
  }

  unfoldable pub disconnect : Text → Provider M → Option WsError × Provider M
  disconnect socket p = guarded (validate_socket_id socket) (disconnected socket p) p

  unfoldable pub is_connected : Text → Provider M → Bool
  is_connected socket p = contains Text-discrete socket p.connected_sockets

  unfoldable pub get_connection_count : Provider M → ℕ
  get_connection_count p = length p.connected_sockets

  unfoldable pub get_topic_subscriber_count : Text → Provider M → ℕ
  get_topic_subscriber_count topic p =
      length (or_else (get Text-discrete topic p.local_subscriptions) [])
