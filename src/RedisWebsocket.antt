-- ===== src/RedisWebsocket.antt =====
-- packages/websocket-redis/src/redis-websocket-provider.ts: the WebSocket provider that subscribes
-- at Redis to the topics that local sockets have. A request to Redis that has not been answered is
-- in a list, and so is a timer; the answer is a step of its own. The payloads of messages, and the
-- closing of the connections, are left out.
pub mod Coverage
pub mod Requests
pub mod Sole
pub mod Steps
pub mod Invariant
pub mod Runs
mod Tests
use orijs.Common.{
  ℕ, suc, ◌+◌, Bool, true, false, not, ◌&&◌, ◌||◌, Option, none, some, List, [], ◌∷◌, ◌++◌, length,
  drop, ltb, is_some, or_else, if◌then◌else◌,
}
use orijs.JsMap
use orijs.JsMap.{JsMap, get, set, delete, contains, add, remove}
use orijs.Websocket.{
  Text, Text-discrete, WsError, validate_topic, validate_socket_id, either_error, insert, withdraw,
  last_topic,
}

-- `subscriber` says that the connection is there.
pub record Provider : Type 0 where
  pub key_prefix : Text
  pub subscriber : Bool
  pub started : Bool
  pub local_subscriptions : JsMap Text (List Text)
  pub socket_topics : JsMap Text (List Text)
  pub connected_sockets : List Text
  pub redis_subscriptions : List Text
  pub pending_subscriptions : List Text
  pub pending_unsubscriptions : List Text
  pub pending_resubscribe : JsMap Text Text
  pub subscribing : List (Text × ℕ)
  pub retries : List (Text × ℕ)
  pub unsubscribing : List Text

-- `getRedisChannel`: 58 is the colon.
abbrev pub channel_of : Text → Text → Text
channel_of key_prefix topic = key_prefix ++ 58 ∷ topic

-- `getTopicFromChannel`
abbrev pub topic_of : Text → Text → Text
topic_of key_prefix channel = drop (length key_prefix + 1) channel

abbrev pub has_any : List Text → Bool
has_any [] = false
has_any (s ∷ ss) = true

-- Whether any local socket has the topic.
abbrev pub wanted : Text → Provider → Bool
wanted topic p = has_any (or_else (get Text-discrete topic p.local_subscriptions) [])

abbrev pub max_retries : ℕ
max_retries = 3

unfoldable pub start : Provider → Provider
start p = if p.started then p else record p { subscriber = true; started = true }

-- `stop`, to its first wait
unfoldable pub stop_begin : Provider → Provider
stop_begin p = record p { started = false }

-- The rest of `stop`.
unfoldable pub stop_end : Provider → Provider
stop_end p = record p {
  subscriber = false;
  redis_subscriptions = [];
  pending_subscriptions = [];
  pending_unsubscriptions = [];
  pending_resubscribe = [];
  retries = [];
  local_subscriptions = [];
  socket_topics = [];
  connected_sockets = [];
}

-- `subscribeWithRetry`
unfoldable pub subscribe_with_retry : Text → ℕ → Provider → Provider
subscribe_with_retry channel attempt p =
    if p.subscriber && p.started
    then record p { subscribing = p.subscribing ++ (channel, attempt) ∷ [] }
    else record p { pending_subscriptions = remove Text-discrete channel p.pending_subscriptions }

-- `unsubscribeTracked`
unfoldable pub unsubscribe_tracked : Text → Provider → Provider
unsubscribe_tracked channel p =
    if p.subscriber && p.started
    then record p {
      pending_unsubscriptions = add Text-discrete channel p.pending_unsubscriptions;
      unsubscribing = p.unsubscribing ++ channel ∷ [];
    }
    else p

unfoldable pub request : Text → Provider → Provider
request channel p =
    subscribe_with_retry channel 1
      (record p { pending_subscriptions = add Text-discrete channel p.pending_subscriptions })

-- What `subscribe` does at Redis for the first local socket of a topic.
unfoldable pub subscribe_channel : Text → Text → Provider → Provider
subscribe_channel channel topic p =
    if contains Text-discrete channel p.pending_unsubscriptions
    then record p { pending_resubscribe = set Text-discrete channel topic p.pending_resubscribe }
    else (if contains Text-discrete channel p.redis_subscriptions
          || contains Text-discrete channel p.pending_subscriptions
        then p
        else request channel p)

unfoldable pub subscribed : Text → Text → Provider → Provider
subscribed socket topic p =
    let p' = record p {
      local_subscriptions = insert topic socket p.local_subscriptions;
      socket_topics = insert socket topic p.socket_topics;
      connected_sockets = add Text-discrete socket p.connected_sockets;
    } in
    if not (wanted topic p) && p.subscriber
    then subscribe_channel (channel_of p.key_prefix topic) topic p'
    else p'

abbrev pub if_valid : Option WsError → Provider → Provider → Option WsError × Provider
if_valid (some e) q p = (some e, p)
if_valid none q p = (none, q)

unfoldable pub subscribe : Text → Text → Provider → Option WsError × Provider
subscribe socket topic p =
    if_valid (either_error (validate_socket_id socket) (validate_topic topic))
      (subscribed socket topic p) p

-- The topic's last local socket has gone.
unfoldable pub release : Text → Provider → Provider
release channel p =
    if contains Text-discrete channel p.redis_subscriptions && p.subscriber
    then unsubscribe_tracked channel
        (record p { redis_subscriptions = remove Text-discrete channel p.redis_subscriptions })
    else p

-- The topic index, and Redis with it, when a socket leaves a topic.
unfoldable pub leave_topic : Text → Text → Provider → Provider
leave_topic socket topic p =
    let p' = record p { local_subscriptions = withdraw topic socket p.local_subscriptions } in
    if JsMap.has Text-discrete topic p.local_subscriptions && not (wanted topic p')
    then release (channel_of p.key_prefix topic) p'
    else p'

unfoldable pub unsubscribed : Text → Text → Provider → Provider
unsubscribed socket topic p =
    if JsMap.has Text-discrete topic p.local_subscriptions
    then record (leave_topic socket topic p) {
      socket_topics = withdraw socket topic p.socket_topics;
      connected_sockets =
          if last_topic topic (get Text-discrete socket p.socket_topics)
          then remove Text-discrete socket p.connected_sockets
          else p.connected_sockets;
    }
    else p

unfoldable pub unsubscribe : Text → Text → Provider → Option WsError × Provider
unsubscribe socket topic p =
    if_valid (either_error (validate_socket_id socket) (validate_topic topic))
      (unsubscribed socket topic p) p

unfoldable pub leave_all : Text → List Text → Provider → Provider
leave_all socket [] p = p
leave_all socket (topic ∷ topics) p = leave_all socket topics (leave_topic socket topic p)

unfoldable pub disconnected : Text → Provider → Provider
disconnected socket p =
    record (leave_all socket (or_else (get Text-discrete socket p.socket_topics) []) p) {
      socket_topics = delete Text-discrete socket p.socket_topics;
      connected_sockets = remove Text-discrete socket p.connected_sockets;
    }

unfoldable pub disconnect : Text → Provider → Option WsError × Provider
disconnect socket p = if_valid (validate_socket_id socket) (disconnected socket p) p

-- Redis has subscribed the connection to the channel.
unfoldable pub on_subscribed : Text → Provider → Provider
on_subscribed channel p =
    let p' = record p {
      pending_subscriptions = remove Text-discrete channel p.pending_subscriptions;
    } in
    if wanted (topic_of p.key_prefix channel) p
    then record p' { redis_subscriptions = add Text-discrete channel p.redis_subscriptions }
    else unsubscribe_tracked channel p'

-- The request has failed: another one follows, or the provider gives up.
unfoldable pub on_subscribe_failed : Text → ℕ → Provider → Provider
on_subscribe_failed channel attempt p =
    if ltb attempt max_retries
    then record p { retries = p.retries ++ (channel, suc attempt) ∷ [] }
    else record p { pending_subscriptions = remove Text-discrete channel p.pending_subscriptions }

-- The request to unsubscribe is over, answered or failed.
unfoldable pub on_unsubscribed : Text → Provider → Provider
on_unsubscribed channel p =
    let p' = record p {
      pending_unsubscriptions = remove Text-discrete channel p.pending_unsubscriptions;
    } in
    elim (get Text-discrete channel p.pending_resubscribe) [
      | none ↦ p'
      | some topic ↦
          let p'' = record p' {
            pending_resubscribe = delete Text-discrete channel p.pending_resubscribe;
          } in
          if wanted topic p then request channel p'' else p''
    ]

-- `resubscribeAll`: the channels that are asked for again, in batches.
unfoldable pub resubscribe_all : Provider → List Text
resubscribe_all p = if p.subscriber && p.started then p.redis_subscriptions else []
