-- ===== src/RedisWebsocket/Runs.antt =====
-- What holds after any steps of the Redis provider.
use orijs.Common.{◌≡◌, refl, true, ◌&&◌, ◌||◌, [], ◌++◌, arith, or_else}
use orijs.JsMap
use orijs.JsMap.{JsMap, get, set, delete, contains, add, remove}
use orijs.Websocket.{Text, Text-discrete, validate_topic, validate_socket_id, either_error}
use orijs.RedisWebsocket.{
  channel_of, wanted, subscribed, subscribe, leave_topic, unsubscribed, unsubscribe, disconnected,
  disconnect, resubscribe_all,
}
use orijs.RedisWebsocket.Coverage.{resubscribed_as}
use orijs.RedisWebsocket.Requests.{has_request}
use orijs.RedisWebsocket.Steps.{
  World, Step, subscribes, unsubscribes, disconnects, answered, failed, retried, released,
  reconnected, resubscribed, resubscribe_failed, Reach, here, next, started_with,
}
use orijs.RedisWebsocket.Invariant.{
  Inv, subscribed-Holds, leave_topic-Holds, answered-Holds, failed-Holds, retried-Holds,
  released-Holds, reindexed-Holds, leave_all-Holds, if_valid-Holds, if-Holds, contains-append,
  resubscribe_all-recorded, redis-Inv,
}

Step-Inv : (w v : World) → Step w v → Inv w → Inv v
unfolding subscribe unsubscribe disconnect unsubscribed disconnected contains
Step-Inv w v (subscribes s k e) h = rw e (
    if_valid-Holds w.redis w.resubscribing w.lost
      (either_error (validate_socket_id s) (validate_topic k)) (subscribed s k w.provider)
      w.provider (subscribed-Holds w.redis w.resubscribing w.lost w.provider h s k) h)
Step-Inv w v (unsubscribes s k e) h = rw e (
    if_valid-Holds w.redis w.resubscribing w.lost
      (either_error (validate_socket_id s) (validate_topic k)) (unsubscribed s k w.provider)
      w.provider
      (if-Holds w.redis w.resubscribing w.lost
        (JsMap.has Text-discrete k w.provider.local_subscriptions) _ w.provider
        (reindexed-Holds w.redis w.resubscribing w.lost (leave_topic s k w.provider) _ _
          (leave_topic-Holds w.redis w.resubscribing w.lost w.provider h s k))
        h)
      h)
Step-Inv w v (disconnects s e) h = rw e (
    if_valid-Holds w.redis w.resubscribing w.lost (validate_socket_id s) (disconnected s w.provider)
      w.provider
      (reindexed-Holds w.redis w.resubscribing w.lost _ _ _ (
        leave_all-Holds w.redis w.resubscribing w.lost s
          (or_else (get Text-discrete s w.provider.socket_topics) []) w.provider h))
      h)
Step-Inv w v (answered xs k n ys f e) h =
    rw e (answered-Holds w.redis w.resubscribing w.lost w.provider h xs k n ys f)
Step-Inv w v (failed xs k n ys f e) h =
    rw e (failed-Holds w.redis w.resubscribing w.lost w.provider h xs k n ys f)
Step-Inv w v (retried xs k n ys f e) h =
    rw e (retried-Holds w.redis w.resubscribing w.lost w.provider h xs k n ys f)
Step-Inv w v (released ended xs k ys f e) h =
    rw e (released-Holds w.redis w.resubscribing w.lost w.provider h ended xs k ys f)
Step-Inv w v (reconnected e) h = rw e (
    redis-Inv w [] (resubscribe_all w.provider) w.lost h (λ ch l. l)
      (λ ch a. rw (resubscribe_all-recorded w.provider h.up) (ground arith)))
Step-Inv w v (resubscribed batch rest f e) h = rw e (
    redis-Inv w (w.redis ++ batch) rest w.lost h (λ ch l. l)
      (λ ch a.
        ground (arith, a.3, f, contains-append ch batch rest, contains-append ch w.redis batch)))
Step-Inv w v (resubscribe_failed e) h = rw e (
    redis-Inv w w.redis [] (w.lost ++ w.resubscribing) h
      (λ ch l. ground (arith, l, contains-append ch w.lost w.resubscribing))
      (λ ch a. ground (arith, a.3, contains-append ch w.lost w.resubscribing)))

Reach-Inv : (w v : World) → Reach w v → Inv w → Inv v
Reach-Inv w v here h = h
Reach-Inv w v (next {u} r s) h = Step-Inv u v s (Reach-Inv w u r h)

-- From the start of the provider on, until it is stopped, in whatever order calls are made, Redis
-- answers, refuses or delays, and the connection is lost and made anew: to the channel of a topic that
-- a local socket has Redis has subscribed the connection, or a request or a timer for it is under way,
-- or a request that ends its subscription is under way after which it is asked for again, or it is
-- among those that are asked for after a reconnection, or the provider has given it up: after the last
-- attempt, or when one of the requests after a reconnection failed.
pub wanted_topics_covered :
    (key_prefix : Text) (w : World) (topic : Text)
    → Reach (started_with key_prefix) w
    → wanted topic w.provider ≡ true
    → contains Text-discrete (channel_of w.provider.key_prefix topic) w.redis
        || has_request (channel_of w.provider.key_prefix topic) w.provider.subscribing
        || has_request (channel_of w.provider.key_prefix topic) w.provider.retries
        || (contains Text-discrete (channel_of w.provider.key_prefix topic) w.provider.unsubscribing
            && resubscribed_as
                (channel_of w.provider.key_prefix topic)
                topic
                w.provider.pending_resubscribe)
        || contains Text-discrete (channel_of w.provider.key_prefix topic) w.resubscribing
        || contains Text-discrete (channel_of w.provider.key_prefix topic) w.lost
      ≡ true
unfolding get contains
wanted_topics_covered key_prefix w topic r h = ground (
  arith,
  v.covers topic,
  v.asks (channel_of w.provider.key_prefix topic),
  v.sole (channel_of w.provider.key_prefix topic),
)
  where
    v : Inv w
    v = Reach-Inv (started_with key_prefix) w r (record {
      up = refl;
      names = λ ch t h. cc;
      covers = λ t. refl;
      asks = λ ch. (refl, refl);
      sole = λ ch. (omega arith, omega arith, omega arith, refl);
    })
