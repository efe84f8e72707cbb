-- ===== src/RedisWebsocket/Tests.antt =====
-- The theorem on the Redis provider after one subscription and a reconnection.
use orijs.Common.{◌≡◌, refl, true, ◌&&◌, ◌||◌, [], ◌∷◌, ◌++◌}
use orijs.JsMap.{get, set, contains, add, remove}
use orijs.Websocket.{
  Text, Text-discrete, validate_socket_id, validate_topic, is_in_class, is_hex, is_topic_char,
  insert,
}
use orijs.RedisWebsocket.{
  channel_of, wanted, subscribe, subscribed, subscribe_channel, request, subscribe_with_retry,
  on_subscribed, resubscribe_all,
}
use orijs.RedisWebsocket.Coverage.{resubscribed_as}
use orijs.RedisWebsocket.Requests.{has_request}
use orijs.RedisWebsocket.Steps.{
  World, here, next, subscribes, answered, reconnected, resubscribed, started_with,
}
use orijs.RedisWebsocket.Runs.{wanted_topics_covered}

-- 00000000-0000-4000-8000-000000000000
abbrev socket : Text
socket =
    48 ∷ 48 ∷ 48 ∷ 48 ∷ 48 ∷ 48 ∷ 48 ∷ 48 ∷ 45 ∷ 48 ∷ 48 ∷ 48 ∷ 48 ∷ 45 ∷ 52 ∷ 48 ∷ 48 ∷ 48 ∷ 45
    ∷ 56 ∷ 48 ∷ 48 ∷ 48 ∷ 45 ∷ 48 ∷ 48 ∷ 48 ∷ 48 ∷ 48 ∷ 48 ∷ 48 ∷ 48 ∷ 48 ∷ 48 ∷ 48 ∷ 48 ∷ []

abbrev topic : Text
topic = 114 ∷ 58 ∷ 49 ∷ []

abbrev ws_prefix : Text
ws_prefix = 119 ∷ 115 ∷ []

abbrev after_one : World
after_one = record (started_with ws_prefix) {
  provider = (subscribe socket topic (started_with ws_prefix).provider).1;
}

abbrev ws_channel : Text
ws_channel = channel_of ws_prefix topic

abbrev after_two : World
after_two = record after_one {
  provider = on_subscribed ws_channel (record after_one.provider { subscribing = [] });
  redis = add Text-discrete ws_channel after_one.redis;
}

-- The connection was lost and made anew, ...
abbrev after_three : World
after_three = record after_two { redis = []; resubscribing = resubscribe_all after_two.provider }

-- ... and the channel asked for again.
abbrev after_all : World
after_all = record after_three {
  redis = after_three.redis ++ (ws_channel ∷ []);
  resubscribing = [];
}

requested : after_one.provider.subscribing ≡ [] ++ (ws_channel, 1) ∷ []
unfolding subscribe subscribed subscribe_channel request subscribe_with_retry validate_socket_id
    validate_topic is_in_class is_hex is_topic_char Text-discrete insert get set contains add
requested = refl

asked_again : after_three.resubscribing ≡ (ws_channel ∷ []) ++ []
unfolding subscribe subscribed subscribe_channel request subscribe_with_retry validate_socket_id
    validate_topic is_in_class is_hex is_topic_char Text-discrete insert get set contains add
    on_subscribed resubscribe_all remove
asked_again = refl

topic-is_wanted : wanted topic after_all.provider ≡ true
unfolding subscribe subscribed subscribe_channel request subscribe_with_retry validate_socket_id
    validate_topic is_in_class is_hex is_topic_char Text-discrete insert get set contains add
    on_subscribed resubscribe_all remove
topic-is_wanted = refl

wanted_topics_covered_example :
    contains Text-discrete (channel_of after_all.provider.key_prefix topic) after_all.redis
      || has_request (channel_of after_all.provider.key_prefix topic) after_all.provider.subscribing
      || has_request (channel_of after_all.provider.key_prefix topic) after_all.provider.retries
      || (contains Text-discrete
            (channel_of after_all.provider.key_prefix topic)
            after_all.provider.unsubscribing
          && resubscribed_as
              (channel_of after_all.provider.key_prefix topic)
              topic
              after_all.provider.pending_resubscribe)
      || contains Text-discrete
          (channel_of after_all.provider.key_prefix topic)
          after_all.resubscribing
      || contains Text-discrete (channel_of after_all.provider.key_prefix topic) after_all.lost
    ≡ true
wanted_topics_covered_example =
    wanted_topics_covered ws_prefix after_all topic
      (next
        (next
          (next (next here (subscribes socket topic refl))
            (answered [] ws_channel 1 [] requested refl))
          (reconnected refl))
        (resubscribed (ws_channel ∷ []) [] asked_again refl))
      topic-is_wanted
