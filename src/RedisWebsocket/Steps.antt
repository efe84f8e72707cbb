-- ===== src/RedisWebsocket/Steps.antt =====
-- The steps of the Redis provider: calls, and the answers of Redis in any order.
use orijs.Common.{ℕ, ◌≡◌, Bool, true, List, [], ◌∷◌, ◌++◌, if◌then◌else◌, ltb}
use orijs.JsMap.{add, remove}
use orijs.Websocket.{Text, Text-discrete}
use orijs.RedisWebsocket.{
  Provider, max_retries, subscribe_with_retry, subscribe, unsubscribe, disconnect, on_subscribed,
  on_subscribe_failed, on_unsubscribed, resubscribe_all,
}

-- The provider, the channels to which Redis has subscribed its connection, those that are left of
-- `resubscribeAll`, and those that it has given up.
pub record World : Type 0 where
  pub provider : Provider
  pub redis : List Text
  pub resubscribing : List Text
  pub lost : List Text

-- The steps of a provider that is not stopped. Redis changes its subscriptions when it answers;
-- `ended` is false where the request to unsubscribe failed. A connection that is lost and made anew
-- is subscribed to nothing, and `resubscribeAll` asks for all that is recorded, in batches. If one
-- of these fails, the rest is not asked for again.
pub data Step (w v : World) : Type 0 where
  subscribes :
      (socket topic : Text)
      → v ≡ record w { provider = (subscribe socket topic w.provider).1 }
      → Step w v
  unsubscribes :
      (socket topic : Text)
      → v ≡ record w { provider = (unsubscribe socket topic w.provider).1 }
      → Step w v
  disconnects :
      (socket : Text) → v ≡ record w { provider = (disconnect socket w.provider).1 } → Step w v
  answered :
      (before : List (Text × ℕ)) (channel : Text) (attempt : ℕ) (after : List (Text × ℕ))
      → w.provider.subscribing ≡ before ++ (channel, attempt) ∷ after
      → v ≡ record w {
        provider = on_subscribed channel (record w.provider { subscribing = before ++ after });
        redis = add Text-discrete channel w.redis;
      }
      → Step w v
  failed :
      (before : List (Text × ℕ)) (channel : Text) (attempt : ℕ) (after : List (Text × ℕ))
      → w.provider.subscribing ≡ before ++ (channel, attempt) ∷ after
      → v ≡ record {
        provider =
            on_subscribe_failed channel attempt
              (record w.provider { subscribing = before ++ after });
        redis = w.redis;
        resubscribing = w.resubscribing;
        lost = if ltb attempt max_retries then w.lost else channel ∷ w.lost;
      }
      → Step w v
  retried :
      (before : List (Text × ℕ)) (channel : Text) (attempt : ℕ) (after : List (Text × ℕ))
      → w.provider.retries ≡ before ++ (channel, attempt) ∷ after
      → v ≡ record w {
        provider =
            subscribe_with_retry channel attempt (record w.provider { retries = before ++ after });
      }
      → Step w v
  released :
      (ended : Bool) (before : List Text) (channel : Text) (after : List Text)
      → w.provider.unsubscribing ≡ before ++ channel ∷ after
      → v ≡ record w {
        provider = on_unsubscribed channel (record w.provider { unsubscribing = before ++ after });
        redis = if ended then remove Text-discrete channel w.redis else w.redis;
      }
      → Step w v
  reconnected : v ≡ record w { redis = []; resubscribing = resubscribe_all w.provider } → Step w v
  resubscribed :
      (batch rest : List Text)
      → w.resubscribing ≡ batch ++ rest
      → v ≡ record w { redis = w.redis ++ batch; resubscribing = rest }
      → Step w v
  resubscribe_failed :
      v ≡ record w { resubscribing = []; lost = w.lost ++ w.resubscribing } → Step w v

pub data Reach (w : World) : World → Type 0 where
  here : Reach w w
  next : {u v : World} → Reach w u → Step u v → Reach w v

-- A provider that has just been started.
abbrev pub started_with : Text → World
started_with key_prefix = record {
  provider = record {
    key_prefix = key_prefix;
    subscriber = true;
    started = true;
    local_subscriptions = [];
    socket_topics = [];
    connected_sockets = [];
    redis_subscriptions = [];
    pending_subscriptions = [];
    pending_unsubscriptions = [];
    pending_resubscribe = [];
    subscribing = [];
    retries = [];
    unsubscribing = [];
  };
  redis = [];
  resubscribing = [];
  lost = [];
}
