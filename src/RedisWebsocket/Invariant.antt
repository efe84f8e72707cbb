-- ===== src/RedisWebsocket/Invariant.antt =====
-- What holds of the Redis provider and of what Redis knows of it, after each of its operations.
use orijs.Common.{
  ℕ, ◌≡◌, refl, Bool, true, false, not, ◌&&◌, ◌||◌, Option, none, some, List, [], ◌∷◌, ◌++◌, arith,
  if◌then◌else◌, ltb,
}
use orijs.JsMap.{JsMap, get, contains, add, remove}
use orijs.JsMap.Laws.{get-set, get-delete}
use orijs.Websocket.{Text, Text-discrete, WsError}
use orijs.RedisWebsocket.{
  Provider, channel_of, max_retries, subscribe_with_retry, unsubscribe_tracked, request,
  subscribe_channel, subscribed, if_valid, release, leave_topic, leave_all, on_subscribed,
  on_subscribe_failed, on_unsubscribed, resubscribe_all,
}
use orijs.RedisWebsocket.Coverage.{
  Covers, subscribed-Covers, leave_topic-Covers, on_subscribed-Covers, on_subscribe_failed-Covers,
  on_unsubscribed-Covers,
}
use orijs.RedisWebsocket.Requests.{
  Asks, subscribed-Asks, leave_topic-Asks, on_subscribed-Asks, on_subscribe_failed-Asks, retry-Asks,
  on_unsubscribed-Asks,
}
use orijs.RedisWebsocket.Sole.{
  IsSole, any-IsSole, subscribed-IsSole, leave_topic-IsSole, on_subscribed-IsSole,
  on_subscribe_failed-IsSole, retry-IsSole, on_unsubscribed-IsSole,
}
use orijs.RedisWebsocket.Steps.{World}

abbrev pub is_excused : Text → List Text → List Text → Bool
is_excused ch resubscribing lost =
    contains Text-discrete ch resubscribing || contains Text-discrete ch lost

pub record Inv (w : World) : Type 0 where
  pub up : w.provider.subscriber && w.provider.started ≡ true
  pub names :
      (ch t : Text)
      → get Text-discrete ch w.provider.pending_resubscribe ≡ some t
      → ch ≡ channel_of w.provider.key_prefix t
  pub covers : (t : Text) → Covers w.lost w.provider t
  pub asks : (ch : Text) → Asks ch w.provider
  pub sole : (ch : Text) → IsSole ch w.redis (is_excused ch w.resubscribing w.lost) w.provider

abbrev pub Holds : List Text → List Text → List Text → Provider → Type 0
Holds redis batches lost p =
    Inv (record { provider = p; redis = redis; resubscribing = batches; lost = lost })

module _ (redis batches lost : List Text) (k : Text) where
  still_excused :
      (ch : Text) (b recorded : Bool)
      → not recorded || contains Text-discrete ch redis || is_excused ch batches lost ≡ true
      → not recorded
          || contains Text-discrete ch redis
          || is_excused ch batches (if b then lost else k ∷ lost)
        ≡ true
  unfolding contains
  still_excused ch true recorded h = h
  still_excused ch false recorded h = ground (arith, h)

module _ (redis batches lost : List Text) (p : Provider) (v : Holds redis batches lost p) where
  pub subscribed-Holds : (socket k : Text) → Holds redis batches lost (subscribed socket k p)
  unfolding subscribed subscribe_channel request subscribe_with_retry
  subscribed-Holds socket k = record {
    up = ground (arith, v.up);
    names = λ ch t h. ground (
      arith,
      h,
      v.names ch t,
      get-set Text-discrete ch (channel_of p.key_prefix k) k p.pending_resubscribe,
    );
    covers = λ t. subscribed-Covers lost t socket k p v.up (v.covers t);
    asks = λ ch. subscribed-Asks ch socket k p (v.asks ch);
    sole =
        λ ch. subscribed-IsSole ch redis (is_excused ch batches lost) socket k p v.up (v.sole ch);
  }

  pub leave_topic-Holds : (socket k : Text) → Holds redis batches lost (leave_topic socket k p)
  unfolding leave_topic release unsubscribe_tracked
  leave_topic-Holds socket k = record {
    up = ground (arith, v.up);
    names = λ ch t h. ground (arith, h, v.names ch t);
    covers = λ t. leave_topic-Covers lost t socket k p (v.covers t);
    asks = λ ch. leave_topic-Asks ch socket k p (v.asks ch);
    sole = λ ch. leave_topic-IsSole ch redis (is_excused ch batches lost) socket k p (v.sole ch);
  }

  pub answered-Holds :
      (xs : List (Text × ℕ)) (k : Text) (n : ℕ) (ys : List (Text × ℕ))
      → p.subscribing ≡ xs ++ (k, n) ∷ ys
      → Holds
          (add Text-discrete k redis)
          batches
          lost
          (on_subscribed k (record p { subscribing = xs ++ ys }))
  unfolding on_subscribed unsubscribe_tracked
  answered-Holds xs k n ys e = record {
    up = ground (arith, v.up);
    names = λ ch t h. ground (arith, h, v.names ch t);
    covers = λ t. on_subscribed-Covers lost t k (record p { subscribing = xs ++ ys }) (v.covers t);
    asks = λ ch. on_subscribed-Asks ch k n xs ys p e (v.asks ch);
    sole =
        λ ch. on_subscribed-IsSole ch redis (is_excused ch batches lost) k n xs ys p e (v.sole ch);
  }

  pub failed-Holds :
      (xs : List (Text × ℕ)) (k : Text) (n : ℕ) (ys : List (Text × ℕ))
      → p.subscribing ≡ xs ++ (k, n) ∷ ys
      → Holds redis batches
          (if ltb n max_retries then lost else k ∷ lost)
          (on_subscribe_failed k n (record p { subscribing = xs ++ ys }))
  unfolding on_subscribe_failed
  failed-Holds xs k n ys e = record {
    up = ground (arith, v.up);
    names = λ ch t h. ground (arith, h, v.names ch t);
    covers = λ t.
        on_subscribe_failed-Covers lost t k n (record p { subscribing = xs ++ ys }) (v.covers t);
    asks = λ ch. on_subscribe_failed-Asks ch k n xs ys p e (v.asks ch);
    sole = λ ch.
        let f =
          on_subscribe_failed-IsSole ch redis (is_excused ch batches lost) k n xs ys p e
            (v.sole ch) in
        any-IsSole ch redis redis (is_excused ch batches lost) _
          (on_subscribe_failed k n (record p { subscribing = xs ++ ys })) f
          (still_excused redis batches lost k ch (ltb n max_retries) _ (f.3));
  }

  pub retried-Holds :
      (xs : List (Text × ℕ)) (k : Text) (n : ℕ) (ys : List (Text × ℕ))
      → p.retries ≡ xs ++ (k, n) ∷ ys
      → Holds redis batches lost (subscribe_with_retry k n (record p { retries = xs ++ ys }))
  unfolding subscribe_with_retry
  retried-Holds xs k n ys e = record {
    up = ground (arith, v.up);
    names = λ ch t h. ground (arith, h, v.names ch t, v.up);
    covers = λ t. ground (arith, v.covers t, v.up);
    asks = λ ch. retry-Asks ch k n xs ys p e (v.asks ch);
    sole = λ ch. retry-IsSole ch redis (is_excused ch batches lost) k n xs ys p v.up e (v.sole ch);
  }

  pub released-Holds :
      (ended : Bool) (xs : List Text) (k : Text) (ys : List Text)
      → p.unsubscribing ≡ xs ++ k ∷ ys
      → Holds
          (if ended then remove Text-discrete k redis else redis)
          batches
          lost
          (on_unsubscribed k (record p { unsubscribing = xs ++ ys }))
  unfolding on_unsubscribed request subscribe_with_retry
  released-Holds ended xs k ys e = record {
    up = ground (arith, v.up);
    names = λ ch t h.
        ground (arith, h, v.names ch t, get-delete Text-discrete ch k p.pending_resubscribe);
    covers = λ t.
        on_unsubscribed-Covers lost t k (record p { unsubscribing = xs ++ ys }) v.up (v.names k)
          (v.covers t);
    asks = λ ch. on_unsubscribed-Asks ch k xs ys p e (v.asks ch);
    sole = λ ch.
        on_unsubscribed-IsSole ch redis (is_excused ch batches lost) ended k xs ys p v.up e
          (v.sole ch);
  }

-- The reverse index and the connected sockets are no part of the invariant.
pub reindexed-Holds :
    (redis batches lost : List Text) (p : Provider) (topics : JsMap Text (List Text))
    (sockets : List Text)
    → Holds redis batches lost p
    → Holds redis batches lost (record p { socket_topics = topics; connected_sockets = sockets })
reindexed-Holds redis batches lost p topics sockets v = record {
  up = v.up;
  names = v.names;
  covers = v.covers;
  asks = v.asks;
  sole = v.sole;
}

pub leave_all-Holds :
    (redis batches lost : List Text) (socket : Text) (topics : List Text) (p : Provider)
    → Holds redis batches lost p
    → Holds redis batches lost (leave_all socket topics p)
unfolding leave_all
leave_all-Holds redis batches lost socket [] p v = v
leave_all-Holds redis batches lost socket (k ∷ ks) p v =
    leave_all-Holds redis batches lost socket ks (leave_topic socket k p)
      (leave_topic-Holds redis batches lost p v socket k)

pub if_valid-Holds :
    (redis batches lost : List Text) (e : Option WsError) (q p : Provider)
    → Holds redis batches lost q
    → Holds redis batches lost p
    → Holds redis batches lost (if_valid e q p).1
if_valid-Holds redis batches lost none q p h k = h
if_valid-Holds redis batches lost (some e) q p h k = k

pub if-Holds :
    (redis batches lost : List Text) (b : Bool) (q p : Provider)
    → Holds redis batches lost q
    → Holds redis batches lost p
    → Holds redis batches lost (if b then q else p)
if-Holds redis batches lost true q p h k = h
if-Holds redis batches lost false q p h k = k

pub contains-append :
    (ch : Text) (xs ys : List Text)
    → contains Text-discrete ch (xs ++ ys)
      ≡ contains Text-discrete ch xs || contains Text-discrete ch ys
unfolding contains
contains-append ch [] ys = refl
contains-append ch (x ∷ xs) ys = ground (arith, contains-append ch xs ys)

pub resubscribe_all-recorded :
    (p : Provider) → p.subscriber && p.started ≡ true → resubscribe_all p ≡ p.redis_subscriptions
unfolding resubscribe_all
resubscribe_all-recorded p h = rw (resubscribe_all, h) refl

-- Only the state of Redis changes.
pub redis-Inv :
    (w : World) (redis batches lost : List Text)
    → Inv w
    → ((ch : Text)
        → contains Text-discrete ch w.lost ≡ true
        → contains Text-discrete ch lost ≡ true)
    → ((ch : Text)
        → IsSole ch w.redis (is_excused ch w.resubscribing w.lost) w.provider
        → not (contains Text-discrete ch w.provider.redis_subscriptions)
            || contains Text-discrete ch redis
            || is_excused ch batches lost
          ≡ true)
    → Inv (record w { redis = redis; resubscribing = batches; lost = lost })
redis-Inv w redis batches lost v grows found = record {
  up = v.up;
  names = v.names;
  covers = λ t. ground (arith, v.covers t, grows (channel_of w.provider.key_prefix t));
  asks = v.asks;
  sole = λ ch. any-IsSole ch w.redis redis _ _ w.provider (v.sole ch) (found ch (v.sole ch));
}
