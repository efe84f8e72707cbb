-- ===== src/RedisWebsocket/Sole.antt =====
-- That a channel of the Redis provider is in one place at most, and is subscribed where it is recorded.
use orijs.Common.{
  ℕ, suc, ◌+◌, ◌≤◌, ◌≡◌, refl, Bool, true, false, not, ◌||◌, ◌&&◌, List, [], ◌∷◌, ◌++◌, arith,
  if◌then◌else◌,
}
use orijs.JsMap.{contains, add, remove}
use orijs.JsMap.Laws.{contains-add, contains-remove}
use orijs.Websocket.{Text, Text-discrete}
use orijs.RedisWebsocket.{
  Provider, channel_of, subscribe_with_retry, unsubscribe_tracked, request, subscribe_channel,
  subscribed, release, leave_topic, on_subscribed, on_subscribe_failed, on_unsubscribed,
}
use orijs.RedisWebsocket.Coverage.{same}

abbrev bit : Bool → ℕ
bit true = 1
bit false = 0

-- How many requests for the channel are in the list.
abbrev requests : Text → List (Text × ℕ) → ℕ
requests ch [] = 0
requests ch ((k, attempt) ∷ rs) = bit (same k ch) + requests ch rs

abbrev ends : Text → List Text → ℕ
ends ch [] = 0
ends ch (k ∷ ks) = bit (same k ch) + ends ch ks

requests-around :
    (ch k : Text) (attempt : ℕ) (xs ys : List (Text × ℕ))
    → requests ch (xs ++ (k, attempt) ∷ ys) ≡ bit (same k ch) + requests ch (xs ++ ys)
requests-around ch k attempt [] ys = refl
requests-around ch k attempt ((j, n) ∷ xs) ys = omega (arith, requests-around ch k attempt xs ys)

requests-snoc :
    (ch k : Text) (attempt : ℕ) (xs : List (Text × ℕ))
    → requests ch (xs ++ (k, attempt) ∷ []) ≡ requests ch xs + bit (same k ch)
requests-snoc ch k attempt [] = omega arith
requests-snoc ch k attempt ((j, n) ∷ xs) = omega (arith, requests-snoc ch k attempt xs)

ends-around :
    (ch k : Text) (xs ys : List Text)
    → ends ch (xs ++ k ∷ ys) ≡ bit (same k ch) + ends ch (xs ++ ys)
ends-around ch k [] ys = refl
ends-around ch k (j ∷ xs) ys = omega (arith, ends-around ch k xs ys)

ends-snoc : (ch k : Text) (xs : List Text) → ends ch (xs ++ k ∷ []) ≡ ends ch xs + bit (same k ch)
ends-snoc ch k [] = omega arith
ends-snoc ch k (j ∷ xs) = omega (arith, ends-snoc ch k xs)

-- The channel is recorded as subscribed, or one request for it or for its end is under way, and not
-- two of these; what is under way is noted as pending; and a channel that is recorded is in `redis`, unless it is
-- excused.
abbrev pub IsSole : Text → List Text → Bool → Provider → Type 0
IsSole ch redis excused p =
    (bit (contains Text-discrete ch p.redis_subscriptions)
        + requests ch p.subscribing
        + requests ch p.retries
        + ends ch p.unsubscribing
      ≤ 1)
    × (requests ch p.subscribing + requests ch p.retries
        ≤ bit (contains Text-discrete ch p.pending_subscriptions))
    × (ends ch p.unsubscribing ≤ bit (contains Text-discrete ch p.pending_unsubscriptions))
    × (not (contains Text-discrete ch p.redis_subscriptions)
          || contains Text-discrete ch redis
          || excused
        ≡ true)

module _ (ch : Text) (redis : List Text) (excused : Bool) where
  pub subscribed-IsSole :
      (socket k : Text) (p : Provider)
      → p.subscriber && p.started ≡ true
      → IsSole ch redis excused p
      → IsSole ch redis excused (subscribed socket k p)
  unfolding subscribed subscribe_channel request subscribe_with_retry
  subscribed-IsSole socket k p u a = ground (
    arith,
    contains-add Text-discrete ch (channel_of p.key_prefix k) p.pending_subscriptions,
    requests-snoc ch (channel_of p.key_prefix k) 1 p.subscribing,
  )

  pub leave_topic-IsSole :
      (socket k : Text) (p : Provider)
      → IsSole ch redis excused p
      → IsSole ch redis excused (leave_topic socket k p)
  unfolding leave_topic release unsubscribe_tracked
  leave_topic-IsSole socket k p a = ground (
    arith,
    contains-add Text-discrete ch (channel_of p.key_prefix k) p.pending_unsubscriptions,
    contains-remove Text-discrete ch (channel_of p.key_prefix k) p.redis_subscriptions,
    ends-snoc ch (channel_of p.key_prefix k) p.unsubscribing,
  )

  pub on_subscribed-IsSole :
      (k : Text) (attempt : ℕ) (xs ys : List (Text × ℕ)) (p : Provider)
      → p.subscribing ≡ xs ++ (k, attempt) ∷ ys
      → IsSole ch redis excused p
      → IsSole ch
          (add Text-discrete k redis)
          excused
          (on_subscribed k (record p { subscribing = xs ++ ys }))
  unfolding on_subscribed unsubscribe_tracked
  on_subscribed-IsSole k attempt xs ys p e a = ground (
    arith,
    requests-around ch k attempt xs ys,
    contains-remove Text-discrete ch k p.pending_subscriptions,
    contains-add Text-discrete ch k p.pending_unsubscriptions,
    contains-add Text-discrete ch k p.redis_subscriptions,
    contains-add Text-discrete ch k redis,
    ends-snoc ch k p.unsubscribing,
  )

  pub on_subscribe_failed-IsSole :
      (k : Text) (attempt : ℕ) (xs ys : List (Text × ℕ)) (p : Provider)
      → p.subscribing ≡ xs ++ (k, attempt) ∷ ys
      → IsSole ch redis excused p
      → IsSole ch redis excused
          (on_subscribe_failed k attempt (record p { subscribing = xs ++ ys }))
  unfolding on_subscribe_failed
  on_subscribe_failed-IsSole k attempt xs ys p e a = ground (
    arith,
    requests-around ch k attempt xs ys,
    requests-snoc ch k (suc attempt) p.retries,
    contains-remove Text-discrete ch k p.pending_subscriptions,
  )

  pub retry-IsSole :
      (k : Text) (attempt : ℕ) (xs ys : List (Text × ℕ)) (p : Provider)
      → p.subscriber && p.started ≡ true
      → p.retries ≡ xs ++ (k, attempt) ∷ ys
      → IsSole ch redis excused p
      → IsSole ch redis excused (subscribe_with_retry k attempt (record p { retries = xs ++ ys }))
  unfolding subscribe_with_retry
  retry-IsSole k attempt xs ys p u e a =
      ground (arith, requests-around ch k attempt xs ys, requests-snoc ch k attempt p.subscribing)

  -- Redis has ended the subscription, or has not, where the request failed.
  pub on_unsubscribed-IsSole :
      (ended : Bool) (k : Text) (xs ys : List Text) (p : Provider)
      → p.subscriber && p.started ≡ true
      → p.unsubscribing ≡ xs ++ k ∷ ys
      → IsSole ch redis excused p
      → IsSole ch
          (if ended then remove Text-discrete k redis else redis)
          excused
          (on_unsubscribed k (record p { unsubscribing = xs ++ ys }))
  unfolding on_unsubscribed request subscribe_with_retry
  on_unsubscribed-IsSole ended k xs ys p u e a = ground (
    arith,
    ends-around ch k xs ys,
    contains-add Text-discrete ch k p.pending_subscriptions,
    contains-remove Text-discrete ch k p.pending_unsubscriptions,
    contains-remove Text-discrete ch k redis,
    requests-snoc ch k 1 p.subscribing,
  )

-- Other channels are in `redis`, but each recorded one is excused.
pub any-IsSole :
    (ch : Text) (redis others : List Text) (excused more : Bool) (p : Provider)
    → IsSole ch redis excused p
    → not (contains Text-discrete ch p.redis_subscriptions)
        || contains Text-discrete ch others
        || more
      ≡ true
    → IsSole ch others more p
any-IsSole ch redis others excused more p a h = (a.0, a.1, a.2, h)
