-- ===== src/RedisWebsocket/Requests.antt =====
-- That what is pending at Redis has a request or a timer under way, and what steps leave alone.
use orijs.Common.{ℕ, suc, ◌≡◌, refl, Bool, true, false, not, ◌||◌, List, [], ◌∷◌, ◌++◌, arith}
use orijs.JsMap.{contains, add}
use orijs.JsMap.Laws.{contains-add, contains-remove}
use orijs.Websocket.{Text, Text-discrete}
use orijs.RedisWebsocket.{
  Provider, channel_of, subscribe_with_retry, unsubscribe_tracked, request, subscribe_channel,
  subscribed, release, leave_topic, on_subscribed, on_subscribe_failed, on_unsubscribed,
}
use orijs.RedisWebsocket.Coverage.{same}

abbrev pub has_request : Text → List (Text × ℕ) → Bool
has_request ch [] = false
has_request ch ((k, attempt) ∷ rs) = same k ch || has_request ch rs

pub has_request-around :
    (ch k : Text) (attempt : ℕ) (xs ys : List (Text × ℕ))
    → has_request ch (xs ++ (k, attempt) ∷ ys) ≡ same k ch || has_request ch (xs ++ ys)
has_request-around ch k attempt [] ys = refl
has_request-around ch k attempt ((j, n) ∷ xs) ys =
    ground (arith, has_request-around ch k attempt xs ys)

has_request-snoc :
    (ch k : Text) (attempt : ℕ) (xs : List (Text × ℕ))
    → has_request ch (xs ++ (k, attempt) ∷ []) ≡ has_request ch xs || same k ch
has_request-snoc ch k attempt [] = ground arith
has_request-snoc ch k attempt ((j, n) ∷ xs) = ground (arith, has_request-snoc ch k attempt xs)

pub contains-around :
    (ch k : Text) (xs ys : List Text)
    → contains Text-discrete ch (xs ++ k ∷ ys) ≡ same k ch || contains Text-discrete ch (xs ++ ys)
unfolding contains
contains-around ch k [] ys = refl
contains-around ch k (j ∷ xs) ys = ground (arith, contains-around ch k xs ys)

contains-snoc :
    (ch k : Text) (xs : List Text)
    → contains Text-discrete ch (xs ++ k ∷ []) ≡ contains Text-discrete ch xs || same k ch
unfolding contains
contains-snoc ch k [] = ground arith
contains-snoc ch k (j ∷ xs) = ground (arith, contains-snoc ch k xs)

-- The channel, if it is pending, is in a request or in a timer; and if its end is pending, in a request.
abbrev pub Asks : Text → Provider → Type 0
Asks ch p =
    (not (contains Text-discrete ch p.pending_subscriptions)
        || (has_request ch p.subscribing || has_request ch p.retries)
      ≡ true)
    × (not (contains Text-discrete ch p.pending_unsubscriptions)
          || contains Text-discrete ch p.unsubscribing
        ≡ true)

module _ (ch : Text) where
  pub subscribed-Asks :
      (socket k : Text) (p : Provider) → Asks ch p → Asks ch (subscribed socket k p)
  unfolding subscribed subscribe_channel request subscribe_with_retry
  subscribed-Asks socket k p a = ground (
    arith,
    contains-add Text-discrete ch (channel_of p.key_prefix k) p.pending_subscriptions,
    contains-remove Text-discrete ch (channel_of p.key_prefix k)
        (add Text-discrete (channel_of p.key_prefix k) p.pending_subscriptions),
    has_request-snoc ch (channel_of p.key_prefix k) 1 p.subscribing,
  )

  pub leave_topic-Asks :
      (socket k : Text) (p : Provider) → Asks ch p → Asks ch (leave_topic socket k p)
  unfolding leave_topic release unsubscribe_tracked
  leave_topic-Asks socket k p a = ground (
    arith,
    contains-add Text-discrete ch (channel_of p.key_prefix k) p.pending_unsubscriptions,
    contains-snoc ch (channel_of p.key_prefix k) p.unsubscribing,
  )

  -- The request for `k` is no longer in the list.
  pub on_subscribed-Asks :
      (k : Text) (attempt : ℕ) (xs ys : List (Text × ℕ)) (p : Provider)
      → p.subscribing ≡ xs ++ (k, attempt) ∷ ys
      → Asks ch p
      → Asks ch (on_subscribed k (record p { subscribing = xs ++ ys }))
  unfolding on_subscribed unsubscribe_tracked
  on_subscribed-Asks k attempt xs ys p e a = ground (
    arith,
    has_request-around ch k attempt xs ys,
    contains-remove Text-discrete ch k p.pending_subscriptions,
    contains-add Text-discrete ch k p.pending_unsubscriptions,
    contains-snoc ch k p.unsubscribing,
  )

  pub on_subscribe_failed-Asks :
      (k : Text) (attempt : ℕ) (xs ys : List (Text × ℕ)) (p : Provider)
      → p.subscribing ≡ xs ++ (k, attempt) ∷ ys
      → Asks ch p
      → Asks ch (on_subscribe_failed k attempt (record p { subscribing = xs ++ ys }))
  unfolding on_subscribe_failed
  on_subscribe_failed-Asks k attempt xs ys p e a = ground (
    arith,
    has_request-around ch k attempt xs ys,
    has_request-snoc ch k (suc attempt) p.retries,
    contains-remove Text-discrete ch k p.pending_subscriptions,
  )

  pub retry-Asks :
      (k : Text) (attempt : ℕ) (xs ys : List (Text × ℕ)) (p : Provider)
      → p.retries ≡ xs ++ (k, attempt) ∷ ys
      → Asks ch p
      → Asks ch (subscribe_with_retry k attempt (record p { retries = xs ++ ys }))
  unfolding subscribe_with_retry
  retry-Asks k attempt xs ys p e a = ground (
    arith,
    has_request-around ch k attempt xs ys,
    has_request-snoc ch k attempt p.subscribing,
    contains-remove Text-discrete ch k p.pending_subscriptions,
  )

  pub on_unsubscribed-Asks :
      (k : Text) (xs ys : List Text) (p : Provider)
      → p.unsubscribing ≡ xs ++ k ∷ ys
      → Asks ch p
      → Asks ch (on_unsubscribed k (record p { unsubscribing = xs ++ ys }))
  unfolding on_unsubscribed request subscribe_with_retry
  on_unsubscribed-Asks k xs ys p e a = ground (
    arith,
    contains-around ch k xs ys,
    contains-add Text-discrete ch k p.pending_subscriptions,
    contains-remove Text-discrete ch k (add Text-discrete k p.pending_subscriptions),
    contains-remove Text-discrete ch k p.pending_unsubscriptions,
    has_request-snoc ch k 1 p.subscribing,
  )
