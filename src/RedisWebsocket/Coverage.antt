-- ===== src/RedisWebsocket/Coverage.antt =====
-- That Redis has been asked for every topic that a local socket has.
use orijs.Common.{
  ℕ, suc, ◌+◌, ◌≡◌, refl, sym, ap, ◌∙◌, Bool, true, false, not, ◌&&◌, ◌||◌, Option, none, some,
  List, [], ◌∷◌, ◌++◌, drop, arith, length, if◌then◌else◌, ltb, holds, or_else,
}
use orijs.JsMap
use orijs.JsMap.{JsMap, get, set, delete, contains, add, remove}
use orijs.JsMap.Laws.{get-set, get-delete, contains-add, contains-remove}
use orijs.Websocket.{Text, Text-discrete, insert, withdraw}
use orijs.RedisWebsocket.{
  Provider, channel_of, topic_of, has_any, wanted, max_retries, subscribe_with_retry,
  unsubscribe_tracked, request, subscribe_channel, subscribed, release, leave_topic, on_subscribed,
  on_subscribe_failed, on_unsubscribed,
}

-- A channel stands for the topic that it was made from.
drop_past : (xs ys : Text) (c : ℕ) → drop (length xs + 1) (xs ++ c ∷ ys) ≡ ys
drop_past [] ys c = refl
drop_past (x ∷ xs) ys c = rw (suc_plus (length xs)) (drop_past xs ys c)
  where
    suc_plus : (n : ℕ) → suc n + 1 ≡ suc (n + 1)
    suc_plus n = omega arith

pub topic_of-channel_of :
    (key_prefix topic : Text) → topic_of key_prefix (channel_of key_prefix topic) ≡ topic
topic_of-channel_of key_prefix topic = drop_past key_prefix topic 58

abbrev pub same : Text → Text → Bool
same s t = holds (Text-discrete s t)

pub same-channel_of : (kp s t : Text) → same (channel_of kp s) (channel_of kp t) ≡ same s t
same-channel_of kp s t =
    decide (Text-discrete (channel_of kp s) (channel_of kp t)) (Text-discrete s t)
  where
    decide : (d : Dec (channel_of kp s ≡ channel_of kp t)) (e : Dec (s ≡ t)) → holds d ≡ holds e
    decide (yes p) (yes q) = refl
    decide (no p) (no q) = refl
    decide (yes p) (no q) =
        absurd (q (sym (topic_of-channel_of kp s) ∙ ap (topic_of kp) p ∙ topic_of-channel_of kp t))
    decide (no p) (yes q) = absurd (p (ap (channel_of kp) q))

-- The topic that the channel is to be subscribed for again.
abbrev pub resubscribed_as : Text → Text → JsMap Text Text → Bool
resubscribed_as channel topic m = elim (get Text-discrete channel m) [
  | none ↦ false
  | some t ↦ same t topic
]

-- Redis has subscribed the connection to the topic's channel, or a request will, or the provider has
-- given the channel up.
abbrev pub covered : List Text → Text → Provider → Bool
covered lost topic p =
    contains Text-discrete (channel_of p.key_prefix topic) p.redis_subscriptions
    || contains Text-discrete (channel_of p.key_prefix topic) p.pending_subscriptions
    || (contains Text-discrete (channel_of p.key_prefix topic) p.pending_unsubscriptions
        && resubscribed_as (channel_of p.key_prefix topic) topic p.pending_resubscribe)
    || contains Text-discrete (channel_of p.key_prefix topic) lost

abbrev pub Covers : List Text → Provider → Text → Type 0
Covers lost p t = not (wanted t p) || covered lost t p ≡ true

abbrev row_any : Text → JsMap Text (List Text) → Bool
row_any t m = has_any (or_else (get Text-discrete t m) [])

has_any-add : (e : Text) (es : List Text) → has_any (add Text-discrete e es) ≡ true
unfolding add
has_any-add e [] = refl
has_any-add e (x ∷ xs) = ground arith

row_any-insert :
    (t k e : Text) (m : JsMap Text (List Text)) → row_any t (insert k e m) ≡ same k t || row_any t m
unfolding insert
row_any-insert t k e m = ground (
  arith,
  get-set Text-discrete t k (add Text-discrete e (or_else (get Text-discrete k m) [])) m,
  has_any-add e (or_else (get Text-discrete k m) []),
)

removed :
    (e : Text) (es : List Text) (x : Text) (xs : List Text)
    → remove Text-discrete e es ≡ x ∷ xs
    → has_any es ≡ true
unfolding remove
removed e [] x xs f = cc
removed e (y ∷ ys) x xs f = refl

-- Where a socket is taken out, no topic gets its first socket.
row_any-withdraw :
    (t k e : Text) (m : JsMap Text (List Text))
    → not (row_any t (withdraw k e m)) || row_any t m ≡ true
unfolding withdraw
row_any-withdraw t k e m = by_row (get Text-discrete k m) refl
  where
    by_row :
        (o : Option (List Text))
        → get Text-discrete k m ≡ o
        → not (row_any t (withdraw k e m)) || row_any t m ≡ true
    by_row none h = rw (withdraw, h) (ground arith)
    by_row (some es) h = by_rest (remove Text-discrete e es) refl (Text-discrete k t)
      where
        by_rest :
            (rest : List Text)
            → remove Text-discrete e es ≡ rest
            → Dec (k ≡ t)
            → not (row_any t (withdraw k e m)) || row_any t m ≡ true
        by_rest [] f d = rw (withdraw, h, f) (ground (arith, get-delete Text-discrete t k m))
        by_rest (x ∷ xs) f (no n) =
            rw (withdraw, h, f) (ground (arith, get-set Text-discrete t k (x ∷ xs) m))
        by_rest (x ∷ xs) f (yes q) = rw (sym q, h) (ground (arith, removed e es x xs f))

module _ (lost : List Text) (t : Text) where
  request-Covers :
      (k : Text) (p : Provider)
      → p.subscriber && p.started ≡ true
      → Covers lost p t
      → Covers lost (request (channel_of p.key_prefix k) p) t
  unfolding request subscribe_with_retry
  request-Covers k p up c = ground (
    arith,
    contains-add Text-discrete (channel_of p.key_prefix t) (channel_of p.key_prefix k)
        p.pending_subscriptions,
  )

  request_own :
      (p : Provider)
      → p.subscriber && p.started ≡ true
      → Covers lost (request (channel_of p.key_prefix t) p) t
  unfolding request subscribe_with_retry
  request_own p up = ground (
    arith,
    contains-add Text-discrete (channel_of p.key_prefix t) (channel_of p.key_prefix t)
        p.pending_subscriptions,
  )

  tracked-Covers :
      (ch : Text) (p : Provider) → Covers lost p t → Covers lost (unsubscribe_tracked ch p) t
  unfolding unsubscribe_tracked
  tracked-Covers ch p c =
      ground
        (arith, contains-add Text-discrete (channel_of p.key_prefix t) ch p.pending_unsubscriptions)

  pub subscribed-Covers :
      (socket k : Text) (p : Provider)
      → p.subscriber && p.started ≡ true
      → Covers lost p t
      → Covers lost (subscribed socket k p) t
  unfolding subscribed subscribe_channel request subscribe_with_retry
  subscribed-Covers socket k p up c = ground (
    arith,
    same-channel_of p.key_prefix k t,
    row_any-insert t k socket p.local_subscriptions,
    contains-add Text-discrete (channel_of p.key_prefix t) (channel_of p.key_prefix k)
        p.pending_subscriptions,
    get-set Text-discrete (channel_of p.key_prefix t) (channel_of p.key_prefix k) k
        p.pending_resubscribe,
  )

  release-Covers :
      (k : Text) (p : Provider)
      → wanted k p ≡ false
      → Covers lost p t
      → Covers lost (release (channel_of p.key_prefix k) p) t
  unfolding release unsubscribe_tracked
  release-Covers k p w c = elim (Text-discrete k t) [
    | yes e ↦ ground (arith, ap (λ u. wanted u p) e)
    | no n ↦ ground (
      arith,
      same-channel_of p.key_prefix k t,
      contains-remove Text-discrete (channel_of p.key_prefix t) (channel_of p.key_prefix k)
          p.redis_subscriptions,
      contains-add Text-discrete (channel_of p.key_prefix t) (channel_of p.key_prefix k)
          p.pending_unsubscriptions,
    )
  ]

  pub leave_topic-Covers :
      (socket k : Text) (p : Provider) → Covers lost p t → Covers lost (leave_topic socket k p) t
  unfolding leave_topic
  leave_topic-Covers socket k p c =
      by_test (JsMap.has Text-discrete k p.local_subscriptions && not (wanted k p')) refl
    where
      p' : Provider
      p' = record p { local_subscriptions = withdraw k socket p.local_subscriptions }

      left : Covers lost p' t
      left = ground (arith, row_any-withdraw t k socket p.local_subscriptions)

      by_test :
          (b : Bool)
          → JsMap.has Text-discrete k p.local_subscriptions && not (wanted k p') ≡ b
          → Covers lost (leave_topic socket k p) t
      by_test true e = rw (leave_topic, e) (release-Covers k p' (ground arith) left)
      by_test false e = rw (leave_topic, e) left

  pub on_subscribed-Covers :
      (ch : Text) (p : Provider) → Covers lost p t → Covers lost (on_subscribed ch p) t
  unfolding on_subscribed unsubscribe_tracked
  on_subscribed-Covers ch p c = elim (Text-discrete ch (channel_of p.key_prefix t)) [
    | yes e ↦ ground (
      arith,
      ap (topic_of p.key_prefix) e,
      topic_of-channel_of p.key_prefix t,
      contains-add Text-discrete (channel_of p.key_prefix t) ch p.redis_subscriptions,
    )
    | no n ↦ ground (
      arith,
      contains-remove Text-discrete (channel_of p.key_prefix t) ch p.pending_subscriptions,
      contains-add Text-discrete (channel_of p.key_prefix t) ch p.redis_subscriptions,
      contains-add Text-discrete (channel_of p.key_prefix t) ch p.pending_unsubscriptions,
    )
  ]

  pub on_subscribe_failed-Covers :
      (ch : Text) (attempt : ℕ) (p : Provider)
      → Covers lost p t
      → Covers
          (if ltb attempt max_retries then lost else ch ∷ lost)
          (on_subscribe_failed ch attempt p)
          t
  unfolding on_subscribe_failed contains
  on_subscribe_failed-Covers ch attempt p c =
      ground (
        arith,
        contains-remove Text-discrete (channel_of p.key_prefix t) ch p.pending_subscriptions,
      )

  pub on_unsubscribed-Covers :
      (ch : Text) (p : Provider)
      → p.subscriber && p.started ≡ true
      → ((k : Text)
          → get Text-discrete ch p.pending_resubscribe ≡ some k
          → ch ≡ channel_of p.key_prefix k)
      → Covers lost p t
      → Covers lost (on_unsubscribed ch p) t
  unfolding on_unsubscribed request subscribe_with_retry
  on_unsubscribed-Covers ch p up named c =
      by_topic (get Text-discrete ch p.pending_resubscribe) refl
    where
      by_topic :
          (o : Option Text)
          → get Text-discrete ch p.pending_resubscribe ≡ o
          → Covers lost (on_unsubscribed ch p) t
      by_topic none e = elim (Text-discrete ch (channel_of p.key_prefix t)) [
        | yes q ↦ ground (
          arith,
          e,
          ap (λ u. get Text-discrete u p.pending_resubscribe) q,
          contains-remove Text-discrete (channel_of p.key_prefix t) ch p.pending_unsubscriptions,
        )
        | no n ↦ ground (
          arith,
          e,
          contains-remove Text-discrete (channel_of p.key_prefix t) ch p.pending_unsubscriptions,
        )
      ]
      by_topic (some k) e = elim (Text-discrete k t) [
        | yes q ↦ ground (
          arith,
          e,
          named k e,
          ap (λ u. wanted u p) q,
          ap (channel_of p.key_prefix) q,
          contains-add Text-discrete (channel_of p.key_prefix t) ch p.pending_subscriptions,
        )
        | no n ↦ ground (
          arith,
          e,
          named k e,
          same-channel_of p.key_prefix k t,
          ap (λ u. holds (Text-discrete u (channel_of p.key_prefix t))) (named k e),
          contains-add Text-discrete (channel_of p.key_prefix t) ch p.pending_subscriptions,
          get-delete Text-discrete (channel_of p.key_prefix t) ch p.pending_resubscribe,
          contains-remove Text-discrete (channel_of p.key_prefix t) ch p.pending_unsubscriptions,
        )
      ]
