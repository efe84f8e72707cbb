-- ===== src/Websocket/Subscriptions.antt =====
-- The two indices of the in-process provider are one relation between sockets and topics.
use orijs.Common.{
  ◌≡◌, refl, ap, inl, inr, Bool, true, false, not, ◌&&◌, Option, none, some, List, [], ◌∷◌, arith,
  if◌then◌else◌, is_some, holds, Option-cases,
}
use orijs.JsMap.{JsMap, get, delete, contains, add, remove}
use orijs.JsMap.Laws.{get-set, get-delete, contains-add, contains-remove}
use orijs.Websocket.{
  guarded, publish_to, socket_topic, either_error, Text, Text-discrete, Provider, validate_topic,
  validate_socket_id, insert, withdraw, start, stop, publish, send, subscribe, subscribed,
  unsubscribe, unsubscribed, disconnect, disconnected, WsError, keep_if_any, last_topic,
}
use orijs.Websocket.Indices.{
  row, related, same, related-insert, related-withdraw, related-withdraw_all,
}

related-delete :
    (s t socket : Text) (m : JsMap Text (List Text))
    → related s t (delete Text-discrete socket m) ≡ not (same socket s) && related s t m
unfolding contains
related-delete s t socket m = ground (arith, get-delete Text-discrete s socket m)

pub same-related :
    (s t socket : Text) (m : JsMap Text (List Text)) (d : Dec (socket ≡ s))
    → holds d && related socket t m ≡ holds d && related s t m
same-related s t socket m (yes e) = ap (λ u. related u t m) e
same-related s t socket m (no n) = refl

module _ (s socket topic : Text) (m : JsMap Text (List Text)) where
  has-keep :
      (es : List Text)
      → is_some (get Text-discrete s (keep_if_any socket es m)) ≡ (
          if same socket s
          then (elim es [ [] ↦ false | x ∷ xs ↦ true ])
          else is_some (get Text-discrete s m))
  has-keep [] = ground (arith, get-delete Text-discrete s socket m)
  has-keep (x ∷ xs) = ground (arith, get-set Text-discrete s socket (x ∷ xs) m)

  same-has :
      (d : Dec (socket ≡ s))
      → holds d && is_some (get Text-discrete socket m) ≡ holds d && is_some (get Text-discrete s m)
  same-has (yes e) = ap (λ u. is_some (get Text-discrete u m)) e
  same-has (no n) = refl

  has-withdraw-row :
      (o : Option (List Text))
      → get Text-discrete socket m ≡ o
      → is_some (get Text-discrete s (withdraw socket topic m))
        ≡ is_some (get Text-discrete s m) && not (last_topic topic o && same socket s)
  unfolding withdraw
  has-withdraw-row none h = rw (withdraw, h) (ground arith)
  has-withdraw-row (some es) h = kept (remove Text-discrete topic es) refl
    where
      kept :
          (xs : List Text)
          → remove Text-discrete topic es ≡ xs
          → is_some (get Text-discrete s (withdraw socket topic m))
            ≡ is_some (get Text-discrete s m) && not (last_topic topic (some es) && same socket s)
      kept [] e =
          rw (withdraw, h, e) (ground (arith, has-keep [], same-has (Text-discrete socket s)))
      kept (x ∷ xs) e =
          rw (withdraw, h, e) (ground (arith, has-keep (x ∷ xs), same-has (Text-discrete socket s)))

  has-withdraw :
      is_some (get Text-discrete s (withdraw socket topic m))
      ≡ is_some (get Text-discrete s m)
        && not (last_topic topic (get Text-discrete socket m) && same socket s)
  has-withdraw = has-withdraw-row (get Text-discrete socket m) refl

-- A call of the provider, errors included.
pub data Call (M : Type 0) : Type 0 where
  subscribing unsubscribing : Text → Text → Call M
  disconnecting : Text → Call M
  publishing sending : Text → M → Call M
  starting stopping : Call M

module _ {M : Type 0} where
  -- `started` aside, the provider as it is constructed.
  unfoldable pub new : Provider M
  new = record {
    server = none;
    started = false;
    local_subscriptions = [];
    socket_topics = [];
    connected_sockets = [];
  }

  pub record Agrees (p : Provider M) : Type 0 where
    pub indices :
        (socket topic : Text)
        → related topic socket p.local_subscriptions ≡ related socket topic p.socket_topics
    pub connected :
        (socket : Text)
        → contains Text-discrete socket p.connected_sockets
          ≡ is_some (get Text-discrete socket p.socket_topics)

  subscribed-Agrees :
      (socket topic : Text) (p : Provider M) → Agrees p → Agrees (subscribed socket topic p)
  unfolding subscribed insert
  subscribed-Agrees socket topic p h = record {
    indices = λ s t. ground (
      arith,
      related-insert t s topic socket p.local_subscriptions,
      related-insert s t socket topic p.socket_topics,
      h.indices s t,
    );
    connected = λ s. ground (
      arith,
      h.connected s,
      contains-add Text-discrete s socket p.connected_sockets,
      get-set Text-discrete s socket (add Text-discrete topic (row socket p.socket_topics))
          p.socket_topics,
    );
  }

  unsubscribed-Agrees :
      (socket topic : Text) (p : Provider M) → Agrees p → Agrees (unsubscribed socket topic p)
  unfolding unsubscribed withdraw
  unsubscribed-Agrees socket topic p h = record {
    indices = λ s t. ground (
      arith,
      related-withdraw t s topic socket p.local_subscriptions,
      related-withdraw s t socket topic p.socket_topics,
      h.indices s t,
    );
    connected = λ s. ground (
      arith,
      h.connected s,
      contains-remove Text-discrete s socket p.connected_sockets,
      has-withdraw s socket topic p.socket_topics,
    );
  }

  disconnected-Agrees : (socket : Text) (p : Provider M) → Agrees p → Agrees (disconnected socket p)
  unfolding disconnected
  disconnected-Agrees socket p h = record {
    indices = λ s t. ground (
      arith,
      related-withdraw_all t s (row socket p.socket_topics) socket p.local_subscriptions,
      related-delete s t socket p.socket_topics,
      same-related s t socket p.socket_topics (Text-discrete socket s),
      h.indices s t,
    );
    connected = λ s. ground (
      arith,
      h.connected s,
      contains-remove Text-discrete s socket p.connected_sockets,
      get-delete Text-discrete s socket p.socket_topics,
    );
  }

  unfoldable pub apply : Call M → Provider M → Provider M
  apply (subscribing s t) p = (subscribe s t p).1
  apply (unsubscribing s t) p = (unsubscribe s t p).1
  apply (disconnecting s) p = (disconnect s p).1
  apply (publishing t message) p = (publish t message p).1
  apply (sending s message) p = (send s message p).1
  apply starting p = start p
  apply stopping p = stop p

  unfoldable pub apply_all : List (Call M) → Provider M → Provider M
  apply_all [] p = p
  apply_all (c ∷ cs) p = apply_all cs (apply c p)

  -- Neither index nor the connected sockets differ.
  abbrev pub Keeps : Provider M → Provider M → Type 0
  Keeps p q =
      (q.local_subscriptions ≡ p.local_subscriptions)
      × (q.socket_topics ≡ p.socket_topics)
      × (q.connected_sockets ≡ p.connected_sockets)

  Keeps-Agrees : (p q : Provider M) → Keeps p q → Agrees p → Agrees q
  Keeps-Agrees p q k h = record {
    indices = λ s t. rw (k.0, k.1) (h.indices s t);
    connected = λ s. rw (k.1, k.2) (h.connected s);
  }

  pub publish-Keeps :
      (topic : Text) (message : M) (p : Provider M) → Keeps p (publish topic message p).1
  unfolding publish
  publish-Keeps topic message p = elim (Option-cases (validate_topic topic)) [
    | inr (x, e) ↦ rw (publish, e) (refl, refl, refl)
    | inl e ↦ rw (publish, e) (to p.server)
  ]
    where
      to : (o : Option (List (Text × M))) → Keeps p (publish_to o topic message p).1
      to none = (refl, refl, refl)
      to (some server) = (refl, refl, refl)

  pub send-Keeps :
      (socket : Text) (message : M) (p : Provider M) → Keeps p (send socket message p).1
  unfolding send
  send-Keeps socket message p = elim (Option-cases (validate_socket_id socket)) [
    | inr (x, e) ↦ rw (send, e) (refl, refl, refl)
    | inl e ↦ rw (send, e) (publish-Keeps (socket_topic socket) message p)
  ]

  guarded-Agrees :
      (e : Option WsError) (q p : Provider M) → Agrees q → Agrees p → Agrees (guarded e q p).1
  guarded-Agrees none q p h k = h
  guarded-Agrees (some e) q p h k = k

  stop-Agrees : (b : Bool) (p q : Provider M) → Agrees p → Agrees q → Agrees (if b then q else p)
  stop-Agrees true p q h k = k
  stop-Agrees false p q h k = h

  apply-Agrees : (c : Call M) (p : Provider M) → Agrees p → Agrees (apply c p)
  unfolding apply subscribe unsubscribe disconnect start stop get contains
  apply-Agrees (subscribing s t) p h =
      guarded-Agrees (either_error (validate_socket_id s) (validate_topic t)) (subscribed s t p) p
        (subscribed-Agrees s t p h) h
  apply-Agrees (unsubscribing s t) p h =
      guarded-Agrees (either_error (validate_socket_id s) (validate_topic t)) (unsubscribed s t p) p
        (unsubscribed-Agrees s t p h) h
  apply-Agrees (disconnecting s) p h =
      guarded-Agrees (validate_socket_id s) (disconnected s p) p (disconnected-Agrees s p h) h
  apply-Agrees (publishing t message) p h =
      Keeps-Agrees p (publish t message p).1 (publish-Keeps t message p) h
  apply-Agrees (sending s message) p h =
      Keeps-Agrees p (send s message p).1 (send-Keeps s message p) h
  apply-Agrees starting p h =
      stop-Agrees p.started (record p { started = true }) p
        (record { indices = h.indices; connected = h.connected }) h
  apply-Agrees stopping p h =
      stop-Agrees p.started p emptied h (record { indices = λ s t. refl; connected = λ s. refl })
    where
      emptied : Provider M
      emptied = record {
        server = none;
        started = false;
        local_subscriptions = [];
        socket_topics = [];
        connected_sockets = [];
      }

  apply_all-Agrees : (cs : List (Call M)) (p : Provider M) → Agrees p → Agrees (apply_all cs p)
  unfolding apply_all
  apply_all-Agrees [] p h = h
  apply_all-Agrees (c ∷ cs) p h = apply_all-Agrees cs (apply c p) (apply-Agrees c p h)

  -- Whatever the provider has been called with, the two indices say the same of every socket and
  -- topic, and the connected sockets are those that the reverse index has an entry for.
  indices_agree : (cs : List (Call M)) → Agrees (apply_all cs new)
  unfolding new get contains
  indices_agree cs =
      apply_all-Agrees cs new (record { indices = λ s t. refl; connected = λ s. refl })
