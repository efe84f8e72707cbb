-- ===== src/Websocket/Contract.antt =====
-- What the calls of the in-process provider do to the relation between sockets and topics.
use orijs.Common.{◌≡◌, refl, ap, Bool, true, false, not, ◌&&◌, ◌||◌, Option, arith, is_some}
use orijs.JsMap.{get, contains}
use orijs.Websocket.{
  Text, Text-discrete, Provider, validate_topic, validate_socket_id, start, stop, subscribe,
  subscribed, unsubscribe, unsubscribed, disconnect, disconnected, WsError,
}
use orijs.Websocket.Indices.{
  row, related, same, related-insert, related-withdraw, related-withdraw_all,
}
use orijs.Websocket.Subscriptions.{
  Call, subscribing, unsubscribing, disconnecting, publishing, sending, starting, stopping, apply,
  Agrees, same-related, publish-Keeps, send-Keeps,
}

-- Whether a socket is subscribed to a topic after a call, from whether it was before: what the
-- interface promises, with no index in it.
abbrev is_ok : Option WsError → Bool
is_ok e = not (is_some e)

unfoldable pub promised : {M : Type 0} → Bool → Call M → Text → Text → Bool → Bool
promised started (subscribing s t) socket topic before =
    before
    || (is_ok (validate_socket_id s) && is_ok (validate_topic t) && same s socket && same t topic)
promised started (unsubscribing s t) socket topic before =
    before
    && not
        (is_ok (validate_socket_id s) && is_ok (validate_topic t) && same s socket && same t topic)
promised started (disconnecting s) socket topic before =
    before && not (is_ok (validate_socket_id s) && same s socket)
promised started (publishing t message) socket topic before = before
promised started (sending s message) socket topic before = before
promised started starting socket topic before = before
promised started stopping socket topic before = before && not started

module _ {M : Type 0} where
  stopping-promised :
      (b : Bool) (p : Provider M) (socket topic : Text)
      → p.started ≡ b
      → related topic socket (stop p).local_subscriptions
        ≡ related topic socket p.local_subscriptions && not b
  unfolding stop get contains
  stopping-promised true p socket topic e = rw (stop, e) (ground arith)
  stopping-promised false p socket topic e = rw (stop, e) (ground arith)

  -- Each call, refused ones included, changes the subscriptions the way the interface promises, of
  -- every socket and topic and no other way.
  pub apply-promised :
      (c : Call M) (p : Provider M) (socket topic : Text)
      → Agrees p
      → related topic socket (apply c p).local_subscriptions
        ≡ promised p.started c socket topic (related topic socket p.local_subscriptions)
  unfolding apply subscribe unsubscribe disconnect start stop promised subscribed unsubscribed
      disconnected contains
  apply-promised (subscribing s t) p socket topic h =
      ground (arith, related-insert topic socket t s p.local_subscriptions)
  apply-promised (unsubscribing s t) p socket topic h =
      ground (arith, related-withdraw topic socket t s p.local_subscriptions)
  apply-promised (disconnecting s) p socket topic h = ground (
    arith,
    related-withdraw_all topic socket (row s p.socket_topics) s p.local_subscriptions,
    same-related socket topic s p.socket_topics (Text-discrete s socket),
    h.indices socket topic,
  )
  apply-promised (publishing t message) p socket topic h =
      ap (related topic socket) (publish-Keeps t message p).0
  apply-promised (sending s message) p socket topic h =
      ap (related topic socket) (send-Keeps s message p).0
  apply-promised starting p socket topic h = ground arith
  apply-promised stopping p socket topic h = stopping-promised p.started p socket topic refl
