-- ===== src/SocketClient/Events/Delivery.antt =====
-- What a client transmits when its socket opens.
use orijs.Common.{
  ℕ, ◌≡◌, refl, sym, ap, ◌∙◌, true, false, some, List, [], ◌∷◌, ◌++◌, map, String, ℕ_discrete,
  arith, if◌then◌else◌,
}
use orijs.JsMap.{contains, add, remove}
use orijs.SocketClient.State.{
  disconnected, connecting, connected, reconnecting, is_connected_state, ConnectionState,
  backoff_reset, Frame, join, Client, notify, set_state, arm, clear_connection_timeout,
  stop_heartbeat, start_heartbeat, transmit,
}
use orijs.SocketClient.Calls.{is_connected, send, rejoin, transmit_all, flush_send_buffer}
use orijs.SocketClient.Events.{on_open}
use mathlib.Core.List.{append-nil, append_assoc, map-append}
use orijs.JsMap.Laws.{contains-add}

abbrev pub frames_on : {M : Type 0} → ℕ → List (Frame M) → List (ℕ × Frame M)
frames_on i fs = map (λ f. (i, f)) fs

added : (i : ℕ) (is : List ℕ) → contains ℕ_discrete i (add ℕ_discrete i is) ≡ true
added i is = ground (arith, contains-add ℕ_discrete i i is)

-- The client is connected by the open socket `i`.
record Ready {M : Type 0} (i : ℕ) (c : Client M) : Type 0 where
  up : c.state ≡ connected
  own : c.ws ≡ some i
  is_open : contains ℕ_discrete i c.opened ≡ true

module _ {M : Type 0} where
  abbrev after : Client M → List (ℕ × Frame M) → Client M
  after c xs = record c { sent = c.sent ++ xs }

  after-nil : (c : Client M) → c ≡ after c []
  after-nil c = ap (λ l. record c { sent = l }) (sym (append-nil c.sent))

  after-after :
      (c : Client M) (xs ys : List (ℕ × Frame M)) → after (after c xs) ys ≡ after c (xs ++ ys)
  after-after c xs ys = ap (λ l. record c { sent = l }) (append_assoc c.sent xs ys)

  module _ (i : ℕ) where
    after-Ready : (c : Client M) (xs : List (ℕ × Frame M)) → Ready i c → Ready i (after c xs)
    after-Ready c xs r = record { up = r.up; own = r.own; is_open = r.is_open }

    send-Ready :
        (f : Frame M) (c : Client M) → Ready i c → (send f true c).1 ≡ after c ((i, f) ∷ [])
    unfolding send is_connected transmit
    send-Ready f c r = rw (send, is_connected, r.up, r.own, transmit, r.is_open)

    rejoin-Ready :
        (rooms : List String) (c : Client M)
        → Ready i c
        → rejoin rooms c ≡ after c (frames_on i (map join rooms))
    unfolding rejoin
    rejoin-Ready [] c r = after-nil c
    rejoin-Ready (room ∷ rooms) c r =
        ap (rejoin rooms) (send-Ready (join room) c r)
        ∙ rejoin-Ready rooms (after c ((i, join room) ∷ [])) (after-Ready c ((i, join room) ∷ []) r)
        ∙ after-after c ((i, join room) ∷ []) (frames_on i (map join rooms))

    transmit-Ready :
        (f : Frame M) (c : Client M) → Ready i c → transmit c.ws f c ≡ after c ((i, f) ∷ [])
    unfolding transmit
    transmit-Ready f c r = rw (r.own, transmit, r.is_open)

    transmit_all-Ready :
        (fs : List (Frame M)) (c : Client M)
        → Ready i c
        → transmit_all fs c ≡ after c (frames_on i fs)
    unfolding transmit_all
    transmit_all-Ready [] c r = after-nil c
    transmit_all-Ready (f ∷ fs) c r =
        ap (transmit_all fs) (transmit-Ready f c r)
        ∙ transmit_all-Ready fs (after c ((i, f) ∷ [])) (after-Ready c ((i, f) ∷ []) r)
        ∙ after-after c ((i, f) ∷ []) (frames_on i fs)

    flush-Ready :
        (c : Client M)
        → Ready i c
        → flush_send_buffer c ≡ after (record c { buffer = [] }) (frames_on i c.buffer)
    unfolding flush_send_buffer is_connected
    flush-Ready c r =
        ap
          (λ s.
            if is_connected_state s then transmit_all c.buffer (record c { buffer = [] }) else c)
          r.up
        ∙ transmit_all-Ready c.buffer (record c { buffer = [] })
            (record { up = r.up; own = r.own; is_open = r.is_open })

    in_order :
        (s s' : List (ℕ × Frame M)) (r r' : List String) (b b' : List (Frame M))
        → s ≡ s'
        → r ≡ r'
        → b ≡ b'
        → (s ++ frames_on i (map join r)) ++ frames_on i b ≡ s' ++ frames_on i (map join r' ++ b')
    in_order s s' r r' b b' p q e = rw (p, q, e) (simp (map-append, append_assoc))

  -- What `start_heartbeat` leaves alone.
  start_heartbeat-facts :
      (c : Client M)
      → ((start_heartbeat c).state ≡ c.state)
        × ((start_heartbeat c).ws ≡ c.ws)
        × ((start_heartbeat c).opened ≡ c.opened)
        × ((start_heartbeat c).rooms ≡ c.rooms)
        × ((start_heartbeat c).buffer ≡ c.buffer)
        × ((start_heartbeat c).sent ≡ c.sent)
  unfolding start_heartbeat stop_heartbeat arm
  start_heartbeat-facts c = ground arith

  set_state-facts :
      (c : Client M)
      → ((set_state connected c).state ≡ connected)
        × ((set_state connected c).ws ≡ c.ws)
        × ((set_state connected c).opened ≡ c.opened)
        × ((set_state connected c).rooms ≡ c.rooms)
        × ((set_state connected c).buffer ≡ c.buffer)
        × ((set_state connected c).sent ≡ c.sent)
  unfolding set_state
  set_state-facts c = by_state c.state refl
    where
      by_state :
          (s : ConnectionState)
          → c.state ≡ s
          → ((set_state connected c).state ≡ connected)
            × ((set_state connected c).ws ≡ c.ws)
            × ((set_state connected c).opened ≡ c.opened)
            × ((set_state connected c).rooms ≡ c.rooms)
            × ((set_state connected c).buffer ≡ c.buffer)
            × ((set_state connected c).sent ≡ c.sent)
      by_state disconnected e = ground arith
      by_state connecting e = ground arith
      by_state connected e = ground arith
      by_state reconnecting e = ground arith

  -- When the client's own socket opens, the client is connected, and it has transmitted on the socket
  -- first a request to join each of its rooms and then every message that was waiting, in the order in
  -- which they were sent; nothing is waiting any more.
  open_delivers :
      (i : ℕ) (c : Client M)
      → c.ws ≡ some i
      → ((on_open i c).state ≡ connected)
        × ((on_open i c).buffer ≡ [])
        × ((on_open i c).sent ≡ c.sent ++ frames_on i (map join c.rooms ++ c.buffer))
  unfolding on_open clear_connection_timeout arm notify
  open_delivers i c w =
      rw (on_open, flushed)
        (
          hb.0 ∙ ss.0,
          refl,
          in_order i c4.sent c.sent c4.rooms c.rooms c4.buffer c.buffer (hb.5 ∙ ss.5) (hb.3 ∙ ss.3)
              (hb.4 ∙ ss.4),
        )
    where
      c1 : Client M
      c1 = record (clear_connection_timeout c) {
        opening = remove ℕ_discrete i c.opening;
        opened = add ℕ_discrete i c.opened;
      }

      c2 : Client M
      c2 = record (set_state connected c1) { is_reconnecting = false }

      c3 : Client M
      c3 = record (arm backoff_reset c2) { backoff_timer = some c2.next_timer }

      c4 : Client M
      c4 = start_heartbeat c3

      ss :
          ((set_state connected c1).state ≡ connected)
          × ((set_state connected c1).ws ≡ c1.ws)
          × ((set_state connected c1).opened ≡ c1.opened)
          × ((set_state connected c1).rooms ≡ c1.rooms)
          × ((set_state connected c1).buffer ≡ c1.buffer)
          × ((set_state connected c1).sent ≡ c1.sent)
      ss = set_state-facts c1

      hb :
          (c4.state ≡ c3.state)
          × (c4.ws ≡ c3.ws)
          × (c4.opened ≡ c3.opened)
          × (c4.rooms ≡ c3.rooms)
          × (c4.buffer ≡ c3.buffer)
          × (c4.sent ≡ c3.sent)
      hb = start_heartbeat-facts c3

      ready : Ready i c4
      ready = record {
        up = hb.0 ∙ ss.0;
        own = hb.1 ∙ ss.1 ∙ w;
        is_open = ap (contains ℕ_discrete i) (hb.2 ∙ ss.2) ∙ added i c.opened;
      }

      flushed :
          flush_send_buffer (rejoin c4.rooms c4)
          ≡ after
              (record (after c4 (frames_on i (map join c4.rooms))) { buffer = [] })
              (frames_on i c4.buffer)
      flushed =
          ap flush_send_buffer (rejoin-Ready i c4.rooms c4 ready)
          ∙ flush-Ready i (after c4 (frames_on i (map join c4.rooms)))
              (after-Ready i c4 (frames_on i (map join c4.rooms)) ready)
