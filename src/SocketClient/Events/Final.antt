-- ===== src/SocketClient/Events/Final.antt =====
-- That a client which was disconnected stays so until `connect` is called again.
use orijs.Common.{
  ℕ, ◌≡◌, refl, ◌∙◌, ◌⊎◌, inl, inr, Bool, true, false, Option, none, some, List, [], ◌∷◌,
  ℕ_discrete, arith, All, Option-cases,
}
use orijs.JsMap.{get, contains, remove}
use orijs.SocketClient.State.{
  disconnected, connecting, connected, reconnecting, ConnectionState, Timer, connection_timeout,
  backoff_reset, reconnect, ping, pong_timeout, Frame, Client, notify, set_state,
  clear_connection_timeout, clear_backoff_timer, clear_reconnect_timer, stop_heartbeat,
  close_socket,
}
use orijs.SocketClient.Calls.{
  is_connected, disconnect, destroy, send, join_room, leave_room, clear_rooms,
}
use orijs.SocketClient.Events.{
  maybe_reconnect, on_close, give_up, reset_backoff, try_again, send_ping, handle_pong,
  handle_pong_timeout, run_timer, go_offline, go_online, become_visible, Event, connects,
  disconnects, destroys, clears, sends, joins, leaves, opens, closes, errs, pongs, receives, fires,
  offline, hidden, online, visible, fire, handle, handle_all,
}

abbrev pub is_connect : {M : Type 0} → Event M → Bool
is_connect (connects created) = true
is_connect _ = false

-- The only socket that may still open is the client's own.
abbrev pub OwnsOpening : {M : Type 0} → Client M → Type 0
OwnsOpening c = (c.opening ≡ []) ⊎ ((i : ℕ) × (c.ws ≡ some i) × (c.opening ≡ i ∷ []))

-- Down for good: of the sockets made so far, what was sent is all that ever will be.
record Off {M : Type 0} (n : ℕ) (l : List (ℕ × Frame M)) (c : Client M) : Type 0 where
  down : c.state ≡ disconnected
  skips : c.skip_reconnect ≡ true
  gone : c.ws ≡ none
  none_opening : c.opening ≡ []
  same_next : c.next ≡ n
  same_sent : c.sent ≡ l

module _ {M : Type 0} (n : ℕ) (l : List (ℕ × Frame M)) where
  settle-Off :
      (c : Client M)
      → c.skip_reconnect ≡ true
      → c.ws ≡ none
      → c.opening ≡ []
      → c.next ≡ n
      → c.sent ≡ l
      → Off n l (set_state disconnected c)
  unfolding set_state
  settle-Off c a b o p q = by_state c.state refl
    where
      by_state : (s : ConnectionState) → c.state ≡ s → Off n l (set_state disconnected c)
      by_state disconnected e = ground arith
      by_state connecting e = ground arith
      by_state connected e = ground arith
      by_state reconnecting e = ground arith

  close_socket-Off :
      (ws : Option ℕ) (c : Client M)
      → OwnsOpening c
      → c.ws ≡ ws
      → ((close_socket ws c).opening ≡ [])
        × ((close_socket ws c).next ≡ c.next)
        × ((close_socket ws c).sent ≡ c.sent)
        × ((close_socket ws c).skip_reconnect ≡ c.skip_reconnect)
  unfolding close_socket remove
  close_socket-Off none c (inl e) w = (e, refl, refl, refl)
  close_socket-Off none c (inr (i, e, f)) w = cc
  close_socket-Off (some j) c (inl e) w = (rw (e, remove), refl, refl, refl)
  close_socket-Off (some j) c (inr (i, e, f)) w = ground arith

  disconnect-Off : (c : Client M) → OwnsOpening c → c.next ≡ n → c.sent ≡ l → Off n l (disconnect c)
  unfolding disconnect stop_heartbeat clear_connection_timeout clear_backoff_timer
      clear_reconnect_timer
  disconnect-Off c own p q =
      settle-Off (record (close_socket c.ws quiet) { ws = none }) rest.3 refl rest.0 (rest.1 ∙ p)
        (rest.2 ∙ q)
    where
      quiet : Client M
      quiet =
          record (stop_heartbeat (
            clear_connection_timeout (
              clear_backoff_timer (
                clear_reconnect_timer
                  (record c { skip_reconnect = true; is_reconnecting = false }))))) { buffer = [] }

      rest :
          ((close_socket c.ws quiet).opening ≡ [])
          × ((close_socket c.ws quiet).next ≡ c.next)
          × ((close_socket c.ws quiet).sent ≡ c.sent)
          × ((close_socket c.ws quiet).skip_reconnect ≡ true)
      rest = close_socket-Off c.ws quiet own refl

  disconnect_again : (c : Client M) → Off n l c → Off n l (disconnect c)
  disconnect_again c o = disconnect-Off c (inl o.none_opening) o.same_next o.same_sent

  send-Off : (f : Frame M) (b : Bool) (c : Client M) → Off n l c → Off n l (send f b c).1
  unfolding send is_connected
  send-Off f b c o = ground arith

  close-Off : (i code : ℕ) (on : Bool) (c : Client M) → Off n l c → Off n l (on_close i code on c)
  unfolding on_close maybe_reconnect stop_heartbeat clear_connection_timeout clear_backoff_timer
      set_state notify remove
  close-Off i code on c o = ground arith

  run_timer-Off :
      (timer : Timer) (b : Bool) (t : ℕ) (c : Client M)
      → Off n l c
      → Off n l (run_timer timer b t c)
  unfolding run_timer give_up reset_backoff try_again send_ping handle_pong_timeout is_connected
  run_timer-Off connection_timeout b t c o = ground arith
  run_timer-Off backoff_reset b t c o = ground arith
  run_timer-Off reconnect b t c o = ground arith
  run_timer-Off ping b t c o = ground arith
  run_timer-Off pong_timeout b t c o = ground arith

  handle-Off :
      (ev : Event M) (c : Client M) → is_connect ev ≡ false → Off n l c → Off n l (handle ev c)
  unfolding handle destroy clear_rooms join_room leave_room notify handle_pong fire go_offline
      go_online become_visible contains is_connected
  handle-Off (connects b) c x o = absurd cc
  handle-Off disconnects c x o = disconnect_again c o
  handle-Off destroys c x o = ground (arith, disconnect_again c o)
  handle-Off clears c x o = ground arith
  handle-Off (sends f b) c x o = send-Off f b c o
  handle-Off (joins r) c x o = ground arith
  handle-Off (leaves r) c x o = ground arith
  handle-Off (opens i) c x o = ground arith
  handle-Off (closes i code on) c x o = close-Off i code on c o
  handle-Off errs c x o = ground arith
  handle-Off pongs c x o = ground arith
  handle-Off (receives m) c x o = ground arith
  handle-Off (fires t b) c x o = elim (Option-cases (get ℕ_discrete t c.timers)) [
    | inl e ↦ rw (fire, e) o
    | inr (timer, e) ↦ rw (fire, e) (run_timer-Off timer b t c o)
  ]
  handle-Off offline c x o = ground arith
  handle-Off hidden c x o = ground arith
  handle-Off (online b) c x o = ground arith
  handle-Off (visible b) c x o = ground arith

  handle_all-Off :
      (es : List (Event M)) (c : Client M)
      → All (λ e. is_connect e ≡ false) es
      → Off n l c
      → Off n l (handle_all es c)
  unfolding handle_all
  handle_all-Off [] c h o = o
  handle_all-Off (e ∷ es) c h o = handle_all-Off es (handle e c) h.1 (handle-Off e c h.0 o)

module _ {M : Type 0} where
  -- After `disconnect`, whatever happens except a call of `connect` (timers that fire, the network or
  -- the page coming back, late events of sockets, messages to send): the client stays disconnected
  -- and without a socket, makes no socket and transmits nothing. Of the sockets still connecting when
  -- it was disconnected, none may be any but its own.
  pub disconnect_is_final :
      (c : Client M) (es : List (Event M))
      → OwnsOpening c
      → All (λ e. is_connect e ≡ false) es
      → ((handle_all es (disconnect c)).state ≡ disconnected)
        × ((handle_all es (disconnect c)).ws ≡ none)
        × ((handle_all es (disconnect c)).next ≡ c.next)
        × ((handle_all es (disconnect c)).sent ≡ c.sent)
  disconnect_is_final c es own h = (o.down, o.gone, o.same_next, o.same_sent)
    where
      o : Off c.next c.sent (handle_all es (disconnect c))
      o =
          handle_all-Off c.next c.sent es (disconnect c) h
            (disconnect-Off c.next c.sent c own refl refl)
