-- ===== src/SocketClient/Events/Stale.antt =====
-- What the close event of a socket that the client has given up does to the socket that it has now.
use orijs.Common.{ℕ, ◌<◌, ◌≡◌, refl, ◌∙◌, Bool, true, false, Option, none, some, ℕ_discrete, arith}
use orijs.JsMap.{contains, add, remove}
use orijs.SocketClient.State.{
  disconnected, connecting, connected, reconnecting, is_connecting, ConnectionState, Client, notify,
  set_state, arm, clear_connection_timeout, clear_backoff_timer, clear_reconnect_timer,
  stop_heartbeat, close_socket,
}
use orijs.SocketClient.Calls.{await_open, new_socket, connect, disconnect}
use orijs.SocketClient.Events.{schedule_reconnect, maybe_reconnect, on_close}
use orijs.JsMap.Laws.{contains-add, contains-remove}

module _ {M : Type 0} where
  set_state-down : (c : Client M) → (set_state disconnected c).state ≡ disconnected
  unfolding set_state
  set_state-down c = by_state c.state refl
    where
      by_state :
          (s : ConnectionState) → c.state ≡ s → (set_state disconnected c).state ≡ disconnected
      by_state disconnected e = ground arith
      by_state connecting e = ground arith
      by_state connected e = ground arith
      by_state reconnecting e = ground arith

  close_socket-next : (ws : Option ℕ) (c : Client M) → (close_socket ws c).next ≡ c.next
  unfolding close_socket
  close_socket-next none c = refl
  close_socket-next (some i) c = refl

  set_state-next : (s : ConnectionState) (c : Client M) → (set_state s c).next ≡ c.next
  unfolding set_state
  set_state-next s c = ground arith

  disconnect-next : (c : Client M) → (disconnect c).next ≡ c.next
  unfolding disconnect stop_heartbeat clear_connection_timeout clear_backoff_timer
      clear_reconnect_timer
  disconnect-next c = set_state-next disconnected _ ∙ close_socket-next c.ws _

  disconnect-down : (c : Client M) → (disconnect c).state ≡ disconnected
  unfolding disconnect
  disconnect-down c = set_state-down _

  connect-opening :
      (c : Client M)
      → c.state ≡ disconnected
      → (connect true c).opening ≡ add ℕ_discrete c.next c.opening
  unfolding connect new_socket await_open arm set_state
  connect-opening c e = ground arith

  on_close-facts :
      (i code : ℕ) (on_line : Bool) (c : Client M)
      → ((on_close i code on_line c).ws ≡ none)
        × ((on_close i code on_line c).opening ≡ remove ℕ_discrete i c.opening)
  unfolding on_close maybe_reconnect schedule_reconnect stop_heartbeat clear_connection_timeout
      clear_backoff_timer set_state notify arm
  on_close-facts i code on_line c = ground arith

  on_close-not_connecting :
      (i code : ℕ) (on_line : Bool) (c : Client M)
      → is_connecting (on_close i code on_line c).state ≡ false
  unfolding on_close maybe_reconnect schedule_reconnect stop_heartbeat clear_connection_timeout
      clear_backoff_timer set_state notify arm
  on_close-not_connecting i code on_line c = by_state c.state refl
    where
      by_state :
          (s : ConnectionState)
          → c.state ≡ s
          → is_connecting (on_close i code on_line c).state ≡ false
      by_state disconnected e = ground arith
      by_state connecting e = ground arith
      by_state connected e = ground arith
      by_state reconnecting e = ground arith

  -- A call of `disconnect`, then one of `connect`, then the close event of the socket that the first
  -- one closed: the client is left without a socket and not connecting, although the socket that
  -- `connect` made is still about to open.
  pub stale_close_drops_socket :
      (i code : ℕ) (on_line : Bool) (c : Client M)
      → i < c.next
      → ((on_close i code on_line (connect true (disconnect c))).ws ≡ none)
        × (is_connecting (on_close i code on_line (connect true (disconnect c))).state ≡ false)
        × (contains ℕ_discrete c.next
              (on_close i code on_line (connect true (disconnect c))).opening
            ≡ true)
  stale_close_drops_socket i code on_line c l =
      (facts.0, on_close-not_connecting i code on_line d, kept)
    where
      d : Client M
      d = connect true (disconnect c)

      facts :
          ((on_close i code on_line d).ws ≡ none)
          × ((on_close i code on_line d).opening ≡ remove ℕ_discrete i d.opening)
      facts = on_close-facts i code on_line d

      kept : contains ℕ_discrete c.next (on_close i code on_line d).opening ≡ true
      kept =
          rw (facts.1, connect-opening (disconnect c) (disconnect-down c), disconnect-next c)
            (ground (
              arith,
              contains-remove ℕ_discrete c.next i (add ℕ_discrete c.next (disconnect c).opening),
              contains-add ℕ_discrete c.next c.next (disconnect c).opening,
            ))
