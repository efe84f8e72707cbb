-- ===== src/SocketClient/Calls.antt =====
-- The methods of `SocketClient` that its user calls, and those that they share with the handlers.
use orijs.Common.{
  suc, Bool, true, false, ◌&&◌, none, some, List, [], ◌∷◌, ◌++◌, String, String-discrete,
  ℕ_discrete, ◌||◌, ltb, is_some, if◌then◌else◌,
}
use orijs.JsMap.{add, remove}
use orijs.SocketClient.State.{
  disconnected, connecting, is_connected_state, is_connecting, connection_timeout, Frame, join,
  leave, failed, not_created, Client, notify, set_state, arm, clear_connection_timeout,
  clear_backoff_timer, clear_reconnect_timer, stop_heartbeat, close_socket, transmit,
}

module _ {M : Type 0} where
  unfoldable pub is_connected : Client M → Bool
  is_connected c = is_connected_state c.state

  -- What `connect` does once a socket is there.
  unfoldable pub await_open : Client M → Client M
  await_open c =
      if ltb 0 c.options.connection_ms
      then record (arm connection_timeout c) { connection_timer = some c.next_timer }
      else c

  unfoldable pub new_socket : Client M → Client M
  new_socket c = record c {
    ws = some c.next;
    opening = add ℕ_discrete c.next c.opening;
    next = suc c.next;
  }

  -- `created` says whether `new WebSocket(url)` returns.
  unfoldable pub connect : Bool → Client M → Client M
  connect created c =
      if is_connected_state c.state || is_connecting c.state
      then c
      else (let c' =
            set_state connecting (record c { skip_reconnect = false; went_offline = false }) in
          if created
          then await_open (new_socket c')
          else notify (failed not_created) (set_state disconnected c'))

  unfoldable pub disconnect : Client M → Client M
  disconnect c =
      let c' = stop_heartbeat (
        clear_connection_timeout (
          clear_backoff_timer (
            clear_reconnect_timer
              (record c { skip_reconnect = true; is_reconnecting = false })))) in
      let c'' = close_socket c'.ws (record c' { buffer = [] }) in
      set_state disconnected (record c'' { ws = none })

  unfoldable pub destroy : Client M → Client M
  destroy c = record (disconnect c) { listening = false }

  -- What `send`, `emit` and `sendRaw` have in common; `true` is an error thrown.
  unfoldable pub send : Frame M → Bool → Client M → Bool × Client M
  send frame buffered c =
      if is_connected c && is_some c.ws
      then (false, transmit c.ws frame c)
      else (if buffered then (false, record c { buffer = c.buffer ++ frame ∷ [] }) else (true, c))

  unfoldable pub join_room : String → Client M → Client M
  join_room room c =
      let c' = record c { rooms = add String-discrete room c.rooms } in
      if is_connected c' then (send (join room) true c').1 else c'

  unfoldable pub leave_room : String → Client M → Client M
  leave_room room c =
      let c' = record c { rooms = remove String-discrete room c.rooms } in
      if is_connected c' then (send (leave room) true c').1 else c'

  unfoldable pub clear_rooms : Client M → Client M
  clear_rooms c = record c { rooms = [] }

  -- the loop of `rejoinRooms`
  unfoldable pub rejoin : List String → Client M → Client M
  rejoin [] c = c
  rejoin (room ∷ rooms) c = rejoin rooms (send (join room) true c).1

  unfoldable pub transmit_all : List (Frame M) → Client M → Client M
  transmit_all [] c = c
  transmit_all (frame ∷ frames) c = transmit_all frames (transmit c.ws frame c)

  unfoldable pub flush_send_buffer : Client M → Client M
  flush_send_buffer c =
      if is_connected c then transmit_all c.buffer (record c { buffer = [] }) else c
