-- ===== src/SocketClient/Events.antt =====
-- The handlers of `SocketClient`: what the socket, the timers, the network and the page tell it.
pub mod Final
pub mod Stale
pub mod Delivery
pub mod Reconnection
mod Tests
use orijs.Common.{
  ℕ, suc, Bool, true, false, not, ◌&&◌, ◌||◌, Option, none, some, List, [], ◌∷◌, ◌++◌, String, ltb,
  leb, ◌==◌, ℕ_discrete, is_some, if◌then◌else◌,
}
use orijs.JsMap.{get, delete, contains, add, remove}
use orijs.SocketClient.State.{
  disconnected, connected, reconnecting, is_connected_state, is_connecting, is_down, Timer,
  connection_timeout, backoff_reset, reconnect, ping, pong_timeout, Frame, ping_frame, failed,
  timed_out, rejected, connection_error, no_pong, on_connected, on_disconnected, reconnect_attempt,
  reconnect_failed, message, Client, notify, set_state, arm, clear_timer, clear_connection_timeout,
  clear_backoff_timer, clear_reconnect_timer, stop_heartbeat, start_heartbeat, close_socket,
  transmit,
}
use orijs.SocketClient.Calls.{
  is_connected, connect, disconnect, destroy, send, join_room, leave_room, clear_rooms, rejoin,
  flush_send_buffer,
}

abbrev pub exhausted : ℕ → Option ℕ → Bool
exhausted attempts none = false
exhausted attempts (some n) = leb n attempts

-- 1008 and 1011
abbrev pub is_refusal : ℕ → Bool
is_refusal code = code == 1008 || code == 1011

module _ {M : Type 0} where
  -- The end of `maybeReconnect`.
  unfoldable pub schedule_reconnect : Client M → Client M
  schedule_reconnect c =
      if c.is_reconnecting
      then c
      else (let c' = set_state reconnecting (record c { is_reconnecting = true }) in
          record (arm reconnect c') {
            attempts = suc c.attempts;
            reconnect_timer = some c'.next_timer;
          })

  -- `on_line` is what `navigator.onLine` says.
  unfoldable pub maybe_reconnect : Bool → Client M → Client M
  maybe_reconnect on_line c =
      if not c.options.reconnects || c.skip_reconnect || c.page_hidden || c.went_offline
      then c
      else (if not on_line
          then record c { went_offline = true }
          else (if exhausted c.attempts c.options.max_attempts
              then notify (reconnect_failed c.attempts) c
              else schedule_reconnect c))

  -- `ws.onopen`
  unfoldable pub on_open : ℕ → Client M → Client M
  on_open i c =
      let c1 = record (clear_connection_timeout c) {
        opening = remove ℕ_discrete i c.opening;
        opened = add ℕ_discrete i c.opened;
      } in
      let c2 = record (set_state connected c1) { is_reconnecting = false } in
      let c3 = record (arm backoff_reset c2) { backoff_timer = some c2.next_timer } in
      let c4 = start_heartbeat c3 in
      let c5 = flush_send_buffer (rejoin c4.rooms c4) in notify (on_connected (ltb 0 c.attempts)) c5

  -- `ws.onclose`
  unfoldable pub on_close : ℕ → ℕ → Bool → Client M → Client M
  on_close i code on_line c =
      let c1 = clear_backoff_timer (clear_connection_timeout c) in
      let c2 = stop_heartbeat (record c1 {
        ws = none;
        opening = remove ℕ_discrete i c.opening;
        opened = remove ℕ_discrete i c.opened;
      }) in
      let c3 = set_state disconnected c2 in
      let c4 = if is_connected_state c.state then notify on_disconnected c3 else c3 in
      if is_refusal code then notify (failed rejected) c4 else maybe_reconnect on_line c4

  -- The callback of the connection timeout.
  unfoldable pub give_up : Client M → Client M
  give_up c =
      if is_connecting c.state && is_some c.ws
      then close_socket c.ws (notify (failed timed_out) c)
      else c

  unfoldable pub reset_backoff : Client M → Client M
  reset_backoff c =
      let c' = record c { backoff_timer = none } in
      if is_connected_state c.state then record c' { attempts = 0 } else c'

  -- The callback of the reconnection timer.
  unfoldable pub try_again : Bool → Client M → Client M
  try_again created c =
      let c' = record c { reconnect_timer = none; is_reconnecting = false } in
      if c.skip_reconnect || c.page_hidden || c.went_offline
      then c'
      else connect created (notify (reconnect_attempt c.attempts) c')

  unfoldable pub send_ping : Client M → Client M
  send_ping c =
      if is_connected c && is_some c.ws && not c.awaiting_pong
      then (let c' = transmit c.ws ping_frame (record c { awaiting_pong = true }) in
          if ltb 0 c.options.pong_ms
          then record (arm pong_timeout c') { pong_timer = some c'.next_timer }
          else c')
      else c

  unfoldable pub handle_pong : Client M → Client M
  handle_pong c = record c {
    awaiting_pong = false;
    timers = clear_timer c.pong_timer c.timers;
    pong_timer = none;
  }

  unfoldable pub handle_pong_timeout : Client M → Client M
  handle_pong_timeout c =
      let c' = record c { awaiting_pong = false; pong_timer = none } in
      if is_some c.ws then close_socket c.ws (notify (failed no_pong) c') else c'

  -- A timer fires; `setInterval` stays set. `created` is for a `connect` that follows.
  unfoldable pub run_timer : Timer → Bool → ℕ → Client M → Client M
  run_timer connection_timeout created t c =
      give_up (record c { timers = delete ℕ_discrete t c.timers })
  run_timer backoff_reset created t c =
      reset_backoff (record c { timers = delete ℕ_discrete t c.timers })
  run_timer reconnect created t c =
      try_again created (record c { timers = delete ℕ_discrete t c.timers })
  run_timer ping created t c = send_ping c
  run_timer pong_timeout created t c =
      handle_pong_timeout (record c { timers = delete ℕ_discrete t c.timers })

  unfoldable pub go_offline : Client M → Client M
  go_offline c =
      let c' = record c { went_offline = true } in
      if is_connected_state c.state || is_connecting c.state then close_socket c.ws c' else c'

  unfoldable pub go_online : Bool → Client M → Client M
  go_online created c =
      if c.skip_reconnect || not c.went_offline
      then c
      else (let c' = clear_reconnect_timer (record c { went_offline = false }) in
          if is_down c.state then connect created (record c' { is_reconnecting = false }) else c')

  unfoldable pub become_visible : Bool → Client M → Client M
  become_visible created c =
      let c' = record c { page_hidden = false } in
      if c.skip_reconnect || not (is_down c.state)
      then c'
      else connect created (record (clear_reconnect_timer c') { is_reconnecting = false })

-- What happens to a client. The browser opens a socket that is still connecting, and calls network
-- and page handlers that are still added.
pub data Event (M : Type 0) : Type 0 where
  connects : Bool → Event M
  disconnects destroys clears : Event M
  sends : Frame M → Bool → Event M
  joins leaves : String → Event M
  opens : ℕ → Event M
  closes : ℕ → ℕ → Bool → Event M
  errs pongs : Event M
  receives : M → Event M
  fires : ℕ → Bool → Event M
  offline hidden : Event M
  online visible : Bool → Event M

module _ {M : Type 0} where
  unfoldable pub fire : ℕ → Bool → Client M → Client M
  fire t created c = elim (get ℕ_discrete t c.timers) [
    | none ↦ c
    | some timer ↦ run_timer timer created t c
  ]

  unfoldable pub handle : Event M → Client M → Client M
  handle (connects created) c = connect created c
  handle disconnects c = disconnect c
  handle destroys c = destroy c
  handle clears c = clear_rooms c
  handle (sends frame buffered) c = (send frame buffered c).1
  handle (joins room) c = join_room room c
  handle (leaves room) c = leave_room room c
  handle (opens i) c = if contains ℕ_discrete i c.opening then on_open i c else c
  handle (closes i code on_line) c = on_close i code on_line c
  handle errs c = notify (failed connection_error) c
  handle pongs c = handle_pong c
  handle (receives m) c = notify (message m) c
  handle (fires t created) c = fire t created c
  handle offline c = if c.listening then go_offline c else c
  handle hidden c = if c.listening then record c { page_hidden = true } else c
  handle (online created) c = if c.listening then go_online created c else c
  handle (visible created) c = if c.listening then become_visible created c else c

  unfoldable pub handle_all : List (Event M) → Client M → Client M
  handle_all [] c = c
  handle_all (e ∷ es) c = handle_all es (handle e c)
