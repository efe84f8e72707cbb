-- ===== src/SocketClient/State.antt =====
-- The fields of `SocketClient`, with what the browser keeps for it: which of the sockets that it
-- made are connecting or open, which timers are set, and what was sent on which socket. What the
-- handlers are told is kept as a list; they are taken not to call the client.
use orijs.Common.{
  ℕ, suc, Bool, true, false, Option, none, some, List, [], ◌∷◌, ◌++◌, String, ℕ_discrete, ltb,
  if◌then◌else◌,
}
use orijs.JsMap.{JsMap, set, delete, contains, remove}

pub data ConnectionState : Type 0 where
  disconnected connecting connected reconnecting : ConnectionState

pub data Timer : Type 0 where
  connection_timeout backoff_reset reconnect ping pong_timeout : Timer

pub data Frame (M : Type 0) : Type 0 where
  join leave : String → Frame M
  text : M → Frame M
  ping_frame : Frame M

pub data ClientError : Type 0 where
  not_created timed_out rejected connection_error no_pong : ClientError

pub data Notice (M : Type 0) : Type 0 where
  state_is : ConnectionState → Notice M
  failed : ClientError → Notice M
  on_connected : Bool → Notice M
  on_disconnected : Notice M
  reconnect_attempt reconnect_failed : ℕ → Notice M
  message : M → Notice M

-- `maxReconnectAttempts` is `none` for `Infinity`.
pub record Options : Type 0 where
  pub reconnects : Bool
  pub max_attempts : Option ℕ
  pub connection_ms : ℕ
  pub heartbeat_ms : ℕ
  pub pong_ms : ℕ

pub record Client (M : Type 0) : Type 0 where
  pub options : Options
  pub ws : Option ℕ
  pub state : ConnectionState
  pub attempts : ℕ
  pub is_reconnecting : Bool
  pub skip_reconnect : Bool
  pub page_hidden : Bool
  pub went_offline : Bool
  pub listening : Bool
  pub reconnect_timer : Option ℕ
  pub connection_timer : Option ℕ
  pub backoff_timer : Option ℕ
  pub heartbeat_timer : Option ℕ
  pub pong_timer : Option ℕ
  pub awaiting_pong : Bool
  pub rooms : List String
  pub buffer : List (Frame M)
  pub next : ℕ
  pub opening : List ℕ
  pub opened : List ℕ
  pub timers : JsMap ℕ Timer
  pub next_timer : ℕ
  pub sent : List (ℕ × Frame M)
  pub notices : List (Notice M)

abbrev pub is_connected_state : ConnectionState → Bool
is_connected_state disconnected = false
is_connected_state connecting = false
is_connected_state connected = true
is_connected_state reconnecting = false

abbrev pub is_connecting : ConnectionState → Bool
is_connecting disconnected = false
is_connecting connecting = true
is_connecting connected = false
is_connecting reconnecting = false

-- `disconnected` or `reconnecting`
abbrev pub is_down : ConnectionState → Bool
is_down disconnected = true
is_down connecting = false
is_down connected = false
is_down reconnecting = true

abbrev pub same_state : ConnectionState → ConnectionState → Bool
same_state disconnected disconnected = true
same_state connecting connecting = true
same_state connected connected = true
same_state reconnecting reconnecting = true
same_state _ _ = false

abbrev pub clear_timer : Option ℕ → JsMap ℕ Timer → JsMap ℕ Timer
clear_timer none timers = timers
clear_timer (some t) timers = delete ℕ_discrete t timers

module _ {M : Type 0} where
  unfoldable pub notify : Notice M → Client M → Client M
  notify n c = record c { notices = c.notices ++ n ∷ [] }

  unfoldable pub set_state : ConnectionState → Client M → Client M
  set_state s c =
      if same_state c.state s
      then c
      else record c { state = s; notices = c.notices ++ state_is s ∷ [] }

  -- `setTimeout`
  unfoldable pub arm : Timer → Client M → Client M
  arm timer c = record c {
    timers = set ℕ_discrete c.next_timer timer c.timers;
    next_timer = suc c.next_timer;
  }

  unfoldable pub clear_connection_timeout : Client M → Client M
  clear_connection_timeout c = record c {
    timers = clear_timer c.connection_timer c.timers;
    connection_timer = none;
  }

  unfoldable pub clear_backoff_timer : Client M → Client M
  clear_backoff_timer c = record c {
    timers = clear_timer c.backoff_timer c.timers;
    backoff_timer = none;
  }

  unfoldable pub clear_reconnect_timer : Client M → Client M
  clear_reconnect_timer c = record c {
    timers = clear_timer c.reconnect_timer c.timers;
    reconnect_timer = none;
  }

  unfoldable pub stop_heartbeat : Client M → Client M
  stop_heartbeat c = record c {
    timers = clear_timer c.pong_timer (clear_timer c.heartbeat_timer c.timers);
    heartbeat_timer = none;
    pong_timer = none;
    awaiting_pong = false;
  }

  unfoldable pub start_heartbeat : Client M → Client M
  start_heartbeat c =
      if ltb 0 c.options.heartbeat_ms
      then record (arm ping (stop_heartbeat c)) { heartbeat_timer = some c.next_timer }
      else c

  -- `ws.close()`: the socket neither opens nor sends any more; its close event comes later.
  unfoldable pub close_socket : Option ℕ → Client M → Client M
  close_socket none c = c
  close_socket (some i) c = record c {
    opening = remove ℕ_discrete i c.opening;
    opened = remove ℕ_discrete i c.opened;
  }

  -- `ws.send(frame)`: a socket that is not open transmits nothing.
  unfoldable pub transmit : Option ℕ → Frame M → Client M → Client M
  transmit none frame c = c
  transmit (some i) frame c =
      if contains ℕ_discrete i c.opened then record c { sent = c.sent ++ (i, frame) ∷ [] } else c
