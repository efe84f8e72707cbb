-- ===== src/SocketClient/Events/Tests.antt =====
-- The theorems on the WebSocket client at a client with one socket.
use orijs.Common.{ℕ, ◌≡◌, refl, inr, true, false, none, some, List, [], ◌∷◌, arith, ℕ_discrete}
use orijs.JsMap.{contains, get}
use orijs.SocketClient.Backoff.{Backoff}
use orijs.SocketClient.State.{
  disconnected, connecting, reconnecting, reconnect, Client, text, is_connecting,
}
use orijs.SocketClient.Calls.{connect, disconnect}
use orijs.SocketClient.Events.{Event, opens, online, closes, on_close, handle_all, fire}
use orijs.SocketClient.Events.Reconnection.{Willing, closed_reconnects}
use orijs.SocketClient.Events.Final.{disconnect_is_final}
use orijs.SocketClient.Events.Stale.{stale_close_drops_socket}

-- 100 ms, at the third attempt
abbrev third : Backoff
third = record { ms = 100; max = 500; attempts = 2 }

-- A client whose first socket is still connecting, with a room and a message to send.
abbrev first_connecting : Client ℕ
first_connecting = record {
  options = record {
    reconnects = true;
    max_attempts = none;
    connection_ms = 10000;
    heartbeat_ms = 0;
    pong_ms = 0;
  };
  ws = some 0;
  state = connecting;
  attempts = 0;
  is_reconnecting = false;
  skip_reconnect = false;
  page_hidden = false;
  went_offline = false;
  listening = true;
  reconnect_timer = none;
  connection_timer = none;
  backoff_timer = none;
  heartbeat_timer = none;
  pong_timer = none;
  awaiting_pong = false;
  rooms = "lobby" ∷ [];
  buffer = text 7 ∷ [];
  next = 1;
  opening = 0 ∷ [];
  opened = [];
  timers = [];
  next_timer = 0;
  sent = [];
  notices = [];
}

abbrev later_events : List (Event ℕ)
later_events = opens 0 ∷ closes 0 1006 true ∷ online true ∷ []

disconnect_is_final_example :
    ((handle_all later_events (disconnect first_connecting)).state ≡ disconnected)
    × ((handle_all later_events (disconnect first_connecting)).ws ≡ none)
    × ((handle_all later_events (disconnect first_connecting)).next ≡ 1)
    × ((handle_all later_events (disconnect first_connecting)).sent ≡ [])
disconnect_is_final_example =
    disconnect_is_final first_connecting later_events (inr (0, refl, refl))
      (refl, (refl, (refl, tt)))

stale_close_drops_socket_example :
    ((on_close 0 1000 true (connect true (disconnect first_connecting))).ws ≡ none)
    × (is_connecting (on_close 0 1000 true (connect true (disconnect first_connecting))).state
        ≡ false)
    × (contains ℕ_discrete 1
          (on_close 0 1000 true (connect true (disconnect first_connecting))).opening
        ≡ true)
stale_close_drops_socket_example =
    stale_close_drops_socket 0 1000 true first_connecting (ground arith)

willing : Willing first_connecting
willing = record {
  reconnects = refl;
  wanted = refl;
  seen = refl;
  online = refl;
  idle = refl;
  attempts_left = refl;
}

closed_reconnects_example :
    ((on_close 0 1006 true first_connecting).state ≡ reconnecting)
    × ((t : ℕ) × ((on_close 0 1006 true first_connecting).reconnect_timer ≡ some t)
        × (get ℕ_discrete t (on_close 0 1006 true first_connecting).timers ≡ some reconnect)
        × ((fire t true (on_close 0 1006 true first_connecting)).state ≡ connecting)
        × ((fire t true (on_close 0 1006 true first_connecting)).ws ≡ some 1))
closed_reconnects_example = closed_reconnects 0 1006 first_connecting willing refl
