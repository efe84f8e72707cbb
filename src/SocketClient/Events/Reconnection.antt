-- ===== src/SocketClient/Events/Reconnection.antt =====
-- A client whose connection was lost connects again.
use orijs.Common.{ℕ, ◌≡◌, refl, ap, ◌∙◌, true, false, none, some, arith, ℕ_discrete, if◌then◌else◌}
use orijs.JsMap.{get, set, remove}
use orijs.JsMap.Laws.{get-set_self}
use orijs.SocketClient.State.{
  ConnectionState, disconnected, connecting, connected, reconnecting, reconnect, Client, notify,
  on_disconnected, is_connected_state, set_state, arm, clear_connection_timeout,
  clear_backoff_timer, stop_heartbeat,
}
use orijs.SocketClient.Calls.{connect, await_open, new_socket}
use orijs.SocketClient.Events.{
  exhausted, is_refusal, schedule_reconnect, maybe_reconnect, on_close, try_again, run_timer, fire,
}

module _ {M : Type 0} where
  -- Where `onclose` calls `maybeReconnect`.
  closed : ℕ → Client M → Client M
  closed i c =
      let c1 = clear_backoff_timer (clear_connection_timeout c) in
      let c2 = stop_heartbeat (record c1 {
        ws = none;
        opening = remove ℕ_discrete i c.opening;
        opened = remove ℕ_discrete i c.opened;
      }) in
      let c3 = set_state disconnected c2 in
      if is_connected_state c.state then notify on_disconnected c3 else c3

  -- May reconnect, and is not doing so yet.
  pub record Willing (c : Client M) : Type 0 where
    pub reconnects : c.options.reconnects ≡ true
    pub wanted : c.skip_reconnect ≡ false
    pub seen : c.page_hidden ≡ false
    pub online : c.went_offline ≡ false
    pub idle : c.is_reconnecting ≡ false
    pub attempts_left : exhausted c.attempts c.options.max_attempts ≡ false

  schedules :
      (c : Client M)
      → Willing c
      → c.state ≡ disconnected
      → ((maybe_reconnect true c).state ≡ reconnecting)
        × ((maybe_reconnect true c).reconnect_timer ≡ some c.next_timer)
        × (get ℕ_discrete c.next_timer (maybe_reconnect true c).timers ≡ some reconnect)
        × ((maybe_reconnect true c).skip_reconnect ≡ false)
        × ((maybe_reconnect true c).page_hidden ≡ false)
        × ((maybe_reconnect true c).went_offline ≡ false)
        × ((maybe_reconnect true c).next ≡ c.next)
  unfolding maybe_reconnect schedule_reconnect set_state arm
  schedules c w d = ground (
    arith,
    w.reconnects,
    w.wanted,
    w.seen,
    w.online,
    w.idle,
    w.attempts_left,
    get-set_self ℕ_discrete c.next_timer reconnect c.timers,
  )

  retries :
      (t : ℕ) (c : Client M)
      → get ℕ_discrete t c.timers ≡ some reconnect
      → c.state ≡ reconnecting
      → c.skip_reconnect ≡ false
      → c.page_hidden ≡ false
      → c.went_offline ≡ false
      → ((fire t true c).state ≡ connecting) × ((fire t true c).ws ≡ some c.next)
  unfolding fire run_timer try_again connect set_state notify new_socket await_open arm
  retries t c g e a b d = rw (fire, g) (ground arith)

  closed-facts :
      (i : ℕ) (c : Client M)
      → Willing c
      → Willing (closed i c) × ((closed i c).state ≡ disconnected) × ((closed i c).next ≡ c.next)
  unfolding closed set_state notify clear_connection_timeout clear_backoff_timer stop_heartbeat
  closed-facts i c w = by_state c.state refl
    where
      Facts : Type 0
      Facts =
          Willing (closed i c) × ((closed i c).state ≡ disconnected) × ((closed i c).next ≡ c.next)

      kept :
          (d : Client M)
          → d.options ≡ c.options
          → d.skip_reconnect ≡ c.skip_reconnect
          → d.page_hidden ≡ c.page_hidden
          → d.went_offline ≡ c.went_offline
          → d.is_reconnecting ≡ c.is_reconnecting
          → d.attempts ≡ c.attempts
          → Willing d
      kept d o a b x y n = record {
        reconnects = ap (λ z. z.reconnects) o ∙ w.reconnects;
        wanted = a ∙ w.wanted;
        seen = b ∙ w.seen;
        online = x ∙ w.online;
        idle = y ∙ w.idle;
        attempts_left = rw (n, o) w.attempts_left;
      }

      by_state : (s : ConnectionState) → c.state ≡ s → Facts
      by_state disconnected e = rw e (kept _ refl refl refl refl refl refl, refl, refl)
      by_state connecting e = rw e (kept _ refl refl refl refl refl refl, refl, refl)
      by_state connected e = rw e (kept _ refl refl refl refl refl refl, refl, refl)
      by_state reconnecting e = rw e (kept _ refl refl refl refl refl refl, refl, refl)

  -- When a socket closes, the client is reconnecting and a timer for that is set; when it fires, the
  -- client has a new socket and is connecting. The client may reconnect and is not doing so yet, the
  -- network is there, and the code of the close event is no refusal.
  pub closed_reconnects :
      (i code : ℕ) (c : Client M)
      → Willing c
      → is_refusal code ≡ false
      → ((on_close i code true c).state ≡ reconnecting)
        × ((t : ℕ) × ((on_close i code true c).reconnect_timer ≡ some t)
            × (get ℕ_discrete t (on_close i code true c).timers ≡ some reconnect)
            × ((fire t true (on_close i code true c)).state ≡ connecting)
            × ((fire t true (on_close i code true c)).ws ≡ some c.next))
  unfolding on_close closed
  closed_reconnects i code c w r =
      let (ready, down, same) = closed-facts i c w in
      let (up, timer, set, a, b, d, next) = schedules (closed i c) ready down in
      let (state, ws) =
        retries (closed i c).next_timer (maybe_reconnect true (closed i c)) set up a b d in
      rw (on_close, r)
        (up, ((closed i c).next_timer, timer, set, state, ws ∙ ap some (next ∙ same)))
