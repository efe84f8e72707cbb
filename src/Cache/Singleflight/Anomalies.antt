-- ===== src/Cache/Singleflight/Anomalies.antt =====
-- Two ways in which the map of flights and the flights under way part.
use orijs.Common.{ℕ, suc, ◌+◌, ◌≤◌, ◌≡◌, sym, ap, ◌∙◌, none, String, String-discrete}
use orijs.JsMap.{get, set, delete}
use orijs.JsMap.Laws.{get-set_self, get-delete_self}
use orijs.Cache.Singleflight.{
  Singleflight, CachedError, Call, pending, throws, resolved, rejected, Answer, existing, flown,
  recent_error, settle, take_off, store_flight, do_flight, forget,
}
use orijs.Cache.Singleflight.Flights.{recent_error-after}

module _ {X : Type 0} where
  -- When the function of a call that starts a flight throws before its first `await`, the flight's
  -- end comes before the flight is stored, so that nothing removes it. From the time the cached error
  -- expires, every call for the key, whatever its function, gets the promise of that flight, which is
  -- rejected, and changes nothing.
  pub throwing_call_sticks :
      (t now : ℕ) (key : String) (x : X) (call : Call X) (s r : Singleflight X)
      → recent_error t (get String-discrete key s.errors) ≡ none
      → get String-discrete key s.flights ≡ none
      → do_flight t key (throws x) s ≡ (flown s.next, r)
      → t + s.error_ttl_ms ≤ now
      → do_flight now key call r ≡ (existing s.next, r)
  unfolding do_flight store_flight take_off settle
  throwing_call_sticks t now key x call s r e f d h = rw (sym after_call) stuck
    where
      entry : CachedError X
      entry = record { error = x; until = t + s.error_ttl_ms }

      started :
          do_flight t key (throws x) s
          ≡ (flown s.next, store_flight key (settle t key (rejected x) s))
      started = rw (do_flight, e, f, take_off)

      after_call : store_flight key (settle t key (rejected x) s) ≡ r
      after_call = ap (λ p. p.1) (sym started ∙ d)

      stuck :
          do_flight now key call (store_flight key (settle t key (rejected x) s))
          ≡ (existing s.next, store_flight key (settle t key (rejected x) s))
      stuck = rw (
        do_flight,
        store_flight,
        settle,
        get-set_self String-discrete key entry s.errors,
        recent_error-after now entry h,
        get-set_self String-discrete key s.next (delete String-discrete key s.flights),
      )

  -- `forget` lets the next call start flight `s.next`. When the flight that was forgotten ends after
  -- that, it takes the new one's entry out: the following call starts yet another flight although
  -- flight `s.next` has not ended.
  forgotten_flight_evicts :
      (t t' now : ℕ) (key : String) (s r : Singleflight X) (answer : Answer X)
      → do_flight t key pending (forget key s) ≡ (answer, r)
      → (answer ≡ flown s.next)
        × ((do_flight now key pending (settle t' key resolved r)).0 ≡ flown (suc s.next))
  unfolding do_flight store_flight forget recent_error take_off settle
  forgotten_flight_evicts t t' now key s r answer d =
      (sym (ap (λ p. p.0) (sym started ∙ d)), rw (sym (ap (λ p. p.1) (sym started ∙ d))) again)
    where
      started :
          do_flight t key pending (forget key s) ≡ (flown s.next, store_flight key (forget key s))
      started = rw (
        do_flight,
        forget,
        get-delete_self String-discrete key s.errors,
        recent_error,
        get-delete_self String-discrete key s.flights,
        take_off,
      )

      again :
          (do_flight now key pending (settle t' key resolved (store_flight key (forget key s)))).0
          ≡ flown (suc s.next)
      again = rw (
        do_flight,
        settle,
        store_flight,
        forget,
        get-delete_self String-discrete key (delete String-discrete key s.errors),
        recent_error,
        get-delete_self String-discrete key
            (set String-discrete key s.next (delete String-discrete key s.flights)),
      )
