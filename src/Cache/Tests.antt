-- ===== src/Cache/Tests.antt =====
-- The theorems on the cache at concrete keys and times.
use orijs.Common.{ℕ, arith, ◌≡◌, refl, ◌⊎◌, none, [], ◌∷◌, first}
use orijs.JsMap.{get, set, delete}
use orijs.Cache.Singleflight.{
  Singleflight, pending, existing, flown, cached_error, new, recent_error, settle, take_off,
  store_flight, do_flight,
}
use orijs.Cache.Singleflight.Flights.{
  World, opening, departed, Reach, here, next, calls, calls_share_flight,
}
use orijs.Cache.Singleflight.Anomalies.{throwing_call_sticks}

abbrev fresh : Singleflight ℕ
fresh = record { flights = []; errors = []; error_ttl_ms = 5000; next = 0 }

abbrev flying : Singleflight ℕ
flying = record fresh { flights = ("k", 0) ∷ []; next = 1 }

abbrev one_flight : World ℕ
one_flight = record { object = flying; airborne = (0, "k") ∷ [] }

takes_off : Reach (opening none) one_flight
unfolding opening new do_flight departed recent_error take_off store_flight get set
takes_off = next here (calls 3 "k" (flown 0, flying) refl refl)

calls_share_flight_example :
    (◌≡◌ {A = ℕ} 0 0)
    × ((do_flight 4 "k" pending flying ≡ (existing 0, flying))
        ⊎ ((x : ℕ) × (do_flight 4 "k" pending flying ≡ (cached_error x, flying))))
calls_share_flight_example =
    calls_share_flight none one_flight takes_off 0 0 "k" (first refl) (first refl) 4 pending

abbrev stuck : Singleflight ℕ
stuck = record fresh {
  flights = ("k", 0) ∷ [];
  errors = ("k", record { error = 7; until = 5010 }) ∷ [];
  next = 1;
}

throwing_call_sticks_example : do_flight 9000 "k" pending stuck ≡ (existing 0, stuck)
unfolding do_flight recent_error take_off store_flight settle get set delete
throwing_call_sticks_example =
    throwing_call_sticks 10 9000 "k" 7 pending fresh stuck refl refl refl (omega arith)

abbrev forgotten : Singleflight ℕ
forgotten = record fresh { flights = ("k", 1) ∷ []; next = 2 }
