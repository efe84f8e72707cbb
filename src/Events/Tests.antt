-- ===== src/Events/Tests.antt =====
-- The theorems on subscriptions and on the in-process event provider at small runs.
use orijs.Common.{
  ℕ, ◌≡◌, refl, Bool, true, false, none, some, List, [], ◌∷◌, String-discrete, ℕ_discrete, arith,
}
use orijs.JsMap.{get, set}
use orijs.Events.Subscription.{
  pending, resolved, EventSubscription, create_subscription, resolve, Use, resolves, awaits,
  perform_all,
}
use orijs.Events.Subscription.{subscribes as registers, rejects}
use orijs.Events.Subscription.Agreement.{Agrees, perform_all-Agrees, throwing_callback_strands}
use orijs.Events.Delivery.{EmitOptions, InProcessEventProvider, subscribe}
use orijs.Events.Provider.{
  schedule_delivery, emit, stop, fresh_provider, Event, emits, subscribes, fires, cleans,
  happen_all,
}
use orijs.Events.Awaiting.{Awaited}
use orijs.Events.Runs.{pending_is_Awaited}
use orijs.Events.Keys.{emitted_once, stop_strands}

-- Whether a callback throws.
abbrev none_throws : ℕ → Bool
none_throws c = false

abbrev all_throw : ℕ → Bool
all_throw c = true

abbrev uses : List (Use ℕ ℕ)
uses = registers 1 ∷ awaits ∷ resolves 7 ∷ rejects 8 ∷ []

perform_all-Agrees_example : Agrees (perform_all none_throws uses create_subscription)
perform_all-Agrees_example = perform_all-Agrees none_throws (λ c. refl) uses

abbrev waiting : EventSubscription ℕ ℕ
waiting = record create_subscription {
  subscribe_callback = some 1;
  promise = some pending;
  has_promise_handlers = true;
}

throwing_callback_strands_example :
    ((perform_all all_throw uses (resolve all_throw 7 waiting)).state ≡ resolved 7)
    × ((perform_all all_throw uses (resolve all_throw 7 waiting)).promise ≡ some pending)
throwing_callback_strands_example =
    throwing_callback_strands all_throw 7 1 uses waiting refl refl refl refl

abbrev Provider : Type 0
Provider = InProcessEventProvider ℕ ℕ ℕ ℕ

abbrev keyed : EmitOptions
keyed = record { delay = some 9; idempotency_key = some "k"; causation_id = none }

abbrev plain : EmitOptions
plain = record { delay = some 9; idempotency_key = none; causation_id = none }

abbrev events : List (Event ℕ ℕ ℕ ℕ)
events = subscribes "e" 1 ∷ emits 5 "e" 3 plain ∷ []

pending_is_Awaited_example :
    Awaited
      (happen_all 0 events (fresh_provider 100)).timers
      (happen_all 0 events (fresh_provider 100)).running
      0
unfolding get happen_all emit schedule_delivery set subscribe ℕ_discrete
pending_is_Awaited_example = pending_is_Awaited 0 100 events 0 (tt, (tt, tt)) refl

abbrev after_first : Provider
after_first = happen_all 0 (fires 1 ∷ cleans 90 ∷ []) (emit 0 5 "e" 3 keyed (fresh_provider 100)).1

emitted_once_example :
    (get ℕ_discrete after_first.next (emit 0 99 "f" 4 keyed after_first).1.subscriptions
      ≡ some (resolved 0))
    × ((emit 0 99 "f" 4 keyed after_first).1.timers ≡ after_first.timers)
    × ((emit 0 99 "f" 4 keyed after_first).1.running ≡ after_first.running)
unfolding String-discrete get
emitted_once_example =
    emitted_once 0 "k" 5 99 "e" "f" 3 4 keyed keyed (fires 1 ∷ cleans 90 ∷ []) (fresh_provider 100)
      after_first refl refl refl (tt, (omega arith, tt)) refl

abbrev scheduled : Provider
scheduled = (emit 0 5 "e" 3 keyed (fresh_provider 100)).1

abbrev idle : Provider
idle = fresh_provider 100

stop_strands_example :
    (get ℕ_discrete 0 (stop (emit 0 5 "e" 3 plain idle).1).subscriptions ≡ some pending)
    × ((stop (emit 0 5 "e" 3 plain idle).1).timers ≡ [])
    × ((stop (emit 0 5 "e" 3 plain idle).1).running ≡ [])
stop_strands_example = stop_strands 0 5 8 "e" 3 plain idle (refl, refl, refl, refl) refl refl
