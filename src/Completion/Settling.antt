-- ===== src/Completion/Settling.antt =====
-- That a registration is settled once, and what a timer that was not cleared does.
use orijs.Common.{
  ℕ, suc, ◌<◌, ◌≡◌, ◌∙◌, inl, inr, Bool, true, false, Option, none, some, [], ◌∷◌, ◌++◌, String,
  String-discrete, ℕ_discrete, arith, ltb, or_else, Option-cases,
}
use orijs.JsMap.{get, set, delete}
use orijs.JsMap.Laws.{get-set_self, get-set_ne, get-delete_self}
use orijs.Completion.{
  Completion, Tracker, Failure, timed_out, failure, register, waiting, has_pending, take, complete,
  fail, fire, tell_failure,
}

module _ {R X : Type 0} where
  waiting-take :
      (queue i : String) (c : Completion) (s : Tracker R X)
      → waiting queue i (take queue i c s) ≡ none
  unfolding waiting take
  waiting-take queue i c s = rw (
    waiting,
    take,
    get-set_self String-discrete queue
        (delete String-discrete i (or_else (get String-discrete queue s.pending) [])) s.pending,
    get-delete_self String-discrete i (or_else (get String-discrete queue s.pending) []),
  )

  still :
      (queue i : String) (r : R) (e : Failure X) (s : Tracker R X)
      → waiting queue i s ≡ none
      → (has_pending queue i s ≡ false) × (complete queue i r s ≡ s) × (fail queue i e s ≡ s)
  unfolding has_pending complete fail
  still queue i r e s w = (rw (has_pending, w), rw (complete, w), rw (fail, w))

  gone :
      (queue i : String) (r : R) (s : Tracker R X) → waiting queue i (complete queue i r s) ≡ none
  unfolding complete waiting take
  gone queue i r s = elim (Option-cases (waiting queue i s)) [
    | inl w ↦ rw (complete, w) w
    | inr (c, w) ↦ rw (complete, w) (waiting-take queue i c s)
  ]

  -- After `complete` nothing waits under the identifier, whether or not something did before, so that
  -- completing or failing it once more changes nothing and tells nobody anything.
  settled_once :
      (queue i : String) (result again : R) (e : Failure X) (s : Tracker R X)
      → (has_pending queue i (complete queue i result s) ≡ false)
        × (complete queue i again (complete queue i result s) ≡ complete queue i result s)
        × (fail queue i e (complete queue i result s) ≡ complete queue i result s)
  settled_once queue i result again e s =
      still queue i again e (complete queue i result s) (gone queue i result s)

  registered : Bool → Option ℕ → Tracker R X → Completion
  registered has_on_error timeout s = record {
    registration = s.next;
    has_on_error = has_on_error;
    timed = ltb 0 (or_else timeout s.default_timeout);
  }

  waiting-register :
      (queue i : String) (b : Bool) (timeout : Option ℕ) (s : Tracker R X)
      → waiting queue i (register queue i b timeout s) ≡ some (registered b timeout s)
  unfolding waiting register registered
  waiting-register queue i b timeout s = rw (
    waiting,
    register,
    get-set_self String-discrete queue
        (set String-discrete i (registered b timeout s)
          (or_else (get String-discrete queue s.pending) []))
        s.pending,
    get-set_self String-discrete i (registered b timeout s)
        (or_else (get String-discrete queue s.pending) []),
  )

  timer-set :
      (queue i : String) (b : Bool) (t : ℕ) (s : Tracker R X)
      → get ℕ_discrete s.next (register queue i b (some (suc t)) s).timers ≡ some (queue, i)
  unfolding register
  timer-set queue i b t s = ground (arith, get-set_self ℕ_discrete s.next (queue, i) s.timers)

  timer-kept :
      (n : ℕ) (queue i : String) (b : Bool) (timeout : Option ℕ) (s : Tracker R X)
      → n < s.next
      → get ℕ_discrete n (register queue i b timeout s).timers ≡ get ℕ_discrete n s.timers
  unfolding register
  timer-kept n queue i b timeout s l =
      ground (arith, get-set_ne ℕ_discrete n s.next (queue, i) s.timers (λ e. omega arith))

  fire-told :
      (n : ℕ) (queue i : String) (c : Completion) (s : Tracker R X)
      → get ℕ_discrete n s.timers ≡ some (queue, i)
      → waiting queue i s ≡ some c
      → (fire n s).told ≡ s.told ++ tell_failure c timed_out
  unfolding fire fail waiting
  fire-told n queue i c s g w = rw (fire, g, fail, w)

  -- A registration under an identifier that is already waiting takes the place of the first one,
  -- whose timer is not cleared: when that fires, it fails the second registration, which has an error
  -- callback, whatever its own timeout, and the first one has been told nothing.
  pub stale_timer_fails_next :
      (queue i : String) (has_on_error : Bool) (t : ℕ) (timeout : Option ℕ) (s : Tracker R X)
      → (fire s.next
          (register queue i true timeout (register queue i has_on_error (some (suc t)) s))).told
        ≡ s.told ++ (suc s.next, failure timed_out) ∷ []
  unfolding register registered
  stale_timer_fails_next queue i has_on_error t timeout s =
      fire-told s.next queue i (registered true timeout first_one)
        (register queue i true timeout first_one)
        (timer-kept s.next queue i true timeout first_one (omega arith)
          ∙ timer-set queue i has_on_error t s)
        (waiting-register queue i true timeout first_one)
    where
      first_one : Tracker R X
      first_one = register queue i has_on_error (some (suc t)) s
