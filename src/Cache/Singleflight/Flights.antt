-- ===== src/Cache/Singleflight/Flights.antt =====
-- That calls for one key share one flight, and how long a failure keeps callers from retrying.
use orijs.Common.{
  ℕ, ◌+◌, ◌≤◌, ◌≡◌, sym, ap, ◌∙◌, subst, ◌≢◌, ◌⊎◌, inl, inr, true, false, Option, none, some, List,
  [], ◌∷◌, ◌++◌, String, String-discrete, arith, All, In, first, later, if◌then◌else◌, ltb,
  Bool-cases, Option-cases,
}
use orijs.JsMap.{JsMap, get, set, delete}
use orijs.JsMap.Laws.{get-set_self, get-set_ne, get-delete_self, get-delete_ne}
use orijs.Cache.Singleflight.{
  CachedError, Singleflight, Call, pending, Outcome, resolved, rejected, Answer, cached_error,
  existing, flown, new, recent_error, settle, take_off, store_flight, do_flight,
}

-- The flights whose functions have not settled, beside the object.
pub record World (X : Type 0) : Type 0 where
  pub object : Singleflight X
  pub airborne : List (ℕ × String)

module _ {X : Type 0} where
  -- The flight that a call started is in the air.
  unfoldable pub departed : String → Answer X → List (ℕ × String) → List (ℕ × String)
  departed key (flown i) fs = (i, key) ∷ fs
  departed key (existing i) fs = fs
  departed key (cached_error x) fs = fs

  -- Calls whose functions reach their first `await`, and flights that end, in any order.
  pub data Step (w v : World X) : Type 0 where
    calls :
        (now : ℕ) (key : String) (r : Answer X × Singleflight X)
        → do_flight now key pending w.object ≡ r
        → v ≡ record { object = r.1; airborne = departed key r.0 w.airborne }
        → Step w v
    lands :
        (now : ℕ) (before : List (ℕ × String)) (i : ℕ) (key : String) (after : List (ℕ × String))
        (outcome : Outcome X)
        → w.airborne ≡ before ++ (i, key) ∷ after
        → v ≡ record { object = settle now key outcome w.object; airborne = before ++ after }
        → Step w v

  pub data Reach (w : World X) : World X → Type 0 where
    here : Reach w w
    next : {u v : World X} → Reach w u → Step u v → Reach w v

  unfoldable pub opening : Option ℕ → World X
  opening ttl = record { object = new ttl; airborne = [] }

-- Each flight in the air is the one its key stands for, and no key has two.
abbrev Fits : List (ℕ × String) → JsMap String ℕ → Type 0
Fits [] m = Unit
Fits ((i, key) ∷ fs) m = (get String-discrete key m ≡ some i) × All (λ f. f.1 ≢ key) fs × Fits fs m

All-around :
    (P : ℕ × String → Type 0) (xs ys : List (ℕ × String)) (a : ℕ × String)
    → All P (xs ++ a ∷ ys)
    → P a × All P (xs ++ ys)
All-around P [] ys a h = h
All-around P (x ∷ xs) ys a h = let (p, q) = All-around P xs ys a h.1 in (p, (h.0, q))

module _ (key : String) where
  absent :
      (fs : List (ℕ × String)) (m : JsMap String ℕ)
      → get String-discrete key m ≡ none
      → Fits fs m
      → All (λ f. f.1 ≢ key) fs
  absent [] m e h = tt
  absent ((i, k) ∷ fs) m e h = (λ p. differ p h.0, absent fs m e h.2)
    where
      differ : k ≡ key → get String-discrete k m ≡ some i → ⊥
      differ p q = cc

  Fits-set :
      (i : ℕ) (fs : List (ℕ × String)) (m : JsMap String ℕ)
      → All (λ f. f.1 ≢ key) fs
      → Fits fs m
      → Fits fs (set String-discrete key i m)
  Fits-set i [] m n h = tt
  Fits-set i ((j, k) ∷ fs) m n h =
      (get-set_ne String-discrete k key i m (λ e. n.0 (sym e)) ∙ h.0, h.1, Fits-set i fs m n.1 h.2)

  Fits-delete :
      (fs : List (ℕ × String)) (m : JsMap String ℕ)
      → All (λ f. f.1 ≢ key) fs
      → Fits fs m
      → Fits fs (delete String-discrete key m)
  Fits-delete [] m n h = tt
  Fits-delete ((j, k) ∷ fs) m n h = (
    get-delete_ne String-discrete k key m (λ e. n.0 (sym e)) ∙ h.0,
    h.1,
    Fits-delete fs m n.1 h.2,
  )

  take_out :
      (before : List (ℕ × String)) (i : ℕ) (after : List (ℕ × String)) (m : JsMap String ℕ)
      → Fits (before ++ (i, key) ∷ after) m
      → All (λ f. f.1 ≢ key) (before ++ after) × Fits (before ++ after) m
  take_out [] i after m h = (h.1, h.2)
  take_out ((j, k) ∷ b) i after m h =
      let (p, q) = take_out b i after m h.2 in
      let (r, s) = All-around (λ f. f.1 ≢ k) b after (i, key) h.1 in
      (((λ e. r (sym e)), p), (h.0, s, q))

  Fits-In :
      (i : ℕ) (fs : List (ℕ × String)) (m : JsMap String ℕ)
      → Fits fs m
      → In (i, key) fs
      → get String-discrete key m ≡ some i
  Fits-In i ((j, k) ∷ fs) m h (first e) = same (ap (λ f. f.0) e) (ap (λ f. f.1) e) h.0
    where
      same : i ≡ j → key ≡ k → get String-discrete k m ≡ some j → get String-discrete key m ≡ some i
      same p q r = cc
  Fits-In i ((j, k) ∷ fs) m h (later l) = Fits-In i fs m h.2 l
  Fits-In i [] m h l = elim l [ ]

  joins :
      (i : ℕ) (fs : List (ℕ × String)) (m : JsMap String ℕ)
      → get String-discrete key m ≡ none
      → Fits fs m
      → Fits ((i, key) ∷ fs) (set String-discrete key i m)
  joins i fs m e h =
      (get-set_self String-discrete key i m, absent fs m e h, Fits-set i fs m (absent fs m e h) h)

module _ {X : Type 0} where
  departs :
      (now : ℕ) (key : String) (s : Singleflight X) (fs : List (ℕ × String))
      → Fits fs s.flights
      → Fits
          (departed key (do_flight now key pending s).0 fs)
          (do_flight now key pending s).1.flights
  unfolding do_flight departed store_flight take_off
  departs now key s fs h =
      elim (Option-cases (recent_error now (get String-discrete key s.errors))) [
        | inr (x, e) ↦ rw (do_flight, e) h
        | inl e ↦ elim (Option-cases (get String-discrete key s.flights)) [
          | inr (i, f) ↦ rw (do_flight, e, f) h
          | inl f ↦ rw (do_flight, e, f) (joins key s.next fs s.flights f h)
        ]
      ]

  arrives :
      (now : ℕ) (key : String) (outcome : Outcome X) (s : Singleflight X) (fs : List (ℕ × String))
      → All (λ f. f.1 ≢ key) fs
      → Fits fs s.flights
      → Fits fs (settle now key outcome s).flights
  unfolding settle
  arrives now key resolved s fs n h = Fits-delete key fs s.flights n h
  arrives now key (rejected x) s fs n h = Fits-delete key fs s.flights n h

  Step-Fits :
      (w v : World X)
      → Step w v
      → Fits w.airborne w.object.flights
      → Fits v.airborne v.object.flights
  Step-Fits w v (calls now key r e p) h = rw (p, sym e) (departs now key w.object w.airborne h)
  Step-Fits w v (lands now before i key after outcome a p) h =
      let (n, k) =
        take_out key before i after w.object.flights (subst (λ fs. Fits fs w.object.flights) a h) in
      rw (p) (arrives now key outcome w.object (before ++ after) n k)

  Reach-Fits :
      (w v : World X)
      → Reach w v
      → Fits w.airborne w.object.flights
      → Fits v.airborne v.object.flights
  Reach-Fits w v here h = h
  Reach-Fits w v (next {u} r s) h = Step-Fits u v s (Reach-Fits w u r h)

  -- However calls and flights' ends interleave, from a new object on: while flight `i` for a key is
  -- in the air it is the only one for the key, and a further call for the key, whatever its function,
  -- starts nothing. It gets the promise of flight `i`, or an error that is still cached, and changes
  -- nothing. (`forget` and `clear` are not among the steps, and no function throws before its first
  -- `await`.)
  pub calls_share_flight :
      (ttl : Option ℕ) (w : World X)
      → Reach (opening ttl) w
      → (i j : ℕ) (key : String) → In (i, key) w.airborne
      → In (j, key) w.airborne
      → (now : ℕ) (call : Call X)
      → (i ≡ j)
        × ((do_flight now key call w.object ≡ (existing i, w.object))
            ⊎ ((x : X) × (do_flight now key call w.object ≡ (cached_error x, w.object))))
  unfolding opening new do_flight
  calls_share_flight ttl w r i j key p q now call = (same, answer)
    where
      fits : Fits w.airborne w.object.flights
      fits = Reach-Fits (opening ttl) w r tt

      held : get String-discrete key w.object.flights ≡ some i
      held = Fits-In key i w.airborne w.object.flights fits p

      same : i ≡ j
      same = cc (held, Fits-In key j w.airborne w.object.flights fits q)

      answer :
          (do_flight now key call w.object ≡ (existing i, w.object))
          ⊎ ((x : X) × (do_flight now key call w.object ≡ (cached_error x, w.object)))
      answer = elim (Option-cases (recent_error now (get String-discrete key w.object.errors))) [
        | inl e ↦ inl (rw (do_flight, e, held))
        | inr (x, e) ↦ inr (x, rw (do_flight, e))
      ]

  recent_error-before :
      (now : ℕ) (cached : CachedError X)
      → ltb now cached.until ≡ true
      → recent_error now (some cached) ≡ some cached.error
  unfolding recent_error
  recent_error-before now cached h = ground arith

  pub recent_error-after :
      (now : ℕ) (cached : CachedError X)
      → cached.until ≤ now
      → recent_error now (some cached) ≡ none
  unfolding recent_error
  recent_error-after now cached h = ground arith

  -- A flight that fails keeps its error for the time the object was made with: up to then a call for
  -- the key throws that error and changes nothing, and after it a call starts a new flight.
  failure_is_cached :
      (t now : ℕ) (key : String) (x : X) (call : Call X) (s r : Singleflight X)
      → settle t key (rejected x) s ≡ r
      → do_flight now key call r ≡ (
          if ltb now (t + s.error_ttl_ms)
          then (cached_error x, r)
          else (flown s.next, store_flight key (take_off now key call r)))
  unfolding settle do_flight
  failure_is_cached t now key x call s r e = rw (sym e) (elim (Bool-cases (ltb now entry.until)) [
    | inl b ↦ rw (
      do_flight,
      settle,
      get-set_self String-discrete key entry s.errors,
      recent_error-before now entry b,
      b,
    )
    | inr b ↦ rw (
      do_flight,
      settle,
      get-set_self String-discrete key entry s.errors,
      recent_error-after now entry (late now entry.until b),
      get-delete_self String-discrete key s.flights,
      b,
    )
  ])
    where
      entry : CachedError X
      entry = record { error = x; until = t + s.error_ttl_ms }

      late : (a b : ℕ) → ltb a b ≡ false → b ≤ a
      late a b h = ground arith
