-- ===== src/Logging/Kept.antt =====
-- What the state of the log buffer says of the objects that it was given, and what `write` keeps.
use orijs.Common.{
  ◌+◌, ◌≡◌, refl, ap, ◌∙◌, Bool, true, false, Option, none, some, not, is_some, List, [], ◌∷◌, ◌++◌,
  map, length, length-append, append_assoc, leb, if◌then◌else◌, arith,
}
use orijs.Logging.{
  LogObject, logged, Json, World, start_timer, output_of, line, timer_started, dropping, appending,
  overflows, write_by,
}
use orijs.Logging.Lines.{logged_of, reported, text_of, text_of-snoc}

module _ {A T : Type 0} (json : Json A) (console : T) (ts : List T) where
  -- `gone` was taken off the buffer, and `calls` were made for it so far; `pending` is in the buffer.
  pub record Kept (gone : List (LogObject A)) (calls : List (T × LogObject A)) (pending : List A)
      (w : World A T) : Type 0 where
    pub buffered : w.manager.buffer ≡ text_of json (map logged pending)
    pub in_order : w.accepted ≡ logged_of gone ++ pending
    pub counted : length w.dropped ≡ reported gone + w.manager.dropped_count
    pub called : w.sent ≡ calls
    pub readable : w.unreadable ≡ []
    pub resolved : output_of console w.manager.transport_resolver ≡ ts

  abbrev pub Some : List (LogObject A) → List (T × LogObject A) → World A T → Type 0
  Some gone calls w = (pending : List A) × Kept gone calls pending w

  timer_started-Kept :
      (gone : List (LogObject A)) (calls : List (T × LogObject A)) (pending : List A)
      (w : World A T)
      → Kept gone calls pending w
      → Kept gone calls pending (timer_started w)
  timer_started-Kept gone calls pending w k = by_test (is_some w.manager.flush_timer)
    where
      by_test :
          (b : Bool)
          → Kept gone calls pending (if b then w else record w { manager = start_timer w.manager })
      by_test true = k
      by_test false = record {
        buffered = k.buffered;
        in_order = k.in_order;
        counted = k.counted;
        called = k.called;
        readable = k.readable;
        resolved = k.resolved;
      }

  dropping-Kept :
      (gone : List (LogObject A)) (calls : List (T × LogObject A)) (pending : List A) (a : A)
      (w : World A T)
      → Kept gone calls pending w
      → Kept gone calls pending (dropping a w)
  dropping-Kept gone calls pending a w k = record {
    buffered = k.buffered;
    in_order = k.in_order;
    counted = omega (arith, length-append w.dropped (a ∷ []), k.counted);
    called = k.called;
    readable = k.readable;
    resolved = k.resolved;
  }

  appending-Kept :
      (gone : List (LogObject A)) (calls : List (T × LogObject A)) (pending : List A) (a : A)
      (w : World A T)
      → overflows json a w ≡ false
      → Kept gone calls pending w
      → Kept gone calls (pending ++ (a ∷ [])) (appending json a w)
  appending-Kept gone calls pending a w h k = record {
    buffered = ap (λ t. t ++ line json (logged a)) k.buffered ∙ text_of-snoc json pending a;
    in_order = ap (λ l. l ++ (a ∷ [])) k.in_order ∙ append_assoc (logged_of gone) pending (a ∷ []);
    counted = k.counted;
    called = k.called;
    readable = k.readable;
    resolved = k.resolved;
  }

  -- A property `Q` that holds after all that `write` does holds after `write`.
  pub write_by-Kept :
      (Q : World A T → Type 0) (f : World A T → World A T) (gone : List (LogObject A))
      (calls : List (T × LogObject A)) (pending : List A) (a : A) (w : World A T)
      → Kept gone calls pending w
      → ((p : List A) (v : World A T)
          → Kept gone calls p v
          → v.manager.writing ≡ w.manager.writing
          → Q v)
      → ((p : List A) (v : World A T)
          → Kept gone calls p v
          → v.manager.writing ≡ w.manager.writing
          → Q (f v))
      → Q (write_by json f a w).1
  write_by-Kept Q f gone calls pending a w k here there =
      by_test w.manager.enabled (json.serialises a) (overflows json a w1)
        (leb w2.manager.buffer_size_threshold (length w2.manager.buffer)) refl
    where
      w1 : World A T
      w1 = timer_started w

      w2 : World A T
      w2 = appending json a w1

      same : w1.manager.writing ≡ w.manager.writing
      same = ground arith

      outcome : Bool → Bool → Bool → Bool → Option Bool × World A T
      outcome on ok big full =
          if not on
          then (some false, w)
          else if not ok
          then (none, w1)
          else (if big then (some true, dropping a w1) else (some true, if full then f w2 else w2))

      by_test : (on ok big full : Bool) → overflows json a w1 ≡ big → Q (outcome on ok big full).1
      by_test false ok big full e = here pending w k refl
      by_test true false big full e =
          here pending w1 (timer_started-Kept gone calls pending w k) same
      by_test true true true full e =
          here pending (dropping a w1)
            (dropping-Kept gone calls pending a w1 (timer_started-Kept gone calls pending w k)) same
      by_test true true false true e =
          there (pending ++ (a ∷ [])) w2
            (appending-Kept gone calls pending a w1 e (timer_started-Kept gone calls pending w k))
            same
      by_test true true false false e =
          here (pending ++ (a ∷ [])) w2
            (appending-Kept gone calls pending a w1 e (timer_started-Kept gone calls pending w k))
            same
