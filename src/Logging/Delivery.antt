-- ===== src/Logging/Delivery.antt =====
-- What becomes of the objects that the log buffer is given.
use orijs.Common.{
  ℕ, zero, suc, ◌≡◌, refl, sym, ap, ◌∙◌, subst, ◌+◌, All, Option, none, some, Bool, true, false,
  ◌&&◌, is_some, List, [], ◌∷◌, ◌++◌, map, length, append_assoc, append-nil, ◌==◌, if◌then◌else◌,
  arith,
}
use orijs.Logging.{
  LogObject, logged, overflow_warning, Json, World, stop_timer, output_of, split_lines, filled,
  write_by, reacting, send_each, send_lines, warned, written, flush_free, flush, write, shutdown,
  Call, writes, flushes, ticks, shuts_down, configures, resolves, resets, perform, perform_all,
  on_logged, LogBuffer, LogBufferOptions, configure,
}
use orijs.Logging.Lines.{
  dispatch, logged_of, reported, logged_of-append, reported-append, logged_of-logged,
  reported-logged, text_of, filled-text_of,
}
use orijs.Logging.Kept.{Kept, Some, write_by-Kept}

-- Neither a reset, which throws away what is in the buffer, nor a change of the transports.
abbrev pub Keeps : {A T : Type 0} → Call A T → Type 0
Keeps (resolves given) = ⊥
Keeps resets = ⊥
Keeps _ = Unit

module _ {A T : Type 0} (json : Json A) (react : T → LogObject A → List A) (console : T)
    (ts : List T) where
  reacting-Kept :
      (gone : List (LogObject A)) (calls : List (T × LogObject A)) (logs : List A) (w : World A T)
      → Some json console ts gone calls w
      → Some json console ts gone calls (reacting json react logs w)
  unfolding reacting
  reacting-Kept gone calls [] w k = k
  reacting-Kept gone calls (a ∷ logs) w k =
      by_result (write_by json (λ v. v) a w).0
        (write_by-Kept json console ts (Some json console ts gone calls) (λ v. v) gone calls k.0 a w
          k.1 (λ p v h e. (p, h)) (λ p v h e. (p, h)))
        (λ h. reacting-Kept gone calls logs (write_by json (λ v. v) a w).1 h)
    where
      by_result :
          {v : World A T} (o : Option Bool)
          → Some json console ts gone calls v
          → (Some json console ts gone calls v
              → Some json console ts gone calls (reacting json react logs v))
          → Some json console ts gone calls
              (elim o [ none ↦ v | some handled ↦ reacting json react logs v ])
      by_result none h next = h
      by_result (some handled) h next = next h

  send_each-Kept :
      (gone : List (LogObject A)) (calls : List (T × LogObject A)) (to : List T) (l : LogObject A)
      (w : World A T)
      → Some json console ts gone calls w
      → Some json console ts gone (calls ++ map (λ t. (t, l)) to) (send_each json react to l w)
  unfolding send_each
  send_each-Kept gone calls [] l w k =
      subst (λ c. Some json console ts gone c w) (sym (append-nil calls)) k
  send_each-Kept gone calls (t ∷ to) l w k =
      subst (λ c. Some json console ts gone c (send_each json react to l w1))
        (append_assoc calls ((t, l) ∷ []) (map (λ t. (t, l)) to))
        (send_each-Kept gone (calls ++ ((t, l) ∷ [])) to l w1 (
          reacting-Kept gone (calls ++ ((t, l) ∷ [])) (react t l)
            (record w { sent = w.sent ++ ((t, l) ∷ []) }) (k.0, sent_one k.1)))
    where
      w1 : World A T
      w1 = reacting json react (react t l) (record w { sent = w.sent ++ ((t, l) ∷ []) })

      sent_one :
          {pending : List A}
          → Kept json console ts gone calls pending w
          → Kept json console ts gone
              (calls ++ ((t, l) ∷ []))
              pending
              (record w { sent = w.sent ++ ((t, l) ∷ []) })
      sent_one k = record {
        buffered = k.buffered;
        in_order = k.in_order;
        counted = k.counted;
        called = ap (λ c. c ++ ((t, l) ∷ [])) k.called;
        readable = k.readable;
        resolved = k.resolved;
      }

  send_lines-Kept :
      (gone : List (LogObject A)) (calls : List (T × LogObject A)) (ls : List (LogObject A))
      (w : World A T)
      → Some json console ts gone calls w
      → Some json console ts gone
          (calls ++ dispatch json ts ls)
          (send_lines json react ts (map json.stringify ls) w)
  unfolding send_lines
  send_lines-Kept gone calls [] w k =
      subst (λ c. Some json console ts gone c w) (sym (append-nil calls)) k
  send_lines-Kept gone calls (l ∷ ls) w k =
      rw (send_lines, json.parse-stringify l)
        (subst
          (λ c. Some json console ts gone c (
            send_lines json react ts (map json.stringify ls)
              (send_each json react ts (on_logged json.parsed l) w)))
          (append_assoc calls (map (λ t. (t, on_logged json.parsed l)) ts) (dispatch json ts ls))
          (send_lines-Kept gone (calls ++ map (λ t. (t, on_logged json.parsed l)) ts) ls
            (send_each json react ts (on_logged json.parsed l) w)
            (send_each-Kept gone calls ts (on_logged json.parsed l) w k)))

  -- Between calls nothing is being written, and what was taken off the buffer was delivered.
  pub record Ready (w : World A T) : Type 0 where
    pub gone : List (LogObject A)
    pub pending : List A
    pub kept : Kept json console ts gone (dispatch json ts gone) pending w
    pub idle : w.manager.writing ≡ false

  dispatch-append :
      (xs ys : List (LogObject A))
      → dispatch json ts (xs ++ ys) ≡ dispatch json ts xs ++ dispatch json ts ys
  dispatch-append [] ys = refl
  dispatch-append (x ∷ xs) ys =
      ap (λ l. map (λ t. (t, on_logged json.parsed x)) ts ++ l) (dispatch-append xs ys)
      ∙ sym (
          append_assoc (map (λ t. (t, on_logged json.parsed x)) ts) (dispatch json ts xs)
            (dispatch json ts ys))

  -- The objects that a flush takes: the warning, if there is one, and those in the buffer.
  taken : ℕ → ℕ → List A → List (LogObject A)
  taken now zero pending = map logged pending
  taken now (suc n) pending = overflow_warning now (suc n) ∷ map logged pending

  warned-text_of :
      (now n : ℕ) (pending : List A)
      → warned json now n (text_of json (map logged pending)) ≡ text_of json (taken now n pending)
  unfolding taken
  warned-text_of now zero pending = refl
  warned-text_of now (suc n) pending = refl

  logged_of-taken : (now n : ℕ) (pending : List A) → logged_of (taken now n pending) ≡ pending
  unfolding taken
  logged_of-taken now zero pending = logged_of-logged pending
  logged_of-taken now (suc n) pending = logged_of-logged pending

  reported-taken : (now n : ℕ) (pending : List A) → reported (taken now n pending) ≡ n
  unfolding taken
  reported-taken now zero pending = reported-logged pending
  reported-taken now (suc n) pending = omega (arith, reported-logged pending)

  flush_free-Ready :
      (now : ℕ) (w : World A T) → Ready w → Ready (flush_free json react console now w)
  flush_free-Ready now w r =
      by_test ((length w.manager.buffer == 0) && (w.manager.dropped_count == 0)) refl
    where
      k : Kept json console ts r.gone (dispatch json ts r.gone) r.pending w
      k = r.kept

      ls : List (LogObject A)
      ls = taken now w.manager.dropped_count r.pending

      w1 : World A T
      w1 = record w {
        manager = record w.manager { dropped_count = 0; writing = true; buffer = [] };
      }

      off : Kept json console ts (r.gone ++ ls) (dispatch json ts r.gone) [] w1
      off = record {
        buffered = refl;
        in_order =
            k.in_order
            ∙ ap (λ l. logged_of r.gone ++ l)
                (sym (logged_of-taken now w.manager.dropped_count r.pending))
            ∙ sym (logged_of-append r.gone ls)
            ∙ sym (append-nil (logged_of (r.gone ++ ls)));
        counted = omega (
          arith,
          k.counted,
          reported-append r.gone ls,
          reported-taken now w.manager.dropped_count r.pending,
        );
        called = k.called;
        readable = k.readable;
        resolved = k.resolved;
      }

      same_lines :
          filled (split_lines (warned json now w.manager.dropped_count w.manager.buffer))
          ≡ map json.stringify ls
      same_lines =
          ap (λ b. filled (split_lines (warned json now w.manager.dropped_count b))) k.buffered
          ∙ ap (λ t. filled (split_lines t)) (warned-text_of now w.manager.dropped_count r.pending)
          ∙ filled-text_of json ls

      sent_all :
          Some json console ts
            (r.gone ++ ls)
            (dispatch json ts r.gone ++ dispatch json ts ls)
            (send_lines json react ts (map json.stringify ls) w1)
      sent_all = send_lines-Kept (r.gone ++ ls) (dispatch json ts r.gone) ls w1 ([], off)

      finish :
          {v : World A T}
          → Some json console ts (r.gone ++ ls) (dispatch json ts (r.gone ++ ls)) v
          → Ready (written v)
      finish (pending, k) = record {
        gone = r.gone ++ ls;
        pending = pending;
        idle = refl;
        kept = record {
          buffered = k.buffered;
          in_order = k.in_order;
          counted = k.counted;
          called = k.called;
          readable = k.readable;
          resolved = k.resolved;
        };
      }

      by_test :
          (b : Bool)
          → ((length w.manager.buffer == 0) && (w.manager.dropped_count == 0)) ≡ b
          → Ready (
              if b
              then record w { manager = record w.manager { dropped_count = 0 } }
              else written (
                  send_lines json react
                    (output_of console w.manager.transport_resolver)
                    (filled
                      (split_lines (warned json now w.manager.dropped_count w.manager.buffer)))
                    w1))
      by_test true e = record {
        gone = r.gone;
        pending = r.pending;
        idle = r.idle;
        kept = record {
          buffered = k.buffered;
          in_order = k.in_order;
          counted = ground (arith, e, k.counted);
          called = k.called;
          readable = k.readable;
          resolved = k.resolved;
        };
      }
      by_test false e =
          subst
            (λ o. Ready (
              written (
                send_lines json react o
                  (filled (split_lines (warned json now w.manager.dropped_count w.manager.buffer)))
                  w1)))
            (sym k.resolved)
            (subst (λ t. Ready (written (send_lines json react ts t w1))) (sym same_lines)
              (finish (
                subst
                  (λ c.
                    Some json console ts (r.gone ++ ls) c
                      (send_lines json react ts (map json.stringify ls) w1))
                  (sym (dispatch-append r.gone ls)) sent_all)))

  flush-Ready : (now : ℕ) (w : World A T) → Ready w → Ready (flush json react console now w)
  unfolding flush
  flush-Ready now w r = by_test w.manager.writing
    where
      by_test : (b : Bool) → Ready (if b then w else flush_free json react console now w)
      by_test true = r
      by_test false = flush_free-Ready now w r

  write-Ready :
      (now : ℕ) (a : A) (w : World A T) → Ready w → Ready (write json react console now a w).1
  unfolding write
  write-Ready now a w r =
      write_by-Kept json console ts Ready (flush json react console now) r.gone
        (dispatch json ts r.gone) r.pending a w r.kept (λ p v k e. ready k e)
        (λ p v k e. flush-Ready now v (ready k e))
    where
      ready :
          {p : List A} {v : World A T}
          → Kept json console ts r.gone (dispatch json ts r.gone) p v
          → v.manager.writing ≡ w.manager.writing
          → Ready v
      ready k e = record { gone = r.gone; pending = _; kept = k; idle = e ∙ r.idle }

  pub shutdown-Ready :
      (now : ℕ) (w : World A T) → Ready w → Ready (shutdown json react console now w)
  unfolding shutdown
  shutdown-Ready now w r =
      let k = r.kept in
      flush-Ready now (record w { manager = stop_timer w.manager })
        (record {
          gone = r.gone;
          pending = r.pending;
          idle = r.idle;
          kept = record {
            buffered = k.buffered;
            in_order = k.in_order;
            counted = k.counted;
            called = k.called;
            readable = k.readable;
            resolved = k.resolved;
          };
        })

  configure-keeps :
      (options : LogBufferOptions) (m : LogBuffer T)
      → ((configure options m).buffer ≡ m.buffer)
        × ((configure options m).dropped_count ≡ m.dropped_count)
        × ((configure options m).writing ≡ m.writing)
        × ((configure options m).transport_resolver ≡ m.transport_resolver)
  unfolding configure
  configure-keeps options m = (ground arith, ground arith, ground arith, ground arith)

  configure-Ready :
      (options : LogBufferOptions) (w : World A T)
      → Ready w
      → Ready (record w { manager = configure options w.manager })
  configure-Ready options w r =
      let k = r.kept in
      let (b, d, i, t) = configure-keeps options w.manager in
      record {
        gone = r.gone;
        pending = r.pending;
        idle = i ∙ r.idle;
        kept = record {
          buffered = b ∙ k.buffered;
          in_order = k.in_order;
          counted = k.counted ∙ ap (λ n. reported r.gone + n) (sym d);
          called = k.called;
          readable = k.readable;
          resolved = ap (output_of console) t ∙ k.resolved;
        };
      }

  perform-Ready :
      (c : Call A T) (w : World A T) → Keeps c → Ready w → Ready (perform json react console c w)
  perform-Ready (writes now a) w h r = write-Ready now a w r
  perform-Ready (flushes now) w h r = flush-Ready now w r
  perform-Ready (shuts_down now) w h r = shutdown-Ready now w r
  perform-Ready (configures options) w h r = configure-Ready options w r
  perform-Ready (resolves given) w h r = absurd h
  perform-Ready resets w h r = absurd h
  perform-Ready (ticks now) w h r = by_test (is_some w.manager.flush_timer)
    where
      by_test : (b : Bool) → Ready (if b then flush json react console now w else w)
      by_test true = flush-Ready now w r
      by_test false = r

  pub perform_all-Ready :
      (cs : List (Call A T)) (w : World A T)
      → All Keeps cs
      → Ready w
      → Ready (perform_all json react console cs w)
  unfolding perform_all
  perform_all-Ready [] w h r = r
  perform_all-Ready (c ∷ cs) w h r = perform_all-Ready cs _ h.1 (perform-Ready c w h.0 r)
