-- ===== src/Logging/Conservation.antt =====
-- What the log buffer promises: nothing that it accepted is lost, and what it dropped is reported.
use orijs.Common.{
  ℕ, ◌+◌, ◌≡◌, refl, sym, ap, ◌∙◌, Bool, true, false, ◌&&◌, Option, none, some, List, [], ◌∷◌, ◌++◌,
  map, All, length, length-append, ◌==◌, if◌then◌else◌, arith,
}
use orijs.Websocket.{Text}
use orijs.Logging.{
  LogObject, logged, Json, LogBuffer, World, stop_timer, output_of, split_lines, filled, line,
  reacting, send_each, send_lines, warned, written, flush, shutdown, Call, perform_all,
}
use orijs.Logging.Lines.{dispatch, logged_of, reported, text_of}
use orijs.Logging.Delivery.{Keeps, Ready, perform_all-Ready, shutdown-Ready}

-- A buffer that was configured and given transports, and has been given nothing yet.
abbrev pub fresh : {A T : Type 0} → LogBuffer T → World A T
fresh m = record {
  manager = record m { buffer = []; dropped_count = 0; writing = false };
  sent = [];
  unreadable = [];
  accepted = [];
  dropped = [];
}

-- What was taken off the buffer is `gone`, and what is in it is `pending`.
abbrev pub Accounted :
    {A T : Type 0} → Json A → List T → World A T → List (LogObject A) → List A → Type 0
Accounted json ts w gone pending =
    (w.sent ≡ dispatch json ts gone)
    × (w.accepted ≡ logged_of gone ++ pending)
    × (w.manager.buffer ≡ text_of json (map logged pending))
    × (length w.dropped ≡ reported gone + w.manager.dropped_count)
    × (w.unreadable ≡ [])

module _ {A T : Type 0} (json : Json A) (react : T → LogObject A → List A) (console : T) where
  fresh-Ready :
      (m : LogBuffer T)
      → Ready json react console (output_of console m.transport_resolver) (fresh m)
  fresh-Ready m = record {
    gone = [];
    pending = [];
    idle = refl;
    kept = record {
      buffered = refl;
      in_order = refl;
      counted = omega arith;
      called = refl;
      readable = refl;
      resolved = refl;
    };
  }

  run-Ready :
      (m : LogBuffer T) (cs : List (Call A T))
      → All Keeps cs
      → Ready json react console
          (output_of console m.transport_resolver)
          (perform_all json react console cs (fresh m))
  run-Ready m cs h =
      perform_all-Ready json react console (output_of console m.transport_resolver) cs (fresh m) h
        (fresh-Ready m)

  -- After any calls of a fresh buffer but `reset` and `setTransportResolver`, each transport was given
  -- what is left in JSON of each object that was taken off the buffer, in order. What `write` accepted is, in order, the logged ones of those and then what is
  -- in the buffer, and what it dropped is as much as the warnings report and the counter says. No line
  -- was unreadable. Transports may log while they are given an object.
  pub accepted_is_delivered :
      (m : LogBuffer T) (cs : List (Call A T))
      → All Keeps cs
      → (gone : List (LogObject A)) × (pending : List A) × Accounted json
          (output_of console m.transport_resolver)
          (perform_all json react console cs (fresh m))
          gone
          pending
  accepted_is_delivered m cs h =
      let r = run-Ready m cs h in
      let k = r.kept in
      (r.gone, r.pending, (k.called, k.in_order, k.buffered, k.counted, k.readable))

length-zero : {A : Type 0} (xs : List A) → length xs ≡ 0 → xs ≡ []
length-zero [] h = refl
length-zero (x ∷ xs) h = absurd (omega (arith, h))

no_text :
    {A : Type 0} (json : Json A) (pending : List A)
    → text_of json (map logged pending) ≡ []
    → pending ≡ []
no_text json [] h = refl
no_text json (a ∷ pending) h = absurd (
    omega (
      arith,
      ap length h,
      length-append (line json (logged a)) (text_of json (map logged pending)),
      length-append (json.stringify (logged a)) (10 ∷ []),
    ))

module _ {A T : Type 0} (json : Json A) (react : T → LogObject A → List A) (console : T)
    (quiet : (t : T) (l : LogObject A) → react t l ≡ []) where
  send_each-quiet :
      (ts : List T) (l : LogObject A) (w : World A T)
      → (send_each json react ts l w).manager ≡ w.manager
  unfolding send_each reacting
  send_each-quiet [] l w = refl
  send_each-quiet (t ∷ ts) l w =
      send_each-quiet ts l
        (reacting json react (react t l) (record w { sent = w.sent ++ ((t, l) ∷ []) }))
      ∙ ap
          (λ logs. (reacting json react logs (record w { sent = w.sent ++ ((t, l) ∷ []) })).manager)
          (quiet t l)

  send_lines-quiet :
      (ts : List T) (texts : List Text) (w : World A T)
      → (send_lines json react ts texts w).manager ≡ w.manager
  unfolding send_lines
  send_lines-quiet ts [] w = refl
  send_lines-quiet ts (text ∷ rest) w = by_parse (json.parse text) (λ v. send_lines-quiet ts rest v)
    where
      by_parse :
          (o : Option (LogObject A))
          → ((v : World A T) → (send_lines json react ts rest v).manager ≡ v.manager)
          → (send_lines json react ts rest (elim o [
            | none ↦ record w { unreadable = w.unreadable ++ (text ∷ []) }
            | some l ↦ send_each json react ts l w
          ])).manager
            ≡ w.manager
      by_parse none rec = rec (record w { unreadable = w.unreadable ++ (text ∷ []) })
      by_parse (some l) rec = rec (send_each json react ts l w) ∙ send_each-quiet ts l w

  flush-empties :
      (now : ℕ) (w : World A T)
      → w.manager.writing ≡ false
      → ((flush json react console now w).manager.buffer ≡ [])
        × ((flush json react console now w).manager.dropped_count ≡ 0)
  unfolding flush
  flush-empties now w idle =
      by_tests w.manager.writing ((length w.manager.buffer == 0) && (w.manager.dropped_count == 0))
        idle refl
    where
      w1 : World A T
      w1 = record w {
        manager = record w.manager { dropped_count = 0; writing = true; buffer = [] };
      }

      texts : List Text
      texts = filled (split_lines (warned json now w.manager.dropped_count w.manager.buffer))

      to : List T
      to = output_of console w.manager.transport_resolver

      result : Bool → Bool → World A T
      result b c =
          if b
          then w
          else (if c
              then record w { manager = record w.manager { dropped_count = 0 } }
              else written (send_lines json react to texts w1))

      by_tests :
          (b c : Bool)
          → b ≡ false
          → ((length w.manager.buffer == 0) && (w.manager.dropped_count == 0)) ≡ c
          → ((result b c).manager.buffer ≡ []) × ((result b c).manager.dropped_count ≡ 0)
      by_tests true c h e = cc
      by_tests false true h e = (length-zero w.manager.buffer (ground (arith, e)), refl)
      by_tests false false h e = (
        ap (λ (m : LogBuffer T). m.buffer) (send_lines-quiet to texts w1),
        ap (λ (m : LogBuffer T). m.dropped_count) (send_lines-quiet to texts w1),
      )

  -- After any calls of a fresh buffer but `reset` and `setTransportResolver`, and `shutdown`, with
  -- transports that do not log, everything that `write` accepted was given to each transport, in order
  -- and as JSON leaves it, nothing is in the buffer, and every dropped log was reported.
  pub shutdown_delivers :
      (m : LogBuffer T) (cs : List (Call A T)) (now : ℕ)
      → All Keeps cs
      → (gone : List (LogObject A)) × Accounted json
          (output_of console m.transport_resolver)
          (shutdown json react console now (perform_all json react console cs (fresh m)))
          gone
          []
        × ((shutdown json react console now
              (perform_all json react console cs (fresh m))).manager.dropped_count
            ≡ 0)
  unfolding shutdown
  shutdown_delivers m cs now h =
      let r0 = run-Ready json react console m cs h in
      let r = shutdown-Ready json react console (output_of console m.transport_resolver) now w r0 in
      let k = r.kept in
      let (e, d) = flush-empties now (record w { manager = stop_timer w.manager }) r0.idle in
      let p = no_text json r.pending (sym k.buffered ∙ e) in
      (
        r.gone,
        (k.called, k.in_order ∙ ap (λ l. logged_of r.gone ++ l) p, e, k.counted, k.readable),
        d,
      )
    where
      w : World A T
      w = perform_all json react console cs (fresh m)
