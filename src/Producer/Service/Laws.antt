-- ===== src/Producer/Service/Laws.antt =====
-- How `run_producer` (producer/service.py) ends, and what it has done by then.
use tickstream_streaming_lak.Prelude.{
  String, Option, ℕ, ◌+◌, ◌≤◌, ◌<◌, ◌≡◌, refl, some, List, [], ◌∷◌, ◌++◌, length, ltb, arith,
}
use tickstream_streaming_lak.Errors.{Returns, Returns-then}
use tickstream_streaming_lak.Py.{Double, Runtime}
use tickstream_streaming_lak.Schema.{MarketEvent}
use tickstream_streaming_lak.Normalize.Record.{Reject}
use tickstream_streaming_lak.Kafka.{Created, ensure_topics}
use tickstream_streaming_lak.Normalize.Dispatch.{build_symbol_map}
use tickstream_streaming_lak.Producer.Service.{
  start_producer, Action, connect, flush, sleep, Connection, State, Outcome, running, returned,
  Options, did, send_rejects, send_events, exceeded, publish_batch, stream_loop, idle, run_producer,
}
use tickstream_streaming_lak.Producer.Service.Rule.{IsInvariant, serve_rule, stream_loop_rule}
use tickstream_streaming_lak.Producer.Service.Accounts.{
  IsAccounted, Fine, did-IsAccounted, flush-Fine, stream_loop-Fine,
}

abbrev pub HasEnded : Outcome → Type 0
HasEnded running = ⊥
HasEnded out = Unit

-- A return value is the number of the events published.
abbrev pub Reports : {F : Type 0} → Outcome → State F → Type 0
Reports (returned n) s = n ≡ s.published
Reports out s = Unit

-- Once the producer has ended, its last action is a flush.
abbrev pub EndsFlushed : {F : Type 0} → Outcome → State F → Type 0
EndsFlushed running s = Unit
EndsFlushed {F} out s = (before : List (Action F)) × (s.log ≡ before ++ (flush ∷ []))

module _ {F : Type 0} ⦃d : Double F⦄ (r : Runtime F) (o : Options F) where
  abbrev IsDone : Outcome → State F → Type 0
  IsDone out s = IsAccounted o.settings.topics s × Reports out s × EndsFlushed out s

  -- The counters of the reconnects do not matter to the accounts.
  recount-Fine :
      (s : State F) (k a : ℕ) → Fine r o s → Fine r o (record s { reconnects = k; attempt = a })
  recount-Fine s k a v = record {
    events = v.events;
    quarantines = v.quarantines;
    routed = v.routed;
  }

  account_rule : IsInvariant r o (λ cs s. Fine r o s) (λ cs flow s n. Fine r o s) IsDone
  account_rule = record {
    at_end = λ s v. (v, tt, tt);
    no_client = λ c cs s x v e. (flush-Fine r o s v, tt, (s.log, refl));
    streams = λ c cs s v.
        stream_loop-Fine r o c.messages c.failure (did connect s) 0
          (did-IsAccounted o.settings.topics connect s refl refl tt v);
    flushed = λ cs s n v. flush-Fine r o s v;
    finishes = λ cs s n v. (flush-Fine r o s v, refl, (s.log, refl));
    raises = λ cs x s n v. (flush-Fine r o s v, tt, (s.log, refl));
    gives_up = λ cs s n v b. (flush-Fine r o _ (recount-Fine s _ s.attempt v), refl, (s.log, refl));
    no_delay =
        λ cs s n x v b e. (flush-Fine r o _ (recount-Fine s _ s.attempt v), tt, (s.log, refl));
    resumes = λ cs s n delay v b e.
        did-IsAccounted o.settings.topics (sleep delay) _ refl refl tt (recount-Fine s _ _ v);
  }

  -- Whatever messages the exchange sends and however its streams end, by a close or by any
  -- exception: the producer has counted as published exactly the events and as
  -- quarantined exactly the rejects that it handed to the broker, each event on the topic of its
  -- type with its symbol for a key, each reject on the quarantine topic; the number it returns is
  -- that of the events published; and if it has ended, by a return or by an exception, its last
  -- action was a flush.
  pub run_producer-IsDone :
      (connections : List (Connection F))
      → let (out, s) = run_producer r o connections in
        IsAccounted o.settings.topics s × Reports out s × EndsFlushed out s
  unfolding run_producer
  run_producer-IsDone connections =
      serve_rule r o _ _ IsDone account_rule connections idle
        record { events = refl; quarantines = refl; routed = tt }

  -- A connection changes neither the number of the reconnects nor the attempt.
  abbrev Frame : ℕ → ℕ → State F → ℕ → Type 0
  Frame k a s n = (s.reconnects ≡ k) × (s.attempt ≡ a)

  send_rejects-Frame :
      (rs : List (Reject F)) (s : State F)
      → ((send_rejects o rs s).reconnects ≡ s.reconnects)
        × ((send_rejects o rs s).attempt ≡ s.attempt)
  unfolding send_rejects
  send_rejects-Frame [] s = (refl, refl)
  send_rejects-Frame (x ∷ rs) s = send_rejects-Frame rs _

  send_events-Frame :
      (es : List (MarketEvent F)) (s : State F) (n : ℕ)
      → let s' = (send_events o.settings.topics es (s, n)).0 in
        (s'.reconnects ≡ s.reconnects) × (s'.attempt ≡ s.attempt)
  unfolding send_events
  send_events-Frame [] s n = (refl, refl)
  send_events-Frame (e ∷ es) s n = send_events-Frame es _ (n + 1)

  stream_loop-Frame :
      (c : Connection F) (s : State F)
      → let (s', n) = (stream_loop r o c.messages c.failure (did connect s, 0)).1 in
        Frame s.reconnects s.attempt s' n
  unfolding publish_batch
  stream_loop-Frame c s =
      stream_loop_rule r o (Frame s.reconnects s.attempt)
        (λ payload now batch s' n e h.
          let a = send_rejects-Frame batch.rejects s' in
          let b = send_events-Frame batch.events (send_rejects o batch.rejects s') n in
          omega (arith, a, b, h))
        (λ s' n h. h) c.messages c.failure (did connect s) 0 (refl, refl)

  module _ (m : ℕ) (limit : o.max_reconnects ≡ some m) where
    exceeded_lem : (k : ℕ) → exceeded o.max_reconnects k ≡ ltb m k
    unfolding exceeded
    exceeded_lem k = rw limit

    limit_rule :
        IsInvariant r o
          (λ cs s. (s.reconnects ≤ m) × (m < s.reconnects + length cs))
          (λ cs flow s n. (s.reconnects ≤ m) × (m < s.reconnects + 1 + length cs))
          (λ out s. HasEnded out × (s.reconnects ≤ m + 1))
    limit_rule = record {
      at_end = λ s h. absurd (omega arith);
      no_client = λ c cs s x h e. (tt, omega arith);
      streams = λ c cs s h. omega (arith, stream_loop-Frame c s);
      flushed = λ cs s n h. h;
      finishes = λ cs s n h. (tt, omega arith);
      raises = λ cs x s n h. (tt, omega arith);
      gives_up = λ cs s n h b. (tt, omega arith);
      no_delay = λ cs s n x h b e. (tt, omega arith);
      resumes = λ cs s n delay h b e.
          let le : s.reconnects + 1 ≤ m = ground (arith, b, exceeded_lem (s.reconnects + 1)) in
          omega arith;
    }

    -- With a limit of `m` reconnects the producer has ended before it would open connection
    -- number m + 2, whether the connections failed, were closed or delivered messages, and it has
    -- counted at most m + 1 reconnects.
    pub run_producer-ends :
        (connections : List (Connection F))
        → m < length connections
        → let (out, s) = run_producer r o connections in HasEnded out × (s.reconnects ≤ m + 1)
    unfolding run_producer
    run_producer-ends connections h = serve_rule r o _ _ _ limit_rule connections idle (omega arith)

module _ {F : Type 0} ⦃d : Double F⦄ (r : Runtime F) where
  -- The same of the whole function, when its set-up succeeds.
  start_producer-IsDone :
      (o : Options F) (creation : String → Created) (existing : List String)
      (exchange : Option String) (connections : List (Connection F))
      → Returns
          (λ done. IsDone r o done.0 done.1)
          (start_producer r o creation existing exchange connections)
  unfolding start_producer
  start_producer-IsDone o creation existing exchange connections =
      Returns-then _ (build_symbol_map o.settings _) _ λ m.
        Returns-then _ (ensure_topics creation existing _) _
          λ created. run_producer-IsDone r (record o { exchange = _; symbol_map = m }) connections
