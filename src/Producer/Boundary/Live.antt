-- ===== src/Producer/Boundary/Live.antt =====
-- What the live producer (src/tickstream/producer/service.py) hands to the broker is admitted.
use tickstream_streaming_lak.Prelude.{
  ℕ, ◌+◌, String, ◌≡◌, Option, none, some, List, [], ◌∷◌, All, All-append, if◌then◌else◌,
}
use tickstream_streaming_lak.Prelude.Eq.{◌==◌, string_eq}
use tickstream_streaming_lak.Errors.{ok, Returns, Returns-bind, Returns-then}
use tickstream_streaming_lak.Config.{Settings}
use tickstream_streaming_lak.Py.{Double, Runtime}
use tickstream_streaming_lak.Schema.{MarketEvent}
use tickstream_streaming_lak.Normalize.Record.{Reject}
use tickstream_streaming_lak.Normalize.Accepted.{IsCaughtReject}
use tickstream_streaming_lak.Normalize.Dispatch.{build_symbol_map}
use tickstream_streaming_lak.Kafka.{Created, ensure_topics}
use tickstream_streaming_lak.Producer.Boundary.{
  LeadsHome, build_symbol_map-LeadsHome, IsAdmitted, IsClean, normalize_safe-IsAdmitted,
}
use tickstream_streaming_lak.Producer.Publisher.{topic_for_event, event_message}
use tickstream_streaming_lak.Producer.Service.{
  Action, produce, connect, flush, sleep, Connection, State, Outcome, Options, did,
  quarantine_action, send_rejects, send_events, publish_batch, stream_loop, idle, run_producer,
  start_producer,
}
use tickstream_streaming_lak.Producer.Service.Rule.{IsInvariant, serve_rule, stream_loop_rule}

module _ {F : Type 0} ⦃d : Double F⦄ where
  abbrev pub IsCleanAction : Settings → Action F → Type 0
  IsCleanAction settings (produce m) = IsClean settings m
  IsCleanAction settings a = Unit

  -- Everything that was handed to the broker is clean.
  abbrev pub KeepsBoundary : Settings → State F → Type 0
  KeepsBoundary settings s = All (IsCleanAction settings) s.log

module _ {F : Type 0} ⦃d : Double F⦄ (r : Runtime F) (o : Options F)
    (home : LeadsHome o.settings.source.symbols o.symbol_map) where
  abbrev Fine : State F → Type 0
  Fine = KeepsBoundary o.settings

  did-Fine : (a : Action F) (s : State F) → IsCleanAction o.settings a → Fine s → Fine (did a s)
  did-Fine a s c h = All-append (IsCleanAction o.settings) s.log (a ∷ []) h (c, tt)

  send_rejects-Fine :
      (rs : List (Reject F)) (s : State F)
      → All IsCaughtReject rs
      → Fine s
      → Fine (send_rejects o rs s)
  unfolding send_rejects
  send_rejects-Fine [] s c h = h
  send_rejects-Fine ((reason, sub) ∷ rs) s (c, cs) h =
      send_rejects-Fine rs _ cs (did-Fine (quarantine_action o s.quarantined (reason, sub)) s c h)

  send_events-Fine :
      (es : List (MarketEvent F)) (s : State F) (n : ℕ)
      → All (IsAdmitted o.settings) es
      → Fine s
      → Fine (send_events o.settings.topics es (s, n)).0
  unfolding send_events
  send_events-Fine [] s n c h = h
  send_events-Fine (e ∷ es) s n (c, cs) h =
      send_events-Fine es _ (n + 1) cs
        (did-Fine (produce (event_message (topic_for_event o.settings.topics e) e)) s c h)

  stream_loop-Fine :
      (c : Connection F) (s : State F)
      → Fine s
      → let (flow, acc) = stream_loop r o c.messages c.failure (did connect s, 0) in Fine acc.0
  unfolding publish_batch
  stream_loop-Fine c s h =
      stream_loop_rule r o (λ s' n. Fine s')
        (λ payload now batch s' n e k.
          let (events, rejects) =
            normalize_safe-IsAdmitted r o.settings now o.exchange o.symbol_map payload batch home
              e in
          send_events-Fine batch.events (send_rejects o batch.rejects s') n events
            (send_rejects-Fine batch.rejects s' rejects k))
        (λ s' n k. did-Fine flush s' tt k) c.messages c.failure (did connect s) 0
        (did-Fine connect s tt h)

  boundary_rule : IsInvariant r o (λ cs s. Fine s) (λ cs flow s n. Fine s) (λ out s. Fine s)
  boundary_rule = record {
    at_end = λ s h. h;
    no_client = λ c cs s x h e. did-Fine flush s tt h;
    streams = λ c cs s h. stream_loop-Fine c s h;
    flushed = λ cs s n h. did-Fine flush s tt h;
    finishes = λ cs s n h. did-Fine flush s tt h;
    raises = λ cs x s n h. did-Fine flush s tt h;
    gives_up = λ cs s n h b. did-Fine flush s tt h;
    no_delay = λ cs s n x h b e. did-Fine flush s tt h;
    resumes = λ cs s n delay h b e. did-Fine (sleep delay) s tt h;
  }

  run_producer-Fine : (connections : List (Connection F)) → Fine (run_producer r o connections).1
  unfolding run_producer
  run_producer-Fine connections = serve_rule r o _ _ _ boundary_rule connections idle tt

module _ {F : Type 0} ⦃d : Double F⦄ (r : Runtime F) where
  start_producer-Returns :
      (o : Options F) (creation : String → Created) (existing : List String)
      (exchange : Option String) (connections : List (Connection F))
      → Returns
          (λ done. KeepsBoundary o.settings done.1)
          (start_producer r o creation existing exchange connections)
  unfolding start_producer
  start_producer-Returns o creation existing exchange connections =
      let name : String = elim exchange [
        | none ↦ o.settings.source.exchange
        | some e ↦ if e == "" then o.settings.source.exchange else e
      ] in
      Returns-bind (LeadsHome o.settings.source.symbols) _ (build_symbol_map o.settings name) _
        (build_symbol_map-LeadsHome o.settings name)
        λ m home. Returns-then _ (ensure_topics creation existing _) _ λ created.
          run_producer-Fine r (record o { exchange = name; symbol_map = m }) home connections

  -- Whatever messages the exchange sends and however its streams end, by a close or by any
  -- exception: every event that the live producer
  -- has handed to the broker meets the contract of `MarketEvent` and has a configured symbol, and
  -- every quarantine record has one of NORMALIZE_ERRORS for a reason.
  pub start_producer-KeepsBoundary :
      (o : Options F) (creation : String → Created) (existing : List String)
      (exchange : Option String) (connections : List (Connection F)) (out : Outcome) (s : State F)
      → start_producer r o creation existing exchange connections ≡ ok (out, s)
      → All (IsCleanAction o.settings) s.log
  start_producer-KeepsBoundary o creation existing exchange connections out s h =
      rw h at (start_producer-Returns o creation existing exchange connections)
