-- ===== src/Producer/Service/Accounts.antt =====
-- What `run_producer` (producer/service.py) has handed to the broker, against its counters.
use tickstream_streaming_lak.Prelude.{
  Option, ℕ, ◌+◌, ◌≡◌, refl, Bool, true, false, none, some, List, [], ◌∷◌, All, All-append,
  count_if, count_if-append, arith,
}
use tickstream_streaming_lak.Config.{Topics}
use tickstream_streaming_lak.Errors.{Exc}
use tickstream_streaming_lak.Py.{Double, Json, Runtime}
use tickstream_streaming_lak.Time.{Datetime}
use tickstream_streaming_lak.Schema.{MarketEvent}
use tickstream_streaming_lak.Normalize.Record.{Reject, Batch}
use tickstream_streaming_lak.Kafka.{Message, event, quarantine}
use tickstream_streaming_lak.Producer.Publisher.{topic_for_event, event_message}
use tickstream_streaming_lak.Producer.Service.Rule.{stream_loop_rule}
use tickstream_streaming_lak.Producer.Service.{
  Action, produce, flush, State, Options, did, quarantine_action, send_rejects, send_events,
  publish_batch, stream_loop,
}

module _ {F : Type 0} where
  abbrev pub is_event : Action F → Bool
  is_event (produce m) = elim m.body [ event e ↦ true | quarantine q ↦ false ]
  is_event a = false

  abbrev pub is_quarantine : Action F → Bool
  is_quarantine (produce m) = elim m.body [ event e ↦ false | quarantine q ↦ true ]
  is_quarantine a = false

  -- A message goes to the topic of its kind, and an event is keyed by its symbol.
  abbrev pub BodyIsRouted : Topics → Message F → Type 0
  BodyIsRouted topics m = elim m.body [
    | event e ↦ (m.topic ≡ topic_for_event topics e) × (m.key ≡ some e.symbol)
    | quarantine q ↦ (m.topic ≡ topics.quarantine) × (m.key ≡ none)
  ]

  abbrev pub IsRouted : Topics → Action F → Type 0
  IsRouted topics (produce m) = BodyIsRouted topics m
  IsRouted topics a = Unit

  -- The counters agree with the log, and every message in it went where it belongs.
  pub record IsAccounted (topics : Topics) (s : State F) : Type 0 where
    pub events : s.published ≡ count_if is_event s.log
    pub quarantines : s.quarantined ≡ count_if is_quarantine s.log
    pub routed : All (IsRouted topics) s.log

  pub did-IsAccounted :
      (topics : Topics) (a : Action F) (s : State F)
      → is_event a ≡ false
      → is_quarantine a ≡ false
      → IsRouted topics a
      → IsAccounted topics s
      → IsAccounted topics (did a s)
  did-IsAccounted topics a s e q h v = record {
    events = ground (arith, v.events, count_if-append is_event s.log (a ∷ []));
    quarantines = ground (arith, v.quarantines, count_if-append is_quarantine s.log (a ∷ []));
    routed = All-append (IsRouted topics) s.log (a ∷ []) v.routed (h, tt);
  }

  send_rejects-IsAccounted :
      (o : Options F) (rs : List (Reject F)) (s : State F)
      → IsAccounted o.settings.topics s
      → IsAccounted o.settings.topics (send_rejects o rs s)
  unfolding send_rejects
  send_rejects-IsAccounted o [] s v = v
  send_rejects-IsAccounted o ((reason, sub) ∷ rs) s v =
      let a = quarantine_action o s.quarantined (reason, sub) in
      send_rejects-IsAccounted o rs _ record {
        events = ground (arith, v.events, count_if-append is_event s.log (a ∷ []));
        quarantines = ground (arith, v.quarantines, count_if-append is_quarantine s.log (a ∷ []));
        routed = All-append (IsRouted o.settings.topics) s.log (a ∷ []) v.routed ((refl, refl), tt);
      }

  send_events-IsAccounted :
      (topics : Topics) (es : List (MarketEvent F)) (s : State F) (n : ℕ)
      → IsAccounted topics s
      → IsAccounted topics (send_events topics es (s, n)).0
  unfolding send_events
  send_events-IsAccounted topics [] s n v = v
  send_events-IsAccounted topics (e ∷ es) s n v =
      let a : Action F = produce (event_message (topic_for_event topics e) e) in
      send_events-IsAccounted topics es _ (n + 1) record {
        events = ground (arith, v.events, count_if-append is_event s.log (a ∷ []));
        quarantines = ground (arith, v.quarantines, count_if-append is_quarantine s.log (a ∷ []));
        routed = All-append (IsRouted topics) s.log (a ∷ []) v.routed ((refl, refl), tt);
      }

module _ {F : Type 0} ⦃d : Double F⦄ (r : Runtime F) (o : Options F) where
  abbrev pub Fine : State F → Type 0
  Fine = IsAccounted o.settings.topics

  pub flush-Fine : (s : State F) → Fine s → Fine (did flush s)
  flush-Fine s v = did-IsAccounted o.settings.topics flush s refl refl tt v

  publish_batch-Fine :
      (batch : Batch F) (s : State F) (n : ℕ) → Fine s → Fine (publish_batch r o batch (s, n)).0
  unfolding publish_batch
  publish_batch-Fine batch s n v =
      send_events-IsAccounted o.settings.topics batch.events (send_rejects o batch.rejects s) n
        (send_rejects-IsAccounted o batch.rejects s v)

  pub stream_loop-Fine :
      (msgs : List (Json F × Datetime)) (failure : Option Exc) (s : State F) (n : ℕ)
      → Fine s
      → Fine (stream_loop r o msgs failure (s, n)).1.0
  stream_loop-Fine msgs failure s n v =
      stream_loop_rule r o (λ s' n'. Fine s')
        (λ payload now batch s' n' e h. publish_batch-Fine batch s' n' h)
        (λ s' n' h. flush-Fine s' h) msgs failure s n v
