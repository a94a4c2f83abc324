-- ===== src/Producer/Publisher/Laws.antt =====
-- What `publish_events` (producer/publisher.py) has produced when it returns.
use tickstream_streaming_lak.Prelude.{
  ℕ, String, ◌≡◌, refl, Bool, true, false, Option, List, [], ◌∷◌, map, length, if◌then◌else◌, ltb,
  arith, inl, inr, Bool-cases,
}
use tickstream_streaming_lak.Prelude.Eq.{string_eq}
use tickstream_streaming_lak.Errors.{runtime_error, ok, err, Returns, Returns-then}
use tickstream_streaming_lak.Config.{Topics, Settings}
use tickstream_streaming_lak.Kafka.{Message, ensure_topics}
use tickstream_streaming_lak.Schema.{MarketEvent}
use tickstream_streaming_lak.Producer.Publisher.{
  Broker, destination, event_message, targets, produce_events, publish_events,
}

module _ {F : Type 0} where
  -- Every message is that of its event, on its destination.
  abbrev pub messages_of : Topics → Option String → List (MarketEvent F) → List (Message F)
  messages_of topics topic events = map (λ e. event_message (destination topics topic e) e) events

  produce_events_lem :
      (topics : Topics) (topic : Option String) (events : List (MarketEvent F))
      → produce_events topics topic events ≡ (messages_of topics topic events, length events)
  unfolding produce_events
  produce_events_lem topics topic [] = refl
  produce_events_lem topics topic (e ∷ es) = rw (produce_events_lem topics topic es) refl

  abbrev pub IsPublished :
      Settings
      → Broker F
      → List (MarketEvent F)
      → Option String
      → Bool
      → List (Message F) × ℕ
      → Type 0
  IsPublished settings broker events topic flush (messages, count) =
      (messages ≡ messages_of settings.topics topic events)
      × (count ≡ length events)
      × (flush ≡ true → broker.remaining messages ≡ 0)

  publish_events-Returns :
      (settings : Settings) (broker : Broker F) (events : List (MarketEvent F))
      (topic : Option String) (ensure flush : Bool)
      → Returns
          (IsPublished settings broker events topic flush)
          (publish_events settings broker events topic ensure flush)
  unfolding publish_events
  publish_events-Returns settings broker events topic ensure flush =
      Returns-then _
        (if ensure
          then ensure_topics broker.creation broker.existing (targets settings.topics topic events)
          else ok [])
        _ λ created. go flush
    where
      made : List (Message F) × ℕ
      made = produce_events settings.topics topic events

      sent : made.0 ≡ messages_of settings.topics topic events
      sent = rw (produce_events_lem settings.topics topic events) refl

      counted : made.1 ≡ length events
      counted = rw (produce_events_lem settings.topics topic events) refl

      go :
          (flush : Bool)
          → Returns (IsPublished settings broker events topic flush) (
              if flush
              then (if ltb 0 (broker.remaining made.0)
                  then err runtime_error
                  else ok (made.0, made.1))
              else ok (made.0, made.1))
      go false = (sent, counted, (λ h. cc))
      go true = elim (Bool-cases (ltb 0 (broker.remaining made.0))) [
        | inl b ↦ rw b tt
        | inr b ↦ rw b (sent, counted, (λ h. ground (arith, b)))
      ]

  -- When `publish_events` returns, it has produced one message for each event, in their order, on
  -- the forced topic or that of the event's type and with its symbol for a key, the result is their
  -- number, and after a flush none of them is undelivered.
  pub publish_events-IsPublished :
      (settings : Settings) (broker : Broker F) (events : List (MarketEvent F))
      (topic : Option String) (ensure flush : Bool) (messages : List (Message F)) (count : ℕ)
      → publish_events settings broker events topic ensure flush ≡ ok (messages, count)
      → IsPublished settings broker events topic flush (messages, count)
  publish_events-IsPublished settings broker events topic ensure flush messages count h =
      rw h at (publish_events-Returns settings broker events topic ensure flush)
