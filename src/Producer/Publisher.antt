-- ===== src/Producer/Publisher.antt =====
-- producer/publisher.py: the route of an event, and the publication of a list of events.
pub mod Laws
pub mod Partitions
use tickstream_streaming_lak.Prelude.{
  ℕ, suc, String, Bool, Option, none, some, List, [], ◌∷◌, map, if◌then◌else◌, ltb,
}
use tickstream_streaming_lak.Prelude.Eq.{◌==◌, string_eq}
use tickstream_streaming_lak.Prelude.Group.{distinct}
use tickstream_streaming_lak.Errors.{Result, ok, err, runtime_error, ◌>>=◌}
use tickstream_streaming_lak.Config.{Topics, Settings}
use tickstream_streaming_lak.Kafka.{Message, event, Created, ensure_topics}
use tickstream_streaming_lak.Schema.{MarketEvent, is_ticker}

-- What the broker answers: the topics it has, a creation, and what a flush leaves undelivered.
pub record Broker (F : Type 0) : Type 0 where
  pub existing : List String
  pub creation : String → Created
  pub remaining : List (Message F) → ℕ

module _ {F : Type 0} where
  unfoldable pub topic_for_event : Topics → MarketEvent F → String
  topic_for_event topics e = if is_ticker e.event_type then topics.ticker_raw else topics.trades_raw

  -- `topic or topic_for_event(settings, event)`: an empty name counts as none
  unfoldable pub destination : Topics → Option String → MarketEvent F → String
  destination topics none e = topic_for_event topics e
  destination topics (some t) e = if t == "" then topic_for_event topics e else t

  -- The message of an event: its key is its symbol.
  abbrev pub event_message : String → MarketEvent F → Message F
  event_message topic e = record { topic = topic; key = some e.symbol; body = event e }

  -- The topics to create first: the forced one, or those of the events.
  unfoldable pub targets : Topics → Option String → List (MarketEvent F) → List String
  targets topics none events = distinct (map (topic_for_event topics) events)
  targets topics (some t) events =
      if t == "" then distinct (map (topic_for_event topics) events) else t ∷ []

  -- The loop: each event is produced, and counted.
  unfoldable pub produce_events :
      Topics → Option String → List (MarketEvent F) → List (Message F) × ℕ
  produce_events topics topic [] = ([], 0)
  produce_events topics topic (e ∷ es) =
      let (rest, count) = produce_events topics topic es in
      (event_message (destination topics topic e) e ∷ rest, suc count)

  unfoldable pub publish_events :
      Settings
      → Broker F
      → List (MarketEvent F)
      → Option String
      → Bool
      → Bool
      → Result (List (Message F) × ℕ)
  publish_events settings broker events topic ensure flush = do
    created ←
        if ensure
        then ensure_topics broker.creation broker.existing (targets settings.topics topic events)
        else ok []
    let (messages, count) = produce_events settings.topics topic events
    if flush
        then (if ltb 0 (broker.remaining messages) then err runtime_error else ok (messages, count))
        else ok (messages, count)
