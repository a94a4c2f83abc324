-- ===== src/Tests/BrokerRuns.antt =====
-- Runs of src/tickstream/producer/publisher.py with src/tickstream/processing/metrics.py behind it,
-- and the theorems about what a consumer reads, at concrete inputs.
use tickstream_streaming_lak.Prelude.{ℕ, String, ◌≡◌, refl, true, Option, none, some, List, [], ◌∷◌}
use tickstream_streaming_lak.Prelude.Int.{ℤ, pos}
use tickstream_streaming_lak.Prelude.Eq.{string_eq, nat_eq, pair_eq}
use tickstream_streaming_lak.Prelude.Group.{elem, add_keys}
use tickstream_streaming_lak.Errors.{ok}
use tickstream_streaming_lak.Config.{default_topics}
use tickstream_streaming_lak.Schema.{MarketEvent, EventType}
use tickstream_streaming_lak.Kafka.{Message, made, ensure_topics, collect_created}
use tickstream_streaming_lak.Kafka.Reads.{Reads, finished, take}
use tickstream_streaming_lak.Metrics.{compute_windows}
use tickstream_streaming_lak.Metrics.Interleaving.{compute_windows_interleaving}
use tickstream_streaming_lak.Producer.Publisher.{
  Broker, event_message, destination, targets, topic_for_event, produce_events, publish_events,
}
use tickstream_streaming_lak.Producer.Publisher.Partitions.{lane_of, compute_windows-publish_events}
use tickstream_streaming_lak.Tests.Sample.{whole_numbers, sample_settings, sample_trade}

abbrev sample_tick : MarketEvent ℤ
sample_tick = record (sample_trade "BTC-USD" 1 1 62) {
  event_type = EventType.ticker;
  price = none;
  size = none;
  best_bid = some (pos 3);
  best_ask = some (pos 5);
}

abbrev first_trade : MarketEvent ℤ
first_trade = sample_trade "BTC-USD" 100 2 61

abbrev second_trade : MarketEvent ℤ
second_trade = sample_trade "BTC-USD" 200 2 119

abbrev as_published : List (MarketEvent ℤ)
as_published = first_trade ∷ sample_tick ∷ second_trade ∷ []

-- The tick, which is in another topic, is read first.
abbrev as_read : List (MarketEvent ℤ)
as_read = sample_tick ∷ first_trade ∷ second_trade ∷ []

compute_windows_interleaving_example :
    compute_windows 60 "1m" as_published ≡ compute_windows 60 "1m" as_read
compute_windows_interleaving_example =
    compute_windows_interleaving 60 "1m" as_published as_read (λ s. refl) (λ s. refl)

abbrev broker : Broker ℤ
broker = record { existing = []; creation = λ topic. made; remaining = λ messages. 0 }

abbrev message : MarketEvent ℤ → Message ℤ
message e = event_message (topic_for_event default_topics e) e

abbrev published : List (Message ℤ)
published = message first_trade ∷ message sample_tick ∷ message second_trade ∷ []

publish_run : publish_events sample_settings broker as_published none true true ≡ ok (published, 3)
unfolding publish_events ensure_topics collect_created add_keys elem targets topic_for_event
    produce_events destination
publish_run = refl

-- Every topic has one partition.
abbrev one_partition : String → Option String → ℕ
one_partition topic key = 0

tick_first :
    Reads
      (lane_of one_partition)
      published
      (message sample_tick ∷ message first_trade ∷ message second_trade ∷ [])
unfolding topic_for_event
tick_first =
    take (message first_trade ∷ []) (message sample_tick) (message second_trade ∷ []) (refl, tt)
      (take [] (message first_trade) (message second_trade ∷ []) tt
        (take [] (message second_trade) [] tt finished))

compute_windows-publish_events_example :
    compute_windows 60 "1m" as_read ≡ compute_windows 60 "1m" as_published
compute_windows-publish_events_example =
    compute_windows-publish_events sample_settings broker as_published none true true published 3
      one_partition (message sample_tick ∷ message first_trade ∷ message second_trade ∷ []) 60 "1m"
      publish_run tick_first
