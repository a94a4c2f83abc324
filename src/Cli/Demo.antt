-- ===== src/Cli/Demo.antt =====
-- `demo` of src/tickstream/cli.py: the demo events are published to a topic of this run, read back
-- and compared.
use Prim.Native.String.{◌++◌ as ◌<>◌}
use tickstream_streaming_lak.Prelude.{
  ℕ, ◌≤◌, String, ◌≡◌, ap, ◌∙◌, Bool, true, false, ◌&&◌, Option, none, some, List, [], ◌∷◌, map,
  length, length-map, All, ltb, if◌then◌else◌, arith,
}
use tickstream_streaming_lak.Prelude.Eq.{◌==◌, string_eq, int_eq}
use tickstream_streaming_lak.Errors.{Result, ok}
use tickstream_streaming_lak.Config.{Settings}
use tickstream_streaming_lak.Consume.{consume_events}
use tickstream_streaming_lak.Consume.Laws.{consume_events_complete}
use tickstream_streaming_lak.Kafka.{Probe, Message, wait_for_broker, ensure_topics}
use tickstream_streaming_lak.Lake.Poll.{Poll, delivered}
use tickstream_streaming_lak.Lake.Poll.Laws.{rows_of-delivered}
use tickstream_streaming_lak.Producer.Demo.{make_demo_events}
use tickstream_streaming_lak.Producer.Publisher.{Broker, publish_events}
use tickstream_streaming_lak.Producer.Publisher.Laws.{publish_events-IsPublished}
use tickstream_streaming_lak.Py.{Double}
use tickstream_streaming_lak.Schema.{MarketEvent, EventType, trade, ticker, Side, buy, sell}
use tickstream_streaming_lak.Cli.{Ended, finished, exited, call, Cluster, require_broker, ◌>>=◌}

abbrev pub same_type : EventType → EventType → Bool
same_type trade trade = true
same_type ticker ticker = true
same_type a b = false

abbrev pub same_side : Side → Side → Bool
same_side buy buy = true
same_side sell sell = true
same_side a b = false

abbrev pub same_option : {A : Type 0} → (A → A → Bool) → Option A → Option A → Bool
same_option same none none = true
same_option same (some a) (some b) = same a b
same_option same a b = false

-- `f"demo.roundtrip.{uuid.uuid4().hex[:8]}"`
abbrev pub demo_topic : String → String
demo_topic hex = "demo.roundtrip." <> hex

module _ {F : Type 0} ⦃d : Double F⦄ where
  -- `==` of two models: field by field.
  unfoldable pub same_event : MarketEvent F → MarketEvent F → Bool
  same_event a b =
      a.exchange == b.exchange
      && a.symbol == b.symbol
      && same_type a.event_type b.event_type
      && same_option d.eq a.price b.price
      && same_option d.eq a.size b.size
      && same_option same_side a.side b.side
      && same_option (λ (s t : String). s == t) a.trade_id b.trade_id
      && same_option d.eq a.best_bid b.best_bid
      && same_option d.eq a.best_ask b.best_ask
      && same_option d.eq a.best_bid_size b.best_bid_size
      && same_option d.eq a.best_ask_size b.best_ask_size
      && a.ts_event == b.ts_event
      && a.ts_ingest == b.ts_ingest

  -- `==` of two lists
  unfoldable pub same_events : List (MarketEvent F) → List (MarketEvent F) → Bool
  unfolding same_event
  same_events [] [] = true
  same_events (a ∷ as') (b ∷ bs) = same_event a b && same_events as' bs
  same_events as' bs = false

  -- The command, with the number produced and the events echoed. The consumer's rounds follow from
  -- what was produced; the deadline is that of the consumption.
  unfoldable pub demo :
      (ℕ → ℕ → F)
      → Settings
      → List Probe
      → Cluster
      → Broker F
      → (List ℕ → Result (MarketEvent F))
      → (List (Message F) → List Poll)
      → ℕ
      → String
      → Ended (ℕ × List (MarketEvent F))
  demo literal settings probes cluster broker decode rounds deadline hex = do
    up ← require_broker probes
    expected ← call (make_demo_events literal)
    created ← call (ensure_topics cluster.creation cluster.existing (demo_topic hex ∷ []))
    (log, produced) ←
        call (publish_events settings broker expected (some (demo_topic hex)) true true)
    consumed ← call (consume_events decode deadline (length expected) (rounds log) [])
    if same_events consumed expected then finished (produced, consumed) else exited 1

  -- Let the broker be up, the topic be created and the demo events be published. If the consumer is
  -- given some events, coded, before the deadline and no more of them than were published, and
  -- decoding gives them back, then the command returns exactly when they equal the demo events in
  -- their order, and echoes them with the number that was published; else it exits with the code 1.
  pub demo_verdict :
      (literal : ℕ → ℕ → F) (settings : Settings) (probes : List Probe) (cluster : Cluster)
      (broker : Broker F) (decode : List ℕ → Result (MarketEvent F))
      (encode : MarketEvent F → List ℕ) (rounds : List (Message F) → List Poll) (deadline : ℕ)
      (hex : String) (expected received : List (MarketEvent F)) (created : List String)
      (log : List (Message F)) (produced : ℕ)
      → wait_for_broker probes ≡ true
      → make_demo_events literal ≡ ok expected
      → ensure_topics cluster.creation cluster.existing (demo_topic hex ∷ []) ≡ ok created
      → publish_events settings broker expected (some (demo_topic hex)) true true
        ≡ ok (log, produced)
      → delivered (rounds log) ≡ map encode received
      → All (λ e. decode (encode e) ≡ ok e) received
      → All (λ p. ltb p.checked deadline ≡ true) (rounds log)
      → length received ≤ length expected
      → demo literal settings probes cluster broker decode rounds deadline hex
        ≡ (if same_events received expected then finished (length expected, received) else exited 1)
  unfolding demo require_broker
  demo_verdict literal settings probes cluster broker decode encode rounds deadline hex expected
        received created log produced up made topic published given coded prompt room =
      let size : length (delivered (rounds log)) ≡ length received =
        ap length given ∙ length-map encode received in
      let consumed : consume_events decode deadline (length expected) (rounds log) []
          ≡ ok received =
        consume_events_complete decode deadline (length expected) (rounds log) [] prompt
          (omega (arith, size, room))
        ∙ rw (rows_of-delivered decode encode (rounds log) received given coded) in
      let counted : produced ≡ length expected =
        (publish_events-IsPublished settings broker expected (some (demo_topic hex)) true true log
          produced published).1 in
      rw (up, made, topic, published, consumed, counted)
