-- ===== src/Producer/Demo.antt =====
-- src/tickstream/producer/demo.py: the demo events and their publication. `literal n k` is the double
-- that Python reads for the decimal n / 10^k.
use tickstream_streaming_lak.Prelude.{ℕ, String, true, none, some, List, [], ◌∷◌, ◌*◌}
use tickstream_streaming_lak.Prelude.Int.{pos}
use tickstream_streaming_lak.Errors.{Result, ok, ◌>>=◌}
use tickstream_streaming_lak.Config.{Settings}
use tickstream_streaming_lak.Kafka.{Message}
use tickstream_streaming_lak.Py.{Double}
use tickstream_streaming_lak.Schema.{MarketEvent, EventType, Side, validated}
use tickstream_streaming_lak.Time.{Datetime}
use tickstream_streaming_lak.Producer.Publisher.{Broker, publish_events}

-- `_T0`: 2026-01-01, which is 20454 days behind 1970-01-01
abbrev pub demo_time : Datetime
demo_time = pos (20_454 * 86_400 * 1_000_000)

module _ {F : Type 0} where
  abbrev pub demo_trade : String → F → F → Side → String → MarketEvent F
  demo_trade symbol price size side trade_id = record {
    exchange = "demo";
    symbol = symbol;
    event_type = EventType.trade;
    price = some price;
    size = some size;
    side = some side;
    trade_id = some trade_id;
    best_bid = none;
    best_ask = none;
    best_bid_size = none;
    best_ask_size = none;
    ts_event = demo_time;
    ts_ingest = demo_time;
  }

module _ {F : Type 0} ⦃d : Double F⦄ (literal : ℕ → ℕ → F) where
  abbrev pub demo_tick : MarketEvent F
  demo_tick = record {
    exchange = "demo";
    symbol = "BTC-USD";
    event_type = EventType.ticker;
    price = none;
    size = none;
    side = none;
    trade_id = none;
    best_bid = some (literal 419_990 1);
    best_ask = some (literal 420_010 1);
    best_bid_size = some (literal 5 1);
    best_ask_size = some (literal 7 1);
    ts_event = demo_time;
    ts_ingest = demo_time;
  }

  -- `make_demo_events`: each event passes the validator of the model.
  unfoldable pub make_demo_events : Result (List (MarketEvent F))
  unfolding validated
  make_demo_events = do
    btc ← validated (demo_trade "BTC-USD" (literal 4_200_050 2) (literal 10 2) Side.buy "t-1")
    eth ← validated (demo_trade "ETH-USD" (literal 220_025 2) (literal 150 2) Side.sell "t-2")
    sol ← validated (demo_trade "SOL-USD" (literal 9_875 2) (literal 120 1) Side.buy "t-3")
    tick ← validated demo_tick
    ok (btc ∷ eth ∷ sol ∷ tick ∷ [])

  unfoldable pub publish_demo : Settings → Broker F → Result (List (Message F) × ℕ)
  unfolding make_demo_events
  publish_demo settings broker = do
    events ← make_demo_events
    publish_events settings broker events none true true
