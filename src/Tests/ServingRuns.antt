-- ===== src/Tests/ServingRuns.antt =====
-- The round trip of the command line, the ticker windows, the mixing of symbols and the dashboard at
-- concrete inputs.
use tickstream_streaming_lak.Prelude.{
  ℕ, ◌≡◌, refl, ◌+◌, ◌*◌, ◌/◌, String, none, some, List, [], ◌∷◌, map, length, arith, if◌then◌else◌,
  nat_beq,
}
use tickstream_streaming_lak.Prelude.Int.{ℤ, pos}
use tickstream_streaming_lak.Prelude.Eq.{string_eq}
use tickstream_streaming_lak.Prelude.Group.{elem, add_keys}
use tickstream_streaming_lak.Errors.{Result, ok, err, value_error}
use tickstream_streaming_lak.Time.{Datetime}
use tickstream_streaming_lak.Schema.{Side, MarketEvent, basic_contract, first_negative}
use tickstream_streaming_lak.Metrics.{window_metrics, window_bounds, fresh}
use tickstream_streaming_lak.Kafka.{
  Probe, brokers, unreachable, made, wait_for_broker, ensure_topics, collect_created,
}
use tickstream_streaming_lak.Lake.Poll.{Poll}
use tickstream_streaming_lak.Producer.Demo.{make_demo_events, demo_trade, demo_tick}
use tickstream_streaming_lak.Producer.Publisher.{
  Broker, event_message, publish_events, produce_events, destination, targets,
}
use tickstream_streaming_lak.Processing.Finalize.{
  finalize_ticker_window, finalize_trade_window, trade_window, add_trades, total,
}
use tickstream_streaming_lak.Processing.Trades.{finalize_trade_window-Agrees}
use tickstream_streaming_lak.Processing.Topology.{ms_to_iso}
use tickstream_streaming_lak.Processing.Ticker.{
  IsTumbling, Agrees, ticker_window, add_ticks, finalize_ticker_window-Agrees,
}
use tickstream_streaming_lak.Cli.{Ended, finished, exited, Cluster, require_broker}
use tickstream_streaming_lak.Prelude.Text.{codes}
use tickstream_streaming_lak.Consume.{consume_events}
use tickstream_streaming_lak.Cli.Demo.{demo, demo_topic, demo_verdict, same_events}
use tickstream_streaming_lak.Ui.Dashboard.{Loaded, page}
use tickstream_streaming_lak.Ui.Dashboard.Latest.{Shows, page-Shows}
use tickstream_streaming_lak.Tests.Sample.{whole_numbers, sample_settings}
use tickstream_streaming_lak.Tests.LakeRuns.{gold}

-- Windows by the quotient of the time.
abbrev by_quotient : ℕ → ℕ → ℕ × ℕ
by_quotient size ts = (ts / size * size, ts / size * size + size)

by_quotient-IsTumbling : IsTumbling by_quotient
by_quotient-IsTumbling = record {
  index = λ size ts. ts / size;
  aligned = λ size ts. refl;
  stop = λ size ts. refl;
  begun = λ size ts. grind arith;
  not_over = λ size ts h. grind arith;
}

abbrev whole_mean : List ℤ → ℤ
whole_mean [] = pos 0
whole_mean (x ∷ xs) = whole_numbers.div (total (pos 0) (x ∷ xs)) (pos (length (x ∷ xs)))

abbrev whole_text : Datetime → String
whole_text t = "t"

finalize_ticker_window-Agrees_example :
    Agrees whole_text
      (window_metrics 60 "1m"
        (("BTC-USD", (window_bounds (pos 61_500_000) 60).0), add_ticks fresh ((pos 4, pos 6) ∷ [])))
      (finalize_ticker_window
        (ms_to_iso whole_text)
        "1m"
        "BTC-USD"
        (ticker_window whole_mean (pos 60_000) (pos 120_000) ((pos 4, pos 6) ∷ [])))
finalize_ticker_window-Agrees_example =
    finalize_ticker_window-Agrees by_quotient-IsTumbling whole_text whole_mean 60 "1m" "BTC-USD"
      61_500_000 (pos 4, pos 6) [] (omega arith) (λ x xs. refl) refl

abbrev trade_rows : List (ℤ × ℤ)
trade_rows = (pos 100, pos 2) ∷ (pos 200, pos 2) ∷ []

finalize_trade_window-Agrees_example :
    Agrees whole_text
      (window_metrics 60 "1m"
        (("BTC-USD", (window_bounds (pos 61_500_000) 60).0), add_trades fresh trade_rows))
      (finalize_trade_window
        (ms_to_iso whole_text)
        "1m"
        "BTC-USD"
        (trade_window (total (pos 0)) (pos 60_000) (pos 120_000) trade_rows))
finalize_trade_window-Agrees_example =
    finalize_trade_window-Agrees by_quotient-IsTumbling whole_text (total (pos 0)) 60 "1m" "BTC-USD"
      61_500_000 trade_rows (omega arith) (λ xs. refl)

abbrev dashboard_data : Loaded ℤ
dashboard_data = record {
  gold = gold;
  result = none;
  tt = record { snapshots = 2; current_rows = 3; first_snapshot_rows = 2 };
}

page-Shows_example : Shows dashboard_data.gold (page dashboard_data)
page-Shows_example = page-Shows dashboard_data

-- The coder of the demo events, by their trade ids.
abbrev literal : ℕ → ℕ → ℤ
literal n k = pos n

abbrev demo_events : List (MarketEvent ℤ)
demo_events =
    demo_trade "BTC-USD" (pos 4_200_050) (pos 10) Side.buy "t-1"
    ∷ demo_trade "ETH-USD" (pos 220_025) (pos 150) Side.sell "t-2"
    ∷ demo_trade "SOL-USD" (pos 9_875) (pos 120) Side.buy "t-3"
    ∷ demo_tick literal
    ∷ []

abbrev encode : MarketEvent ℤ → List ℕ
encode e = elim e.trade_id [ none ↦ [] | some id ↦ codes id ]

abbrev event_of : ℕ → MarketEvent ℤ
event_of n =
    if nat_beq n b'1'
    then demo_trade "BTC-USD" (pos 4_200_050) (pos 10) Side.buy "t-1"
    else if nat_beq n b'2'
    then demo_trade "ETH-USD" (pos 220_025) (pos 150) Side.sell "t-2"
    else demo_trade "SOL-USD" (pos 9_875) (pos 120) Side.buy "t-3"

abbrev decode : List ℕ → Result (MarketEvent ℤ)
decode [] = ok (demo_tick literal)
decode (t ∷ dash ∷ n ∷ rest) = ok (event_of n)
decode other = err value_error

abbrev round_of : MarketEvent ℤ → Poll
round_of e = record { checked = 0; message = some (encode e); polled = 1 }

abbrev demo_broker : Broker ℤ
demo_broker = record { existing = []; creation = λ name. made; remaining = λ log. 0 }

abbrev empty_cluster : Cluster
empty_cluster = record { existing = []; creation = λ name. made }

abbrev probes : List Probe
probes = unreachable ∷ brokers ∷ []

abbrev demo_with : List (MarketEvent ℤ) → Ended (ℕ × List (MarketEvent ℤ))
demo_with received =
    demo literal sample_settings probes empty_cluster demo_broker decode
      (λ log. map round_of received) 20 "0a1b2c3d"

-- The four events come back.
demo_run : demo_with demo_events ≡ finished (4, demo_events)
unfolding demo require_broker wait_for_broker make_demo_events first_negative ensure_topics
    collect_created add_keys elem publish_events targets produce_events consume_events same_events
demo_run = refl

-- One is lost.
demo_lost : demo_with (demo_tick literal ∷ []) ≡ exited 1
unfolding demo require_broker wait_for_broker make_demo_events first_negative ensure_topics
    collect_created add_keys elem publish_events targets produce_events consume_events same_events
demo_lost = refl

demo_verdict_example :
    demo_with demo_events
    ≡ (if same_events demo_events demo_events then finished (4, demo_events) else exited 1)
unfolding wait_for_broker make_demo_events first_negative ensure_topics collect_created add_keys
    elem publish_events targets produce_events destination basic_contract
demo_verdict_example =
    demo_verdict literal sample_settings probes empty_cluster demo_broker decode encode
      (λ log. map round_of demo_events) 20 "0a1b2c3d" demo_events demo_events
      (demo_topic "0a1b2c3d" ∷ []) (map (λ e. event_message (demo_topic "0a1b2c3d") e) demo_events)
      4 refl refl refl refl refl (refl, (refl, (refl, (refl, tt))))
      (refl, (refl, (refl, (refl, tt)))) (omega arith)
