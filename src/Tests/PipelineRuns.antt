-- ===== src/Tests/PipelineRuns.antt =====
-- A run of the pipeline at a concrete fixture.
use tickstream_streaming_lak.Prelude.{
  ◌≡◌, refl, Option, none, some, List, [], ◌∷◌, ◌++◌, true, false, ℕ, length, ltb, String, All,
}
use tickstream_streaming_lak.Prelude.Int.{ℤ, pos, pos_part, floor_div, trunc_div, ◌*ℤ◌}
use tickstream_streaming_lak.Prelude.Eq.{string_eq, nat_eq, pair_eq}
use tickstream_streaming_lak.Prelude.Dict.{get, get_default, put}
use tickstream_streaming_lak.Prelude.Group.{add_keys, elem}
use tickstream_streaming_lak.Prelude.Sort.{sort, insert}
use tickstream_streaming_lak.Prelude.Text.{str_leb, codes_leb}
use mathlib.Core.List.Perm
use tickstream_streaming_lak.Errors.{Result, ok, err, runtime_error, value_error}
use tickstream_streaming_lak.Config.{exchange_symbol, without_dashes}
use tickstream_streaming_lak.Py.{
  Json, find, elements, get_field, get_field_or, index, iterate, is_text, truthy, to_float, to_text,
  str, obj, field, close,
}
use tickstream_streaming_lak.Time.{in_range, epoch_seconds}
use tickstream_streaming_lak.Schema.{MarketEvent, Side, basic_contract, first_negative, validated}
use tickstream_streaming_lak.Metrics.{WindowMetrics, window_start_seconds}
use tickstream_streaming_lak.Normalize.Timestamp.{
  strip, drop_while, replace_z, frac_sub, to_utc, parse_ts, parse_ts_text,
}
use tickstream_streaming_lak.Normalize.Record.{
  map_symbol, resolve_symbol, as_symbol, unless_dropped, take_record, take_records,
}
use tickstream_streaming_lak.Normalize.Coinbase.{
  side_of, trade_id_of, trade_event, parse_trade, trade_groups, normalize_coinbase,
}
use tickstream_streaming_lak.Normalize.Dispatch.{normalize_safe, add_symbols, build_symbol_map}
use tickstream_streaming_lak.Producer.Publisher.{topic_for_event}
use tickstream_streaming_lak.Kafka.{
  Message, events_of, ensure_topics, collect_created, deliver_all, on_delivery,
}
use tickstream_streaming_lak.Producer.Replay.{
  at_limit, replay_rejects, replay_events, symbol_map_for, replay_one, replay_loop, replay,
}
use tickstream_streaming_lak.Lake.Poll.{Poll, drain, write_rows}
use tickstream_streaming_lak.Lake.Bronze.{has_enough, write_bronze}
use tickstream_streaming_lak.Lake.Windows.{window_row, land_windows}
use tickstream_streaming_lak.Lake.Iceberg.{append_rows, materialize_gold}
use tickstream_streaming_lak.Lake.Marts.{count_snapshots, build_marts}
use tickstream_streaming_lak.Quality.Landing.{row_of, land_quarantine}
use tickstream_streaming_lak.Quality.Sla.{
  worst, completeness, expected_windows_by_symbol, add_counts, group_sizes, window_buckets,
  is_silver_valid, least, gold_violations, measure_sla, passed, is_violation,
}
use tickstream_streaming_lak.Pipeline.{
  PipelineResult, Store, World, isolated, isolated_topics, quarantine_stage, bronze_stage,
  processor_stage, windows_stage, reclaiming, marts_stage, report_stage, result_of,
  marts_and_report, windows_and_marts, lake_stages, run_pipeline,
}
use tickstream_streaming_lak.Pipeline.Failure.{run_pipeline_failed}
use tickstream_streaming_lak.Pipeline.Boundary.{run_pipeline-IsAdmitted}
use tickstream_streaming_lak.Kafka.Reads.{Reads, finished, take}
use tickstream_streaming_lak.Metrics.{compute_windows}
use tickstream_streaming_lak.Producer.Boundary.{IsAdmitted}
use tickstream_streaming_lak.Producer.Publisher.Partitions.{lane_of}
use tickstream_streaming_lak.Pipeline.Lossless.{run_pipeline_lossless}
use tickstream_streaming_lak.Tests.Sample.{whole_numbers, plain, sample_settings, sample_trade}
use tickstream_streaming_lak.Tests.ProducerRuns.{clock, answers, lines, summary, replayed}
use tickstream_streaming_lak.Tests.LakeRuns.{rounds, gold}
use tickstream_streaming_lak.Tests.QualityRuns.{numeric}
use tickstream_streaming_lak.Tests.Versions.{versioned}

-- One document with the fields of a reject and of a window.
abbrev document : Json ℤ
document = obj (
    field "ts_quarantined" (str "61")
      (field "window_start" (str "60") (field "window_end" (str "120") close)))

-- The event of the message number `n` of the fixture, and its code.
abbrev event_at : ℕ → MarketEvent ℤ
event_at n = record (sample_trade "BTC-USD" 100 2 61) { side = some Side.buy; ts_ingest = pos n }

abbrev read_event : List ℕ → Result (MarketEvent ℤ)
read_event [] = err value_error
read_event (n ∷ ns) = ok (event_at n)

abbrev write_event : MarketEvent ℤ → List ℕ
write_event e = pos_part e.ts_ingest ∷ []

abbrev raw : List Poll
raw =
    record { checked = 0; message = some (0 ∷ []); polled = 1 }
    ∷ record { checked = 1; message = some (1 ∷ []); polled = 2 }
    ∷ []

abbrev world : World ℤ (List (List (WindowMetrics ℤ)))
world = record {
  runtime = plain;
  answers = answers;
  clock = clock;
  tables = versioned;
  decode = read_event;
  loads = λ value. ok document;
  dumps = λ v. [];
  quarantine_rounds = λ log. rounds;
  raw_rounds = λ log. raw;
  metrics_rounds = λ metrics. rounds;
  process = λ log. ok ([] ∷ []);
  dbt = λ bronze windows command. ok gold;
  numeric = numeric;
  gold_built_at = pos 0;
  quarantine_times = record { begun = 0; timeout = 20; idle = 3 };
  bronze_times = record { begun = 0; timeout = 20; idle = 3 };
  windows_times = record { begun = 0; timeout = 20; idle = 3 };
}

abbrev before : Store ℤ (List (List (WindowMetrics ℤ)))
before = record {
  quarantine = [];
  bronze = [];
  windows = [];
  gold = [];
  state_dir = false;
  result = none;
}

abbrev run_all : Store ℤ (List (List (WindowMetrics ℤ))) × Result (PipelineResult ℤ)
run_all = run_pipeline world sample_settings "1" true lines true before

abbrev report : PipelineResult ℤ
report = record {
  replayed_events = 2;
  bronze_rows = 2;
  window_rows = 2;
  gold_rows = 3;
  gold_snapshots = 2;
  quarantined = 2;
  latency_p95_s = pos 1;
  completeness_pct = pos 100;
  gold_violations = 0;
  sla_passed = true;
}

pipeline_run : run_all ≡ (run_all.0, ok report)
unfolding run_pipeline quarantine_stage lake_stages bronze_stage windows_and_marts reclaiming
    processor_stage windows_stage marts_and_report marts_stage report_stage result_of
    isolated_topics land_quarantine row_of drain write_rows write_bronze has_enough land_windows
    window_row build_marts materialize_gold append_rows count_snapshots passed measure_sla worst
    completeness expected_windows_by_symbol add_counts group_sizes sort insert window_buckets
    is_silver_valid least ◌*ℤ◌ gold_violations is_violation window_start_seconds floor_div trunc_div
    codes_leb str_leb epoch_seconds replay ensure_topics collect_created add_keys elem replay_loop
    at_limit replay_one symbol_map_for get build_symbol_map normalize_safe normalize_coinbase
    get_field_or is_text iterate trade_groups take_records exchange_symbol without_dashes
    deliver_all on_delivery parse_trade side_of trade_event trade_id_of add_symbols as_symbol
    map_symbol resolve_symbol take_record unless_dropped drop_while frac_sub parse_ts parse_ts_text
    replace_z strip to_utc get_default put topic_for_event replay_events replay_rejects to_text
    elements find get_field index to_float truthy basic_contract first_negative validated in_range
pipeline_run = refl

abbrev log : List (Message ℤ)
log = replayed (isolated_topics "1") 0 ++ replayed (isolated_topics "1") 1

isolated_run :
    replay plain (isolated sample_settings "1") clock answers true lines none ≡ ok (summary, log)
unfolding isolated_topics replay ensure_topics collect_created add_keys elem replay_loop at_limit
    replay_one symbol_map_for get build_symbol_map normalize_safe normalize_coinbase get_field_or
    is_text iterate trade_groups take_records exchange_symbol without_dashes deliver_all on_delivery
    parse_trade side_of trade_event trade_id_of add_symbols as_symbol map_symbol resolve_symbol
    take_record unless_dropped drop_while frac_sub parse_ts parse_ts_text replace_z strip to_utc
    get_default put topic_for_event replay_events replay_rejects to_text elements find get_field
    index to_float truthy basic_contract first_negative validated in_range
isolated_run = refl

run_pipeline_lossless_example :
    (report.replayed_events ≡ length (events_of log))
    × (report.bronze_rows ≡ report.replayed_events)
    × (ltb 0 report.bronze_rows ≡ true → run_all.0.bronze ≡ event_at 0 ∷ event_at 1 ∷ [])
run_pipeline_lossless_example =
    run_pipeline_lossless world sample_settings "1" true lines true before run_all.0 report summary
      log write_event (event_at 0 ∷ event_at 1 ∷ []) isolated_run (Perm.refl _) refl
      (refl, (refl, tt)) (refl, (refl, tt)) pipeline_run

-- The same world, where the quarantine topic gives nothing.
abbrev deaf : World ℤ (List (List (WindowMetrics ℤ)))
deaf = record world { quarantine_rounds = λ log. [] }

deaf_run :
    run_pipeline deaf sample_settings "1" true lines true before ≡ (before, err runtime_error)
unfolding run_pipeline quarantine_stage lake_stages land_quarantine drain isolated_topics replay
    ensure_topics collect_created add_keys elem replay_loop at_limit replay_one symbol_map_for get
    build_symbol_map normalize_safe normalize_coinbase get_field_or is_text iterate trade_groups
    take_records exchange_symbol without_dashes deliver_all on_delivery parse_trade side_of
    trade_event trade_id_of add_symbols as_symbol map_symbol resolve_symbol take_record
    unless_dropped drop_while frac_sub parse_ts parse_ts_text replace_z strip to_utc get_default put
    topic_for_event replay_events replay_rejects to_text elements find get_field index to_float
    truthy basic_contract first_negative validated in_range
deaf_run = refl

run_pipeline_failed_example : (before.result ≡ before.result) × (before.state_dir ≡ false)
run_pipeline_failed_example =
    run_pipeline_failed deaf sample_settings "1" true lines true before before runtime_error
      deaf_run refl

abbrev one_partition : String → Option String → ℕ
one_partition topic key = 0

-- A consumer may read all in the order of production.
in_order : (messages : List (Message ℤ)) → Reads (lane_of one_partition) messages messages
in_order [] = finished
in_order (m ∷ ms) = take [] m ms tt (in_order ms)

run_pipeline-IsAdmitted_example :
    All (IsAdmitted sample_settings) run_all.0.bronze
    × (compute_windows 60 "1m" run_all.0.bronze ≡ compute_windows 60 "1m" (events_of log))
run_pipeline-IsAdmitted_example =
    run_pipeline-IsAdmitted world sample_settings "1" true lines true before run_all.0 report
      summary log write_event one_partition log 60 "1m" isolated_run (in_order log) refl
      (refl, (refl, tt)) (refl, (refl, tt)) pipeline_run refl
