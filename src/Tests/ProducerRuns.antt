-- ===== src/Tests/ProducerRuns.antt =====
-- The live producer, the replay and the fixture at concrete inputs.
use tickstream_streaming_lak.Prelude.{
  zero, suc, ◌≡◌, refl, ◌≤◌, ◌<◌, Option, none, some, List, [], ◌∷◌, ◌++◌, true, false, arith, ℕ,
  map,
}
use tickstream_streaming_lak.Prelude.Int.{ℤ, pos}
use tickstream_streaming_lak.Prelude.Dict.{get, get_default, put}
use tickstream_streaming_lak.Prelude.Group.{add_keys, elem}
use tickstream_streaming_lak.Errors.{
  websocket_error, value_error, Result, ok, overflow_error, validation_error, price_not_positive,
}
use tickstream_streaming_lak.Config.{Topics, exchange_channel, exchange_symbol, without_dashes}
use tickstream_streaming_lak.Py.{
  Json, end, item, find, elements, get_field, get_field_or, index, iterate, is_text, truthy,
  to_float, to_text,
}
use tickstream_streaming_lak.Time.{in_range}
use tickstream_streaming_lak.Schema.{Side, validated, basic_contract, first_negative}
use tickstream_streaming_lak.Normalize.Timestamp.{
  strip, drop_while, replace_z, frac_sub, to_utc, parse_ts, parse_ts_text,
}
use tickstream_streaming_lak.Normalize.Record.{
  SymbolMap, raised, map_symbol, resolve_symbol, as_symbol, unless_dropped, take_record,
  take_records,
}
use tickstream_streaming_lak.Normalize.Coinbase.{
  side_of, trade_id_of, trade_event, parse_trade, trade_groups, normalize_coinbase,
}
use tickstream_streaming_lak.Normalize.Dispatch.{normalize_safe, add_symbols, build_symbol_map}
use tickstream_streaming_lak.Normalize.Escapes.{trades_message}
use tickstream_streaming_lak.Producer.Publisher.{topic_for_event}
use tickstream_streaming_lak.Kafka.{
  Message, event, quarantine, made, ensure_topics, collect_created, deliver_all, on_delivery,
}
use tickstream_streaming_lak.Producer.Backoff.{Schedule}
use tickstream_streaming_lak.Producer.Exchanges.{coinbase, build_client}
use tickstream_streaming_lak.Producer.Service.{Connection, Options, failed, run_producer}
use tickstream_streaming_lak.Producer.Service.Accounts.{IsAccounted}
use tickstream_streaming_lak.Producer.Service.Laws.{
  Reports, EndsFlushed, HasEnded, run_producer-IsDone, run_producer-ends,
}
use tickstream_streaming_lak.Producer.Service.Outage.{run_producer-overflows}
use tickstream_streaming_lak.Producer.Recording.{
  RecordedMessage, read_fixture, write_fixture, count_fixture, IsCoded, read_fixture-write_fixture,
}
use tickstream_streaming_lak.Producer.Replay.{
  Clock, Answers, ReplaySummary, at_limit, replay_rejects, replay_events, symbol_map_for,
  replay_one, replay_loop, replay,
}
use tickstream_streaming_lak.Producer.Replay.Laws.{IsFaithful, replay-IsFaithful}
use tickstream_streaming_lak.Producer.Publisher.{
  Broker, event_message, destination, targets, produce_events, publish_events,
}
use tickstream_streaming_lak.Tests.Sample.{
  whole_numbers, plain, sample_settings, good_trade, bad_trade, sample_trade,
}

abbrev symbols : SymbolMap
symbols = ("BTC-USD", "BTC-USD") ∷ []

abbrev doubling : Schedule ℤ
doubling = record { base = pos 1; cap = pos 60; factor = pos 2; jitter = false }

abbrev pub options : Option ℕ → Option ℕ → Options ℤ
options max_messages max_reconnects = record {
  settings = sample_settings;
  exchange = "coinbase";
  symbol_map = symbols;
  max_messages = max_messages;
  max_reconnects = max_reconnects;
  schedule = doubling;
  quarantine_time = λ n. pos n;
  uniform = λ n low high. high;
}

abbrev both_trades : Json ℤ
both_trades = trades_message (item good_trade (item bad_trade end))

abbrev pub busy : Connection ℤ
busy = record {
  messages = (both_trades, pos 5) ∷ (both_trades, pos 6) ∷ [];
  failure = some websocket_error;
}

abbrev pub silent : Connection ℤ
silent = record { messages = []; failure = some websocket_error }

-- A frame that is no JSON, behind a message.
abbrev broken : Connection ℤ
broken = record { messages = (both_trades, pos 5) ∷ []; failure = some value_error }

-- A connection that fails behind its messages, a silent one, and one whose stream raises.
run_producer-IsDone_example :
    let (out, s) = run_producer plain (options (some 4) none) (busy ∷ silent ∷ broken ∷ []) in
    IsAccounted sample_settings.topics s × Reports out s × EndsFlushed out s
run_producer-IsDone_example =
    run_producer-IsDone plain (options (some 4) none) (busy ∷ silent ∷ broken ∷ [])

run_producer-ends_example :
    let (out, s) = run_producer plain (options none (some 1)) (busy ∷ silent ∷ []) in
    HasEnded out × (s.reconnects ≤ 2)
run_producer-ends_example =
    run_producer-ends plain (options none (some 1)) 1 refl (busy ∷ silent ∷ []) (omega arith)

-- The powers of two below the third are there.
small_powers : (k : ℕ) → k < 3 → (p : ℤ) × (whole_numbers.pow (pos 2) k ≡ ok p)
small_powers zero h = (pos 1, refl)
small_powers (suc zero) h = (pos 2, refl)
small_powers (suc (suc zero)) h = (pos 4, refl)
small_powers (suc (suc (suc k))) h = absurd (omega arith)

run_producer-overflows_example :
    (run_producer plain (options none none) (silent ∷ silent ∷ silent ∷ silent ∷ [])).0
    ≡ failed overflow_error
unfolding build_client exchange_channel
run_producer-overflows_example =
    run_producer-overflows plain (options none none) 3
      (coinbase "wss://c" ("BTC-USD" ∷ "ETH-USD" ∷ []) ("trades" ∷ "ticker" ∷ [])) refl refl
      small_powers refl (silent ∷ silent ∷ silent ∷ silent ∷ [])
      ((refl, tt), ((refl, tt), ((refl, tt), ((refl, tt), tt)))) (omega arith)

-- A recording of two messages, and what the replay of it returns.
abbrev recorded : ℕ → RecordedMessage ℤ
recorded n = record {
  seq = n;
  ts_recorded = pos n;
  exchange = "coinbase";
  channel = none;
  payload = both_trades;
}

abbrev pub clock : Clock
clock = record { ingest = λ n. pos n; quarantine_time = λ n. pos n }

abbrev pub answers : Answers ℤ
answers = record {
  existing = [];
  creation = λ name. made;
  failures = λ messages. map (λ m. false) messages;
  remaining = λ messages. 0;
}

abbrev pub lines : List (Result (RecordedMessage ℤ))
lines = ok (recorded 1) ∷ ok (recorded 2) ∷ []

abbrev pub summary : ReplaySummary
summary = record {
  messages = 2;
  events = 2;
  trades = 2;
  tickers = 0;
  quarantined = 2;
  by_symbol = ("BTC-USD", 2) ∷ [];
}

-- What the message number `n` of the recording adds under these topics: a reject, then an event.
abbrev pub replayed : Topics → ℕ → List (Message ℤ)
replayed topics n =
    record {
      topic = topics.quarantine;
      key = none;
      body = quarantine record {
        exchange = "coinbase";
        seq = suc n;
        reason = raised (validation_error price_not_positive);
        payload = bad_trade;
        ts_quarantined = pos n;
      };
    }
    ∷ record {
      topic = topics.trades_raw;
      key = some "BTC-USD";
      body =
          event
            (record (sample_trade "BTC-USD" 100 2 61) { side = some Side.buy; ts_ingest = pos n });
    }
    ∷ []

pub replay_run :
    replay plain sample_settings clock answers true lines none
    ≡ ok (summary, replayed sample_settings.topics 0 ++ replayed sample_settings.topics 1)
unfolding replay ensure_topics collect_created add_keys elem replay_loop at_limit replay_one
    symbol_map_for get build_symbol_map normalize_safe normalize_coinbase get_field_or is_text
    iterate trade_groups take_records exchange_symbol without_dashes deliver_all on_delivery
    parse_trade side_of trade_event trade_id_of add_symbols as_symbol map_symbol resolve_symbol
    take_record unless_dropped drop_while frac_sub parse_ts parse_ts_text replace_z strip to_utc
    get_default put topic_for_event replay_events replay_rejects to_text elements find get_field
    index to_float truthy basic_contract first_negative validated in_range
replay_run = refl

replay-IsFaithful_example :
    IsFaithful sample_settings answers summary
      (replayed sample_settings.topics 0 ++ replayed sample_settings.topics 1)
replay-IsFaithful_example =
    replay-IsFaithful plain sample_settings clock answers true lines none summary
      (replayed sample_settings.topics 0 ++ replayed sample_settings.topics 1) replay_run

-- A coder for one message: the document is the digit one.
abbrev dumps_one : RecordedMessage ℤ → List ℕ
dumps_one m = b'1' ∷ []

abbrev loads_one : List ℕ → Result (RecordedMessage ℤ)
loads_one cs = ok (recorded 1)

one-IsCoded : IsCoded plain.is_space dumps_one loads_one (recorded 1)
unfolding strip drop_while
one-IsCoded = record {
  first = b'1';
  rest = [];
  stripped = refl;
  read_back = refl;
  one_line = (refl, tt);
}

read_fixture-write_fixture_example :
    let ms = recorded 1 ∷ recorded 1 ∷ [] in
    let bytes = (write_fixture plain.is_space dumps_one loads_one ms).0 in
    (read_fixture plain.is_space dumps_one loads_one bytes ≡ map ok ms)
    × (count_fixture plain.is_space dumps_one loads_one bytes ≡ 2)
    × ((write_fixture plain.is_space dumps_one loads_one ms).1 ≡ 2)
read_fixture-write_fixture_example =
    read_fixture-write_fixture plain.is_space dumps_one loads_one (recorded 1 ∷ recorded 1 ∷ [])
      (one-IsCoded, (one-IsCoded, tt))

abbrev broker : Broker ℤ
broker = record { existing = []; creation = λ name. made; remaining = λ messages. 0 }

abbrev published : List (Message ℤ)
published =
    event_message "trades.raw" (sample_trade "BTC-USD" 1 1 1)
    ∷ event_message "trades.raw" (sample_trade "ETH-USD" 2 1 1)
    ∷ []

publish_run :
    publish_events sample_settings broker
      (sample_trade "BTC-USD" 1 1 1 ∷ sample_trade "ETH-USD" 2 1 1 ∷ [])
      none
      true
      true
    ≡ ok (published, 2)
unfolding publish_events ensure_topics collect_created add_keys elem targets topic_for_event
    produce_events destination
publish_run = refl
