-- ===== src/Tests/QualityRuns.antt =====
-- The quality checks, the quarantine sink and the recorder at concrete inputs.
use tickstream_streaming_lak.Prelude.{◌≡◌, refl, String, Option, none, some, List, [], ◌∷◌, true, ℕ}
use tickstream_streaming_lak.Prelude.Int.{ℤ, pos}
use tickstream_streaming_lak.Prelude.Eq.{string_eq, pair_eq, int_eq}
use tickstream_streaming_lak.Prelude.Group.{distinct, add_keys, elem}
use tickstream_streaming_lak.Time.{Datetime, in_range}
use tickstream_streaming_lak.Normalize.Timestamp.{
  strip, replace_z, frac_sub, to_utc, parse_ts, parse_ts_text,
}
use tickstream_streaming_lak.Errors.{Result, ok, err, os_error}
use tickstream_streaming_lak.Py.{Json, str, int, null, obj, field, close, get_field_or, index}
use tickstream_streaming_lak.Schema.{MarketEvent}
use tickstream_streaming_lak.Metrics.{WindowMetrics}
use tickstream_streaming_lak.Quality.OutOfOrder.{
  count_group, count_out_of_order, late_times, group_times, group_symbols, sum_over,
  count_out_of_order-late,
}
use tickstream_streaming_lak.Lake.Poll.{Poll, drain}
use tickstream_streaming_lak.Quality.Landing.{Row, row_of, land_quarantine}
use tickstream_streaming_lak.Quality.Sla.{Numeric}
use tickstream_streaming_lak.Producer.Recording.{RecordedMessage}
use tickstream_streaming_lak.Producer.Recorder.{IsSettled, try_candidates, try_candidates-IsSettled}
use tickstream_streaming_lak.Tests.Sample.{plain, sample_trade}

abbrev rows : List (Option String × Option Datetime)
rows =
    (some "A", some (pos 5))
    ∷ (some "B", some (pos 1))
    ∷ (some "A", some (pos 3))
    ∷ (none, some (pos 0))
    ∷ (some "A", some (pos 4))
    ∷ (some "A", none)
    ∷ (some "A", some (pos 2))
    ∷ []

-- Both the time 3 and the time 4 are earlier than the time 5 before them; the row without a symbol
-- does not count, and behind the missing time the time 2 is the first.
count_run : count_out_of_order rows ≡ 2
unfolding count_out_of_order add_keys elem count_group
count_run = refl

count_out_of_order-late_example :
    count_out_of_order rows
    ≡ sum_over (λ s. late_times [] (group_times s rows)) (distinct (group_symbols rows))
count_out_of_order-late_example = count_out_of_order-late rows

-- A message of the topic: a document that stands for one reject.
abbrev rejected : Json ℤ
rejected = obj (
    field "exchange" (str "coinbase")
      (field "seq" (int (pos 1)) (field "ts_quarantined" (str "61") close)))

abbrev loads_one : List ℕ → Result (Json ℤ)
loads_one value = ok rejected

abbrev dumps_one : Json ℤ → List ℕ
dumps_one v = []

abbrev polls : List Poll
polls =
    record { checked = 0; message = some []; polled = 1 }
    ∷ record { checked = 1; message = none; polled = 2 }
    ∷ record { checked = 2; message = none; polled = 9 }
    ∷ record { checked = 9; message = some []; polled = 9 }
    ∷ []

abbrev landed : Row ℤ
landed = record {
  exchange = str "coinbase";
  seq = int (pos 1);
  reason = null;
  payload = [];
  ts_quarantined = pos 61_000_000;
}

land_run :
    land_quarantine plain loads_one dumps_one 0 20 3 true polls (landed ∷ landed ∷ [])
    ≡ ok (landed ∷ [], 1)
unfolding land_quarantine drain row_of get_field_or index parse_ts parse_ts_text frac_sub replace_z
    strip to_utc in_range
land_run = refl

abbrev pub numeric : Numeric ℤ
numeric = record { percentile_95 = λ xs. pos 1; round = λ x n. x; total_seconds = λ n. n }

abbrev bronze : List (MarketEvent ℤ)
bronze = record (sample_trade "BTC-USD" 100 2 61) { trade_id = some "1" } ∷ []

-- The one window of each size.
abbrev window : String → ℕ → ℕ → WindowMetrics ℤ
window size start stop = record {
  symbol = "BTC-USD";
  window_size = size;
  window_start = pos start;
  window_end = pos stop;
  vwap = some (pos 100);
  trade_volume = pos 2;
  trade_count = 1;
  avg_spread = none;
  avg_mid = none;
  ticker_count = 0;
  event_count = 1;
}

abbrev gold : List (WindowMetrics ℤ)
gold = window "1m" 60_000_000 120_000_000 ∷ window "5m" 0 300_000_000 ∷ []

abbrev message : RecordedMessage ℤ
message = record {
  seq = 0;
  ts_recorded = pos 0;
  exchange = "binance_us";
  channel = none;
  payload = null;
}

-- The first exchange cannot be reached, the second delivers.
abbrev attempt : String → Result (List (RecordedMessage ℤ))
attempt String.[] = err os_error
attempt (String.◌∷◌ c s) = ok (message ∷ [])

try_candidates-IsSettled_example :
    IsSettled attempt
      ("" ∷ "binance_us" ∷ [])
      (try_candidates attempt ("" ∷ "binance_us" ∷ []) none)
try_candidates-IsSettled_example = try_candidates-IsSettled attempt ("" ∷ "binance_us" ∷ []) none
