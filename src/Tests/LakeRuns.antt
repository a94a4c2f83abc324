-- ===== src/Tests/LakeRuns.antt =====
-- The sinks, the consumer and the gold table at concrete inputs.
use tickstream_streaming_lak.Prelude.{
  ℕ, ◌+◌, ◌≡◌, refl, String, true, not, none, some, List, [], ◌∷◌, length, keep, if◌then◌else◌,
}
use tickstream_streaming_lak.Prelude.Int.{ℤ, pos}
use tickstream_streaming_lak.Prelude.Eq.{string_eq, nat_eq}
use tickstream_streaming_lak.Time.{in_range}
use tickstream_streaming_lak.Normalize.Timestamp.{
  strip, replace_z, frac_sub, to_utc, parse_ts, parse_ts_text,
}
use tickstream_streaming_lak.Errors.{Result, ok, ◌>>=◌}
use tickstream_streaming_lak.Py.{Json, str, obj, field, close, index}
use tickstream_streaming_lak.Schema.{MarketEvent}
use tickstream_streaming_lak.Metrics.{WindowMetrics}
use tickstream_streaming_lak.Lake.Poll.{Poll, drain, rows_of, write_rows}
use tickstream_streaming_lak.Lake.Bronze.{has_enough, write_bronze}
use tickstream_streaming_lak.Lake.Bronze.Laws.{
  HasBronze, write_bronze_lands, write_bronze_complete, write_bronze_stale,
}
use tickstream_streaming_lak.Lake.Windows.{WindowRow, window_row, land_windows}
use tickstream_streaming_lak.Lake.Iceberg.{
  Tables, HoldsRows, is_1m, materialize_gold, read_gold, gold_snapshots,
}
use tickstream_streaming_lak.Lake.Iceberg.Laws.{Reads, materialize_gold-Reads}
use tickstream_streaming_lak.Lake.Marts.{count_snapshots, time_travel}
use tickstream_streaming_lak.Lake.Marts.Laws.{
  is_empty, report_of, actual, count_snapshots_report, time_travel-materialize_gold,
}
use tickstream_streaming_lak.Tests.Versions.{versioned, versioned-IsVersioned}
use tickstream_streaming_lak.Tests.Sample.{whole_numbers, plain, sample_trade}

-- A coder: the message is one number, the price of a trade.
abbrev pub decode : List ℕ → Result (MarketEvent ℤ)
decode [] = ok (sample_trade "BTC-USD" 1 1 1)
decode (n ∷ ns) = ok (sample_trade "BTC-USD" n 1 1)

-- Two messages and then silence.
abbrev pub rounds : List Poll
rounds =
    record { checked = 0; message = some (7 ∷ []); polled = 1 }
    ∷ record { checked = 1; message = some (8 ∷ []); polled = 2 }
    ∷ record { checked = 2; message = none; polled = 3 }
    ∷ []

abbrev quiet : List Poll
quiet =
    record { checked = 0; message = none; polled = 1 }
    ∷ record { checked = 1; message = none; polled = 9 }
    ∷ []

abbrev pub trade : ℕ → MarketEvent ℤ
trade n = sample_trade "BTC-USD" n 1 1

bronze_run : write_bronze decode 0 20 3 (some 1) true rounds (trade 5 ∷ []) ≡ ok (trade 7 ∷ [], 1)
unfolding write_bronze drain has_enough write_rows
bronze_run = refl

write_bronze_lands_example : HasBronze decode (some 1) true rounds (trade 5 ∷ []) (trade 7 ∷ [], 1)
write_bronze_lands_example =
    write_bronze_lands decode 0 20 3 (some 1) true rounds (trade 5 ∷ []) (trade 7 ∷ []) 1 bronze_run

write_bronze_complete_example :
    write_bronze decode 0 20 3 none true rounds (trade 5 ∷ [])
    ≡ (rows_of decode rounds >>= λ rows. ok (write_rows true (trade 5 ∷ []) rows))
write_bronze_complete_example =
    write_bronze_complete decode 0 20 3 true rounds (trade 5 ∷ [])
      (refl, (refl, (refl, (refl, tt))))

write_bronze_stale_example :
    write_bronze decode 0 20 3 none true quiet (trade 5 ∷ []) ≡ ok (trade 5 ∷ [], 0)
write_bronze_stale_example =
    write_bronze_stale decode 0 20 3 none true quiet (trade 5 ∷ []) (refl, (refl, tt))

-- A window of the metrics topic.
abbrev metrics : Json ℤ
metrics = obj (field "window_start" (str "60") (field "window_end" (str "120") close))

abbrev loads : List ℕ → Result (Json ℤ)
loads value = ok metrics

abbrev window_landed : WindowRow ℤ
window_landed = record {
  rec = metrics;
  window_start = pos 60_000_000;
  window_end = pos 120_000_000;
}

windows_run :
    land_windows plain loads 0 20 3 true rounds [] ≡ ok (window_landed ∷ window_landed ∷ [], 2)
unfolding land_windows drain write_rows window_row index parse_ts parse_ts_text frac_sub replace_z
    strip to_utc in_range
windows_run = refl

abbrev window : String → ℕ → WindowMetrics ℤ
window size start = record {
  symbol = "BTC-USD";
  window_size = size;
  window_start = pos start;
  window_end = pos (start + 60);
  vwap = some (pos 100);
  trade_volume = pos 2;
  trade_count = 1;
  avg_spread = none;
  avg_mid = none;
  ticker_count = 0;
  event_count = 1;
}

abbrev pub gold : List (WindowMetrics ℤ)
gold = window "5m" 0 ∷ window "1m" 0 ∷ window "1m" 60 ∷ []

abbrev table : Tables (WindowMetrics ℤ) (List (List (WindowMetrics ℤ)))
table = versioned

materialize_gold-Reads_example :
    let (s, (snap_1m, snap_5m)) = materialize_gold table gold in
    HoldsRows (read_gold table s none) gold
    × Reads table versioned-IsVersioned s snap_1m (keep is_1m gold)
    × Reads table versioned-IsVersioned s snap_5m gold
materialize_gold-Reads_example = materialize_gold-Reads table versioned-IsVersioned gold

count_snapshots_report_example :
    let none_1m = is_empty (keep is_1m gold) in
    let none_else = is_empty (keep (λ m. not (is_1m m)) gold) in
    (actual table versioned-IsVersioned gold
      ≡ (if none_1m then 0 else 1) + (if none_else then 0 else 1))
    × (count_snapshots (report_of table versioned-IsVersioned gold)
        ≡ actual table versioned-IsVersioned gold + (if none_1m then 1 else 0))
count_snapshots_report_example = count_snapshots_report table versioned-IsVersioned gold

time_travel-materialize_gold_example :
    let s = (materialize_gold table gold).0 in
    (id : ℕ) × (time_travel table s
      ≡ some (gold_snapshots table s, (length gold, some (id, length (keep is_1m gold)))))
time_travel-materialize_gold_example =
    time_travel-materialize_gold table versioned-IsVersioned gold refl
