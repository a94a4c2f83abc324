-- ===== src/Tests/MetricsRuns.antt =====
-- The windows of processing/metrics.py at the sample events.
use tickstream_streaming_lak.Prelude.{
  ◌≡◌, refl, Option, some, List, [], ◌∷◌, map, ◌++◌, All, arith, ◌↔◌, true, String, ◌*◌, ◌+◌, ℕ,
}
use tickstream_streaming_lak.Prelude.Int.{ℤ, pos, ◌+ℤ◌, ◌≤ℤ◌, ◌<ℤ◌, ◌*ℤ◌, neg, floor_div, trunc_div}
use tickstream_streaming_lak.Prelude.Eq.{string_eq, int_eq, pair_eq}
use tickstream_streaming_lak.Prelude.Dict.{get, put, get_default}
use tickstream_streaming_lak.Prelude.Text.{str_leb}
use tickstream_streaming_lak.Prelude.Sort.{sort, insert, IsSorted}
use tickstream_streaming_lak.Prelude.Group.{elem, AllDifferent}
use tickstream_streaming_lak.Time.{us_per_second, epoch_seconds, from_seconds}
use tickstream_streaming_lak.Metrics.{
  window_start_seconds, window_bounds, add_trade, add_ticker, add_event, accumulate, WindowMetrics,
  window_metrics, key_leb, compute_windows, max_event_ts_from, max_event_ts_by_symbol, has_closed,
  closed_windows,
}
use tickstream_streaming_lak.Metrics.Reference.{window_of, buckets, compute_windows-by_bucket}
use tickstream_streaming_lak.Metrics.Counts.{total_events, compute_windows-counts}
use tickstream_streaming_lak.Metrics.Watermark.{times_of, max_event_ts_by_symbol-latest}
use tickstream_streaming_lak.Metrics.Closed.{IsPassed, has_closed_iff, closed_windows_stay}
use tickstream_streaming_lak.Metrics.Bounds.{window_bounds_contains, window_bounds_before_epoch}
use tickstream_streaming_lak.Tests.Sample.{whole_numbers, sample_trade, sample_events}

abbrev windows : List (WindowMetrics ℤ)
windows = compute_windows 60 "1m" sample_events

-- The two BTC-USD windows stand before that of ETH-USD, and the first has the average 150.
windows_run :
    map {B = String × ℤ × Option ℤ} (λ m. (m.symbol, m.window_start, m.vwap)) windows
    ≡ ("BTC-USD", pos 60_000_000, some (pos 150))
      ∷ ("BTC-USD", pos 120_000_000, some (pos 300))
      ∷ ("ETH-USD", pos 60_000_000, some (pos 10))
      ∷ []
unfolding compute_windows accumulate window_metrics key_leb add_event add_trade add_ticker
    window_bounds window_start_seconds epoch_seconds from_seconds get put get_default sort insert
    str_leb ◌+ℤ◌ ◌*ℤ◌ floor_div trunc_div
windows_run = refl

compute_windows-by_bucket_example :
    (windows ≡ sort key_leb (map (window_of 60 "1m" sample_events) (buckets 60 sample_events)))
    × AllDifferent (buckets 60 sample_events)
    × IsSorted key_leb windows
compute_windows-by_bucket_example = compute_windows-by_bucket 60 "1m" sample_events

compute_windows-counts_example : total_events windows ≡ 4
compute_windows-counts_example = compute_windows-counts 60 "1m" sample_events

max_event_ts_by_symbol-latest_example :
    All (λ t. t ≤ℤ pos 125_000_000) (times_of "BTC-USD" sample_events)
    × (elem (pos 125_000_000) (times_of "BTC-USD" sample_events) ≡ true)
unfolding max_event_ts_by_symbol max_event_ts_from get put
max_event_ts_by_symbol-latest_example =
    max_event_ts_by_symbol-latest "BTC-USD" sample_events (pos 125_000_000) refl

abbrev first_window : WindowMetrics ℤ
first_window = window_of 60 "1m" sample_events ("BTC-USD", pos 60_000_000)

has_closed_iff_example :
    (has_closed (get "BTC-USD" (max_event_ts_by_symbol sample_events)) 5 first_window ≡ true)
    ↔ IsPassed sample_events 5 first_window
unfolding window_metrics
has_closed_iff_example = has_closed_iff sample_events 5 first_window

closed_windows_stay_example :
    All
      (λ m.
        has_closed
          (get m.symbol
            (max_event_ts_by_symbol (sample_events ++ (sample_trade "BTC-USD" 1 1 3 ∷ []))))
          5
          m
        ≡ true)
      (closed_windows windows (max_event_ts_by_symbol sample_events) 5)
closed_windows_stay_example =
    closed_windows_stay windows sample_events (sample_trade "BTC-USD" 1 1 3 ∷ []) 5

window_bounds_contains_example :
    ((k : ℕ) × ((window_bounds (pos 61_500_000) 60).0 ≡ pos (k * 60 * us_per_second)))
    × ((window_bounds (pos 61_500_000) 60).0 ≤ℤ pos 61_500_000)
    × (pos 61_500_000 <ℤ (window_bounds (pos 61_500_000) 60).1)
    × ((window_bounds (pos 61_500_000) 60).1
        ≡ (window_bounds (pos 61_500_000) 60).0 +ℤ pos (60 * us_per_second))
window_bounds_contains_example = window_bounds_contains 61_500_000 60 (omega arith)

-- Half a second before 1970-01-01 counts for the window that begins there.
window_bounds_before_epoch_example :
    let ts = neg (1 * 60 * us_per_second + 500_000) in
    ((window_bounds ts 60).0 ≡ neg (1 * 60 * us_per_second)) × (ts <ℤ (window_bounds ts 60).0)
window_bounds_before_epoch_example =
    window_bounds_before_epoch 1 60 500_000 (omega arith) (omega arith) (omega arith)
