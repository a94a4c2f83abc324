-- ===== src/Processing/Ticker.antt =====
-- The ticker windows of processing/app.py, with their bounds, against the reference of
-- processing/metrics.py. Quix assigns a record to a window by its time in milliseconds.
use tickstream_streaming_lak.Prelude.{
  ℕ, ◌+◌, ◌*◌, ◌/◌, ◌<◌, ◌≤◌, String, ◌≡◌, refl, ap, ap₂, ◌∙◌, sym, false, some, List, [], ◌∷◌, map,
  length, length-map, suc, arith,
}
use tickstream_streaming_lak.Prelude.Int.{ℤ, pos, trunc_div, ◌*ℤ◌, pos-*ℤ-pos}
use tickstream_streaming_lak.Py.{Double}
use tickstream_streaming_lak.Time.{Datetime, us_per_second}
use tickstream_streaming_lak.Metrics.{
  Acc, WindowMetrics, fresh, add_ticker, window_metrics, window_bounds, mean as reference_mean,
}
use tickstream_streaming_lak.Metrics.Bounds.{window_bounds-pos}
use tickstream_streaming_lak.Processing.Finalize.{
  TickerWindow, Emitted, finalize_ticker_window, total,
}
use tickstream_streaming_lak.Processing.Topology.{to_millis, ms_to_iso, derive_spread, derive_mid}

-- Tumbling windows, as documented: the window of a time has the given length, starts at a multiple
-- of it counted from 1970, and contains the time. All in milliseconds, from 1970 on.
pub record IsTumbling (window : ℕ → ℕ → ℕ × ℕ) : Type 0 where
  pub index : ℕ → ℕ → ℕ
  pub aligned : (size ts : ℕ) → (window size ts).0 ≡ index size ts * size
  pub stop : (size ts : ℕ) → (window size ts).1 ≡ (window size ts).0 + size
  pub begun : (size ts : ℕ) → (window size ts).0 ≤ ts
  pub not_over : (size ts : ℕ) → 0 < size → ts < (window size ts).1

to_millis-pos : (n : ℕ) → to_millis (pos n) ≡ pos (n / 1000)
unfolding trunc_div
to_millis-pos n = refl

-- A multiple of the size that is at most `ts`, and by less than the size, is the quotient's.
quotient_unique : (q size ts : ℕ) → q * size ≤ ts → ts < q * size + size → q ≡ ts / size
quotient_unique q size ts h k = grind arith

nested_div : (n w : ℕ) → 0 < w → n / 1000 / (w * 1000) ≡ n / us_per_second / w
nested_div n w h = grind arith

module _ {window : ℕ → ℕ → ℕ × ℕ} (t : IsTumbling window) (n w : ℕ) (positive : 0 < w) where
  millis : ℕ
  millis = n / 1000

  start_index : (window (w * 1000) (n / 1000)).0 ≡ n / us_per_second / w * (w * 1000)
  start_index =
      let size : ℕ = w * 1000 in
      let ts : ℕ = n / 1000 in
      let q : t.index size ts ≡ ts / size =
        quotient_unique (t.index size ts) size ts
          (omega (arith, t.aligned size ts, t.begun size ts))
          (omega (arith, t.aligned size ts, t.stop size ts, t.not_over size ts (omega arith))) in
      t.aligned size ts ∙ ap (λ k. k * (w * 1000)) (q ∙ nested_div n w positive)

  -- The start in microseconds is that of the reference.
  start_us : (window (w * 1000) (n / 1000)).0 * 1000 ≡ n / us_per_second / w * w * us_per_second
  start_us = ap (λ m. m * 1000) start_index ∙ grind arith

  stop_us :
      (window (w * 1000) (n / 1000)).1 * 1000 ≡ (n / us_per_second / w * w + w) * us_per_second
  stop_us = omega (arith, t.stop (w * 1000) (n / 1000), start_us)

  pub window-window_bounds :
      let (start, stop) = window (w * 1000) (n / 1000) in
      (pos start *ℤ pos 1000, pos stop *ℤ pos 1000) ≡ window_bounds (pos n) w
  window-window_bounds =
      ap₂ (λ a b. (a, b)) (pos-*ℤ-pos _ _ ∙ ap pos start_us) (pos-*ℤ-pos _ _ ∙ ap pos stop_us)
      ∙ sym (window_bounds-pos n w)

-- The bounds of a window that starts at its own start.
pub window_bounds-stop :
    (n w : ℕ)
    → 0 < w
    → (window_bounds (window_bounds (pos n) w).0 w).1 ≡ (window_bounds (pos n) w).1
window_bounds-stop n w h =
    let s : ℕ = n / us_per_second / w * w in
    rw (window_bounds-pos n w) (
      rw (window_bounds-pos (s * us_per_second) w)
        (ap (λ m. pos ((m * w + w) * us_per_second)) (own s)))
  where
    own :
        (s : ℕ)
        → n / us_per_second / w * w * us_per_second / us_per_second / w ≡ n / us_per_second / w
    own s = grind arith

module _ {F : Type 0} ⦃d : Double F⦄ where
  -- The aggregates of the rows (best_bid, best_ask) of one window, with `mean` for `agg.Mean`.
  unfoldable pub ticker_window : (List F → F) → ℤ → ℤ → List (F × F) → TickerWindow F
  ticker_window mean start stop rows = record {
    start = start;
    stop = stop;
    spread = mean (map (λ row. derive_spread row.0 row.1) rows);
    mid = mean (map (λ row. derive_mid row.0 row.1) rows);
    count = length rows;
  }

  -- The reference's accumulator behind the same ticks.
  abbrev pub add_ticks : Acc F → List (F × F) → Acc F
  add_ticks a [] = a
  add_ticks a ((bid, ask) ∷ rows) = add_ticks (add_ticker a (some bid) (some ask)) rows

  add_ticks_lem :
      (a : Acc F) (rows : List (F × F))
      → let b = add_ticks a rows in
        (b.spread_sum ≡ total a.spread_sum (map (λ row. derive_spread row.0 row.1) rows))
        × (b.mid_sum ≡ total a.mid_sum (map (λ row. derive_mid row.0 row.1) rows))
        × (b.tickers ≡ a.tickers + length rows)
        × (b.trades ≡ a.trades)
        × (b.vol ≡ a.vol)
  unfolding add_ticker
  add_ticks_lem a [] = (refl, refl, omega arith, refl, refl)
  add_ticks_lem a ((bid, ask) ∷ rows) =
      let (spread, mid, tickers, trades, vol) =
        add_ticks_lem (add_ticker a (some bid) (some ask)) rows in
      (spread, mid, omega (arith, tickers), trades, vol)

-- A message of the processor says what the reference's metrics say, field by field, with the times as
-- texts.
pub record Agrees {F : Type 0} (isoformat : Datetime → String) (m : WindowMetrics F) (e : Emitted F)
    : Type 0 where
  pub symbol : e.symbol ≡ m.symbol
  pub window_size : e.window_size ≡ m.window_size
  pub window_start : e.window_start ≡ isoformat m.window_start
  pub window_end : e.window_end ≡ isoformat m.window_end
  pub vwap : e.vwap ≡ m.vwap
  pub trade_volume : e.trade_volume ≡ m.trade_volume
  pub trade_count : e.trade_count ≡ m.trade_count
  pub avg_spread : e.avg_spread ≡ m.avg_spread
  pub avg_mid : e.avg_mid ≡ m.avg_mid
  pub ticker_count : e.ticker_count ≡ m.ticker_count
  pub event_count : e.event_count ≡ m.event_count

module _ {F : Type 0} ⦃d : Double F⦄ where
  mean-agrees :
      (mean : List F → F) (f : F × F → F) (row : F × F) (rows : List (F × F))
      → ((x : F) (xs : List F)
          → mean (x ∷ xs) ≡ d.div (total d.zero_f (x ∷ xs)) (d.of_count (length (x ∷ xs))))
      → some (mean (map f (row ∷ rows)))
        ≡ reference_mean (total d.zero_f (map f (row ∷ rows))) (0 + length (row ∷ rows))
  mean-agrees mean f row rows h =
      rw
        (
          h (f row) (map f rows),
          length-map f rows,
          (let e : 0 + suc (length rows) ≡ suc (length rows) = omega arith in e),
        )
        (ground arith)

  -- What the processor emits for the ticks of a window agrees with the reference's metrics of the
  -- same ticks in every field, the bounds included: for a window that Quix assigns to the time of one
  -- of its events, in milliseconds, if this time lies in 1970 or later, Quix's windows tumble, its
  -- mean of a list that is not empty is the sum from the left, beginning at zero, divided by the
  -- length, and zero is not below itself.
  pub finalize_ticker_window-Agrees :
      {window : ℕ → ℕ → ℕ × ℕ}
      → IsTumbling window
      → (isoformat : Datetime → String) (mean : List F → F) (w : ℕ) (label symbol : String) (n : ℕ)
        (row : F × F) (rows : List (F × F))
      → 0 < w
      → ((x : F) (xs : List F)
          → mean (x ∷ xs) ≡ d.div (total d.zero_f (x ∷ xs)) (d.of_count (length (x ∷ xs))))
      → d.lt d.zero_f d.zero_f ≡ false
      → let (start, stop) = window (w * 1000) (n / 1000) in
        Agrees isoformat
          (window_metrics w label
            ((symbol, (window_bounds (pos n) w).0), add_ticks fresh (row ∷ rows)))
          (finalize_ticker_window
            (ms_to_iso isoformat)
            label
            symbol
            (ticker_window mean (pos start) (pos stop) (row ∷ rows)))
  unfolding window_metrics finalize_ticker_window ticker_window ms_to_iso
  finalize_ticker_window-Agrees {window} t isoformat mean w label symbol n row rows h mean_lem
        zero_lem =
      let (spread, mid, tickers, trades, vol) = add_ticks_lem fresh (row ∷ rows) in
      let bounds = window-window_bounds t n w h in
      record {
        symbol = refl;
        window_size = refl;
        window_start = ap (λ b. isoformat b.0) bounds;
        window_end = ap (λ b. isoformat b.1) bounds ∙ ap isoformat (sym (window_bounds-stop n w h));
        vwap = rw (vol, zero_lem);
        trade_volume = sym vol;
        trade_count = sym trades;
        avg_spread = rw (spread, tickers) (mean-agrees mean _ row rows mean_lem);
        avg_mid = rw (mid, tickers) (mean-agrees mean _ row rows mean_lem);
        ticker_count = omega (arith, tickers);
        event_count = omega (arith, tickers, trades);
      }
