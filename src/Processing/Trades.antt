-- ===== src/Processing/Trades.antt =====
-- The trade windows of processing/app.py, with their bounds, against the reference of
-- processing/metrics.py.
use tickstream_streaming_lak.Prelude.{
  ℕ, ◌*◌, ◌/◌, ◌<◌, String, ◌≡◌, refl, ap, ◌∙◌, sym, List, map, arith,
}
use tickstream_streaming_lak.Prelude.Int.{pos}
use tickstream_streaming_lak.Py.{Double}
use tickstream_streaming_lak.Time.{Datetime}
use tickstream_streaming_lak.Metrics.{fresh, window_metrics, window_bounds}
use tickstream_streaming_lak.Processing.Finalize.{
  finalize_trade_window, trade_window, total, add_trades, add_trades_lem,
}
use tickstream_streaming_lak.Processing.Ticker.{
  IsTumbling, Agrees, window-window_bounds, window_bounds-stop,
}
use tickstream_streaming_lak.Processing.Topology.{ms_to_iso}

module _ {F : Type 0} ⦃d : Double F⦄ where
  -- What the processor emits for the trades of a window agrees with the reference's metrics of the
  -- same trades in every field, the bounds included: for a window that Quix assigns to the time of
  -- one of its events, in milliseconds, if this time lies in 1970 or later, Quix's windows tumble,
  -- and its sum adds from the left, beginning at zero.
  pub finalize_trade_window-Agrees :
      {window : ℕ → ℕ → ℕ × ℕ}
      → IsTumbling window
      → (isoformat : Datetime → String) (sum : List F → F) (w : ℕ) (label symbol : String) (n : ℕ)
        (rows : List (F × F))
      → 0 < w
      → ((xs : List F) → sum xs ≡ total d.zero_f xs)
      → let (start, stop) = window (w * 1000) (n / 1000) in
        Agrees isoformat
          (window_metrics w label ((symbol, (window_bounds (pos n) w).0), add_trades fresh rows))
          (finalize_trade_window
            (ms_to_iso isoformat)
            label
            symbol
            (trade_window sum (pos start) (pos stop) rows))
  unfolding window_metrics finalize_trade_window trade_window ms_to_iso
  finalize_trade_window-Agrees {window} t isoformat sum w label symbol n rows h sum_lem =
      let (pv, vol, trades, tickers) = add_trades_lem fresh rows in
      let bounds = window-window_bounds t n w h in
      let sum_pv = sum_lem (map (λ row. d.mul row.0 row.1) rows) in
      let sum_volume = sum_lem (map (λ row. row.1) rows) in
      record {
        symbol = refl;
        window_size = refl;
        window_start = ap (λ b. isoformat b.0) bounds;
        window_end = ap (λ b. isoformat b.1) bounds ∙ ap isoformat (sym (window_bounds-stop n w h));
        vwap = rw (pv, vol, sum_pv, sum_volume) refl;
        trade_volume = rw (vol, sum_volume) refl;
        trade_count = omega (arith, trades);
        avg_spread = rw tickers refl;
        avg_mid = rw tickers refl;
        ticker_count = omega (arith, tickers);
        event_count = omega (arith, trades, tickers);
      }
