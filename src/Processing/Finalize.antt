-- ===== src/Processing/Finalize.antt =====
-- The finalizers of processing/app.py, and the totals of the trades of a window, against those of
-- processing/metrics.py.
use tickstream_streaming_lak.Prelude.{
  ℕ, ◌+◌, String, ◌≡◌, refl, Option, none, some, List, [], ◌∷◌, map, length, if◌then◌else◌, arith,
}
use tickstream_streaming_lak.Prelude.Int.{ℤ}
use tickstream_streaming_lak.Py.{Double}
use tickstream_streaming_lak.Metrics.{Acc, add_trade}

-- The value of a closed window: its bounds in milliseconds, and the aggregates.
pub record TradeWindow (F : Type 0) : Type 0 where
  pub start : ℤ
  pub stop : ℤ
  pub pv : F
  pub volume : F
  pub count : ℕ

pub record TickerWindow (F : Type 0) : Type 0 where
  pub start : ℤ
  pub stop : ℤ
  pub spread : F
  pub mid : F
  pub count : ℕ

-- The message to the topic of the metrics.
pub record Emitted (F : Type 0) : Type 0 where
  pub symbol : String
  pub window_size : String
  pub window_start : String
  pub window_end : String
  pub source : String
  pub vwap : Option F
  pub trade_volume : F
  pub trade_count : ℕ
  pub avg_spread : Option F
  pub avg_mid : Option F
  pub ticker_count : ℕ
  pub event_count : ℕ

module _ {F : Type 0} ⦃d : Double F⦄ (iso : ℤ → String) where
  unfoldable pub finalize_trade_window : String → String → TradeWindow F → Emitted F
  finalize_trade_window label symbol value = record {
    symbol = symbol;
    window_size = label;
    window_start = iso value.start;
    window_end = iso value.stop;
    source = "trades";
    vwap = if d.lt d.zero_f value.volume then some (d.div value.pv value.volume) else none;
    trade_volume = value.volume;
    trade_count = value.count;
    avg_spread = none;
    avg_mid = none;
    ticker_count = 0;
    event_count = value.count;
  }

  unfoldable pub finalize_ticker_window : String → String → TickerWindow F → Emitted F
  finalize_ticker_window label symbol value = record {
    symbol = symbol;
    window_size = label;
    window_start = iso value.start;
    window_end = iso value.stop;
    source = "ticker";
    vwap = none;
    trade_volume = d.zero_f;
    trade_count = 0;
    avg_spread = some value.spread;
    avg_mid = some value.mid;
    ticker_count = value.count;
    event_count = value.count;
  }

module _ {F : Type 0} ⦃d : Double F⦄ where
  -- `sdf["pv"] = price * size`, and the aggregates of the rows (price, size) of one window, with
  -- `sum` for `agg.Sum`
  unfoldable pub trade_window : (List F → F) → ℤ → ℤ → List (F × F) → TradeWindow F
  trade_window sum start stop rows = record {
    start = start;
    stop = stop;
    pv = sum (map (λ row. d.mul row.0 row.1) rows);
    volume = sum (map (λ row. row.1) rows);
    count = length rows;
  }

  -- The sum from the left.
  abbrev pub total : F → List F → F
  total acc [] = acc
  total acc (x ∷ xs) = total (d.add acc x) xs

  -- The reference's accumulator behind the same trades.
  abbrev pub add_trades : Acc F → List (F × F) → Acc F
  add_trades a [] = a
  add_trades a ((price, size) ∷ rows) = add_trades (add_trade a (some price) (some size)) rows

  pub add_trades_lem :
      (a : Acc F) (rows : List (F × F))
      → let b = add_trades a rows in
        (b.pv ≡ total a.pv (map (λ row. d.mul row.0 row.1) rows))
        × (b.vol ≡ total a.vol (map (λ row. row.1) rows))
        × (b.trades ≡ a.trades + length rows)
        × (b.tickers ≡ a.tickers)
  unfolding add_trade
  add_trades_lem a [] = (refl, refl, omega arith, refl)
  add_trades_lem a ((price, size) ∷ rows) =
      let (pv, vol, trades, tickers) = add_trades_lem (add_trade a (some price) (some size)) rows in
      (pv, vol, omega (arith, trades), tickers)
