-- ===== src/Metrics.antt =====
-- src/tickstream/processing/metrics.py: the reference windows. Time is in whole microseconds;
-- `window_seconds` is positive wherever the code calls these functions (60 or 300).
pub mod Bounds
pub mod Reference
pub mod Counts
pub mod Watermark
pub mod Closed
pub mod Interleaving
use tickstream_streaming_lak.Prelude.{
  ℕ, ◌+◌, ◌*◌, String, Bool, true, false, Option, none, some, List, [], ◌∷◌, map, keep,
  if◌then◌else◌, ltb,
}
use tickstream_streaming_lak.Prelude.Int.{ℤ, pos, ◌+ℤ◌, ◌*ℤ◌, floor_div, ltb_ℤ, leb_ℤ}
use tickstream_streaming_lak.Prelude.Eq.{◌==◌, string_eq, int_eq, pair_eq}
use tickstream_streaming_lak.Prelude.Dict.{Dict, get, get_default, put}
use tickstream_streaming_lak.Prelude.Text.{str_leb}
use tickstream_streaming_lak.Prelude.Sort.{sort}
use tickstream_streaming_lak.Py.{Double}
use tickstream_streaming_lak.Time.{Datetime, us_per_second, epoch_seconds, from_seconds}
use tickstream_streaming_lak.Schema.{MarketEvent, EventType, trade, ticker}

-- WINDOW_SIZES
abbrev pub window_sizes : Dict String ℕ
window_sizes = ("1m", 60) ∷ ("5m", 300) ∷ []

-- `(int(epoch) // window_seconds) * window_seconds`
unfoldable pub window_start_seconds : Datetime → ℕ → ℤ
window_start_seconds ts window_seconds =
    floor_div (epoch_seconds ts) window_seconds *ℤ pos window_seconds

unfoldable pub window_bounds : Datetime → ℕ → Datetime × Datetime
window_bounds ts window_seconds =
    let start = window_start_seconds ts window_seconds in
    (from_seconds start, from_seconds (start +ℤ pos window_seconds))

-- `_Acc`
pub record Acc (F : Type 0) : Type 0 where
  pub pv : F
  pub vol : F
  pub trades : ℕ
  pub spread_sum : F
  pub mid_sum : F
  pub tickers : ℕ

pub record WindowMetrics (F : Type 0) : Type 0 where
  pub symbol : String
  pub window_size : String
  pub window_start : Datetime
  pub window_end : Datetime
  pub vwap : Option F
  pub trade_volume : F
  pub trade_count : ℕ
  pub avg_spread : Option F
  pub avg_mid : Option F
  pub ticker_count : ℕ
  pub event_count : ℕ

-- The key of the accumulators: `(ev.symbol, start)`.
abbrev pub BucketKey : Type 0
BucketKey = String × Datetime

abbrev pub bucket_of : {F : Type 0} → ℕ → MarketEvent F → BucketKey
bucket_of window_seconds e = (e.symbol, (window_bounds e.ts_event window_seconds).0)

module _ {F : Type 0} ⦃d : Double F⦄ where
  abbrev pub fresh : Acc F
  fresh = record {
    pv = d.zero_f;
    vol = d.zero_f;
    trades = 0;
    spread_sum = d.zero_f;
    mid_sum = d.zero_f;
    tickers = 0;
  }

  -- A trade with a price and a size, and a tick with both sides of the book.
  unfoldable pub add_trade : Acc F → Option F → Option F → Acc F
  add_trade a (some price) (some size) = record a {
    pv = d.add a.pv (d.mul price size);
    vol = d.add a.vol size;
    trades = a.trades + 1;
  }
  add_trade a price size = a

  unfoldable pub add_ticker : Acc F → Option F → Option F → Acc F
  add_ticker a (some bid) (some ask) = record a {
    spread_sum = d.add a.spread_sum (d.sub ask bid);
    mid_sum = d.add a.mid_sum (d.div (d.add ask bid) (d.of_count 2));
    tickers = a.tickers + 1;
  }
  add_ticker a bid ask = a

  unfoldable pub add_event : Acc F → MarketEvent F → Acc F
  add_event a e = elim e.event_type [
    | trade ↦ add_trade a e.price e.size
    | ticker ↦ add_ticker a e.best_bid e.best_ask
  ]

  -- The loop `for ev in events`, over the `defaultdict` of accumulators.
  unfoldable pub accumulate :
      ℕ → List (MarketEvent F) → Dict BucketKey (Acc F) → Dict BucketKey (Acc F)
  accumulate window_seconds [] acc = acc
  accumulate window_seconds (e ∷ es) acc =
      let key = bucket_of window_seconds e in
      accumulate window_seconds es (put key (add_event (get_default key fresh acc) e) acc)

  -- `total / count if count > 0 else None`
  abbrev pub mean : F → ℕ → Option F
  mean total count = if ltb 0 count then some (d.div total (d.of_count count)) else none

  unfoldable pub window_metrics : ℕ → String → BucketKey × Acc F → WindowMetrics F
  window_metrics window_seconds window_label ((symbol, start), a) = record {
    symbol = symbol;
    window_size = window_label;
    window_start = start;
    window_end = (window_bounds start window_seconds).1;
    vwap = if d.lt d.zero_f a.vol then some (d.div a.pv a.vol) else none;
    trade_volume = a.vol;
    trade_count = a.trades;
    avg_spread = mean a.spread_sum a.tickers;
    avg_mid = mean a.mid_sum a.tickers;
    ticker_count = a.tickers;
    event_count = a.trades + a.tickers;
  }

  -- `m <= n` on the sort key `(m.symbol, m.window_start)`
  unfoldable pub key_leb : WindowMetrics F → WindowMetrics F → Bool
  key_leb m n =
      if m.symbol == n.symbol
      then leb_ℤ m.window_start n.window_start
      else str_leb m.symbol n.symbol

  unfoldable pub compute_windows : ℕ → String → List (MarketEvent F) → List (WindowMetrics F)
  compute_windows window_seconds window_label events =
      sort key_leb
        (map (window_metrics window_seconds window_label) (accumulate window_seconds events []))

-- `cur is None or ev.ts_event > cur`
abbrev pub is_later : Option Datetime → Datetime → Bool
is_later none ts = true
is_later (some cur) ts = ltb_ℤ cur ts

module _ {F : Type 0} where
  abbrev pub note_event : MarketEvent F → Dict String Datetime → Dict String Datetime
  note_event e out =
      if is_later (get e.symbol out) e.ts_event then put e.symbol e.ts_event out else out

  unfoldable pub max_event_ts_from :
      List (MarketEvent F) → Dict String Datetime → Dict String Datetime
  max_event_ts_from [] out = out
  max_event_ts_from (e ∷ es) out = max_event_ts_from es (note_event e out)

  unfoldable pub max_event_ts_by_symbol : List (MarketEvent F) → Dict String Datetime
  unfolding max_event_ts_from
  max_event_ts_by_symbol events = max_event_ts_from events []

  -- `wm.timestamp() >= m.window_end.timestamp() + grace_seconds`
  unfoldable pub has_closed : Option Datetime → ℕ → WindowMetrics F → Bool
  has_closed none grace_seconds m = false
  has_closed (some wm) grace_seconds m =
      leb_ℤ (m.window_end +ℤ pos (grace_seconds * us_per_second)) wm

  unfoldable pub closed_windows :
      List (WindowMetrics F) → Dict String Datetime → ℕ → List (WindowMetrics F)
  closed_windows metrics max_ts grace_seconds =
      keep (λ m. has_closed (get m.symbol max_ts) grace_seconds m) metrics
