-- ===== src/Ui/Dashboard.antt =====
-- src/tickstream/ui/dashboard.py: what the dashboard shows, as a value. Streamlit draws it; pandas'
-- `sort_values`, `groupby(…).tail(1)` and row filters are modelled on the list of the rows. The
-- captions, the slider and the charts, which show the columns of `trades` and `ticks`, are left out.
pub mod Latest
use tickstream_streaming_lak.Prelude.{
  ℕ, String, Bool, true, false, ◌||◌, Option, none, some, List, [], ◌∷◌, length, keep, ltb,
  if◌then◌else◌,
}
use tickstream_streaming_lak.Prelude.Eq.{◌==◌, string_eq}
use tickstream_streaming_lak.Prelude.Sort.{sort}
use tickstream_streaming_lak.Prelude.Text.{str_leb}
use tickstream_streaming_lak.Errors.{Result, ok, err, runtime_error}
use tickstream_streaming_lak.Py.{Double}
use tickstream_streaming_lak.Lake.Iceberg.{Tables, is_1m, gold_snapshots, read_gold}
use tickstream_streaming_lak.Metrics.{WindowMetrics, key_leb}
use tickstream_streaming_lak.Pipeline.{PipelineResult}

-- `tt`
pub record TimeTravel : Type 0 where
  pub snapshots : ℕ
  pub current_rows : ℕ
  pub first_snapshot_rows : ℕ

-- What both loaders return: the gold rows, the saved result, if there is one, and `tt`.
pub record Loaded (F : Type 0) : Type 0 where
  pub gold : List (WindowMetrics F)
  pub result : Option (PipelineResult F)
  pub tt : TimeTravel

-- A number of rows, or the exception of the read.
abbrev pub rows_read : {A : Type 0} → Option (List A) → Result ℕ
rows_read none = err runtime_error
rows_read (some rows) = ok (length rows)

module _ {F T : Type 0} (t : Tables (WindowMetrics F) T) where
  -- `_load_live`, where the table can be loaded
  unfoldable pub load_live : T → Option (PipelineResult F) → Result (Loaded F)
  load_live s result = elim (t.scan s) [
    | [] ↦ err runtime_error
    | m ∷ ms ↦
        let loaded : ℕ → Loaded F = λ first. record {
          gold = m ∷ ms;
          result = result;
          tt = record {
            snapshots = length (gold_snapshots t s);
            current_rows = length (t.scan s);
            first_snapshot_rows = first;
          };
        } in
        elim (gold_snapshots t s) [
          | [] ↦ ok (loaded 0)
          | id ∷ ids ↦ (elim (rows_read (read_gold t s (some id))) [
            | err x ↦ err x
            | ok first ↦ ok (loaded first)
          ])
        ]
  ]

-- `load_data`: the live data, unless the variable TICKSTREAM_DEMO has a text or anything is raised;
-- and whether it is the demo.
unfoldable pub load_data :
    {F : Type 0} → Option String → Result (Loaded F) → Loaded F → Loaded F × Bool
load_data none (ok live) snapshot = (live, false)
load_data none (err x) snapshot = (snapshot, true)
load_data (some value) live snapshot =
    if value == ""
    then (elim live [ ok data_live ↦ (data_live, false) | err x ↦ (snapshot, true) ])
    else (snapshot, true)

module _ {F : Type 0} where
  -- Whether some row has the symbol.
  abbrev pub has_symbol : String → List (WindowMetrics F) → Bool
  has_symbol s [] = false
  has_symbol s (m ∷ ms) = m.symbol == s || has_symbol s ms

  -- `groupby("symbol").tail(1)`: the rows behind which no row of their symbol stands
  unfoldable pub last_of_each : List (WindowMetrics F) → List (WindowMetrics F)
  last_of_each [] = []
  last_of_each (m ∷ ms) =
      let rest = last_of_each ms in if has_symbol m.symbol ms then rest else m ∷ rest

  abbrev pub symbol_leb : WindowMetrics F → WindowMetrics F → Bool
  symbol_leb m n = str_leb m.symbol n.symbol

  -- `latest`
  unfoldable pub latest : List (WindowMetrics F) → List (WindowMetrics F)
  unfolding last_of_each
  latest one_min = sort symbol_leb (last_of_each one_min)

-- What the page shows below its title: the numbers of the SLA panel, if the result has them, the
-- latest row of each symbol, the rows of the charts, and the numbers of the time travel.
pub record Panels (F : Type 0) : Type 0 where
  pub sla : Option (PipelineResult F)
  pub latest_rows : List (WindowMetrics F)
  pub trades : List (WindowMetrics F)
  pub ticks : List (WindowMetrics F)
  pub tt : TimeTravel

pub data Page (F : Type 0) : Type 0 where
  -- the warning and `st.stop()`, below the SLA panel
  no_windows : Option (PipelineResult F) → Page F
  panels : Panels F → Page F

module _ {F : Type 0} ⦃d : Double F⦄ where
  -- `one_min`: the windows of a minute by symbol and start
  unfoldable pub one_minute : List (WindowMetrics F) → List (WindowMetrics F)
  one_minute gold = sort key_leb (keep is_1m gold)

  unfoldable pub panels_of : List (WindowMetrics F) → Loaded F → Page F
  unfolding latest
  panels_of [] loaded = no_windows loaded.result
  panels_of (m ∷ ms) loaded = panels record {
    sla = loaded.result;
    latest_rows = latest (m ∷ ms);
    trades = keep (λ w. ltb 0 w.trade_count) (m ∷ ms);
    ticks = keep (λ w. ltb 0 w.ticker_count) (m ∷ ms);
    tt = loaded.tt;
  }

  unfoldable pub page : Loaded F → Page F
  unfolding one_minute panels_of
  page loaded = panels_of (one_minute loaded.gold) loaded
