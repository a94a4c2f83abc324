-- ===== src/Lake/Windows.antt =====
-- src/tickstream/lake/windows.py: `land_windows`.
pub mod Laws
use tickstream_streaming_lak.Prelude.{ℕ, ◌+◌, Bool, false, List, []}
use tickstream_streaming_lak.Errors.{Result, ok, ◌>>=◌}
use tickstream_streaming_lak.Py.{Json, index, Runtime}
use tickstream_streaming_lak.Time.{Datetime}
use tickstream_streaming_lak.Normalize.Timestamp.{parse_ts}
use tickstream_streaming_lak.Lake.Poll.{Poll, drain, write_rows}

-- A row: the record of the topic, with its two bounds as times. The other columns are the fields
-- of the record.
pub record WindowRow (F : Type 0) : Type 0 where
  pub rec : Json F
  pub window_start : Datetime
  pub window_end : Datetime

module _ {F : Type 0} (r : Runtime F) (loads : List ℕ → Result (Json F)) where
  unfoldable pub window_row : List ℕ → Result (WindowRow F)
  window_row value = do
    rec ← loads value
    from ← index "window_start" rec
    window_start ← parse_ts r from
    to ← index "window_end" rec
    window_end ← parse_ts r to
    ok record { rec = rec; window_start = window_start; window_end = window_end }

  unfoldable pub land_windows :
      ℕ → ℕ → ℕ → Bool → List Poll → List (WindowRow F) → Result (List (WindowRow F) × ℕ)
  land_windows begun timeout idle clear polls stored = do
    rows ← drain window_row (λ n. false) (begun + timeout) idle polls (begun + idle) []
    ok (write_rows clear stored rows)
