-- ===== src/Lake/Marts.antt =====
-- src/tickstream/lake/marts.py: `build_marts`, and how src/tickstream/pipeline.py counts the
-- snapshots that it made. dbt and DuckDB enter by the gold rows that they give, or by an exception.
pub mod Laws
use tickstream_streaming_lak.Prelude.{
  ℕ, String, Bool, true, false, not, Option, none, some, List, [], ◌∷◌, length, if◌then◌else◌, ltb,
  nat_beq, ◌&&◌,
}
use tickstream_streaming_lak.Errors.{Result, ok, err, runtime_error, ◌>>=◌}
use tickstream_streaming_lak.Metrics.{WindowMetrics}
use tickstream_streaming_lak.Lake.Iceberg.{Tables, materialize_gold, read_gold, gold_snapshots}

pub record MartsResult : Type 0 where
  pub gold_rows : ℕ
  pub snapshot_1m : Option ℕ
  pub snapshot_5m : Option ℕ

-- `a != b` of two ids that may be None
abbrev pub differs : Option ℕ → Option ℕ → Bool
differs none none = false
differs (some a) (some b) = not (nat_beq a b)
differs a b = true

-- `2 if marts.snapshot_5m and marts.snapshot_5m != marts.snapshot_1m else 1`
unfoldable pub count_snapshots : MartsResult → ℕ
count_snapshots m = elim m.snapshot_5m [
  | none ↦ 1
  | some id ↦ if ltb 0 id && differs (some id) m.snapshot_1m then 2 else 1
]

module _ {F T : Type 0} (t : Tables (WindowMetrics F) T) where
  -- `dbt` runs the command and gives the rows of `gold_window_metrics`.
  unfoldable pub build_marts :
      Bool → (String → Result (List (WindowMetrics F))) → Bool → Result (MartsResult × T)
  build_marts has_bronze dbt run_tests = do
    found ← if has_bronze then ok true else err runtime_error
    gold ← dbt (if run_tests then "build" else "run")
    let (s, (snap_1m, snap_5m)) = materialize_gold t gold
    ok (record { gold_rows = length gold; snapshot_1m = snap_1m; snapshot_5m = snap_5m }, s)

  -- `time_travel` of src/tickstream/query/duck.py: the ids, the rows now, and the first snapshot
  -- with its rows, if there is one. None where a snapshot cannot be read.
  unfoldable pub time_travel : T → Option (List ℕ × (ℕ × Option (ℕ × ℕ)))
  time_travel s = elim (read_gold t s none) [
    | none ↦ none
    | some current ↦ (elim (gold_snapshots t s) [
      | [] ↦ some ([], (length current, none))
      | id ∷ ids ↦ (elim (read_gold t s (some id)) [
        | none ↦ none
        | some first ↦ some (id ∷ ids, (length current, some (id, length first)))
      ])
    ])
  ]
