-- ===== src/Cli/Lake.antt =====
-- The commands of src/tickstream/cli.py that work on the lake: `bronze`, `pipeline`, `build-marts`,
-- `contracts` and `query`. The frame of `contracts` is that of the bronze table as pandas reads it.
use tickstream_streaming_lak.Prelude.{ℕ, String, Bool, true, Option, none, List}
use tickstream_streaming_lak.Errors.{Result}
use tickstream_streaming_lak.Config.{Settings}
use tickstream_streaming_lak.Kafka.{Probe}
use tickstream_streaming_lak.Py.{Double}
use tickstream_streaming_lak.Schema.{MarketEvent}
use tickstream_streaming_lak.Time.{Datetime}
use tickstream_streaming_lak.Lake.Poll.{Poll}
use tickstream_streaming_lak.Lake.Bronze.{write_bronze}
use tickstream_streaming_lak.Lake.Iceberg.{Tables}
use tickstream_streaming_lak.Lake.Marts.{MartsResult, build_marts, time_travel}
use tickstream_streaming_lak.Metrics.{WindowMetrics}
use tickstream_streaming_lak.Producer.Recording.{RecordedMessage}
use tickstream_streaming_lak.Quality.Contract.{Frame, Pandera, apply_contract}
use tickstream_streaming_lak.Quality.OutOfOrder.{count_out_of_order}
use tickstream_streaming_lak.Pipeline.{World, Store, PipelineResult, run_pipeline}
use tickstream_streaming_lak.Cli.{
  Ended, finished, exited, raised, still_running, call, require_broker, ◌>>=◌,
}

module _ {F : Type 0} where
  -- `bronze`: the table and the number of rows
  unfoldable pub bronze :
      (List ℕ → Result (MarketEvent F))
      → List Probe
      → ℕ
      → ℕ
      → List Poll
      → List (MarketEvent F)
      → Ended (List (MarketEvent F) × ℕ)
  bronze decode probes begun drain polls stored = do
    up ← require_broker probes
    call (write_bronze decode begun drain 3 none true polls stored)

module _ {F T : Type 0} (t : Tables (WindowMetrics F) T) where
  -- `build-marts`
  unfoldable pub build_marts_command :
      Bool → (String → Result (List (WindowMetrics F))) → Ended (MartsResult × T)
  build_marts_command has_bronze dbt = call (build_marts t has_bronze dbt true)

  -- `query`: the lines of the summary, which DuckDB computes, and the counts of the time travel
  unfoldable pub query :
      {Line : Type 0}
      → (T → Result (List Line))
      → T
      → Ended (List Line × Option (List ℕ × (ℕ × Option (ℕ × ℕ))))
  query symbol_summary s = do lines ← call (symbol_summary s); finished (lines, time_travel t s)

module _ {F T : Type 0} ⦃d : Double F⦄ where
  -- `pipeline`: the store behind it, and the result that is echoed
  unfoldable pub pipeline :
      World F T
      → Settings
      → List Probe
      → String
      → Bool
      → List (Result (RecordedMessage F))
      → Store F T
      → Store F T × Ended (PipelineResult F)
  pipeline w settings probes uid fixture_exists lines s = elim (require_broker probes) [
    | finished up ↦
        let (s', result) = run_pipeline w settings uid fixture_exists lines true s in
        (s', call result)
    | exited n ↦ (s, exited n)
    | raised x ↦ (s, raised x)
    | still_running ↦ (s, still_running)
  ]

-- What `contracts` echoes.
pub record ContractReport : Type 0 where
  pub n_valid : ℕ
  pub n_quarantined : ℕ
  pub out_of_order : ℕ

module _ {F : Type 0} ⦃d : Double F⦄ where
  -- `contracts`; `keyed` is the symbol and the time of each row, where they are there
  unfoldable pub contracts :
      Pandera F → Settings → Frame F → List (Option String × Option Datetime) → Ended ContractReport
  contracts pandera settings df keyed =
      let result = apply_contract pandera settings df in
      finished record {
        n_valid = result.n_valid;
        n_quarantined = result.n_quarantined;
        out_of_order = count_out_of_order keyed;
      }
