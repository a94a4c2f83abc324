-- ===== src/Pipeline.antt =====
-- src/tickstream/pipeline.py: `run_pipeline`. The stages are the models of the other modules; what
-- the broker's consumers, the Quix library and dbt answer are arguments.
pub mod Stages
pub mod Trace
pub mod Laws
pub mod Lossless
pub mod Boundary
pub mod Failure
use Prim.Native.String.{◌++◌ as ◌<>◌}
use tickstream_streaming_lak.Prelude.{
  ℕ, String, Bool, true, false, not, Option, none, some, List, [], ◌∷◌, length, if◌then◌else◌,
  nat_beq,
}
use tickstream_streaming_lak.Errors.{Exc, Result, ok, err, runtime_error}
use tickstream_streaming_lak.Config.{Topics, Settings}
use tickstream_streaming_lak.Py.{Double, Json, Runtime}
use tickstream_streaming_lak.Time.{Datetime}
use tickstream_streaming_lak.Schema.{MarketEvent}
use tickstream_streaming_lak.Metrics.{WindowMetrics}
use tickstream_streaming_lak.Kafka.{Message}
use tickstream_streaming_lak.Producer.Recording.{RecordedMessage}
use tickstream_streaming_lak.Producer.Replay.{ReplaySummary, Clock, Answers, replay}
use tickstream_streaming_lak.Lake.Poll.{Poll}
use tickstream_streaming_lak.Lake.Bronze.{write_bronze}
use tickstream_streaming_lak.Lake.Windows.{WindowRow, land_windows}
use tickstream_streaming_lak.Lake.Iceberg.{Tables}
use tickstream_streaming_lak.Lake.Marts.{MartsResult, count_snapshots, build_marts}
use tickstream_streaming_lak.Quality.Landing.{Row, land_quarantine}
use tickstream_streaming_lak.Quality.Sla.{SlaReport, Numeric, measure_sla, passed}

pub record PipelineResult (F : Type 0) : Type 0 where
  pub replayed_events : ℕ
  pub bronze_rows : ℕ
  pub window_rows : ℕ
  pub gold_rows : ℕ
  pub gold_snapshots : ℕ
  pub quarantined : ℕ
  pub latency_p95_s : F
  pub completeness_pct : F
  pub gold_violations : ℕ
  pub sla_passed : Bool

-- What a run leaves on disk: the tables, the state directory of this run, `pipeline_result.json`.
pub record Store (F T : Type 0) : Type 0 where
  pub quarantine : List (Row F)
  pub bronze : List (MarketEvent F)
  pub windows : List (WindowRow F)
  pub gold : T
  pub state_dir : Bool
  pub result : Option (PipelineResult F)

-- A step changes the store, and returns or raises.
abbrev pub Step : Type 0 → Type 0 → Type 0 → Type 0
Step F T A = Store F T → Store F T × Result A

infixl 5 ◌>>=◌
abbrev pub ◌>>=◌ : {F T A B : Type 0} → Step F T A → (A → Step F T B) → Step F T B
◌>>=◌ m f s = let (s', x) = m s in elim x [ ok a ↦ f a s' | err e ↦ (s', err e) ]

abbrev pub give : {F T A : Type 0} → Result A → Step F T A
give x s = (s, x)

-- The topics of one run.
unfoldable pub isolated_topics : String → Topics
isolated_topics uid = record {
  trades_raw = "trades.raw." <> uid;
  ticker_raw = "ticker.raw." <> uid;
  metrics_windowed = "metrics.windowed." <> uid;
  quarantine = "contracts.quarantine." <> uid;
}

abbrev pub isolated : Settings → String → Settings
isolated settings uid = record settings { topics = isolated_topics uid }

-- The times of a sink: the start, the timeout, the idle time.
pub record Times : Type 0 where
  pub begun : ℕ
  pub timeout : ℕ
  pub idle : ℕ

-- What stands outside: the coders, what the consumers of the quarantine topic, of the raw topics and
-- of the metrics topic are given, the messages that Quix makes of the raw topics, the gold rows that
-- dbt makes of the lake, and the clock behind it.
pub record World (F T : Type 0) : Type 0 where
  pub runtime : Runtime F
  pub answers : Answers F
  pub clock : Clock
  pub tables : Tables (WindowMetrics F) T
  pub decode : List ℕ → Result (MarketEvent F)
  pub loads : List ℕ → Result (Json F)
  pub dumps : Json F → List ℕ
  pub quarantine_rounds : List (Message F) → List Poll
  pub raw_rounds : List (Message F) → List Poll
  pub metrics_rounds : List (List ℕ) → List Poll
  pub process : List (Message F) → Result (List (List ℕ))
  pub dbt : List (MarketEvent F) → List (WindowRow F) → String → Result (List (WindowMetrics F))
  pub numeric : Numeric F
  pub gold_built_at : Datetime
  pub quarantine_times : Times
  pub bronze_times : Times
  pub windows_times : Times

module _ {F T : Type 0} ⦃d : Double F⦄ (w : World F T) where
  abbrev keep_table :
      {A : Type 0} → Result (A × ℕ) → (A → Store F T) → Store F T → Store F T × Result ℕ
  keep_table (err x) write s = (s, err x)
  keep_table (ok (table, n)) write s = (write table, ok n)

  unfoldable pub quarantine_stage : List (Message F) → Step F T ℕ
  quarantine_stage log s =
      let t = w.quarantine_times in
      keep_table
        (land_quarantine w.runtime w.loads w.dumps t.begun t.timeout t.idle true
          (w.quarantine_rounds log) s.quarantine)
        (λ table. record s { quarantine = table }) s

  unfoldable pub bronze_stage : List (Message F) → Step F T ℕ
  bronze_stage log s =
      let t = w.bronze_times in
      keep_table
        (write_bronze w.decode t.begun t.timeout t.idle none true (w.raw_rounds log) s.bronze)
        (λ table. record s { bronze = table }) s

  -- `run_processor` makes the state directory.
  unfoldable pub processor_stage : List (Message F) → Step F T (List (List ℕ))
  processor_stage log s = (record s { state_dir = true }, w.process log)

  unfoldable pub windows_stage : List (List ℕ) → Step F T ℕ
  windows_stage metrics s =
      let t = w.windows_times in
      keep_table
        (land_windows w.runtime w.loads t.begun t.timeout t.idle true (w.metrics_rounds metrics)
          s.windows)
        (λ table. record s { windows = table }) s

  -- The `finally` block.
  unfoldable pub reclaiming : {A : Type 0} → Bool → Step F T A → Step F T A
  reclaiming auto_state m s =
      let (s', x) = m s in (record s' { state_dir = if auto_state then false else s'.state_dir }, x)

  abbrev has_rows : {A : Type 0} → List A → Bool
  has_rows [] = false
  has_rows (x ∷ xs) = true

  unfoldable pub marts_stage : Step F T MartsResult
  marts_stage s = elim (build_marts w.tables (has_rows s.bronze) (w.dbt s.bronze s.windows) true) [
    | err x ↦ (s, err x)
    | ok (m, gold) ↦ (record s { gold = gold }, ok m)
  ]

  -- The measurement, on the lake as it is now.
  unfoldable pub result_of : ReplaySummary → ℕ → ℕ → MartsResult → Store F T → PipelineResult F
  result_of summary bronze_rows window_rows marts s =
      let sla = measure_sla w.numeric s.bronze (w.tables.scan s.gold) w.gold_built_at in
      record {
        replayed_events = summary.events;
        bronze_rows = bronze_rows;
        window_rows = window_rows;
        gold_rows = marts.gold_rows;
        gold_snapshots = count_snapshots marts;
        quarantined = summary.quarantined;
        latency_p95_s = sla.latency_p95_s;
        completeness_pct = sla.completeness_pct;
        gold_violations = sla.gold_violations;
        sla_passed = passed sla;
      }

  -- The file with the result.
  unfoldable pub report_stage : ReplaySummary → ℕ → ℕ → MartsResult → Step F T (PipelineResult F)
  report_stage summary bronze_rows window_rows marts s =
      let result = result_of summary bronze_rows window_rows marts s in
      (record s { result = some result }, ok result)

  -- `if landed_q != summary.quarantined: raise`
  abbrev pub reconciled : ℕ → ReplaySummary → Result Bool
  reconciled landed summary =
      if nat_beq landed summary.quarantined then ok true else err runtime_error

  -- From the marts on.
  unfoldable pub marts_and_report : ReplaySummary → ℕ → ℕ → Step F T (PipelineResult F)
  marts_and_report summary bronze_rows window_rows = do
    marts ← marts_stage
    report_stage summary bronze_rows window_rows marts

  -- From the windows on.
  unfoldable pub windows_and_marts :
      Bool → ReplaySummary → List (Message F) → ℕ → Step F T (PipelineResult F)
  windows_and_marts auto_state summary log bronze_rows = do
    window_rows ← reclaiming auto_state (do metrics ← processor_stage log; windows_stage metrics)
    marts_and_report summary bronze_rows window_rows

  -- From the check of the quarantine on.
  unfoldable pub lake_stages :
      Bool → ReplaySummary → List (Message F) → ℕ → Step F T (PipelineResult F)
  lake_stages auto_state summary log landed = do
    checked ← give (reconciled landed summary)
    bronze_rows ← bronze_stage log
    windows_and_marts auto_state summary log bronze_rows

  unfoldable pub run_pipeline :
      Settings
      → String
      → Bool
      → List (Result (RecordedMessage F))
      → Bool
      → Step F T (PipelineResult F)
  run_pipeline settings uid fixture_exists lines auto_state = do
    (summary, log) ←
        give (replay w.runtime (isolated settings uid) w.clock w.answers fixture_exists lines none)
    landed ← quarantine_stage log
    lake_stages auto_state summary log landed
