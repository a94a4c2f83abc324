-- ===== src/Pipeline/Trace.antt =====
-- That a run of the pipeline (src/tickstream/pipeline.py) that returns went through all its stages.
use tickstream_streaming_lak.Prelude.{
  ℕ, String, ◌≡◌, refl, Bool, true, false, none, List, if◌then◌else◌, arith,
}
use tickstream_streaming_lak.Errors.{Result, ok, err}
use tickstream_streaming_lak.Config.{Settings}
use tickstream_streaming_lak.Py.{Double}
use tickstream_streaming_lak.Schema.{MarketEvent}
use tickstream_streaming_lak.Kafka.{Message}
use tickstream_streaming_lak.Producer.Recording.{RecordedMessage}
use tickstream_streaming_lak.Producer.Replay.{ReplaySummary, replay}
use tickstream_streaming_lak.Lake.Bronze.{write_bronze}
use tickstream_streaming_lak.Lake.Windows.{WindowRow, land_windows}
use tickstream_streaming_lak.Lake.Marts.{MartsResult, build_marts}
use tickstream_streaming_lak.Quality.Landing.{Row, land_quarantine}
use tickstream_streaming_lak.Pipeline.{
  Store, ◌>>=◌, give, isolated, World, keep_table, quarantine_stage, bronze_stage, processor_stage,
  windows_stage, reclaiming, has_rows, marts_stage, report_stage, result_of, reconciled,
  marts_and_report, windows_and_marts, lake_stages, run_pipeline,
}
use tickstream_streaming_lak.Pipeline.Stages.{
  Post, Post-bind, Post-map, keep_table-Post, give-Post, IsReported, IsProcessed, IsFilled, IsRun,
}

module _ {F T : Type 0} ⦃d : Double F⦄ (w : World F T) where
  reconciled_lem :
      (landed : ℕ) (summary : ReplaySummary) (b : Bool)
      → reconciled w landed summary ≡ ok b
      → landed ≡ summary.quarantined
  reconciled_lem landed summary b h = ground (arith, h)

  abbrev Built : Store F T → Store F T → MartsResult → Type 0
  Built s s' m =
      (gold : T) × (build_marts w.tables (has_rows w s.bronze) (w.dbt s.bronze s.windows) true
        ≡ ok (m, gold))
      × (s' ≡ record s { gold = gold })

  abbrev Kept : {A : Type 0} → Result (A × ℕ) → (A → Store F T) → Store F T → ℕ → Type 0
  Kept {A} x write s' n = (table : A) × (x ≡ ok (table, n)) × (s' ≡ write table)

  marts_stage-Post : (s : Store F T) → Post (Built s) (marts_stage w s)
  unfolding marts_stage
  marts_stage-Post s =
      go (build_marts w.tables (has_rows w s.bronze) (w.dbt s.bronze s.windows) true)
    where
      go :
          (x : Result (MartsResult × T))
          → Post
              (λ s' m. (gold : T) × (x ≡ ok (m, gold)) × (s' ≡ record s { gold = gold }))
              (elim x [ err e ↦ (s, err e) | ok (m', gold) ↦ (record s { gold = gold }, ok m') ])
      go (err e) = tt
      go (ok (m, gold)) = (gold, refl, refl)

  abbrev Windowed : List (Message F) → Bool → Store F T → Store F T → ℕ → Type 0
  Windowed log auto_state s s' n =
      (metrics : List (List ℕ)) × (table : List (WindowRow F)) × (w.process log ≡ ok metrics)
      × (land_windows w.runtime w.loads w.windows_times.begun w.windows_times.timeout
            w.windows_times.idle true (w.metrics_rounds metrics) s.windows
          ≡ ok (table, n))
      × (s' ≡ record s { windows = table; state_dir = if auto_state then false else true })

  processing-Post :
      (auto_state : Bool) (log : List (Message F)) (s : Store F T)
      → Post (Windowed log auto_state s) (
          reclaiming w auto_state
            (processor_stage w log >>= (λ metrics. windows_stage w metrics))
            s)
  unfolding reclaiming processor_stage windows_stage
  processing-Post auto_state log s = go (w.process log) refl
    where
      landed :
          (metrics : List (List ℕ)) (y : Result (List (WindowRow F) × ℕ))
          → w.process log ≡ ok metrics
          → land_windows w.runtime w.loads w.windows_times.begun w.windows_times.timeout
              w.windows_times.idle true
              (w.metrics_rounds metrics)
              s.windows
            ≡ y
          → Post (Windowed log auto_state s) (
              reclaiming w auto_state
                (λ (s0 : Store F T).
                  keep_table w y
                    (λ table. record s0 { state_dir = true; windows = table })
                    (record s0 { state_dir = true }))
                s)
      landed metrics (err x) e k = tt
      landed metrics (ok (table, n)) e k = (metrics, table, e, k, refl)

      go :
          (x : Result (List (List ℕ)))
          → w.process log ≡ x
          → Post (Windowed log auto_state s) (
              reclaiming w auto_state
                ((λ (s0 : Store F T). (record s0 { state_dir = true }, x))
                  >>= (λ metrics. windows_stage w metrics))
                s)
      go (err x) e = tt
      go (ok metrics) e = landed metrics _ e refl

  marts_and_report-Post :
      (summary : ReplaySummary) (b n : ℕ) (s : Store F T)
      → Post (IsReported w summary b n s) (marts_and_report w summary b n s)
  unfolding marts_and_report report_stage result_of
  marts_and_report-Post summary b n s =
      Post-bind (Built s) (IsReported w summary b n s) (marts_stage w)
        (λ m. report_stage w summary b n m) s (marts_stage-Post s)
        λ s1 m (gold, built, same).
          rw same record { marts = m; built = built; result_eq = refl; state = refl }

  windows_and_marts-Post :
      (auto_state : Bool) (summary : ReplaySummary) (log : List (Message F)) (b : ℕ) (s : Store F T)
      → Post
          (IsProcessed w auto_state summary log b s)
          (windows_and_marts w auto_state summary log b s)
  unfolding windows_and_marts
  windows_and_marts-Post auto_state summary log b s =
      Post-bind (Windowed log auto_state s) (IsProcessed w auto_state summary log b s)
        (reclaiming w auto_state (processor_stage w log >>= (λ metrics. windows_stage w metrics)))
        (λ n. marts_and_report w summary b n) s (processing-Post auto_state log s)
        λ s1 n (metrics, table, processed, windows, same). rw same (
          Post-map
            (IsReported w summary b n
              (record s { windows = table; state_dir = if auto_state then false else true }))
            (IsProcessed w auto_state summary log b s)
            (marts_and_report w summary b n
              (record s { windows = table; state_dir = if auto_state then false else true }))
            (λ s' result v. record {
              metrics = metrics;
              window_rows = n;
              table = table;
              processed = processed;
              windows = windows;
              rest = v;
            })
            (marts_and_report-Post summary b n _))

  lake_stages-Post :
      (auto_state : Bool) (summary : ReplaySummary) (log : List (Message F)) (landed : ℕ)
      (s : Store F T)
      → Post
          (IsFilled w auto_state summary log landed s)
          (lake_stages w auto_state summary log landed s)
  unfolding lake_stages bronze_stage
  lake_stages-Post auto_state summary log landed s =
      Post-bind (λ s1 b. (reconciled w landed summary ≡ ok b) × (s1 ≡ s))
        (IsFilled w auto_state summary log landed s) (give (reconciled w landed summary))
        (λ checked. bronze_stage w log >>= (λ b. windows_and_marts w auto_state summary log b)) s
        (give-Post w (reconciled w landed summary) s)
        λ s1 checked (agrees, same). rw same (filled (reconciled_lem landed summary checked agrees))
    where
      read : Result (List (MarketEvent F) × ℕ)
      read =
          write_bronze w.decode w.bronze_times.begun w.bronze_times.timeout w.bronze_times.idle none
            true (w.raw_rounds log) s.bronze

      filled :
          landed ≡ summary.quarantined
          → Post
              (IsFilled w auto_state summary log landed s)
              ((bronze_stage w log >>= (λ b. windows_and_marts w auto_state summary log b)) s)
      filled agrees =
          Post-bind (Kept read (λ table. record s { bronze = table }))
            (IsFilled w auto_state summary log landed s) (bronze_stage w log)
            (λ b. windows_and_marts w auto_state summary log b) s
            (keep_table-Post w read (λ table. record s { bronze = table }) s)
            λ s1 b (table, wrote, same). rw same (
              Post-map (IsProcessed w auto_state summary log b (record s { bronze = table }))
                (IsFilled w auto_state summary log landed s)
                (windows_and_marts w auto_state summary log b (record s { bronze = table }))
                (λ s' result v. record {
                  agrees = agrees;
                  bronze_rows = b;
                  table = table;
                  bronze = wrote;
                  rest = v;
                })
                (windows_and_marts-Post auto_state summary log b _))

  pub run_pipeline-Post :
      (settings : Settings) (uid : String) (fixture_exists : Bool)
      (lines : List (Result (RecordedMessage F))) (auto_state : Bool) (s : Store F T)
      → Post
          (IsRun w settings uid fixture_exists lines auto_state s)
          (run_pipeline w settings uid fixture_exists lines auto_state s)
  unfolding run_pipeline quarantine_stage
  run_pipeline-Post settings uid fixture_exists lines auto_state s =
      Post-bind (λ s1 x. (played ≡ ok x) × (s1 ≡ s))
        (IsRun w settings uid fixture_exists lines auto_state s) (give played)
        (λ x. quarantine_stage w x.1 >>= (λ n. lake_stages w auto_state x.0 x.1 n)) s
        (give-Post w played s) λ s1 x (e, same). rw same (landing x.0 x.1 e)
    where
      played : Result (ReplaySummary × List (Message F))
      played = replay w.runtime (isolated settings uid) w.clock w.answers fixture_exists lines none

      read : List (Message F) → Result (List (Row F) × ℕ)
      read log =
          land_quarantine w.runtime w.loads w.dumps w.quarantine_times.begun
            w.quarantine_times.timeout w.quarantine_times.idle true (w.quarantine_rounds log)
            s.quarantine

      landing :
          (summary : ReplaySummary) (log : List (Message F))
          → played ≡ ok (summary, log)
          → Post
              (IsRun w settings uid fixture_exists lines auto_state s)
              ((quarantine_stage w log >>= (λ n. lake_stages w auto_state summary log n)) s)
      landing summary log e =
          Post-bind (Kept (read log) (λ table. record s { quarantine = table }))
            (IsRun w settings uid fixture_exists lines auto_state s) (quarantine_stage w log)
            (λ n. lake_stages w auto_state summary log n) s
            (keep_table-Post w (read log) (λ table. record s { quarantine = table }) s)
            λ s1 n (table, wrote, same). rw same (
              Post-map (IsFilled w auto_state summary log n (record s { quarantine = table }))
                (IsRun w settings uid fixture_exists lines auto_state s)
                (lake_stages w auto_state summary log n (record s { quarantine = table }))
                (λ s' result v. record {
                  summary = summary;
                  log = log;
                  landed = n;
                  table = table;
                  replayed = e;
                  quarantined = wrote;
                  rest = v;
                })
                (lake_stages-Post auto_state summary log n _))
