-- ===== src/Pipeline/Stages.antt =====
-- The stages of a run of the pipeline (src/tickstream/pipeline.py): what a run that returns is made of.
use tickstream_streaming_lak.Prelude.{
  ℕ, String, ◌≡◌, refl, Bool, true, false, none, some, List, if◌then◌else◌,
}
use tickstream_streaming_lak.Errors.{Result, ok, err}
use tickstream_streaming_lak.Config.{Settings}
use tickstream_streaming_lak.Py.{Double}
use tickstream_streaming_lak.Schema.{MarketEvent}
use tickstream_streaming_lak.Kafka.{Message}
use tickstream_streaming_lak.Producer.Recording.{RecordedMessage}
use tickstream_streaming_lak.Producer.Replay.{ReplaySummary, replay}
use tickstream_streaming_lak.Lake.Bronze.{write_bronze}
use tickstream_streaming_lak.Lake.Windows.{WindowRow, land_windows}
use tickstream_streaming_lak.Lake.Marts.{MartsResult, build_marts}
use tickstream_streaming_lak.Quality.Landing.{Row, land_quarantine}
use tickstream_streaming_lak.Pipeline.{
  PipelineResult, Store, Step, ◌>>=◌, give, isolated, World, keep_table, has_rows, result_of,
}

-- What holds of the store and of the value, if a step returns.
abbrev pub Post : {F T A : Type 0} → (Store F T → A → Type 0) → Store F T × Result A → Type 0
Post Q (s, ok a) = Q s a
Post Q (s, err x) = Unit

pub Post-bind :
    {F T A B : Type 0} (R : Store F T → A → Type 0) (Q : Store F T → B → Type 0) (m : Step F T A)
    (f : A → Step F T B) (s : Store F T)
    → Post R (m s)
    → ((s1 : Store F T) (a : A) → R s1 a → Post Q (f a s1))
    → Post Q ((m >>= f) s)
Post-bind {F} {T} {A} R Q m f s h k = go (m s) h
  where
    go : (out : Store F T × Result A) → Post R out → Post Q (((λ (x : Store F T). out) >>= f) s)
    go (s1, ok a) r = k s1 a r
    go (s1, err x) r = tt

pub Post-map :
    {F T A : Type 0} (R Q : Store F T → A → Type 0) (out : Store F T × Result A)
    → ((s : Store F T) (a : A) → R s a → Q s a)
    → Post R out
    → Post Q out
Post-map R Q (s, ok a) f r = f s a r
Post-map R Q (s, err x) f r = tt

module _ {F T : Type 0} ⦃d : Double F⦄ (w : World F T) where
  pub keep_table-Post :
      {A : Type 0} (x : Result (A × ℕ)) (write : A → Store F T) (s : Store F T)
      → Post
          (λ s' n. (table : A) × (x ≡ ok (table, n)) × (s' ≡ write table))
          (keep_table w x write s)
  keep_table-Post (err x) write s = tt
  keep_table-Post (ok (table, n)) write s = (table, refl, refl)

  pub give-Post :
      {A : Type 0} (x : Result A) (s : Store F T) → Post (λ s' a. (x ≡ ok a) × (s' ≡ s)) (give x s)
  give-Post (ok a) s = (refl, refl)
  give-Post (err x) s = tt

  -- What a run that returns leaves, part by part, from the last stage back.
  pub record IsReported (summary : ReplaySummary) (bronze_rows window_rows : ℕ) (s s' : Store F T)
      (result : PipelineResult F) : Type 0 where
    pub marts : MartsResult
    pub built :
        build_marts w.tables (has_rows w s.bronze) (w.dbt s.bronze s.windows) true
        ≡ ok (marts, s'.gold)
    pub result_eq : result ≡ result_of w summary bronze_rows window_rows marts s'
    pub state : s' ≡ record s { gold = s'.gold; result = some result }

  pub record IsProcessed (auto_state : Bool) (summary : ReplaySummary) (log : List (Message F))
      (bronze_rows : ℕ) (s s' : Store F T) (result : PipelineResult F) : Type 0 where
    pub metrics : List (List ℕ)
    pub window_rows : ℕ
    pub table : List (WindowRow F)
    pub processed : w.process log ≡ ok metrics
    pub windows :
        land_windows w.runtime w.loads w.windows_times.begun w.windows_times.timeout
          w.windows_times.idle true
          (w.metrics_rounds metrics)
          s.windows
        ≡ ok (table, window_rows)
    pub rest :
        IsReported summary bronze_rows window_rows
          (record s { windows = table; state_dir = if auto_state then false else true })
          s'
          result

  pub record IsFilled (auto_state : Bool) (summary : ReplaySummary) (log : List (Message F))
      (landed : ℕ) (s s' : Store F T) (result : PipelineResult F) : Type 0 where
    pub agrees : landed ≡ summary.quarantined
    pub bronze_rows : ℕ
    pub table : List (MarketEvent F)
    pub bronze :
        write_bronze w.decode w.bronze_times.begun w.bronze_times.timeout w.bronze_times.idle none
          true
          (w.raw_rounds log)
          s.bronze
        ≡ ok (table, bronze_rows)
    pub rest :
        IsProcessed auto_state summary log bronze_rows (record s { bronze = table }) s' result

  pub record IsRun (settings : Settings) (uid : String) (fixture_exists : Bool)
      (lines : List (Result (RecordedMessage F))) (auto_state : Bool) (s s' : Store F T)
      (result : PipelineResult F) : Type 0 where
    pub summary : ReplaySummary
    pub log : List (Message F)
    pub landed : ℕ
    pub table : List (Row F)
    pub replayed :
        replay w.runtime (isolated settings uid) w.clock w.answers fixture_exists lines none
        ≡ ok (summary, log)
    pub quarantined :
        land_quarantine w.runtime w.loads w.dumps w.quarantine_times.begun
          w.quarantine_times.timeout w.quarantine_times.idle true
          (w.quarantine_rounds log)
          s.quarantine
        ≡ ok (table, landed)
    pub rest : IsFilled auto_state summary log landed (record s { quarantine = table }) s' result
