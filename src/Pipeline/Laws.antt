-- ===== src/Pipeline/Laws.antt =====
-- What a run of the pipeline (src/tickstream/pipeline.py) leaves behind.
use tickstream_streaming_lak.Prelude.{
  String, ◌≡◌, Bool, true, false, some, List, length, if◌then◌else◌, ltb,
}
use tickstream_streaming_lak.Errors.{Result, ok}
use tickstream_streaming_lak.Config.{Settings}
use tickstream_streaming_lak.Py.{Double}
use tickstream_streaming_lak.Producer.Recording.{RecordedMessage}
use tickstream_streaming_lak.Lake.Poll.{Poll}
use tickstream_streaming_lak.Quality.Sla.{measure_sla, passed}
use tickstream_streaming_lak.Pipeline.{PipelineResult, Store, World, run_pipeline}
use tickstream_streaming_lak.Pipeline.Trace.{run_pipeline-Post}
use tickstream_streaming_lak.Pipeline.Stages.{IsRun}

module _ {F T : Type 0} ⦃d : Double F⦄ (w : World F T) where
  pub run_pipeline-IsRun :
      (settings : Settings) (uid : String) (fixture_exists : Bool)
      (lines : List (Result (RecordedMessage F))) (auto_state : Bool) (s s' : Store F T)
      (result : PipelineResult F)
      → run_pipeline w settings uid fixture_exists lines auto_state s ≡ (s', ok result)
      → IsRun w settings uid fixture_exists lines auto_state s s' result
  run_pipeline-IsRun settings uid fixture_exists lines auto_state s s' result h =
      rw h at (run_pipeline-Post w settings uid fixture_exists lines auto_state s)

  -- How the result and what is on disk agree.
  pub record IsConsistent (auto_state : Bool) (s' : Store F T) (result : PipelineResult F)
      : Type 0 where
    pub quarantined : result.quarantined ≡ length s'.quarantine
    pub bronze_rows : ltb 0 result.bronze_rows ≡ true → result.bronze_rows ≡ length s'.bronze
    pub window_rows : ltb 0 result.window_rows ≡ true → result.window_rows ≡ length s'.windows
    pub sla :
        result.sla_passed
        ≡ passed (measure_sla w.numeric s'.bronze (w.tables.scan s'.gold) w.gold_built_at)
    pub saved : s'.result ≡ some result
    pub reclaimed : s'.state_dir ≡ (if auto_state then false else true)
