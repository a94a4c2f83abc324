-- ===== src/Pipeline/Boundary.antt =====
-- What the pipeline (src/tickstream/pipeline.py) lets into the bronze table.
use tickstream_streaming_lak.Prelude.{
  ℕ, ◌+◌, String, ◌≡◌, sym, ◌∙◌, ap, Bool, true, Option, none, List, [], ◌∷◌, map, All, All-imp,
  ltb, subst,
}
use tickstream_streaming_lak.Prelude.Eq.{string_eq, nat_eq, pair_eq}
use tickstream_streaming_lak.Errors.{Result, ok, ok-injective}
use tickstream_streaming_lak.Config.{Settings}
use tickstream_streaming_lak.Py.{Double}
use tickstream_streaming_lak.Schema.{MarketEvent}
use tickstream_streaming_lak.Kafka.{Message, Body, event, quarantine, events_of}
use tickstream_streaming_lak.Kafka.Reads.{Reads, All-Reads}
use tickstream_streaming_lak.Lake.Poll.{delivered, IsPrompt}
use tickstream_streaming_lak.Metrics.{compute_windows}
use tickstream_streaming_lak.Producer.Boundary.{IsAdmitted, IsClean}
use tickstream_streaming_lak.Producer.Boundary.Replayed.{replay-IsClean}
use tickstream_streaming_lak.Producer.Publisher.{destination}
use tickstream_streaming_lak.Producer.Publisher.Partitions.{
  IsRouted, lane_of, compute_windows-Reads,
}
use tickstream_streaming_lak.Producer.Recording.{RecordedMessage}
use tickstream_streaming_lak.Producer.Replay.{ReplaySummary, replay}
use tickstream_streaming_lak.Producer.Replay.Summary.{IsOnItsTopic}
use tickstream_streaming_lak.Producer.Replay.Laws.{replay-IsFaithful}
use tickstream_streaming_lak.Pipeline.{PipelineResult, Store, isolated, World, run_pipeline}
use tickstream_streaming_lak.Pipeline.Laws.{run_pipeline-IsRun}
use tickstream_streaming_lak.Pipeline.Lossless.{bronze_of}

module _ {F : Type 0} ⦃d : Double F⦄ where
  body-events_of :
      (settings : Settings) (topic : String) (key : Option String) (body : Body F)
      (log : List (Message F))
      → let m : Message F = record { topic = topic; key = key; body = body } in
        IsClean settings m
        → All (IsAdmitted settings) (events_of log)
        → All (IsAdmitted settings) (events_of (m ∷ log))
  body-events_of settings topic key (event e) log c h = (c, h)
  body-events_of settings topic key (quarantine q) log c h = h

  All-events_of :
      (settings : Settings) (log : List (Message F))
      → All (IsClean settings) log
      → All (IsAdmitted settings) (events_of log)
  All-events_of settings [] h = tt
  All-events_of settings (m ∷ log) (c, h) =
      body-events_of settings m.topic m.key m.body log c (All-events_of settings log h)

  body-IsRouted :
      (settings : Settings) (topic : String) (key : Option String) (body : Body F)
      → IsOnItsTopic settings.topics (record { topic = topic; key = key; body = body })
      → IsRouted settings.topics none (record { topic = topic; key = key; body = body })
  unfolding destination
  body-IsRouted settings topic key (event e) h = h
  body-IsRouted settings topic key (quarantine q) h = tt

module _ {F T : Type 0} ⦃d : Double F⦄ (w : World F T) where
  -- Let a consumer of the broker read what the replay produced, partition by partition in its order,
  -- and let the poll loop be given the events among this, coded, each before the deadline and with
  -- no silence for the idle time, and decoding give them back. If a run then returns and reports
  -- bronze rows, every event of the bronze table meets the contract of `MarketEvent` and has a
  -- configured symbol, and the windows of the table are those of the replayed events.
  pub run_pipeline-IsAdmitted :
      (settings : Settings) (uid : String) (fixture_exists : Bool)
      (lines : List (Result (RecordedMessage F))) (auto_state : Bool) (s s' : Store F T)
      (result : PipelineResult F) (summary : ReplaySummary) (log : List (Message F))
      (encode : MarketEvent F → List ℕ) (partition : String → Option String → ℕ)
      (received : List (Message F)) (size : ℕ) (label : String)
      → replay w.runtime (isolated settings uid) w.clock w.answers fixture_exists lines none
        ≡ ok (summary, log)
      → Reads (lane_of partition) log received
      → delivered (w.raw_rounds log) ≡ map encode (events_of received)
      → All (λ e. w.decode (encode e) ≡ ok e) (events_of received)
      → IsPrompt
          (w.bronze_times.begun + w.bronze_times.timeout)
          w.bronze_times.idle
          (w.bronze_times.begun + w.bronze_times.idle)
          (w.raw_rounds log)
      → run_pipeline w settings uid fixture_exists lines auto_state s ≡ (s', ok result)
      → ltb 0 result.bronze_rows ≡ true
      → All (IsAdmitted settings) s'.bronze
        × (compute_windows size label s'.bronze ≡ compute_windows size label (events_of log))
  run_pipeline-IsAdmitted settings uid fixture_exists lines auto_state s s' result summary log
        encode partition received size label played reading given coded prompt h some_rows =
      let v = run_pipeline-IsRun w settings uid fixture_exists lines auto_state s s' result h in
      let same_log : log ≡ v.log = ap (λ x. x.1) (ok-injective (sym played ∙ v.replayed)) in
      let (number, table) =
        bronze_of w encode (events_of received) settings uid fixture_exists lines auto_state s s'
          result v (rw same_log at given) coded (rw same_log at prompt) in
      let bronze : s'.bronze ≡ events_of received = table (rw number at some_rows) in
      let clean =
        replay-IsClean w.runtime (isolated settings uid) w.clock w.answers fixture_exists lines none
          summary log played in
      let faithful =
        replay-IsFaithful w.runtime (isolated settings uid) w.clock w.answers fixture_exists lines
          none summary log played in
      let routed : All (IsRouted (isolated settings uid).topics none) log =
        All-imp _ _ log (λ m. body-IsRouted (isolated settings uid) m.topic m.key m.body)
          faithful.counts.on_topic in
      (
        subst (All (IsAdmitted settings)) (sym bronze) (
            All-events_of (isolated settings uid) received
              (All-Reads (lane_of partition) (IsClean (isolated settings uid)) reading clean)),
        ap (compute_windows size label) bronze
            ∙ compute_windows-Reads partition (isolated settings uid).topics none log received size
                label routed reading,
      )
