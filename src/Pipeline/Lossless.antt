-- ===== src/Pipeline/Lossless.antt =====
-- That the pipeline (src/tickstream/pipeline.py) loses no event on the way to the bronze table.
use tickstream_streaming_lak.Prelude.{
  ℕ, ◌+◌, String, ◌≡◌, sym, ◌∙◌, ap, Bool, true, none, List, [], ◌∷◌, length, map, All, count_if,
  ltb, arith,
}
use mathlib.Core.List.{Perm}
use tickstream_streaming_lak.Prelude.Sort.{length-Perm}
use tickstream_streaming_lak.Errors.{Result, ok, ok-injective}
use tickstream_streaming_lak.Config.{Settings}
use tickstream_streaming_lak.Py.{Double}
use tickstream_streaming_lak.Schema.{MarketEvent}
use tickstream_streaming_lak.Kafka.{Message, events_of}
use tickstream_streaming_lak.Producer.Recording.{RecordedMessage}
use tickstream_streaming_lak.Producer.Replay.{ReplaySummary, replay}
use tickstream_streaming_lak.Producer.Replay.Summary.{is_trade_message, is_ticker_message}
use tickstream_streaming_lak.Producer.Replay.Laws.{replay-IsFaithful}
use tickstream_streaming_lak.Lake.Poll.{delivered, IsPrompt, write_rows}
use tickstream_streaming_lak.Lake.Poll.Laws.{rows_of-delivered}
use tickstream_streaming_lak.Lake.Bronze.Laws.{write_bronze_complete}
use tickstream_streaming_lak.Pipeline.{
  PipelineResult, Store, isolated, World, run_pipeline, result_of,
}
use tickstream_streaming_lak.Pipeline.Stages.{IsRun}
use tickstream_streaming_lak.Pipeline.Laws.{run_pipeline-IsRun}

module _ {F : Type 0} where
  length-events_of :
      (log : List (Message F))
      → length (events_of log) ≡ count_if is_trade_message log + count_if is_ticker_message log
  length-events_of [] = omega arith
  length-events_of (m ∷ log) = ground (arith, length-events_of log)

module _ {F T : Type 0} ⦃d : Double F⦄ (w : World F T) where
  -- What `write_rows` leaves and returns, if the table is cleared.
  written :
      {R : Type 0} (stored rows table : List R) (n : ℕ)
      → ok (write_rows true stored rows) ≡ ok (table, n)
      → (n ≡ length rows) × (ltb 0 n ≡ true → table ≡ rows)
  unfolding write_rows
  written stored [] table n h =
      let k = ok-injective h in
      let zero_n : 0 ≡ n = ap (λ x. x.1) k in (sym zero_n, λ b. ground (arith, b, zero_n))
  written stored (row ∷ rows) table n h =
      let k = ok-injective h in (sym (ap (λ x. x.1) k), λ b. sym (ap (λ x. x.0) k))

  -- What reaches the bronze table of a run with this log.
  pub bronze_of :
      (encode : MarketEvent F → List ℕ) (events : List (MarketEvent F)) (settings : Settings)
      (uid : String) (fixture_exists : Bool) (lines : List (Result (RecordedMessage F)))
      (auto_state : Bool) (s s' : Store F T) (result : PipelineResult F)
      (v : IsRun w settings uid fixture_exists lines auto_state s s' result)
      → delivered (w.raw_rounds v.log) ≡ map encode events
      → All (λ e. w.decode (encode e) ≡ ok e) events
      → IsPrompt
          (w.bronze_times.begun + w.bronze_times.timeout)
          w.bronze_times.idle
          (w.bronze_times.begun + w.bronze_times.idle)
          (w.raw_rounds v.log)
      → (result.bronze_rows ≡ length events) × (ltb 0 (length events) ≡ true → s'.bronze ≡ events)
  unfolding result_of
  bronze_of encode events settings uid fixture_exists lines auto_state s s' result v given coded
        prompt =
      let last = v.rest.rest.rest in
      let rows = rows_of-delivered w.decode encode (w.raw_rounds v.log) events given coded in
      let complete =
        write_bronze_complete w.decode w.bronze_times.begun w.bronze_times.timeout
          w.bronze_times.idle true (w.raw_rounds v.log) s.bronze prompt in
      let (number, table) =
        written s.bronze events v.rest.table v.rest.bronze_rows
          (sym (rw rows at complete) ∙ v.rest.bronze) in
      (
        ap (λ (x : PipelineResult F). x.bronze_rows) last.result_eq ∙ number,
        λ b. ap (λ (x : Store F T). x.bronze) last.state ∙ table (rw number b),
      )

  -- If the consumer of the raw topics is given the events of the replay, coded, in some order, each
  -- before the deadline and with no silence for the idle time, and decoding gives them back, then a
  -- run that returns reports as many bronze rows as replayed events, which are the events of the
  -- replay, and if there are any the bronze table holds these events.
  pub run_pipeline_lossless :
      (settings : Settings) (uid : String) (fixture_exists : Bool)
      (lines : List (Result (RecordedMessage F))) (auto_state : Bool) (s s' : Store F T)
      (result : PipelineResult F) (summary : ReplaySummary) (log : List (Message F))
      (encode : MarketEvent F → List ℕ) (events : List (MarketEvent F))
      → replay w.runtime (isolated settings uid) w.clock w.answers fixture_exists lines none
        ≡ ok (summary, log)
      → Perm events (events_of log)
      → delivered (w.raw_rounds log) ≡ map encode events
      → All (λ e. w.decode (encode e) ≡ ok e) events
      → IsPrompt
          (w.bronze_times.begun + w.bronze_times.timeout)
          w.bronze_times.idle
          (w.bronze_times.begun + w.bronze_times.idle)
          (w.raw_rounds log)
      → run_pipeline w settings uid fixture_exists lines auto_state s ≡ (s', ok result)
      → (result.replayed_events ≡ length (events_of log))
        × (result.bronze_rows ≡ result.replayed_events)
        × (ltb 0 result.bronze_rows ≡ true → s'.bronze ≡ events)
  unfolding result_of
  run_pipeline_lossless settings uid fixture_exists lines auto_state s s' result summary log encode
        events played order given coded prompt h =
      let v = run_pipeline-IsRun w settings uid fixture_exists lines auto_state s s' result h in
      let same = ok-injective (sym played ∙ v.replayed) in
      let same_log : log ≡ v.log = ap (λ x. x.1) same in
      let (number, table) =
        bronze_of encode events settings uid fixture_exists lines auto_state s s' result v
          (rw same_log at given) coded (rw same_log at prompt) in
      let faithful =
        replay-IsFaithful w.runtime (isolated settings uid) w.clock w.answers fixture_exists lines
          none summary log played in
      let counted : summary.events ≡ length (events_of log) =
        rw (faithful.events_eq, faithful.counts.trades_eq, faithful.counts.tickers_eq)
          (sym (length-events_of log)) in
      let replayed : result.replayed_events ≡ length (events_of log) =
        ap (λ (x : PipelineResult F). x.replayed_events) v.rest.rest.rest.result_eq
        ∙ sym (ap (λ x. x.0.events) same)
        ∙ counted in
      (replayed, number ∙ length-Perm order ∙ sym replayed, λ b. table (rw number at b))
