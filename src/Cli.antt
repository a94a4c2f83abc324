-- ===== src/Cli.antt =====
-- src/tickstream/cli.py: how the commands end, and the commands around the broker. A command is a
-- function from what the outside answers to what it echoes; the settings are those of
-- `get_settings`. Cli.Lake has the commands of the lake, Cli.Demo the round trip.
pub mod Lake
pub mod Demo
use tickstream_streaming_lak.Prelude.{
  ℕ, zero, suc, String, Bool, true, false, Option, none, some, List, [], ◌∷◌, length, if◌then◌else◌,
}
use tickstream_streaming_lak.Prelude.Eq.{◌==◌, string_eq}
use tickstream_streaming_lak.Errors.{Exc, Result, ok, err}
use tickstream_streaming_lak.Config.{Settings, all_topics}
use tickstream_streaming_lak.Config.Environment.{KafkaSettings, RuntimeSettings}
use tickstream_streaming_lak.Kafka.{Probe, Created, Message, wait_for_broker, ensure_topics}
use tickstream_streaming_lak.Py.{Double, Runtime}
use tickstream_streaming_lak.Producer.Demo.{publish_demo}
use tickstream_streaming_lak.Producer.Publisher.{Broker}
use tickstream_streaming_lak.Producer.Recording.{RecordedMessage}
use tickstream_streaming_lak.Producer.Recorder.{Delivery, record_fixture}
use tickstream_streaming_lak.Producer.Replay.{Answers, Clock, ReplaySummary, replay}
use tickstream_streaming_lak.Producer.Service.{
  Action, Connection, Options, State, Outcome, running, returned, failed, start_producer, did,
  flush, idle,
}
use tickstream_streaming_lak.Processing.Topology.{ProcessorRun, run_processor}

-- How a command ends: it returns (exit code 0) with what it echoes, leaves by `typer.Exit(code)`,
-- lets an exception through, or goes on running.
pub data Ended {ℓ} (A : Type ℓ) : Type ℓ where
  finished : A → Ended A
  exited : ℕ → Ended A
  raised : Exc → Ended A
  still_running : Ended A

infixl 5 ◌>>=◌
abbrev pub ◌>>=◌ {ℓ κ} : {A : Type ℓ} {B : Type κ} → Ended A → (A → Ended B) → Ended B
finished a >>= f = f a
exited n >>= f = exited n
raised x >>= f = raised x
still_running >>= f = still_running

-- A call that may raise.
abbrev pub call {ℓ} : {A : Type ℓ} → Result A → Ended A
call (ok a) = finished a
call (err x) = raised x

-- `n or None`
abbrev pub or_none : ℕ → Option ℕ
or_none zero = none
or_none (suc n) = some (suc n)

-- `text or None`
abbrev pub text_or_none : String → Option String
text_or_none s = if s == "" then none else some s

-- `_require_broker`; the probes are those before its timeout
unfoldable pub require_broker : List Probe → Ended Bool
require_broker probes = if wait_for_broker probes then finished true else exited 1

-- What the admin client answers: the topics that there are, and each creation.
pub record Cluster : Type 0 where
  pub existing : List String
  pub creation : String → Created

-- `health`: the topics that were created
unfoldable pub health : Settings → List Probe → Cluster → Ended (List String)
health settings probes cluster =
    if wait_for_broker probes
    then call (ensure_topics cluster.creation cluster.existing (all_topics settings.topics))
    else exited 1

-- `topics-create`: the topics that were created, and all
unfoldable pub topics_create : Settings → Cluster → Ended (List String × List String)
topics_create settings cluster = do
  created ← call (ensure_topics cluster.creation cluster.existing (all_topics settings.topics))
  finished (created, all_topics settings.topics)

-- `process`: what is run
unfoldable pub process :
    KafkaSettings → RuntimeSettings → Settings → List Probe → Bool → ℕ → Ended ProcessorRun
process kafka runtime settings probes once bounded_timeout = do
  up ← require_broker probes
  finished (
      run_processor kafka runtime settings "tickstream-processor" none
        (if once then some bounded_timeout else none))

module _ {F : Type 0} where
  -- `run_producer_blocking` of producer/service.py: SIGINT or SIGTERM cancel a producer that still
  -- runs, here in a sleep between two connections; its `finally` flushes, and 0 is returned.
  unfoldable pub run_producer_blocking : Bool → Outcome × State F → Ended ℕ × State F
  run_producer_blocking signalled (running, s) =
      if signalled then (finished 0, did flush s) else (still_running, s)
  run_producer_blocking signalled (returned n, s) = (finished n, s)
  run_producer_blocking signalled (failed x, s) = (raised x, s)

module _ {F : Type 0} ⦃d : Double F⦄ where
  -- `produce-demo`: the number of the events published
  unfoldable pub produce_demo :
      (ℕ → ℕ → F) → Settings → List Probe → Broker F → Ended (List (Message F) × ℕ)
  produce_demo literal settings probes broker = do
    up ← require_broker probes
    call (publish_demo literal settings broker)

  -- `record`: the bytes of the fixture, the exchange used and the number of messages. What an
  -- exchange delivers in the time given is an argument.
  unfoldable pub record_command :
      Runtime F
      → (RecordedMessage F → List ℕ)
      → (List ℕ → Result (RecordedMessage F))
      → Settings
      → ℕ
      → String
      → (String → Delivery F)
      → Ended (List ℕ × (String × ℕ))
  record_command r dumps loads settings max_messages exchange deliver = call (
      record_fixture r.is_space dumps loads r.lower settings (text_or_none exchange)
        (or_none max_messages) deliver true)

  -- `replay`: the summary
  unfoldable pub replay_command :
      Runtime F
      → Settings
      → List Probe
      → Clock
      → Answers F
      → Bool
      → List (Result (RecordedMessage F))
      → ℕ
      → Ended (ReplaySummary × List (Message F))
  replay_command r settings probes clock answers fixture_exists lines limit = do
    up ← require_broker probes
    call (replay r settings clock answers fixture_exists lines (or_none limit))

  -- `produce`: the number of the events published, and what was done to the broker
  unfoldable pub produce :
      Runtime F
      → Options F
      → List Probe
      → Cluster
      → String
      → ℕ
      → ℕ
      → Bool
      → List (Connection F)
      → Ended ℕ × State F
  produce r o probes cluster exchange max_messages max_reconnects signalled connections =
      elim (do
        up ← require_broker probes
        call (
            start_producer r
              (record o {
                max_messages = or_none max_messages;
                max_reconnects = or_none max_reconnects;
              })
              cluster.creation cluster.existing (text_or_none exchange) connections)) [
                | finished run ↦ run_producer_blocking signalled run
                | exited n ↦ (exited n, idle)
                | raised x ↦ (raised x, idle)
                | still_running ↦ (still_running, idle)
              ]
