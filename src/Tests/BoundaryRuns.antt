-- ===== src/Tests/BoundaryRuns.antt =====
-- The contract boundary of src/tickstream/producer/, and the frames of an exchange, at concrete inputs.
use tickstream_streaming_lak.Prelude.{◌≡◌, refl, none, some, [], ◌∷◌, ◌++◌, All, true}
use tickstream_streaming_lak.Prelude.Int.{ℤ, pos}
use tickstream_streaming_lak.Prelude.Dict.{get, put}
use tickstream_streaming_lak.Prelude.Group.{add_keys, elem}
use tickstream_streaming_lak.Errors.{ok, type_error}
use tickstream_streaming_lak.Py.{
  obj, field, close, str, int, get_field_or, get_field, find, iterate,
}
use tickstream_streaming_lak.Producer.Exchanges.Frames.{binance_frames, channel_of, after_at}
use tickstream_streaming_lak.Config.{exchange_symbol, without_dashes}
use tickstream_streaming_lak.Kafka.{made, ensure_topics, collect_created}
use tickstream_streaming_lak.Normalize.Dispatch.{add_symbols, build_symbol_map}
use tickstream_streaming_lak.Producer.Boundary.{IsClean}
use tickstream_streaming_lak.Producer.Boundary.Live.{IsCleanAction, start_producer-KeepsBoundary}
use tickstream_streaming_lak.Producer.Boundary.Replayed.{replay-IsClean}
use tickstream_streaming_lak.Producer.Service.{Outcome, State, run_producer, start_producer}
use tickstream_streaming_lak.Tests.ProducerRuns.{
  options, busy, silent, clock, answers, lines, summary, replayed, replay_run,
}
use tickstream_streaming_lak.Tests.Sample.{whole_numbers, plain, sample_settings}

-- The producer behind its set-up: each message has a good trade and a bad one.
abbrev live : Outcome × State ℤ
live =
    run_producer plain
      (record (options (some 3) none) {
        symbol_map = ("BTC-USD", "BTC-USD") ∷ ("ETH-USD", "ETH-USD") ∷ [];
      })
      (busy ∷ silent ∷ busy ∷ [])

live_run :
    start_producer plain (options (some 3) none) (λ name. made) [] none (busy ∷ silent ∷ busy ∷ [])
    ≡ ok (live.0, live.1)
unfolding start_producer build_symbol_map get add_symbols put exchange_symbol without_dashes
    ensure_topics collect_created add_keys elem
live_run = refl

start_producer-KeepsBoundary_example : All (IsCleanAction sample_settings) live.1.log
start_producer-KeepsBoundary_example =
    start_producer-KeepsBoundary plain (options (some 3) none) (λ name. made) [] none
      (busy ∷ silent ∷ busy ∷ []) live.0 live.1 live_run

replay-IsClean_example :
    All
      (IsClean sample_settings)
      (replayed sample_settings.topics 0 ++ replayed sample_settings.topics 1)
replay-IsClean_example =
    replay-IsClean plain sample_settings clock answers true lines none summary
      (replayed sample_settings.topics 0 ++ replayed sample_settings.topics 1) replay_run

-- A frame of a subscribed stream, one without a name, and one whose name is a number.
frames_run :
    binance_frames {F = ℤ} (
      obj (field "stream" (str "btcusd@trade") close)
      ∷ obj close
      ∷ obj (field "stream" (int (pos 1)) close)
      ∷ obj close
      ∷ [])
    ≡ (
      (some "trade", obj (field "stream" (str "btcusd@trade") close)) ∷ (none, obj close) ∷ [],
      some type_error,
    )
unfolding binance_frames channel_of after_at get_field_or get_field find iterate
frames_run = refl
