-- ===== src/Producer/Replay/Laws.antt =====
-- What has happened when `replay` (producer/replay.py) returns.
use tickstream_streaming_lak.Prelude.{
  ℕ, ◌+◌, ◌≡◌, refl, Bool, true, ◌||◌, Option, List, count_if, if◌then◌else◌, ltb, arith, inl, inr,
  Bool-cases,
}
use tickstream_streaming_lak.Prelude.Eq.{string_eq}
use tickstream_streaming_lak.Errors.{
  Result, ok, err, Returns, Returns-bind, Returns-then, file_not_found_error,
}
use tickstream_streaming_lak.Config.{Settings}
use tickstream_streaming_lak.Py.{Double, Runtime}
use tickstream_streaming_lak.Kafka.{Message, new_counter, deliver_all, ensure_topics}
use tickstream_streaming_lak.Kafka.Topics.{deliver_all-counts}
use tickstream_streaming_lak.Producer.Recording.{RecordedMessage}
use tickstream_streaming_lak.Producer.Replay.{
  ReplaySummary, Progress, no_progress, Clock, replay_loop, Answers, replay,
}
use tickstream_streaming_lak.Producer.Replay.Summary.{Counts, replay_loop-Fits}

-- What holds of the summary and of the messages when `replay` returns.
pub record IsFaithful {F : Type 0} (settings : Settings) (answers : Answers F) (s : ReplaySummary)
    (log : List (Message F)) : Type 0 where
  pub counts : Counts settings.topics s.trades s.tickers s.quarantined s.by_symbol log
  pub events_eq : s.events ≡ s.trades + s.tickers
  pub none_failed : count_if (λ f. f) (answers.failures log) ≡ 0
  pub none_remaining : answers.remaining log ≡ 0

module _ {F : Type 0} ⦃d : Double F⦄ (r : Runtime F) (settings : Settings) (clock : Clock) where
  replay-Returns :
      (answers : Answers F) (exists : Bool) (lines : List (Result (RecordedMessage F)))
      (limit : Option ℕ)
      → Returns
          (λ done. IsFaithful settings answers done.0 done.1)
          (replay r settings clock answers exists lines limit)
  unfolding replay
  replay-Returns answers exists lines limit =
      Returns-then _ (if exists then ok true else err file_not_found_error) _ λ found.
        Returns-then _ (ensure_topics answers.creation answers.existing _) _ λ created.
          Returns-bind _ _ (replay_loop r settings clock limit lines no_progress) _
            (replay_loop-Fits r settings clock limit lines no_progress record {
              trades_eq = refl;
              tickers_eq = refl;
              quarantined_eq = refl;
              by_symbol_eq = refl;
              on_topic = tt;
            })
            λ p v. elim (Bool-cases (failing p)) [
              | inl b ↦ rw b tt
              | inr b ↦ rw b record {
                counts = v;
                events_eq = refl;
                none_failed =
                    ground (arith, b, deliver_all-counts new_counter (answers.failures p.log));
                none_remaining = ground (arith, b);
              }
            ]
    where
      failing : Progress F → Bool
      failing p =
          ltb 0 (answers.remaining p.log)
          || ltb 0 (deliver_all new_counter (answers.failures p.log)).failed

  -- When `replay` returns, its counters are the numbers of the trade, ticker and quarantine
  -- messages that it produced, the events per symbol add up to the events, every message went to
  -- the topic of its kind, and the broker reported no failure and nothing undelivered.
  pub replay-IsFaithful :
      (answers : Answers F) (exists : Bool) (lines : List (Result (RecordedMessage F)))
      (limit : Option ℕ) (summary : ReplaySummary) (log : List (Message F))
      → replay r settings clock answers exists lines limit ≡ ok (summary, log)
      → IsFaithful settings answers summary log
  replay-IsFaithful answers exists lines limit summary log h =
      rw h at (replay-Returns answers exists lines limit)
