-- ===== src/Producer/Replay.antt =====
-- `replay` of producer/replay.py. The pacing by `speed`, which only sleeps, is left out.
pub mod Summary
pub mod Laws
use tickstream_streaming_lak.Prelude.{
  ℕ, zero, suc, ◌+◌, String, Bool, true, false, ◌||◌, Option, none, some, List, [], ◌∷◌, ◌++◌,
  if◌then◌else◌, ltb, leb,
}
use tickstream_streaming_lak.Prelude.Eq.{◌==◌, string_eq}
use tickstream_streaming_lak.Prelude.Dict.{Dict, get, get_default, put, contains}
use tickstream_streaming_lak.Errors.{Result, ok, err, ◌>>=◌, runtime_error, file_not_found_error}
use tickstream_streaming_lak.Config.{Topics, Settings}
use tickstream_streaming_lak.Py.{Double, Json, Runtime}
use tickstream_streaming_lak.Time.{Datetime}
use tickstream_streaming_lak.Schema.{MarketEvent, is_ticker}
use tickstream_streaming_lak.Normalize.Record.{SymbolMap, Reject, Batch}
use tickstream_streaming_lak.Normalize.Dispatch.{build_symbol_map, normalize_safe}
use tickstream_streaming_lak.Kafka.{
  Message, QuarantineRecord, quarantine, DeliveryCounter, new_counter, deliver_all, Created,
  ensure_topics,
}
use tickstream_streaming_lak.Producer.Publisher.{topic_for_event, event_message}
use tickstream_streaming_lak.Producer.Recording.{RecordedMessage}

pub record ReplaySummary : Type 0 where
  pub messages : ℕ
  pub events : ℕ
  pub trades : ℕ
  pub tickers : ℕ
  pub quarantined : ℕ
  pub by_symbol : Dict String ℕ

-- The variables of the loop, and the messages produced so far.
pub record Progress (F : Type 0) : Type 0 where
  pub messages : ℕ
  pub trades : ℕ
  pub tickers : ℕ
  pub quarantined : ℕ
  pub by_symbol : Dict String ℕ
  pub symbol_maps : Dict String SymbolMap
  pub log : List (Message F)

abbrev pub no_progress : {F : Type 0} → Progress F
no_progress = record {
  messages = 0;
  trades = 0;
  tickers = 0;
  quarantined = 0;
  by_symbol = [];
  symbol_maps = [];
  log = [];
}

-- The clock: at the n-th message, and at the n-th quarantine record.
pub record Clock : Type 0 where
  pub ingest : ℕ → Datetime
  pub quarantine_time : ℕ → Datetime

-- `limit is not None and messages >= limit`
unfoldable pub at_limit : Option ℕ → ℕ → Bool
at_limit none n = false
at_limit (some m) n = leb m n

module _ {F : Type 0} where
  unfoldable pub replay_rejects :
      Topics → Clock → RecordedMessage F → List (Reject F) → Progress F → Progress F
  replay_rejects topics clock rec [] p = p
  replay_rejects topics clock rec ((reason, sub) ∷ rs) p =
      replay_rejects topics clock rec rs record p {
        quarantined = p.quarantined + 1;
        log =
            p.log
            ++ (record {
              topic = topics.quarantine;
              key = none;
              body = quarantine record {
                exchange = rec.exchange;
                seq = rec.seq;
                reason = reason;
                payload = sub;
                ts_quarantined = clock.quarantine_time p.quarantined;
              };
            }
                ∷ []);
      }

  unfoldable pub replay_events : Topics → List (MarketEvent F) → Progress F → Progress F
  replay_events topics [] p = p
  replay_events topics (e ∷ es) p =
      let b = is_ticker e.event_type in
      replay_events topics es record p {
        tickers = if b then p.tickers + 1 else p.tickers;
        trades = if b then p.trades else p.trades + 1;
        by_symbol = put e.symbol (get_default e.symbol 0 p.by_symbol + 1) p.by_symbol;
        log = p.log ++ (event_message (topic_for_event topics e) e ∷ []);
      }

-- What the broker answers: to the creation of topics, to each message (true for an error), and
-- to the last flush.
pub record Answers (F : Type 0) : Type 0 where
  pub existing : List String
  pub creation : String → Created
  pub failures : List (Message F) → List Bool
  pub remaining : List (Message F) → ℕ

module _ {F : Type 0} ⦃d : Double F⦄ (r : Runtime F) (settings : Settings) (clock : Clock) where
  -- `symbol_maps[rec.exchange]`, built at the first message of the exchange
  unfoldable pub symbol_map_for : String → Progress F → Result (SymbolMap × Progress F)
  symbol_map_for exchange p = elim (get exchange p.symbol_maps) [
    | some m ↦ ok (m, p)
    | none ↦ (do
      m ← build_symbol_map settings exchange
      ok (m, record p { symbol_maps = put exchange m p.symbol_maps }))
  ]

  -- The body of the loop.
  unfoldable pub replay_one : RecordedMessage F → Progress F → Result (Progress F)
  replay_one rec p = do
    found ← symbol_map_for rec.exchange record p { messages = p.messages + 1 }
    batch ← normalize_safe r (clock.ingest p.messages) rec.exchange (some found.0) rec.payload
    ok (
        replay_events settings.topics batch.events
          (replay_rejects settings.topics clock rec batch.rejects found.1))

  -- The loop over what the fixture's generator yields.
  unfoldable pub replay_loop :
      Option ℕ → List (Result (RecordedMessage F)) → Progress F → Result (Progress F)
  replay_loop limit [] p = ok p
  replay_loop limit (line ∷ lines) p = do
    rec ← line
    elim (at_limit limit p.messages) [
      | true ↦ ok p
      | false ↦ (do next ← replay_one rec p; replay_loop limit lines next)
    ]

  unfoldable pub replay :
      Answers F
      → Bool
      → List (Result (RecordedMessage F))
      → Option ℕ
      → Result (ReplaySummary × List (Message F))
  replay answers exists lines limit = do
    found ← if exists then ok true else err file_not_found_error
    created ←
        ensure_topics answers.creation answers.existing (
          settings.topics.trades_raw ∷ settings.topics.ticker_raw ∷ settings.topics.quarantine ∷ [])
    p ← replay_loop limit lines no_progress
    let counter = deliver_all new_counter (answers.failures p.log)
    if ltb 0 (answers.remaining p.log) || ltb 0 counter.failed
        then err runtime_error
        else ok (
          record {
            messages = p.messages;
            events = p.trades + p.tickers;
            trades = p.trades;
            tickers = p.tickers;
            quarantined = p.quarantined;
            by_symbol = p.by_symbol;
          },
          p.log,
        )
