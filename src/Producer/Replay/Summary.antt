-- ===== src/Producer/Replay/Summary.antt =====
-- What the summary of `replay` (producer/replay.py) says of the messages that were produced.
use tickstream_streaming_lak.Prelude.{
  ℕ, ◌+◌, String, ◌≡◌, refl, Bool, true, false, Option, none, some, List, [], ◌∷◌, All, All-append,
  count_if, count_if-append, arith, inl, inr, Bool-cases,
}
use tickstream_streaming_lak.Prelude.Eq.{◌==◌, string_eq}
use tickstream_streaming_lak.Prelude.Dict.{Dict, get, get_default, put}
use tickstream_streaming_lak.Errors.{Result, ok, ◌>>=◌, Returns, Returns-bind, Returns-then}
use tickstream_streaming_lak.Config.{Topics, Settings}
use tickstream_streaming_lak.Py.{Double, Runtime}
use tickstream_streaming_lak.Schema.{MarketEvent, is_ticker, trade, ticker}
use tickstream_streaming_lak.Normalize.Record.{SymbolMap, Reject}
use tickstream_streaming_lak.Normalize.Dispatch.{build_symbol_map, normalize_safe}
use tickstream_streaming_lak.Kafka.{Message, event, quarantine}
use tickstream_streaming_lak.Producer.Publisher.{topic_for_event, event_message}
use tickstream_streaming_lak.Producer.Recording.{RecordedMessage}
use tickstream_streaming_lak.Producer.Replay.{
  Progress, Clock, at_limit, replay_rejects, replay_events, symbol_map_for, replay_one, replay_loop,
}

-- The sum of the values of a dict.
abbrev pub sum_values : Dict String ℕ → ℕ
sum_values [] = 0
sum_values ((k, n) ∷ d) = n + sum_values d

sum_values-put :
    (k : String) (n : ℕ) (d : Dict String ℕ)
    → sum_values (put k n d) + get_default k 0 d ≡ sum_values d + n
unfolding put get_default get
sum_values-put k n [] = omega arith
sum_values-put k n ((j, m) ∷ d) = elim (Bool-cases (j == k)) [
  | inl h ↦ rw (h, get_default, get) (omega arith)
  | inr h ↦ rw (h, get_default, get) (omega (arith, sum_values-put k n d))
]

module _ {F : Type 0} where
  abbrev pub is_trade_message : Message F → Bool
  is_trade_message m = elim m.body [
    | event e ↦ (elim e.event_type [ trade ↦ true | ticker ↦ false ])
    | quarantine q ↦ false
  ]

  abbrev pub is_ticker_message : Message F → Bool
  is_ticker_message m = elim m.body [ event e ↦ is_ticker e.event_type | quarantine q ↦ false ]

  abbrev pub is_quarantine_message : Message F → Bool
  is_quarantine_message m = elim m.body [ event e ↦ false | quarantine q ↦ true ]

  abbrev pub IsOnItsTopic : Topics → Message F → Type 0
  IsOnItsTopic topics m = elim m.body [
    | event e ↦ (m.topic ≡ topic_for_event topics e) × (m.key ≡ some e.symbol)
    | quarantine q ↦ m.topic ≡ topics.quarantine
  ]

  -- Four counters, against the messages produced.
  pub record Counts (topics : Topics) (trades tickers quarantined : ℕ) (by_symbol : Dict String ℕ)
      (log : List (Message F)) : Type 0 where
    pub trades_eq : trades ≡ count_if is_trade_message log
    pub tickers_eq : tickers ≡ count_if is_ticker_message log
    pub quarantined_eq : quarantined ≡ count_if is_quarantine_message log
    pub by_symbol_eq : sum_values by_symbol ≡ trades + tickers
    pub on_topic : All (IsOnItsTopic topics) log

  abbrev pub Agrees : Topics → Progress F → Type 0
  Agrees topics p = Counts topics p.trades p.tickers p.quarantined p.by_symbol p.log

  replay_rejects-Agrees :
      (topics : Topics) (clock : Clock) (rec : RecordedMessage F) (rs : List (Reject F))
      (p : Progress F)
      → Agrees topics p
      → Agrees topics (replay_rejects topics clock rec rs p)
  unfolding replay_rejects
  replay_rejects-Agrees topics clock rec [] p v = v
  replay_rejects-Agrees topics clock rec ((reason, sub) ∷ rs) p v =
      let m : List (Message F) =
        record {
          topic = topics.quarantine;
          key = none;
          body = quarantine record {
            exchange = rec.exchange;
            seq = rec.seq;
            reason = reason;
            payload = sub;
            ts_quarantined = clock.quarantine_time p.quarantined;
          };
        }
        ∷ [] in
      replay_rejects-Agrees topics clock rec rs _ record {
        trades_eq = ground (arith, v.trades_eq, count_if-append is_trade_message p.log m);
        tickers_eq = ground (arith, v.tickers_eq, count_if-append is_ticker_message p.log m);
        quarantined_eq =
            ground (arith, v.quarantined_eq, count_if-append is_quarantine_message p.log m);
        by_symbol_eq = v.by_symbol_eq;
        on_topic = All-append (IsOnItsTopic topics) p.log m v.on_topic (refl, tt);
      }

  replay_events-Agrees :
      (topics : Topics) (es : List (MarketEvent F)) (p : Progress F)
      → Agrees topics p
      → Agrees topics (replay_events topics es p)
  unfolding replay_events
  replay_events-Agrees topics [] p v = v
  replay_events-Agrees topics (e ∷ es) p v =
      let m : List (Message F) = event_message (topic_for_event topics e) e ∷ [] in
      replay_events-Agrees topics es _ record {
        trades_eq = ground (arith, v.trades_eq, count_if-append is_trade_message p.log m);
        tickers_eq = ground (arith, v.tickers_eq, count_if-append is_ticker_message p.log m);
        quarantined_eq =
            ground (arith, v.quarantined_eq, count_if-append is_quarantine_message p.log m);
        by_symbol_eq = ground (
          arith,
          v.by_symbol_eq,
          sum_values-put e.symbol (get_default e.symbol 0 p.by_symbol + 1) p.by_symbol,
        );
        on_topic = All-append (IsOnItsTopic topics) p.log m v.on_topic ((refl, refl), tt);
      }

module _ {F : Type 0} ⦃d : Double F⦄ (r : Runtime F) (settings : Settings) (clock : Clock) where
  abbrev pub Fits : Progress F → Type 0
  Fits = Agrees settings.topics

  symbol_map_for-Fits :
      (exchange : String) (p : Progress F)
      → Fits p
      → Returns (λ found. Fits found.1) (symbol_map_for r settings clock exchange p)
  unfolding symbol_map_for
  symbol_map_for-Fits exchange p v = go (get exchange p.symbol_maps)
    where
      go :
          (o : Option SymbolMap)
          → Returns {A = SymbolMap × Progress F}
              (λ found. Fits found.1)
              (elim o [
                | some m ↦ ok (m, p)
                | none ↦ (do
                  m ← build_symbol_map settings exchange
                  ok (m, record p { symbol_maps = put exchange m p.symbol_maps }))
              ])
      go (some m) = v
      go none = Returns-then _ (build_symbol_map settings exchange) _ λ m. ground arith

  replay_one-Fits :
      (rec : RecordedMessage F) (p : Progress F)
      → Fits p
      → Returns Fits (replay_one r settings clock rec p)
  unfolding replay_one
  replay_one-Fits rec p v =
      Returns-bind _ _ (symbol_map_for r settings clock rec.exchange _) _
        (symbol_map_for-Fits rec.exchange (record p { messages = p.messages + 1 }) (ground arith))
        λ found w.
          Returns-then _
            (normalize_safe r (clock.ingest p.messages) rec.exchange (some found.0) rec.payload) _
            λ batch.
              replay_events-Agrees settings.topics batch.events _
                (replay_rejects-Agrees settings.topics clock rec batch.rejects found.1 w)

  pub replay_loop-Fits :
      (limit : Option ℕ) (lines : List (Result (RecordedMessage F))) (p : Progress F)
      → Fits p
      → Returns Fits (replay_loop r settings clock limit lines p)
  unfolding replay_loop
  replay_loop-Fits limit [] p v = v
  replay_loop-Fits limit (line ∷ lines) p v = Returns-then _ line _ λ rec.
      elim (Bool-cases (at_limit limit p.messages)) [
        | inl b ↦ rw b v
        | inr b ↦ rw b (
            Returns-bind _ _ (replay_one r settings clock rec p) _ (replay_one-Fits rec p v)
              λ next w. replay_loop-Fits limit lines next w)
      ]
