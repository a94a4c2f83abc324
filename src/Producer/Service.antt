-- ===== src/Producer/Service.antt =====
-- `run_producer` of producer/service.py: the reconnect loop of the live producer, as a function
-- from what the exchange does (a list of connections) to what is done to the broker.
pub mod Accounts
pub mod Rule
pub mod Laws
pub mod Outage
use tickstream_streaming_lak.Prelude.{
  ℕ, zero, suc, ◌+◌, String, Bool, true, false, ◌&&◌, Option, none, some, List, [], ◌∷◌, ◌++◌,
  if◌then◌else◌, ltb, leb,
}
use tickstream_streaming_lak.Prelude.Eq.{◌==◌, string_eq}
use tickstream_streaming_lak.Errors.{◌>>=◌, Exc, os_error, websocket_error, Result, ok, err}
use tickstream_streaming_lak.Config.{Topics, Settings}
use tickstream_streaming_lak.Py.{Double, Json, Runtime}
use tickstream_streaming_lak.Time.{Datetime}
use tickstream_streaming_lak.Schema.{MarketEvent}
use tickstream_streaming_lak.Normalize.Record.{SymbolMap, Reject, Batch}
use tickstream_streaming_lak.Normalize.Dispatch.{build_symbol_map, normalize_safe}
use tickstream_streaming_lak.Kafka.{Created, ensure_topics, Message, QuarantineRecord, quarantine}
use tickstream_streaming_lak.Producer.Backoff.{Schedule, next_delay}
use tickstream_streaming_lak.Producer.Exchanges.{build_client}
use tickstream_streaming_lak.Producer.Publisher.{topic_for_event, event_message}

-- What the producer does, in order. `poll(0)`, which follows each `produce`, is left out.
pub data Action (F : Type 0) : Type 0 where
  connect : Action F
  produce : Message F → Action F
  flush : Action F
  sleep : F → Action F

-- One connection: the messages that `client.stream()` yields, each with the time at which it is
-- taken up, and the exception that ends it (of the socket, of the JSON coder, of the look-ups in a
-- frame), or none if the server closes it.
pub record Connection (F : Type 0) : Type 0 where
  pub messages : List (Json F × Datetime)
  pub failure : Option Exc

pub record State (F : Type 0) : Type 0 where
  pub published : ℕ
  pub quarantined : ℕ
  pub reconnects : ℕ
  pub attempt : ℕ
  pub log : List (Action F)

-- How the loop over one connection ends.
pub data Flow : Type 0 where
  closed lost finished : Flow
  raised : Exc → Flow

-- How `run_producer` ends; `running` if the list of connections ends before.
pub data Outcome : Type 0 where
  running : Outcome
  returned : ℕ → Outcome
  failed : Exc → Outcome

-- The arguments, the clock at the n-th quarantine record, and the random source at the n-th delay.
pub record Options (F : Type 0) : Type 0 where
  pub settings : Settings
  pub exchange : String
  pub symbol_map : SymbolMap
  pub max_messages : Option ℕ
  pub max_reconnects : Option ℕ
  pub schedule : Schedule F
  pub quarantine_time : ℕ → Datetime
  pub uniform : ℕ → F → F → F

-- `max_messages and published >= max_messages`
unfoldable pub reached : Option ℕ → ℕ → Bool
reached none n = false
reached (some m) n = ltb 0 m && leb m n

-- `max_reconnects is not None and reconnects > max_reconnects`
unfoldable pub exceeded : Option ℕ → ℕ → Bool
exceeded none n = false
exceeded (some m) n = ltb m n

-- The end of the stream by an exception: a WebSocketException or an OSError is a disconnect, also
-- an OSError of the normalizer; anything else leaves `run_producer`.
abbrev pub flow_of : Exc → Flow
flow_of os_error = lost
flow_of websocket_error = lost
flow_of x = raised x

-- How a connection ends behind its messages.
abbrev pub flow_at_end : Option Exc → Flow
flow_at_end none = closed
flow_at_end (some x) = flow_of x

module _ {F : Type 0} where
  abbrev pub did : Action F → State F → State F
  did a s = record s { log = s.log ++ (a ∷ []) }

  abbrev pub quarantine_action : Options F → ℕ → Reject F → Action F
  quarantine_action o n (reason, sub) = produce record {
    topic = o.settings.topics.quarantine;
    key = none;
    body = quarantine record {
      exchange = o.exchange;
      seq = 0;
      reason = reason;
      payload = sub;
      ts_quarantined = o.quarantine_time n;
    };
  }

  -- `for reason, sub in rejects`
  unfoldable pub send_rejects : Options F → List (Reject F) → State F → State F
  send_rejects o [] s = s
  send_rejects o (r ∷ rs) s =
      send_rejects o rs
        (record (did (quarantine_action o s.quarantined r) s) { quarantined = s.quarantined + 1 })

  -- `for event in events`, with the count of this connection
  unfoldable pub send_events : Topics → List (MarketEvent F) → State F × ℕ → State F × ℕ
  send_events topics [] acc = acc
  send_events topics (e ∷ es) (s, n) = send_events topics es (
    record (did (produce (event_message (topic_for_event topics e) e)) s) {
      published = s.published + 1;
    },
    n + 1,
  )

abbrev pub idle : {F : Type 0} → State F
idle = record { published = 0; quarantined = 0; reconnects = 0; attempt = 0; log = [] }

module _ {F : Type 0} ⦃d : Double F⦄ (r : Runtime F) (o : Options F) where
  -- The body of the loop over the messages, behind the normalization.
  unfoldable pub publish_batch : Batch F → State F × ℕ → State F × ℕ
  publish_batch batch (s, n) =
      send_events o.settings.topics batch.events (send_rejects o batch.rejects s, n)

  unfoldable pub stream_loop :
      List (Json F × Datetime) → Option Exc → State F × ℕ → Flow × (State F × ℕ)
  stream_loop [] failure acc = (flow_at_end failure, acc)
  stream_loop ((payload, now) ∷ rest) failure acc =
      elim (normalize_safe r now o.exchange (some o.symbol_map) payload) [
        | err x ↦ (flow_of x, acc)
        | ok batch ↦
            let next = publish_batch batch acc in
            let later = stream_loop rest failure next in
            if reached o.max_messages next.0.published
            then (finished, (did flush next.0, next.1))
            else later
      ]

  -- The shared reconnect path; the number is that of the events of this connection.
  unfoldable pub reconnect : State F × ℕ → (State F → Outcome × State F) → Outcome × State F
  reconnect (s, n) again =
      let counted : State F = record s { reconnects = s.reconnects + 1 } in
      if exceeded o.max_reconnects counted.reconnects
      then (returned counted.published, did flush counted)
      else (let attempt : ℕ = if ltb 0 n then 0 else counted.attempt in
          elim (next_delay o.schedule (o.uniform counted.reconnects) attempt) [
            | err x ↦ (failed x, did flush counted)
            | ok delay ↦ again (did (sleep delay) (record counted { attempt = suc attempt }))
          ])

  -- `while True`, one connection after the other. Each way out passes the `finally` flush.
  unfoldable pub serve : List (Connection F) → State F → Outcome × State F
  serve [] s = (running, s)
  serve (c ∷ cs) s = elim (build_client r.lower o.settings (some o.exchange)) [
    | err x ↦ (failed x, did flush s)
    | ok client ↦
        let (flow, (s', n)) = stream_loop c.messages c.failure (did connect s, 0) in
        elim flow [
          | closed ↦ reconnect (s', n) (serve cs)
          | lost ↦ reconnect (did flush s', n) (serve cs)
          | finished ↦ (returned s'.published, did flush s')
          | raised x ↦ (failed x, did flush s')
        ]
  ]

  unfoldable pub run_producer : List (Connection F) → Outcome × State F
  run_producer connections = serve connections idle

module _ {F : Type 0} ⦃d : Double F⦄ (r : Runtime F) where
  -- What stands before the loop: the exchange, its symbol map and the topics. Nothing is flushed
  -- when one of these raises.
  unfoldable pub start_producer :
      Options F
      → (String → Created)
      → List String
      → Option String
      → List (Connection F)
      → Result (Outcome × State F)
  start_producer o creation existing exchange connections = do
    let name : String = elim exchange [
      | none ↦ o.settings.source.exchange
      | some e ↦ if e == "" then o.settings.source.exchange else e
    ]
    m ← build_symbol_map o.settings name
    created ← ensure_topics creation existing (
        o.settings.topics.trades_raw ∷ o.settings.topics.ticker_raw ∷ o.settings.topics.quarantine
        ∷ [])
    ok (run_producer r (record o { exchange = name; symbol_map = m }) connections)
