-- ===== src/Producer/Publisher/Partitions.antt =====
-- The windows of what `publish_events` (producer/publisher.py) publishes, read back from the broker.
-- A topic has partitions, and a message goes to the partition that its key says.
use tickstream_streaming_lak.Prelude.{
  ℕ, String, ◌≡◌, refl, ap, ap₂, sym, ◌∙◌, Bool, true, false, ◌&&◌, Option, none, some, List, [],
  ◌∷◌, keep, All, subst, arith,
}
use tickstream_streaming_lak.Prelude.Eq.{◌==◌, string_eq, nat_eq, pair_eq, ==_refl, eq_of_==}
use tickstream_streaming_lak.Errors.{ok}
use tickstream_streaming_lak.Config.{Topics, Settings}
use tickstream_streaming_lak.Kafka.{Message, Body, event, quarantine, events_of}
use tickstream_streaming_lak.Schema.{MarketEvent, EventType, trade, ticker, is_ticker, is_trade}
use tickstream_streaming_lak.Py.{Double}
use tickstream_streaming_lak.Metrics.{compute_windows}
use tickstream_streaming_lak.Metrics.Interleaving.{stream_of, compute_windows_interleaving}
use tickstream_streaming_lak.Producer.Publisher.{
  Broker, topic_for_event, destination, publish_events,
}
use tickstream_streaming_lak.Producer.Publisher.Laws.{messages_of, publish_events-IsPublished}
use tickstream_streaming_lak.Kafka.Reads.{Reads, keep-Reads}

-- The test holds of one type of event at most.
abbrev IsOneType : (EventType → Bool) → Type 0
IsOneType test = (t u : EventType) → test t ≡ true → test u ≡ true → t ≡ u

module _ {F : Type 0} where
  -- Whether a message has an event of this type and this symbol.
  abbrev carries : (EventType → Bool) → String → Message F → Bool
  carries test s m = elim m.body [
    | event e ↦ test e.event_type && e.symbol == s
    | quarantine q ↦ false
  ]

  events_of-keep :
      (test : EventType → Bool) (s : String) (log : List (Message F))
      → events_of (keep (carries test s) log) ≡ stream_of test s (events_of log)
  events_of-keep test s [] = refl
  events_of-keep test s (m ∷ log) = ground (arith, events_of-keep test s log)

  events_of-messages :
      (topics : Topics) (topic : Option String) (events : List (MarketEvent F))
      → events_of (messages_of topics topic events) ≡ events
  events_of-messages topics topic [] = refl
  events_of-messages topics topic (e ∷ es) = ap (λ l. e ∷ l) (events_of-messages topics topic es)

  -- An event is on its destination, with its symbol for a key.
  abbrev pub IsRouted : Topics → Option String → Message F → Type 0
  IsRouted topics topic m = elim m.body [
    | event e ↦ (m.topic ≡ destination topics topic e) × (m.key ≡ some e.symbol)
    | quarantine q ↦ Unit
  ]

  All-IsRouted :
      (topics : Topics) (topic : Option String) (events : List (MarketEvent F))
      → All (IsRouted topics topic) (messages_of topics topic events)
  All-IsRouted topics topic [] = tt
  All-IsRouted topics topic (e ∷ es) = ((refl, refl), All-IsRouted topics topic es)

  -- The partition of a message, by its topic and its key.
  abbrev pub lane_of : (String → Option String → ℕ) → Message F → String × ℕ
  lane_of partition m = (m.topic, partition m.topic m.key)

  destination-type :
      (topics : Topics) (topic : Option String) (e f : MarketEvent F)
      → e.event_type ≡ f.event_type
      → destination topics topic e ≡ destination topics topic f
  unfolding destination topic_for_event
  destination-type topics none e f h = rw h
  destination-type topics (some t) e f h = rw h

  bodies_one_lane :
      (partition : String → Option String → ℕ) (topics : Topics) (topic : Option String)
      (test : EventType → Bool) (s : String) (x y : Body F) (t u : String) (k j : Option String)
      → IsOneType test
      → IsRouted topics topic (record { topic = t; key = k; body = x })
      → IsRouted topics topic (record { topic = u; key = j; body = y })
      → carries test s (record { topic = t; key = k; body = x }) ≡ true
      → carries test s (record { topic = u; key = j; body = y }) ≡ true
      → t ≡ u × k ≡ j
  bodies_one_lane partition topics topic test s (quarantine q) y t u k j one h g p n = cc
  bodies_one_lane partition topics topic test s (event e) (quarantine q) t u k j one h g p n = cc
  bodies_one_lane partition topics topic test s (event e) (event f) t u k j one (h, hk) (g, gk) p
        n =
      let (a, b) = both (test e.event_type) (e.symbol == s) p in
      let (a', b') = both (test f.event_type) (f.symbol == s) n in
      (
        h ∙ destination-type topics topic e f (one e.event_type f.event_type a a') ∙ sym g,
        hk ∙ ap some (eq_of_== e.symbol s b ∙ sym (eq_of_== f.symbol s b')) ∙ sym gk,
      )
    where
      both : (a b : Bool) → (a && b) ≡ true → (a ≡ true) × (b ≡ true)
      both a b h = ground (arith, h)

  one_lane :
      (partition : String → Option String → ℕ) (topics : Topics) (topic : Option String)
      (test : EventType → Bool) (s : String) (x y : Message F)
      → IsOneType test
      → IsRouted topics topic x
      → IsRouted topics topic y
      → carries test s x ≡ true
      → carries test s y ≡ true
      → (lane_of partition x == lane_of partition y) ≡ true
  one_lane partition topics topic test s x y one h g p n =
      let (topic_eq, key_eq) =
        bodies_one_lane partition topics topic test s x.body y.body x.topic y.topic x.key y.key one
          h g p n in
      ap (λ l. l == lane_of partition y) (ap₂ (λ t k. (t, partition t k)) topic_eq key_eq)
      ∙ ==_refl (lane_of partition y)

  stream_of-Reads :
      (partition : String → Option String → ℕ) (topics : Topics) (topic : Option String)
      (log received : List (Message F))
      → All (IsRouted topics topic) log
      → Reads (lane_of partition) log received
      → (test : EventType → Bool) → IsOneType test
      → (s : String) → stream_of test s (events_of received) ≡ stream_of test s (events_of log)
  stream_of-Reads partition topics topic log received routed r test one s =
      sym (events_of-keep test s received)
      ∙ ap events_of (
          sym (
            keep-Reads (lane_of partition) (carries test s) (IsRouted topics topic)
              (λ x y p q. one_lane partition topics topic test s x y one p q) r routed))
      ∙ events_of-keep test s log

trade_only : IsOneType is_trade
trade_only trade trade h k = refl
trade_only trade ticker h k = cc
trade_only ticker u h k = cc

ticker_only : IsOneType is_ticker
ticker_only ticker ticker h k = refl
ticker_only ticker trade h k = cc
ticker_only trade u h k = cc

module _ {F : Type 0} ⦃d : Double F⦄ where
  -- Messages that are routed have the windows that a consumer of them finds.
  pub compute_windows-Reads :
      (partition : String → Option String → ℕ) (topics : Topics) (topic : Option String)
      (log received : List (Message F)) (w : ℕ) (label : String)
      → All (IsRouted topics topic) log
      → Reads (lane_of partition) log received
      → compute_windows w label (events_of received) ≡ compute_windows w label (events_of log)
  compute_windows-Reads partition topics topic log received w label routed r =
      let same = stream_of-Reads partition topics topic log received routed r in
      compute_windows_interleaving w label (events_of received) (events_of log)
        (same is_trade trade_only) (same is_ticker ticker_only)

  -- However a consumer reads the partitions of what `publish_events` has produced, the windows of
  -- the events that it receives are those of the events that were published: each partition is read
  -- in its order, and a message's partition depends on its topic and its key alone.
  pub compute_windows-publish_events :
      (settings : Settings) (broker : Broker F) (events : List (MarketEvent F))
      (topic : Option String) (ensure flush : Bool) (messages : List (Message F)) (count : ℕ)
      (partition : String → Option String → ℕ) (received : List (Message F)) (w : ℕ)
      (label : String)
      → publish_events settings broker events topic ensure flush ≡ ok (messages, count)
      → Reads (lane_of partition) messages received
      → compute_windows w label (events_of received) ≡ compute_windows w label events
  compute_windows-publish_events settings broker events topic ensure flush messages count partition
        received w label h r =
      let sent =
        (publish_events-IsPublished settings broker events topic ensure flush messages count h).0 in
      compute_windows-Reads partition settings.topics topic
        (messages_of settings.topics topic events) received w label
        (All-IsRouted settings.topics topic events)
        (subst (λ log. Reads (lane_of partition) log received) sent r)
      ∙ ap (compute_windows w label) (events_of-messages settings.topics topic events)
