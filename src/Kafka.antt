-- ===== src/Kafka.antt =====
-- src/tickstream/kafka_utils.py: what is handed to the broker, the delivery counter, the creation
-- of missing topics, the wait for the broker, the sum of the end offsets. The client library
-- (confluent-kafka) enters by its answers, as arguments.
pub mod Topics
pub mod Clients
pub mod Reads
use tickstream_streaming_lak.Prelude.{
  ℕ, ◌+◌, String, Bool, true, false, not, Option, none, some, List, [], ◌∷◌, ◌++◌, keep,
  if◌then◌else◌, ltb,
}
use tickstream_streaming_lak.Prelude.Int.{ℤ}
use tickstream_streaming_lak.Prelude.Eq.{◌==◌, string_eq}
use tickstream_streaming_lak.Prelude.Dict.{Dict, get}
use tickstream_streaming_lak.Prelude.Group.{elem, distinct}
use tickstream_streaming_lak.Errors.{Result, ok, err, runtime_error, ◌>>=◌}
use tickstream_streaming_lak.Py.{Json}
use tickstream_streaming_lak.Time.{Datetime}
use tickstream_streaming_lak.Schema.{MarketEvent}
use tickstream_streaming_lak.Normalize.Record.{Reason}

-- `quarantine_message` of quality/quarantine.py, before it is made JSON
pub record QuarantineRecord (F : Type 0) : Type 0 where
  pub exchange : String
  pub seq : ℕ
  pub reason : Reason
  pub payload : Json F
  pub ts_quarantined : Datetime

pub data Body (F : Type 0) : Type 0 where
  event : MarketEvent F → Body F
  quarantine : QuarantineRecord F → Body F

-- One `producer.produce(…)`.
pub record Message (F : Type 0) : Type 0 where
  pub topic : String
  pub key : Option String
  pub body : Body F

-- The events among the messages.
abbrev pub events_of : {F : Type 0} → List (Message F) → List (MarketEvent F)
events_of [] = []
events_of (m ∷ log) = elim m.body [ event e ↦ e ∷ events_of log | quarantine q ↦ events_of log ]

-- `DeliveryCounter`, called with the error of one message, if there is one.
pub record DeliveryCounter : Type 0 where
  pub delivered : ℕ
  pub failed : ℕ

abbrev pub new_counter : DeliveryCounter
new_counter = record { delivered = 0; failed = 0 }

-- `true` for an error
unfoldable pub on_delivery : DeliveryCounter → Bool → DeliveryCounter
on_delivery c failure =
    if failure then record c { failed = c.failed + 1 } else record c { delivered = c.delivered + 1 }

unfoldable pub deliver_all : DeliveryCounter → List Bool → DeliveryCounter
deliver_all c [] = c
deliver_all c (failure ∷ rest) = deliver_all (on_delivery c failure) rest

-- How the creation of one topic ends: `fut.result()`.
pub data Created : Type 0 where
  made already_exists refused : Created

-- The loop over the futures.
unfoldable pub collect_created :
    (String → Created) → List String → List String → Result (List String)
collect_created outcome [] created = ok created
collect_created outcome (name ∷ names) created = elim (outcome name) [
  | made ↦ collect_created outcome names (created ++ (name ∷ []))
  | already_exists ↦ collect_created outcome names created
  | refused ↦ err runtime_error
]

-- `ensure_topics`: the broker has `existing`, and answers a creation by `outcome`.
unfoldable pub ensure_topics : (String → Created) → List String → List String → Result (List String)
ensure_topics outcome existing names =
    collect_created outcome (distinct (keep (λ n. not (elem n existing)) names)) []

-- One round of `wait_for_broker`: what `list_topics` answers before the deadline.
pub data Probe : Type 0 where
  brokers no_brokers unreachable : Probe

-- The rounds up to the deadline.
unfoldable pub wait_for_broker : List Probe → Bool
wait_for_broker [] = false
wait_for_broker (brokers ∷ probes) = true
wait_for_broker (probe ∷ probes) = wait_for_broker probes

-- `end_offset_total`: the high watermarks of the partitions of each topic that the cluster has
abbrev pub sum_list : List ℕ → ℕ
sum_list [] = 0
sum_list (n ∷ ns) = n + sum_list ns

unfoldable pub end_offset_total : Dict String (List ℕ) → List String → ℕ
end_offset_total cluster [] = 0
end_offset_total cluster (topic ∷ topics) =
    (elim (get topic cluster) [ none ↦ 0 | some highs ↦ sum_list highs ])
    + end_offset_total cluster topics
