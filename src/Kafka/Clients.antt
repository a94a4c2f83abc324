-- ===== src/Kafka/Clients.antt =====
-- The clients of src/tickstream/kafka_utils.py, as the configurations that are handed to
-- confluent-kafka, and its delivery callback, as the line that it logs.
use tickstream_streaming_lak.Prelude.{ℕ, String, Bool, true, [], ◌∷◌, Option, none, some}
use tickstream_streaming_lak.Prelude.Eq.{string_eq}
use tickstream_streaming_lak.Prelude.Dict.{Dict, put}
use tickstream_streaming_lak.Config.Environment.{KafkaSettings}

pub data ConfValue : Type 0 where
  text : String → ConfValue
  number : ℕ → ConfValue
  flag : Bool → ConfValue

-- `{…, **overrides}`
unfoldable pub override_conf : Dict String ConfValue → Dict String ConfValue → Dict String ConfValue
override_conf conf [] = conf
override_conf conf ((k, v) ∷ rest) = override_conf (put k v conf) rest

unfoldable pub build_producer : KafkaSettings → Dict String ConfValue → Dict String ConfValue
unfolding override_conf
build_producer kafka overrides =
    override_conf
      (("bootstrap.servers", text kafka.bootstrap_servers)
        ∷ ("client.id", text kafka.client_id)
        ∷ ("broker.address.family", text kafka.broker_address_family)
        ∷ ("enable.idempotence", flag true)
        ∷ ("acks", text "all")
        ∷ ("linger.ms", number 20)
        ∷ ("compression.type", text "lz4")
        ∷ [])
      overrides

unfoldable pub build_consumer :
    KafkaSettings → String → String → Bool → Dict String ConfValue → Dict String ConfValue
unfolding override_conf
build_consumer kafka group_id auto_offset_reset enable_auto_commit overrides =
    override_conf
      (("bootstrap.servers", text kafka.bootstrap_servers)
        ∷ ("group.id", text group_id)
        ∷ ("client.id", text kafka.client_id)
        ∷ ("broker.address.family", text kafka.broker_address_family)
        ∷ ("auto.offset.reset", text auto_offset_reset)
        ∷ ("enable.auto.commit", flag enable_auto_commit)
        ∷ [])
      overrides

unfoldable pub admin_client : KafkaSettings → Dict String ConfValue
admin_client kafka =
    ("bootstrap.servers", text kafka.bootstrap_servers)
    ∷ ("broker.address.family", text kafka.broker_address_family)
    ∷ []

-- Where a message was stored: topic, partition, offset.
pub record Position : Type 0 where
  pub topic : String
  pub partition : ℕ
  pub offset : ℕ

pub data Report : Type 0 where
  delivery_failed : String → Report
  delivered : Position → Report

-- `_delivery_report`, with the text of the error, if there is one
unfoldable pub delivery_report : Option String → Position → Report
delivery_report (some error) msg = delivery_failed error
delivery_report none msg = delivered msg
