-- ===== src/Config/Environment.antt =====
-- src/tickstream/config.py: the settings that come from the environment, the loading of the source
-- configuration and `get_settings`. pydantic-settings reads the variables, which enter as a
-- function; the text of the file is read by the YAML library.
use tickstream_streaming_lak.Prelude.{ℕ, String, Bool, true, Option, none, some}
use tickstream_streaming_lak.Prelude.Dict.{Dict, get, get_default}
use tickstream_streaming_lak.Prelude.Eq.{string_eq}
use tickstream_streaming_lak.Errors.{Result, ok, err, value_error, file_not_found_error, ◌>>=◌}
use tickstream_streaming_lak.Config.{default_topics, Settings, SourceConfig, validated_source}

pub record KafkaSettings : Type 0 where
  pub bootstrap_servers : String
  pub client_id : String
  pub broker_address_family : String
  pub default_partitions : ℕ
  pub default_replication : ℕ

pub record RuntimeSettings : Type 0 where
  pub source_config_path : String
  pub log_level : String
  pub log_json : Bool
  pub lake_root : String
  pub warehouse_root : String

-- The values of the variables of the environment, behind the file `.env`, and how pydantic reads a
-- number and a truth value; none is a ValidationError, which is a ValueError.
pub record Environment : Type 0 where
  pub variables : Dict String String
  pub read_int : String → Option ℕ
  pub read_bool : String → Option Bool
  -- REPO_ROOT / "…"
  pub below_root : String → String

abbrev pub text_setting : Environment → String → String → String
text_setting env name default = get_default name default env.variables

abbrev pub read_setting : {A : Type 0} → Environment → (String → Option A) → String → A → Result A
read_setting env read name default = elim (get name env.variables) [
  | none ↦ ok default
  | some s ↦ (elim (read s) [ none ↦ err value_error | some a ↦ ok a ])
]

-- `KafkaSettings()`, with the prefix KAFKA_
unfoldable pub kafka_settings : Environment → Result KafkaSettings
unfolding get get_default
kafka_settings env = do
  partitions ← read_setting env env.read_int "KAFKA_DEFAULT_PARTITIONS" 1
  replication ← read_setting env env.read_int "KAFKA_DEFAULT_REPLICATION" 1
  ok record {
    bootstrap_servers = text_setting env "KAFKA_BOOTSTRAP_SERVERS" "localhost:19092";
    client_id = text_setting env "KAFKA_CLIENT_ID" "tickstream";
    broker_address_family = text_setting env "KAFKA_BROKER_ADDRESS_FAMILY" "v4";
    default_partitions = partitions;
    default_replication = replication;
  }

-- `RuntimeSettings()`, with the prefix TICKSTREAM_
unfoldable pub runtime_settings : Environment → Result RuntimeSettings
unfolding get get_default
runtime_settings env = do
  log_json ← read_setting env env.read_bool "TICKSTREAM_LOG_JSON" true
  ok record {
    source_config_path =
        text_setting env "TICKSTREAM_SOURCE_CONFIG_PATH" (env.below_root "config/source.yaml");
    log_level = text_setting env "TICKSTREAM_LOG_LEVEL" "INFO";
    log_json = log_json;
    lake_root = text_setting env "TICKSTREAM_LAKE_ROOT" (env.below_root "lake_data");
    warehouse_root = text_setting env "TICKSTREAM_WAREHOUSE_ROOT" (env.below_root "warehouse");
  }

-- `load_source_config`: the file, if there is one, as YAML and pydantic read it
unfoldable pub load_source_config :
    (String → Option (Result SourceConfig)) → String → Result SourceConfig
load_source_config file path = elim (file path) [
  | none ↦ err file_not_found_error
  | some raw ↦ (do source ← raw; validated_source source)
]

-- What `get_settings` aggregates.
pub record AllSettings : Type 0 where
  pub kafka : KafkaSettings
  pub runtime : RuntimeSettings
  pub settings : Settings

unfoldable pub get_settings :
    Environment → (String → Option (Result SourceConfig)) → Result AllSettings
unfolding kafka_settings runtime_settings load_source_config
get_settings env file = do
  runtime ← runtime_settings env
  kafka ← kafka_settings env
  source ← load_source_config file runtime.source_config_path
  ok record {
    kafka = kafka;
    runtime = runtime;
    settings = record {
      topics = default_topics;
      source = source;
      default_partitions = kafka.default_partitions;
    };
  }
