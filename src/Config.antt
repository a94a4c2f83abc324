-- ===== src/Config.antt =====
-- src/tickstream/config.py: topics, exchange profiles, the source configuration with its checks.
-- What comes from the environment is in the child module.
pub mod Environment
use Prim.Native.Char.{code}
use tickstream_streaming_lak.Prelude.{ℕ, String, none, some, List, [], ◌∷◌, if◌then◌else◌, nat_beq}
use tickstream_streaming_lak.Prelude.Eq.{◌==◌, string_eq}
use tickstream_streaming_lak.Prelude.Dict.{Dict, get, get_default}
use tickstream_streaming_lak.Errors.{Result, ok, err, value_error, ◌>>=◌}

pub record Topics : Type 0 where
  pub trades_raw : String
  pub ticker_raw : String
  pub metrics_windowed : String
  pub quarantine : String

abbrev pub default_topics : Topics
default_topics = record {
  trades_raw = "trades.raw";
  ticker_raw = "ticker.raw";
  metrics_windowed = "metrics.windowed";
  quarantine = "contracts.quarantine";
}

-- `Topics.all`
abbrev pub all_topics : Topics → List String
all_topics t = t.trades_raw ∷ t.ticker_raw ∷ t.metrics_windowed ∷ t.quarantine ∷ []

pub record ExchangeProfile : Type 0 where
  pub ws_url : String
  pub channel_map : Dict String String
  pub symbol_style : String

-- `symbol.replace("-", "")`
unfoldable pub without_dashes : String → String
without_dashes String.[] = String.[]
without_dashes (String.◌∷◌ c s) =
    let rest = without_dashes s in if nat_beq (code c) b'-' then rest else String.◌∷◌ c rest

unfoldable pub exchange_symbol : ExchangeProfile → String → String
unfolding without_dashes
exchange_symbol p symbol = if p.symbol_style == "concat" then without_dashes symbol else symbol

unfoldable pub exchange_channel : ExchangeProfile → String → String
unfolding get_default
exchange_channel p channel = get_default channel channel p.channel_map

pub record SourceConfig : Type 0 where
  pub exchange : String
  pub symbols : List String
  pub channels : List String
  pub exchanges : Dict String ExchangeProfile

-- `_non_empty`, for the symbols and the channels
abbrev pub non_empty : List String → Result (List String)
non_empty [] = err value_error
non_empty (x ∷ xs) = ok (x ∷ xs)

-- `SourceConfig.model_validate`, behind the types of the fields
unfoldable pub validated_source : SourceConfig → Result SourceConfig
validated_source c = do symbols ← non_empty c.symbols; channels ← non_empty c.channels; ok c

-- The property `profile`.
unfoldable pub profile : SourceConfig → Result ExchangeProfile
unfolding get
profile c = elim (get c.exchange c.exchanges) [ none ↦ err value_error | some p ↦ ok p ]

pub record Settings : Type 0 where
  pub topics : Topics
  pub source : SourceConfig
  pub default_partitions : ℕ
