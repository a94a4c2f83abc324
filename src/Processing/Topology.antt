-- ===== src/Processing/Topology.antt =====
-- `build_application`, `build_pipeline` and `run_processor` of processing/app.py, as what they ask of
-- the Quix library: the application, the two streams with their derived columns, and for each
-- window size a tumbling window, its aggregations, its finalizer and the topic that it goes to.
use Prim.Native.Nat.{zero, suc}
use Prim.Native.String.{◌++◌ as ◌<>◌}
use tickstream_streaming_lak.Prelude.{
  ℕ, ◌*◌, String, Bool, false, Option, none, some, List, [], ◌∷◌, ◌++◌, map,
}
use tickstream_streaming_lak.Prelude.Int.{ℤ, pos, trunc_div, ◌*ℤ◌}
use tickstream_streaming_lak.Prelude.Dict.{Dict}
use tickstream_streaming_lak.Errors.{Result, ok, ◌>>=◌}
use tickstream_streaming_lak.Config.{Topics, Settings}
use tickstream_streaming_lak.Config.Environment.{KafkaSettings, RuntimeSettings}
use tickstream_streaming_lak.Metrics.{window_sizes}
use tickstream_streaming_lak.Normalize.Timestamp.{parse_ts}
use tickstream_streaming_lak.Py.{Double, Json, Runtime, index}
use tickstream_streaming_lak.Time.{Datetime}

-- DEFAULT_GRACE_SECONDS
abbrev pub default_grace_seconds : ℕ
default_grace_seconds = 5

-- `int(t.timestamp() * 1000)`: towards zero
abbrev pub to_millis : Datetime → ℤ
to_millis t = trunc_div t 1000

-- `_extract_ts`
unfoldable pub extract_ts : {F : Type 0} → Runtime F → Json F → Result ℤ
extract_ts r value = do text ← index "ts_event" value; t ← parse_ts r text; ok (to_millis t)

-- `_ms_to_iso`, with `isoformat` of a datetime
unfoldable pub ms_to_iso : (Datetime → String) → ℤ → String
ms_to_iso isoformat ms = isoformat (ms *ℤ pos 1000)

-- The key of a message: bytes, with what they decode to, or another object with its text.
pub data Key : Type 0 where
  bytes other : String → Key

-- `_symbol_of`
unfoldable pub symbol_of : Key → String
symbol_of (bytes s) = s
symbol_of (other s) = s

-- `_on_late`: the fields of the warning, and that Quix is not to log the record again.
unfoldable pub on_late : (Datetime → String) → ℤ → ℤ → ℤ → (String × String) × Bool
unfolding ms_to_iso
on_late isoformat timestamp_ms start end =
    let iso = ms_to_iso isoformat in
    ((iso timestamp_ms, "[" <> iso start <> "," <> iso end <> ")"), false)

pub record Application : Type 0 where
  pub broker_address : String
  pub consumer_group : String
  pub auto_offset_reset : String
  pub state_dir : String
  pub use_changelog_topics : Bool
  pub consumer_extra_config : Dict String String
  pub producer_extra_config : Dict String String

unfoldable pub build_application : KafkaSettings → String → String → String → Bool → Application
build_application kafka consumer_group state_dir auto_offset_reset use_changelog_topics = record {
  broker_address = kafka.bootstrap_servers;
  consumer_group = consumer_group;
  auto_offset_reset = auto_offset_reset;
  state_dir = state_dir;
  use_changelog_topics = use_changelog_topics;
  consumer_extra_config = ("broker.address.family", kafka.broker_address_family) ∷ [];
  producer_extra_config = ("broker.address.family", kafka.broker_address_family) ∷ [];
}

-- The columns of the two streams: of the message, and derived.
pub data StreamColumn : Type 0 where
  price size best_bid best_ask pv spread mid : StreamColumn

module _ {F : Type 0} ⦃d : Double F⦄ where
  -- `sdf_t["pv"] = price * size`
  abbrev pub derive_pv : F → F → F
  derive_pv p s = d.mul p s

  -- `sdf_k["spread"] = best_ask - best_bid`
  abbrev pub derive_spread : F → F → F
  derive_spread bid ask = d.sub ask bid

  -- `sdf_k["mid"] = (best_ask + best_bid) / 2.0`
  abbrev pub derive_mid : F → F → F
  derive_mid bid ask = d.div (d.add ask bid) (d.of_count 2)

pub data Aggregation : Type 0 where
  sum_of mean_of : StreamColumn → Aggregation
  count_of : Aggregation

pub data Finalizer : Type 0 where
  trade_window ticker_window : String → Finalizer

pub data ClosingStrategy : Type 0 where
  key partition : ClosingStrategy

-- One `tumbling_window(…).agg(…).final(…)` with its `apply` and its sink; times in milliseconds.
pub record Branch : Type 0 where
  pub source : String
  pub derived : List StreamColumn
  pub duration_ms : ℕ
  pub grace_ms : ℕ
  pub aggregations : Dict String Aggregation
  pub closing : ClosingStrategy
  pub finalizer : Finalizer
  pub sink : String

abbrev pub trade_branch : Topics → ℕ → String × ℕ → Branch
trade_branch topics grace_seconds (label, secs) = record {
  source = topics.trades_raw;
  derived = pv ∷ [];
  duration_ms = secs * 1000;
  grace_ms = grace_seconds * 1000;
  aggregations = ("pv", sum_of pv) ∷ ("volume", sum_of size) ∷ ("count", count_of) ∷ [];
  closing = key;
  finalizer = trade_window label;
  sink = topics.metrics_windowed;
}

abbrev pub ticker_branch : Topics → ℕ → String × ℕ → Branch
ticker_branch topics grace_seconds (label, secs) = record {
  source = topics.ticker_raw;
  derived = spread ∷ mid ∷ [];
  duration_ms = secs * 1000;
  grace_ms = grace_seconds * 1000;
  aggregations = ("spread", mean_of spread) ∷ ("mid", mean_of mid) ∷ ("count", count_of) ∷ [];
  closing = key;
  finalizer = ticker_window label;
  sink = topics.metrics_windowed;
}

unfoldable pub build_pipeline : Settings → Dict String ℕ → ℕ → List Branch
build_pipeline settings sizes grace_seconds =
    map (trade_branch settings.topics grace_seconds) sizes
    ++ map (ticker_branch settings.topics grace_seconds) sizes

-- What is run: the application, the branches, and the idle time behind which it stops, if any.
pub record ProcessorRun : Type 0 where
  pub application : Application
  pub branches : List Branch
  pub timeout : Option ℕ

-- `bounded_timeout or 0.0`, where 0 stands for no timeout
abbrev bounded : Option ℕ → Option ℕ
bounded none = none
bounded (some zero) = none
bounded (some (suc n)) = some (suc n)

-- `run_processor`, behind the creation of the state directory
unfoldable pub run_processor :
    KafkaSettings → RuntimeSettings → Settings → String → Option String → Option ℕ → ProcessorRun
unfolding build_application build_pipeline
run_processor kafka runtime settings consumer_group state_dir bounded_timeout =
    let dir : String = elim state_dir [
      | none ↦ runtime.lake_root <> "/processor-state"
      | some path ↦ path
    ] in
    record {
      application = build_application kafka consumer_group dir "earliest" false;
      branches = build_pipeline settings window_sizes default_grace_seconds;
      timeout = bounded bounded_timeout;
    }
