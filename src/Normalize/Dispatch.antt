-- ===== src/Normalize/Dispatch.antt =====
-- `build_symbol_map`, `normalize_safe` and `normalize` of producer/normalize.py.
use tickstream_streaming_lak.Prelude.{String, Option, none, some, List, [], ◌∷◌, if◌then◌else◌}
use tickstream_streaming_lak.Prelude.Eq.{◌==◌, string_eq}
use tickstream_streaming_lak.Prelude.Dict.{get, put}
use tickstream_streaming_lak.Errors.{Result, ok, err, key_error, value_error, ◌>>=◌}
use tickstream_streaming_lak.Config.{ExchangeProfile, exchange_symbol, Settings}
use tickstream_streaming_lak.Py.{Double, Json, Runtime}
use tickstream_streaming_lak.Time.{Datetime}
use tickstream_streaming_lak.Schema.{MarketEvent}
use tickstream_streaming_lak.Normalize.Record.{SymbolMap, Batch}
use tickstream_streaming_lak.Normalize.Coinbase.{normalize_coinbase}
use tickstream_streaming_lak.Normalize.BinanceUs.{normalize_binance_us}

-- `{profile.exchange_symbol(sym): sym for sym in symbols}`, onto the entries made so far
unfoldable pub add_symbols : ExchangeProfile → List String → SymbolMap → SymbolMap
add_symbols p [] m = m
add_symbols p (sym ∷ syms) m = add_symbols p syms (put (exchange_symbol p sym) sym m)

unfoldable pub build_symbol_map : Settings → String → Result SymbolMap
build_symbol_map settings exchange = elim (get exchange settings.source.exchanges) [
  | none ↦ err key_error
  | some p ↦ ok (add_symbols p settings.source.symbols [])
]

-- `symbol_map or {}`
abbrev pub map_or_empty : Option SymbolMap → SymbolMap
map_or_empty none = []
map_or_empty (some m) = m

module _ {F : Type 0} ⦃d : Double F⦄ (r : Runtime F) (ts_ingest : Datetime) where
  unfoldable pub normalize_safe : String → Option SymbolMap → Json F → Result (Batch F)
  normalize_safe exchange symbol_map payload =
      if exchange == "coinbase"
      then normalize_coinbase r ts_ingest symbol_map payload
      else if exchange == "binance_us"
      then normalize_binance_us r ts_ingest (map_or_empty symbol_map) payload
      else err value_error

  unfoldable pub normalize : String → Option SymbolMap → Json F → Result (List (MarketEvent F))
  normalize exchange symbol_map payload = do
    batch ← normalize_safe exchange symbol_map payload
    ok batch.events
