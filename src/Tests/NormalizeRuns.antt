-- ===== src/Tests/NormalizeRuns.antt =====
-- The normalizers of producer/normalize.py at concrete messages.
use text.Mathlib.TextEquality.{eq_iff}
use tickstream_streaming_lak.Prelude.{◌≡◌, refl, ◌↔◌, Option, none, some, [], ◌∷◌, All, true, arith}
use tickstream_streaming_lak.Prelude.Int.{ℤ, pos}
use tickstream_streaming_lak.Prelude.Eq.{string_eq}
use tickstream_streaming_lak.Prelude.Dict.{get, put}
use tickstream_streaming_lak.Prelude.Text.{codes}
use tickstream_streaming_lak.Errors.{
  Result, ok, err, attribute_error, validation_error, price_not_positive,
}
use tickstream_streaming_lak.Config.{exchange_symbol, without_dashes}
use tickstream_streaming_lak.Py.{
  Json, null, str, obj, end, item, find, elements, get_field, get_field_or, index, iterate, is_text,
  truthy, to_float, to_text,
}
use tickstream_streaming_lak.Time.{in_range}
use tickstream_streaming_lak.Schema.{MarketEvent, Side, validated, basic_contract, first_negative}
use tickstream_streaming_lak.Normalize.Timestamp.{
  strip, drop_while, replace_z, frac_sub, to_utc, parse_ts, parse_ts_text,
}
use tickstream_streaming_lak.Normalize.Record.{
  SymbolMap, raised, Batch, nothing, map_symbol, resolve_symbol, as_symbol, unless_dropped,
  take_record, take_records,
}
use tickstream_streaming_lak.Normalize.Coinbase.{
  side_of, trade_id_of, trade_event, parse_trade, trade_groups, normalize_coinbase,
}
use tickstream_streaming_lak.Normalize.Dispatch.{normalize_safe, add_symbols, build_symbol_map}
use tickstream_streaming_lak.Normalize.Isolation.{events_of, rejects_of, take_records_isolates}
use tickstream_streaming_lak.Normalize.Accepted.{IsSound}
use tickstream_streaming_lak.Normalize.Contract.{normalize_safe-IsSound}
use tickstream_streaming_lak.Normalize.Escapes.{trades_message, normalize_coinbase-bad_time}
use tickstream_streaming_lak.Normalize.Truncation.{fits, frac_sub_truncates}
use tickstream_streaming_lak.Normalize.Symbols.{IsSpelling, build_symbol_map_inverts}
use tickstream_streaming_lak.Tests.Sample.{
  whole_numbers, plain, sample_settings, binance_profile, good_trade, bad_trade, null_time_fields,
  sample_trade,
}

abbrev symbols : SymbolMap
symbols = ("BTC-USD", "BTC-USD") ∷ []

abbrev message : Json ℤ
message = trades_message (item good_trade (item bad_trade end))

-- One trade is accepted, the other is rejected for its price.
abbrev accepted : Batch ℤ
accepted = record {
  events =
      record (sample_trade "BTC-USD" 100 2 61) { side = some Side.buy; ts_ingest = pos 7 } ∷ [];
  rejects = (raised (validation_error price_not_positive), bad_trade) ∷ [];
}

normalize_safe_run : normalize_safe plain (pos 7) "coinbase" (some symbols) message ≡ ok accepted
unfolding normalize_safe normalize_coinbase trade_groups parse_trade trade_event trade_id_of side_of
    take_records take_record unless_dropped as_symbol resolve_symbol map_symbol parse_ts
    parse_ts_text strip drop_while replace_z frac_sub to_utc in_range get_field_or get_field find
    index elements iterate is_text truthy to_float to_text get validated basic_contract
    first_negative
normalize_safe_run = refl

normalize_safe-IsSound_example : IsSound "coinbase" (pos 7) (some symbols) accepted
normalize_safe-IsSound_example =
    normalize_safe-IsSound plain (pos 7) "coinbase" symbols message accepted normalize_safe_run

abbrev parse : Json ℤ → Result (Option (MarketEvent ℤ))
parse = parse_trade plain (pos 7) (some symbols)

take_records_isolates_example :
    take_records parse (good_trade ∷ bad_trade ∷ []) nothing
    ≡ ok record {
      events = events_of parse (good_trade ∷ bad_trade ∷ []);
      rejects = rejects_of parse (good_trade ∷ bad_trade ∷ []);
    }
unfolding parse_trade trade_event trade_id_of side_of unless_dropped as_symbol resolve_symbol
    map_symbol parse_ts parse_ts_text strip drop_while replace_z frac_sub to_utc in_range
    get_field_or get_field find index is_text truthy to_float to_text get validated basic_contract
    first_negative
take_records_isolates_example =
    take_records_isolates parse (good_trade ∷ bad_trade ∷ []) nothing (tt, (refl, tt))

-- A trade with `"time": null` behind a good one: the good one is lost too.
normalize_coinbase-bad_time_example :
    normalize_coinbase plain
      (pos 7)
      (some symbols)
      (trades_message (item good_trade (item (obj null_time_fields) end)))
    ≡ err attribute_error
unfolding parse_trade trade_event trade_id_of side_of unless_dropped as_symbol resolve_symbol
    map_symbol parse_ts parse_ts_text strip drop_while replace_z frac_sub to_utc in_range
    get_field_or get_field find index elements is_text truthy to_float to_text get validated
    basic_contract first_negative
normalize_coinbase-bad_time_example =
    normalize_coinbase-bad_time plain (pos 7) (some symbols)
      (item good_trade (item (obj null_time_fields) end)) (good_trade ∷ []) [] null_time_fields
      (str "BTC-USD") null "BTC-USD" (pos 100) (pos 2) refl (tt, tt) refl refl refl refl refl refl

abbrev spellings : SymbolMap
spellings = ("BTCUSD", "BTC-USD") ∷ ("ETHUSD", "ETH-USD") ∷ []

build_symbol_map_inverts_example :
    (get "BTCUSD" spellings ≡ some "BTC-USD") × All (IsSpelling binance_profile) spellings
unfolding build_symbol_map add_symbols exchange_symbol without_dashes get put
build_symbol_map_inverts_example =
    build_symbol_map_inverts sample_settings "binance_us" binance_profile spellings "BTC-USD" []
      ("ETH-USD" ∷ []) refl refl refl ((λ e. ground (arith, eq_iff "ETHUSD" "BTCUSD")), tt)

-- Nanoseconds are cut to microseconds.
frac_sub_run :
    frac_sub plain.is_digit none (codes "2026-01-01T00:00:00.123456789+00:00")
    ≡ codes "2026-01-01T00:00:00.123456+00:00"
unfolding frac_sub
frac_sub_run = refl

frac_sub_truncates_example :
    (fits plain.is_digit none (frac_sub plain.is_digit none (codes "1.1234567")) ≡ true)
    × ((frac_sub plain.is_digit none (codes "1.1234567") ≡ codes "1.1234567")
        ↔ (fits plain.is_digit none (codes "1.1234567") ≡ true))
    × (frac_sub plain.is_digit none (frac_sub plain.is_digit none (codes "1.1234567"))
        ≡ frac_sub plain.is_digit none (codes "1.1234567"))
frac_sub_truncates_example = frac_sub_truncates plain.is_digit (codes "1.1234567")
