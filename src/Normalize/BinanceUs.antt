-- ===== src/Normalize/BinanceUs.antt =====
-- `normalize_binance_us` of producer/normalize.py.
use tickstream_streaming_lak.Prelude.{
  String, Bool, false, Option, none, some, [], ◌∷◌, ◌||◌, if◌then◌else◌,
}
use tickstream_streaming_lak.Errors.{Result, ok, ◌>>=◌}
use tickstream_streaming_lak.Py.{
  Double, Json, null, get_field, get_field_or, index, is_text, present, has_keys, truthy, to_float,
  Runtime, to_text,
}
use tickstream_streaming_lak.Time.{Datetime}
use tickstream_streaming_lak.Schema.{MarketEvent, EventType, Side, validated}
use tickstream_streaming_lak.Normalize.Timestamp.{ts_from_millis}
use tickstream_streaming_lak.Normalize.Record.{
  SymbolMap, Batch, nothing, map_symbol, take_record, opt_float,
}

module _ {F : Type 0} ⦃d : Double F⦄ (r : Runtime F) (ts_ingest : Datetime) where
  -- The taker sold if the buyer was the maker.
  abbrev taker_side : Bool → Side
  taker_side is_buyer_maker = if is_buyer_maker then Side.sell else Side.buy

  -- `x is not None` and `bool(x)` of what `.get` returned
  abbrev flag : Option (Json F) → Bool
  flag none = false
  flag (some v) = truthy v

  unfoldable pub binance_trade : String → Json F → Result (MarketEvent F)
  binance_trade symbol msg = do
    maker ← get_field "m" msg
    price ← index "p" msg >>= to_float
    size ← index "q" msg >>= to_float
    t ← get_field "t" msg
    ts_event ← index "T" msg >>= ts_from_millis r
    validated record {
      exchange = "binance_us";
      symbol = symbol;
      event_type = EventType.trade;
      price = some price;
      size = some size;
      side = some (taker_side (flag maker));
      trade_id = elim (present t) [ none ↦ none | some v ↦ some (to_text r v) ];
      best_bid = none;
      best_ask = none;
      best_bid_size = none;
      best_ask_size = none;
      ts_event = ts_event;
      ts_ingest = ts_ingest;
    }

  unfoldable pub binance_ticker : String → Json F → Result (MarketEvent F)
  binance_ticker symbol msg = do
    best_bid ← get_field "b" msg >>= opt_float
    best_ask ← get_field "a" msg >>= opt_float
    best_bid_size ← get_field "B" msg >>= opt_float
    best_ask_size ← get_field "A" msg >>= opt_float
    validated record {
      exchange = "binance_us";
      symbol = symbol;
      event_type = EventType.ticker;
      price = none;
      size = none;
      side = none;
      trade_id = none;
      best_bid = best_bid;
      best_ask = best_ask;
      best_bid_size = best_bid_size;
      best_ask_size = best_ask_size;
      ts_event = ts_ingest;
      ts_ingest = ts_ingest;
    }

  -- The body of the `try` block: a trade, a book ticker, or neither.
  unfoldable pub parse_binance : String → Json F → Result (Option (MarketEvent F))
  parse_binance symbol msg = do
    kind ← get_field_or "e" null msg
    if is_text "trade" kind || has_keys ("p" ∷ "q" ∷ "t" ∷ "T" ∷ []) msg
        then (do e ← binance_trade symbol msg; ok (some e))
        else if has_keys ("b" ∷ "a" ∷ []) msg
        then (do e ← binance_ticker symbol msg; ok (some e))
        else ok none

  -- `symbol_map.get(raw_symbol) if raw_symbol is not None else None`
  unfoldable pub binance_symbol : SymbolMap → Option (Json F) → Result (Option String)
  binance_symbol symbol_map found = elim (present found) [
    | none ↦ ok none
    | some raw ↦ map_symbol symbol_map raw
  ]

  unfoldable pub normalize_binance_us : SymbolMap → Json F → Result (Batch F)
  normalize_binance_us symbol_map payload = do
    msg ← get_field_or "data" payload payload
    raw ← get_field "s" msg
    symbol ← binance_symbol symbol_map raw
    elim symbol [ none ↦ ok nothing | some s ↦ take_record msg (parse_binance s msg) nothing ]
