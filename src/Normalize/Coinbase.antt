-- ===== src/Normalize/Coinbase.antt =====
-- `normalize_coinbase` of producer/normalize.py.
use tickstream_streaming_lak.Prelude.{String, Option, none, some, List, [], ◌∷◌, if◌then◌else◌}
use tickstream_streaming_lak.Prelude.Eq.{◌==◌, string_eq}
use tickstream_streaming_lak.Errors.{Result, ok, err, ◌>>=◌}
use tickstream_streaming_lak.Py.{
  Double, Json, null, str, arr, end, get_field, get_field_or, index, iterate, is_text, truthy,
  to_float, Runtime, to_text,
}
use tickstream_streaming_lak.Time.{Datetime}
use tickstream_streaming_lak.Schema.{MarketEvent, EventType, Side, validated}
use tickstream_streaming_lak.Normalize.Timestamp.{parse_ts}
use tickstream_streaming_lak.Normalize.Record.{
  SymbolMap, bad_envelope_timestamp, Batch, nothing, is_normalize_error, resolve_symbol, as_symbol,
  unless_dropped, take_records, opt_float,
}

-- `_SIDE.get(…)`
unfoldable pub side_of : String → Option Side
side_of s = if s == "BUY" then some Side.buy else if s == "SELL" then some Side.sell else none

module _ {F : Type 0} ⦃d : Double F⦄ (r : Runtime F) (ts_ingest : Datetime) where
  -- `str(trade["trade_id"]) if trade.get("trade_id") else None`
  unfoldable pub trade_id_of : Json F → Result (Option String)
  trade_id_of trade = do
    found ← get_field "trade_id" trade
    ok (elim found [ none ↦ none | some v ↦ if truthy v then some (to_text r v) else none ])

  -- The arguments of `MarketEvent(…)` for a trade, from left to right, and its validation.
  unfoldable pub trade_event : Json F → Json F → Result (MarketEvent F)
  trade_event trade symbol = do
    price ← index "price" trade >>= to_float
    size ← index "size" trade >>= to_float
    side ← get_field_or "side" (str "") trade
    trade_id ← trade_id_of trade
    ts_event ← index "time" trade >>= parse_ts r
    name ← as_symbol symbol
    validated record {
      exchange = "coinbase";
      symbol = name;
      event_type = EventType.trade;
      price = some price;
      size = some size;
      side = side_of (r.upper (to_text r side));
      trade_id = trade_id;
      best_bid = none;
      best_ask = none;
      best_bid_size = none;
      best_ask_size = none;
      ts_event = ts_event;
      ts_ingest = ts_ingest;
    }

  unfoldable pub ticker_event : Datetime → Json F → Json F → Result (MarketEvent F)
  ticker_event ts_event tick symbol = do
    price ← get_field "price" tick >>= opt_float
    best_bid ← get_field "best_bid" tick >>= opt_float
    best_ask ← get_field "best_ask" tick >>= opt_float
    best_bid_size ← get_field "best_bid_quantity" tick >>= opt_float
    best_ask_size ← get_field "best_ask_quantity" tick >>= opt_float
    name ← as_symbol symbol
    validated record {
      exchange = "coinbase";
      symbol = name;
      event_type = EventType.ticker;
      price = price;
      size = none;
      side = none;
      trade_id = none;
      best_bid = best_bid;
      best_ask = best_ask;
      best_bid_size = best_bid_size;
      best_ask_size = best_ask_size;
      ts_event = ts_event;
      ts_ingest = ts_ingest;
    }

  module _ (symbol_map : Option SymbolMap) where
    -- The body of the `try` block for one trade, and for one tick.
    unfoldable pub parse_trade : Json F → Result (Option (MarketEvent F))
    parse_trade trade = do
      raw ← index "product_id" trade
      symbol ← resolve_symbol raw symbol_map
      unless_dropped symbol (trade_event trade)

    unfoldable pub parse_tick : Datetime → Json F → Result (Option (MarketEvent F))
    parse_tick ts_event tick = do
      raw ← index "product_id" tick
      symbol ← resolve_symbol raw symbol_map
      unless_dropped symbol (ticker_event ts_event tick)

    -- `for ev in payload.get("events", [])` on the channel `market_trades`: snapshots are skipped
    unfoldable pub trade_groups : List (Json F) → Batch F → Result (Batch F)
    trade_groups [] batch = ok batch
    trade_groups (ev ∷ evs) batch = do
      kind ← get_field_or "type" null ev
      next ← if is_text "snapshot" kind then ok batch else (do
        trades ← get_field_or "trades" (arr end) ev >>= iterate
        take_records parse_trade trades batch)
      trade_groups evs next

    unfoldable pub ticker_groups : Datetime → List (Json F) → Batch F → Result (Batch F)
    ticker_groups ts_event [] batch = ok batch
    ticker_groups ts_event (ev ∷ evs) batch = do
      ticks ← get_field_or "tickers" (arr end) ev >>= iterate
      next ← take_records (parse_tick ts_event) ticks batch
      ticker_groups ts_event evs next

    -- The branch of the channel `ticker`, behind its `try` block on the envelope.
    unfoldable pub after_envelope : Json F → Result Datetime → Result (Batch F)
    after_envelope payload (err x) =
        if is_normalize_error x
        then ok (record nothing { rejects = (bad_envelope_timestamp x, payload) ∷ [] })
        else err x
    after_envelope payload (ok ts_event) = do
      evs ← get_field_or "events" (arr end) payload >>= iterate
      ticker_groups ts_event evs nothing

    unfoldable pub normalize_coinbase : Json F → Result (Batch F)
    normalize_coinbase payload = do
      channel ← get_field_or "channel" null payload
      if is_text "market_trades" channel
          then (do
            evs ← get_field_or "events" (arr end) payload >>= iterate
            trade_groups evs nothing)
          else if is_text "ticker" channel
          then after_envelope payload (index "timestamp" payload >>= parse_ts r)
          else ok nothing
