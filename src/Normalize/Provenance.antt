-- ===== src/Normalize/Provenance.antt =====
-- Where the events of `normalize_safe` come from: both exchanges of producer/normalize.py.
use tickstream_streaming_lak.Prelude.{
  ◌≡◌, refl, String, Option, none, some, List, [], ◌∷◌, inl, inr, Bool-cases, ◌||◌,
}
use tickstream_streaming_lak.Prelude.Eq.{string_eq}
use tickstream_streaming_lak.Errors.{
  Result, ok, err, ◌>>=◌, Returns, Returns-bind, Returns-then, Returns-if,
}
use tickstream_streaming_lak.Py.{
  Double, Json, null, str, arr, end, Runtime, get_field, get_field_or, index, iterate, is_text,
  has_keys, to_float, present,
}
use tickstream_streaming_lak.Time.{Datetime}
use tickstream_streaming_lak.Schema.{MarketEvent}
use tickstream_streaming_lak.Normalize.Timestamp.{parse_ts, ts_from_millis}
use tickstream_streaming_lak.Normalize.Record.{
  SymbolMap, Batch, nothing, is_normalize_error, map_symbol, resolve_symbol, as_symbol, take_record,
  take_records, opt_float,
}
use tickstream_streaming_lak.Normalize.Coinbase.{
  trade_id_of, trade_event, ticker_event, parse_trade, parse_tick, trade_groups, ticker_groups,
  after_envelope, normalize_coinbase,
}
use tickstream_streaming_lak.Normalize.BinanceUs.{
  binance_trade, binance_ticker, parse_binance, binance_symbol, normalize_binance_us,
}
use tickstream_streaming_lak.Normalize.Accepted.{
  IsConfigured, IsNormalized, IsSound, OfSome, IsResolved, validated-IsNormalized,
  unless_dropped-Returns, take_record-Returns, take_records-Returns, as_symbol-Returns,
  resolve_symbol-Returns, map_symbol-Returns,
}

module _ {F : Type 0} ⦃d : Double F⦄ (r : Runtime F) (ts : Datetime) where
  module _ (m : Option SymbolMap) where
    trade_event-IsNormalized :
        (trade symbol : Json F)
        → IsResolved m symbol
        → Returns (IsNormalized "coinbase" ts m) (trade_event r ts trade symbol)
    unfolding trade_event
    trade_event-IsNormalized trade symbol h =
        Returns-then _ (index "price" trade >>= to_float) _ λ price.
          Returns-then _ (index "size" trade >>= to_float) _ λ size.
            Returns-then _ (get_field_or "side" (str "") trade) _ λ side.
              Returns-then _ (trade_id_of r ts trade) _ λ trade_id.
                Returns-then _ (index "time" trade >>= parse_ts r) _ λ ts_event.
                  Returns-bind _ _ (as_symbol symbol) _ (as_symbol-Returns symbol)
                    λ name e. validated-IsNormalized _ m (h name e)

    ticker_event-IsNormalized :
        (ts_event : Datetime) (tick symbol : Json F)
        → IsResolved m symbol
        → Returns (IsNormalized "coinbase" ts m) (ticker_event r ts ts_event tick symbol)
    unfolding ticker_event
    ticker_event-IsNormalized ts_event tick symbol h =
        Returns-then _ (get_field "price" tick >>= opt_float) _ λ price.
          Returns-then _ (get_field "best_bid" tick >>= opt_float) _ λ bid.
            Returns-then _ (get_field "best_ask" tick >>= opt_float) _ λ ask.
              Returns-then _ (get_field "best_bid_quantity" tick >>= opt_float) _ λ bid_size.
                Returns-then _ (get_field "best_ask_quantity" tick >>= opt_float) _ λ ask_size.
                  Returns-bind _ _ (as_symbol symbol) _ (as_symbol-Returns symbol)
                    λ name e. validated-IsNormalized _ m (h name e)

    parse_trade-IsNormalized :
        (trade : Json F)
        → Returns (OfSome (IsNormalized "coinbase" ts m)) (parse_trade r ts m trade)
    unfolding parse_trade
    parse_trade-IsNormalized trade = Returns-then _ (index "product_id" trade) _ λ raw.
        Returns-bind _ _ (resolve_symbol raw m) _ (resolve_symbol-Returns raw m)
          λ symbol h. unless_dropped-Returns _ symbol _ (trade_event-IsNormalized trade symbol h)

    parse_tick-IsNormalized :
        (ts_event : Datetime) (tick : Json F)
        → Returns (OfSome (IsNormalized "coinbase" ts m)) (parse_tick r ts m ts_event tick)
    unfolding parse_tick
    parse_tick-IsNormalized ts_event tick = Returns-then _ (index "product_id" tick) _ λ raw.
        Returns-bind _ _ (resolve_symbol raw m) _ (resolve_symbol-Returns raw m) λ symbol h.
          unless_dropped-Returns _ symbol _ (ticker_event-IsNormalized ts_event tick symbol h)

    trade_groups-IsSound :
        (evs : List (Json F)) (batch : Batch F)
        → IsSound "coinbase" ts m batch
        → Returns (IsSound "coinbase" ts m) (trade_groups r ts m evs batch)
    unfolding trade_groups
    trade_groups-IsSound [] batch s = s
    trade_groups-IsSound (ev ∷ evs) batch s = Returns-then _ (get_field_or "type" null ev) _ λ kind.
        Returns-bind (IsSound "coinbase" ts m) _ _ _
          (Returns-if _ (is_text "snapshot" kind) (ok batch) _ s (
            Returns-then _ (get_field_or "trades" (arr end) ev >>= iterate) _ λ trades.
              take_records-Returns _ (parse_trade r ts m) trades batch parse_trade-IsNormalized s))
          (λ next n. trade_groups-IsSound evs next n)

    ticker_groups-IsSound :
        (ts_event : Datetime) (evs : List (Json F)) (batch : Batch F)
        → IsSound "coinbase" ts m batch
        → Returns (IsSound "coinbase" ts m) (ticker_groups r ts m ts_event evs batch)
    unfolding ticker_groups
    ticker_groups-IsSound ts_event [] batch s = s
    ticker_groups-IsSound ts_event (ev ∷ evs) batch s =
        Returns-then _ (get_field_or "tickers" (arr end) ev >>= iterate) _ λ ticks.
          Returns-bind (IsSound "coinbase" ts m) _
            (take_records (parse_tick r ts m ts_event) ticks batch) _
            (take_records-Returns _ _ ticks batch (parse_tick-IsNormalized ts_event) s)
            (λ next n. ticker_groups-IsSound ts_event evs next n)

    after_envelope-IsSound :
        (payload : Json F) (stamp : Result Datetime)
        → Returns (IsSound "coinbase" ts m) (after_envelope r ts m payload stamp)
    unfolding after_envelope
    after_envelope-IsSound payload (err x) = elim (Bool-cases (is_normalize_error x)) [
      | inl c ↦ rw c (tt, (c, tt))
      | inr c ↦ rw c tt
    ]
    after_envelope-IsSound payload (ok ts_event) =
        Returns-then _ (get_field_or "events" (arr end) payload >>= iterate) _
          λ evs. ticker_groups-IsSound ts_event evs nothing (tt, tt)

    pub normalize_coinbase-IsSound :
        (payload : Json F) → Returns (IsSound "coinbase" ts m) (normalize_coinbase r ts m payload)
    unfolding normalize_coinbase
    normalize_coinbase-IsSound payload =
        Returns-then _ (get_field_or "channel" null payload) _ λ channel.
          Returns-if _ (is_text "market_trades" channel) _ _
            (Returns-then _ (get_field_or "events" (arr end) payload >>= iterate) _
              λ evs. trade_groups-IsSound evs nothing (tt, tt))
            (Returns-if _ (is_text "ticker" channel) _ (ok nothing)
              (after_envelope-IsSound payload (index "timestamp" payload >>= parse_ts r)) (tt, tt))

  module _ (m : SymbolMap) where
    binance_trade-IsNormalized :
        (s : String) (msg : Json F)
        → IsConfigured (some m) s
        → Returns (IsNormalized "binance_us" ts (some m)) (binance_trade r ts s msg)
    unfolding binance_trade
    binance_trade-IsNormalized s msg c = Returns-then _ (get_field "m" msg) _ λ maker.
        Returns-then _ (index "p" msg >>= to_float) _ λ price.
          Returns-then _ (index "q" msg >>= to_float) _ λ size.
            Returns-then _ (get_field "t" msg) _ λ t.
              Returns-then _ (index "T" msg >>= ts_from_millis r) _
                λ ts_event. validated-IsNormalized _ (some m) c

    binance_ticker-IsNormalized :
        (s : String) (msg : Json F)
        → IsConfigured (some m) s
        → Returns (IsNormalized "binance_us" ts (some m)) (binance_ticker r ts s msg)
    unfolding binance_ticker
    binance_ticker-IsNormalized s msg c = Returns-then _ (get_field "b" msg >>= opt_float) _ λ bid.
        Returns-then _ (get_field "a" msg >>= opt_float) _ λ ask.
          Returns-then _ (get_field "B" msg >>= opt_float) _ λ bid_size.
            Returns-then _ (get_field "A" msg >>= opt_float) _
              λ ask_size. validated-IsNormalized _ (some m) c

    parse_binance-IsNormalized :
        (s : String) (msg : Json F)
        → IsConfigured (some m) s
        → Returns (OfSome (IsNormalized "binance_us" ts (some m))) (parse_binance r ts s msg)
    unfolding parse_binance
    parse_binance-IsNormalized s msg c =
        let P : MarketEvent F → Type 0 = IsNormalized "binance_us" ts (some m) in
        Returns-then _ (get_field_or "e" null msg) _ λ kind.
          Returns-if (OfSome P) (is_text "trade" kind || has_keys ("p" ∷ "q" ∷ "t" ∷ "T" ∷ []) msg)
            _ _
            (Returns-bind P (OfSome P) (binance_trade r ts s msg) _
              (binance_trade-IsNormalized s msg c) λ e h. h)
            (Returns-if (OfSome P) (has_keys ("b" ∷ "a" ∷ []) msg) _ (ok none)
              (Returns-bind P (OfSome P) (binance_ticker r ts s msg) _
                (binance_ticker-IsNormalized s msg c) λ e h. h)
              tt)

    binance_symbol-Returns :
        (found : Option (Json F))
        → Returns
            (λ sym. (s : String) → sym ≡ some s → IsConfigured (some m) s)
            (binance_symbol r ts m found)
    unfolding binance_symbol
    binance_symbol-Returns found = go (present found)
      where
        go :
            (o : Option (Json F))
            → Returns
                (λ sym. (s : String) → sym ≡ some s → IsConfigured (some m) s)
                (elim o [ none ↦ ok none | some raw ↦ map_symbol m raw ])
        go none = λ s e. cc
        go (some raw) = map_symbol-Returns m raw

    pub normalize_binance_us-IsSound :
        (payload : Json F)
        → Returns (IsSound "binance_us" ts (some m)) (normalize_binance_us r ts m payload)
    unfolding normalize_binance_us
    normalize_binance_us-IsSound payload =
        Returns-then _ (get_field_or "data" payload payload) _ λ msg.
          Returns-then _ (get_field "s" msg) _ λ raw.
            Returns-bind _ _ (binance_symbol r ts m raw) _ (binance_symbol-Returns raw)
              λ sym h. go msg sym h
      where
        go :
            (msg : Json F) (sym : Option String)
            → ((s : String) → sym ≡ some s → IsConfigured (some m) s)
            → Returns (IsSound {F = F} "binance_us" ts (some m)) (elim sym [
              | none ↦ ok nothing
              | some s ↦ take_record msg (parse_binance r ts s msg) nothing
            ])
        go msg none h = (tt, tt)
        go msg (some s) h =
            take_record-Returns _ msg (parse_binance r ts s msg) nothing
              (parse_binance-IsNormalized s msg (h s refl)) (tt, tt)
