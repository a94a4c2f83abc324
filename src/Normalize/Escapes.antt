-- ===== src/Normalize/Escapes.antt =====
-- Exceptions that leave `normalize_coinbase` (producer/normalize.py): the handler of a record
-- catches NORMALIZE_ERRORS, and `parse_ts` and `.get` raise AttributeError.
use tickstream_streaming_lak.Prelude.{
  ◌++◌, All, ◌≡◌, sym, ◌∙◌, refl, Bool, true, false, String, Option, List, [], ◌∷◌,
}
use tickstream_streaming_lak.Prelude.Eq.{string_eq}
use tickstream_streaming_lak.Errors.{
  ok, err, ◌>>=◌, bind-ok, bind-cong, bind_assoc, attribute_error,
}
use tickstream_streaming_lak.Py.{
  Double, Json, str, arr, obj, Items, end, item, Fields, close, field, Runtime, elements, get_field,
  get_field_or, index, iterate, is_text, to_float,
}
use tickstream_streaming_lak.Time.{Datetime}
use tickstream_streaming_lak.Normalize.Timestamp.{parse_ts}
use tickstream_streaming_lak.Normalize.Record.{
  SymbolMap, Batch, nothing, resolve_symbol, unless_dropped, take_record, take_records,
}
use tickstream_streaming_lak.Normalize.Isolation.{IsCaught, take_records_isolates}
use tickstream_streaming_lak.Normalize.Coinbase.{
  trade_id_of, trade_event, parse_trade, trade_groups, normalize_coinbase,
}

-- A `market_trades` envelope with one group of updates.
abbrev pub trades_message : {F : Type 0} → Items F → Json F
trades_message trades = obj (
    field "channel" (str "market_trades") (
      field "events"
        (arr (item (obj (field "type" (str "update") (field "trades" (arr trades) close))) end))
        close))

-- A value that `parse_ts` cannot strip.
abbrev pub is_not_text : {F : Type 0} → Json F → Bool
is_not_text (str s) = false
is_not_text v = true

module _ {F : Type 0} ⦃d : Double F⦄ (r : Runtime F) (ts : Datetime) (m : Option SymbolMap) where
  parse_ts-not_text : (v : Json F) → is_not_text v ≡ true → parse_ts r v ≡ err attribute_error
  unfolding parse_ts
  parse_ts-not_text (str s) h = cc
  parse_ts-not_text v h = refl

  pub normalize_coinbase-trades :
      (trades : Items F)
      → normalize_coinbase r ts m (trades_message trades)
        ≡ take_records (parse_trade r ts m) (elements trades) nothing
  unfolding normalize_coinbase trade_groups get_field_or is_text iterate
  normalize_coinbase-trades trades = bind-ok _

  trade_id_of-obj : (fs : Fields F) → (o : Option String) × (trade_id_of r ts (obj fs) ≡ ok o)
  unfolding trade_id_of get_field
  trade_id_of-obj fs = (_, refl)

  parse_trade-bad_time :
      (fs : Fields F) (raw v : Json F) (sym : String) (price size : F)
      → index "product_id" (obj fs) ≡ ok raw
      → resolve_symbol raw m ≡ ok (str sym)
      → (index "price" (obj fs) >>= to_float) ≡ ok price
      → (index "size" (obj fs) >>= to_float) ≡ ok size
      → index "time" (obj fs) ≡ ok v
      → is_not_text v ≡ true
      → parse_trade r ts m (obj fs) ≡ err attribute_error
  unfolding parse_trade unless_dropped trade_event get_field_or get_field
  parse_trade-bad_time fs raw v sym price size p s q z t n =
      rw (p, s, q, z, (trade_id_of-obj fs).1, t, parse_ts-not_text v n)

  take_records-append :
      (recs recs' : List (Json F)) (batch : Batch F)
      → take_records (parse_trade r ts m) (recs ++ recs') batch
        ≡ (take_records (parse_trade r ts m) recs batch >>= take_records (parse_trade r ts m) recs')
  unfolding take_records
  take_records-append [] recs' batch = refl
  take_records-append (rec ∷ recs) recs' batch =
      bind-cong (take_record rec (parse_trade r ts m rec) batch) _ _
        (λ next. take_records-append recs recs' next)
      ∙ sym (bind_assoc (take_record rec (parse_trade r ts m rec) batch) _ _)

  -- In a `market_trades` message with one group, of type `update`, a trade of a configured symbol
  -- with a price and a size that are numbers, and with a `time` that is no text (null, a number, a
  -- list …), ends `normalize_coinbase` with an AttributeError, if the trades before it raise nothing but NORMALIZE_ERRORS: the exception is
  -- not among NORMALIZE_ERRORS, so neither this trade is rejected nor are the events of its
  -- siblings returned.
  pub normalize_coinbase-bad_time :
      (trades : Items F) (before after : List (Json F)) (fs : Fields F) (raw v : Json F)
      (sym : String) (price size : F)
      → elements trades ≡ before ++ (obj fs ∷ after)
      → All (λ rec. IsCaught (parse_trade r ts m rec)) before
      → index "product_id" (obj fs) ≡ ok raw
      → resolve_symbol raw m ≡ ok (str sym)
      → (index "price" (obj fs) >>= to_float) ≡ ok price
      → (index "size" (obj fs) >>= to_float) ≡ ok size
      → index "time" (obj fs) ≡ ok v
      → is_not_text v ≡ true
      → normalize_coinbase r ts m (trades_message trades) ≡ err attribute_error
  unfolding take_records take_record
  normalize_coinbase-bad_time trades before after fs raw v sym price size e c p s q z t n = rw (
    normalize_coinbase-trades trades,
    e,
    take_records-append before (obj fs ∷ after) nothing,
    take_records_isolates (parse_trade r ts m) before nothing c,
    parse_trade-bad_time fs raw v sym price size p s q z t n,
  )
