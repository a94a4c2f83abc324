-- ===== src/Schema.antt =====
-- src/tickstream/schema.py: `EventType`, `Side`, the model `MarketEvent` with its validator.
pub mod Contract
use tickstream_streaming_lak.Prelude.{
  String, Bool, true, false, Option, none, some, List, [], ◌∷◌, if◌then◌else◌,
}
use tickstream_streaming_lak.Errors.{
  SizeField, Violation, price_not_positive, negative, crossed_book, Result, ok, err,
  validation_error,
}
use tickstream_streaming_lak.Py.{Double}
use tickstream_streaming_lak.Time.{Datetime}

pub data EventType : Type 0 where
  trade ticker : EventType

pub data Side : Type 0 where
  buy sell : Side

pub record MarketEvent (F : Type 0) : Type 0 where
  pub exchange : String
  pub symbol : String
  pub event_type : EventType
  pub price : Option F
  pub size : Option F
  pub side : Option Side
  pub trade_id : Option String
  pub best_bid : Option F
  pub best_ask : Option F
  pub best_bid_size : Option F
  pub best_ask_size : Option F
  pub ts_event : Datetime
  pub ts_ingest : Datetime

-- `ev.event_type == EventType.TICKER.value`
abbrev pub is_ticker : EventType → Bool
is_ticker EventType.trade = false
is_ticker EventType.ticker = true

abbrev pub is_trade : EventType → Bool
is_trade EventType.trade = true
is_trade EventType.ticker = false

module _ {F : Type 0} ⦃d : Double F⦄ where
  -- The five fields of the validator's loop, in its order.
  abbrev pub sizes : MarketEvent F → List (SizeField × Option F)
  sizes e =
      (SizeField.size, e.size)
      ∷ (SizeField.best_bid, e.best_bid)
      ∷ (SizeField.best_ask, e.best_ask)
      ∷ (SizeField.best_bid_size, e.best_bid_size)
      ∷ (SizeField.best_ask_size, e.best_ask_size)
      ∷ []

  -- `val is not None and val < 0`
  abbrev pub is_negative : Option F → Bool
  is_negative none = false
  is_negative (some x) = d.lt x d.zero_f

  -- `self.price is not None and self.price <= 0`
  abbrev pub is_not_positive : Option F → Bool
  is_not_positive none = false
  is_not_positive (some x) = d.le x d.zero_f

  -- The last test: both sides present, and the ask below the bid.
  abbrev pub is_crossed : Option F → Option F → Bool
  is_crossed (some bid) (some ask) = d.lt ask bid
  is_crossed bid ask = false

  unfoldable pub first_negative : List (SizeField × Option F) → Option SizeField
  first_negative [] = none
  first_negative ((name, val) ∷ rest) =
      let later = first_negative rest in if is_negative val then some name else later

  -- `_basic_contract`: what it raises, if anything
  unfoldable pub basic_contract : MarketEvent F → Option Violation
  unfolding first_negative
  basic_contract e =
      if is_not_positive e.price
      then some price_not_positive
      else (elim (first_negative (sizes e)) [
        | some name ↦ some (negative name)
        | none ↦ if is_crossed e.best_bid e.best_ask then some crossed_book else none
      ])

  -- The construction `MarketEvent(…)`.
  unfoldable pub validated : MarketEvent F → Result (MarketEvent F)
  unfolding basic_contract
  validated e = elim (basic_contract e) [ none ↦ ok e | some v ↦ err (validation_error v) ]

  -- The property `spread`.
  unfoldable pub spread : MarketEvent F → Option F
  spread e = elim e.best_bid [
    | none ↦ none
    | some bid ↦ elim e.best_ask [ none ↦ none | some ask ↦ some (d.sub ask bid) ]
  ]
