-- ===== src/Schema/Contract.antt =====
-- What the validator of `MarketEvent` (schema.py) enforces, in terms of the float comparisons.
use tickstream_streaming_lak.Prelude.{◌≡◌, ◌↔◌, false, none, arith}
use tickstream_streaming_lak.Errors.{ok}
use tickstream_streaming_lak.Py.{Double}
use tickstream_streaming_lak.Schema.{
  MarketEvent, is_negative, is_not_positive, is_crossed, basic_contract, validated,
}

module _ {F : Type 0} ⦃d : Double F⦄ where
  -- The contract, field by field, with no order among the tests.
  pub record MeetsContract (e : MarketEvent F) : Type 0 where
    pub price_ok : is_not_positive e.price ≡ false
    pub size_ok : is_negative e.size ≡ false
    pub bid_ok : is_negative e.best_bid ≡ false
    pub ask_ok : is_negative e.best_ask ≡ false
    pub bid_size_ok : is_negative e.best_bid_size ≡ false
    pub ask_size_ok : is_negative e.best_ask_size ≡ false
    pub book_ok : is_crossed e.best_bid e.best_ask ≡ false

  basic_contract_sound : (e : MarketEvent F) → basic_contract e ≡ none → MeetsContract e
  unfolding basic_contract
  basic_contract_sound e h = ground arith

  basic_contract_complete : (e : MarketEvent F) → MeetsContract e → basic_contract e ≡ none
  unfolding basic_contract
  basic_contract_complete e m = ground arith

  -- An event is accepted exactly when it meets every clause of the contract.
  pub basic_contract_iff : (e : MarketEvent F) → (basic_contract e ≡ none) ↔ MeetsContract e
  basic_contract_iff e = (basic_contract_sound e, basic_contract_complete e)

  pub validated-MeetsContract :
      (e : MarketEvent F) {e' : MarketEvent F} → validated e ≡ ok e' → (e' ≡ e) × MeetsContract e
  unfolding validated
  validated-MeetsContract e h = (ground arith, basic_contract_sound e (ground arith))
