-- ===== src/Normalize/Contract.antt =====
-- The contract boundary: what `normalize_safe` of producer/normalize.py returns.
use tickstream_streaming_lak.Prelude.{◌≡◌, String, some, inl, inr, Bool-cases}
use tickstream_streaming_lak.Prelude.Eq.{string_eq, ◌==◌, eq_of_==}
use tickstream_streaming_lak.Errors.{ok, Returns}
use tickstream_streaming_lak.Py.{Double, Json, Runtime}
use tickstream_streaming_lak.Time.{Datetime}
use tickstream_streaming_lak.Normalize.Record.{SymbolMap, Batch}
use tickstream_streaming_lak.Normalize.Dispatch.{normalize_safe}
use tickstream_streaming_lak.Normalize.Accepted.{IsSound}
use tickstream_streaming_lak.Normalize.Provenance.{
  normalize_coinbase-IsSound, normalize_binance_us-IsSound,
}

module _ {F : Type 0} ⦃d : Double F⦄ (r : Runtime F) (ts : Datetime) where
  normalize_safe-Returns :
      (exchange : String) (m : SymbolMap) (payload : Json F)
      → Returns (IsSound exchange ts (some m)) (normalize_safe r ts exchange (some m) payload)
  unfolding normalize_safe
  normalize_safe-Returns exchange m payload = elim (Bool-cases (exchange == "coinbase")) [
    | inl c ↦
        rw (c, eq_of_== exchange "coinbase" c) (normalize_coinbase-IsSound r ts (some m) payload)
    | inr n ↦ rw n (elim (Bool-cases (exchange == "binance_us")) [
      | inl c ↦
          rw (c, eq_of_== exchange "binance_us" c) (normalize_binance_us-IsSound r ts m payload)
      | inr n' ↦ rw n' tt
    ])
  ]

  -- With a symbol map, every event that `normalize_safe` returns meets the contract of
  -- `MarketEvent` (on the float comparisons), carries the exchange and the ingest time that were
  -- given, and has a symbol that is a value of the map; every reject has one of NORMALIZE_ERRORS
  -- for a reason.
  pub normalize_safe-IsSound :
      (exchange : String) (m : SymbolMap) (payload : Json F) (batch : Batch F)
      → normalize_safe r ts exchange (some m) payload ≡ ok batch
      → IsSound exchange ts (some m) batch
  normalize_safe-IsSound exchange m payload batch h =
      rw h at (normalize_safe-Returns exchange m payload)
