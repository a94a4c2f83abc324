-- ===== src/Py/Float.antt =====
-- Python's `float`: the operations that the code uses, as an interface. No law is assumed here,
-- since a double overflows, rounds and has a NaN that compares false with everything.
use tickstream_streaming_lak.Prelude.{ℕ, Bool, Option, String}
use tickstream_streaming_lak.Prelude.Int.{ℤ}
use tickstream_streaming_lak.Errors.{Result}

pub record Double (F : Type 0) : Type 0 where
  pub zero_f : F
  pub add : F → F → F
  pub sub : F → F → F
  pub mul : F → F → F
  pub div : F → F → F
  pub lt : F → F → Bool
  pub le : F → F → Bool
  pub eq : F → F → Bool
  -- the conversion of a count, as in `a.spread_sum / a.tickers`
  pub of_count : ℕ → F
  -- `float(n)`: an OverflowError if `n` has no double
  pub of_int : ℤ → Result F
  -- `x ** n`: an OverflowError if the power has no double
  pub pow : F → ℕ → Result F
  -- `float(s)`: none is the ValueError
  pub parse : String → Option F
  -- `int(x)`: a ValueError at NaN, an OverflowError at an infinity
  pub int_of : F → Result ℤ
