-- ===== src/Py/Platform.antt =====
-- The parts of Python's text and date library that go by tables or formats of their own, as an
-- interface: upper and lower case, `str(v)` of a value, the digit and space classes, ISO dates.
use tickstream_streaming_lak.Prelude.{ℕ, Bool, Option, String, List}
use tickstream_streaming_lak.Prelude.Int.{ℤ}
use tickstream_streaming_lak.Errors.{Result}
use tickstream_streaming_lak.Py.Value.{Json, str}

-- A date of `datetime.fromisoformat`: the time it shows, in microseconds since 1970-01-01, and
-- its offset from UTC, if it has one.
pub record IsoDate : Type 0 where
  pub local : ℤ
  pub offset : Option ℤ

pub record Runtime (F : Type 0) : Type 0 where
  pub upper : String → String
  pub lower : String → String
  pub render : Json F → String
  pub is_space : ℕ → Bool
  pub is_digit : ℕ → Bool
  -- `int(s)`: none is the ValueError
  pub parse_int : String → Option ℤ
  -- `datetime.fromisoformat`, on code points: none is the ValueError
  pub from_iso : List ℕ → Option IsoDate
  -- `datetime.fromtimestamp(x, tz=UTC)`: a ValueError, an OverflowError or an OSError out of range
  pub from_timestamp : F → Result ℤ

-- `str(v)`
unfoldable pub to_text : {F : Type 0} → Runtime F → Json F → String
to_text r (str s) = s
to_text r v = r.render v
