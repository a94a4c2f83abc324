-- ===== src/Time.antt =====
-- Python's aware UTC `datetime`, as microseconds since 1970-01-01 (negative before).
use tickstream_streaming_lak.Prelude.{ℕ, ◌*◌, ◌-◌, Bool, ◌&&◌}
use tickstream_streaming_lak.Prelude.Int.{ℤ, pos, negsuc, ◌*ℤ◌, leb_ℤ, trunc_div}

abbrev pub Datetime : Type 0
Datetime = ℤ

abbrev pub us_per_second : ℕ
us_per_second = 1_000_000

-- `datetime.min` and `datetime.max`
abbrev pub datetime_min : Datetime
datetime_min = negsuc (62_135_596_800 * 1_000_000 - 1)

abbrev pub datetime_max : Datetime
datetime_max = pos (253_402_300_800 * 1_000_000 - 1)

unfoldable pub in_range : Datetime → Bool
in_range t = leb_ℤ datetime_min t && leb_ℤ t datetime_max

-- `int(t.timestamp())`: towards zero
unfoldable pub epoch_seconds : Datetime → ℤ
epoch_seconds t = trunc_div t us_per_second

-- `datetime.fromtimestamp(s, tz=UTC)` of whole seconds
unfoldable pub from_seconds : ℤ → Datetime
from_seconds s = s *ℤ pos us_per_second
