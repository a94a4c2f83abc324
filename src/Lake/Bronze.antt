-- ===== src/Lake/Bronze.antt =====
-- src/tickstream/lake/bronze.py: `write_bronze`. The table is the list of its rows; `decode` is
-- `MarketEvent.from_json_bytes`.
pub mod Laws
use tickstream_streaming_lak.Prelude.{ℕ, ◌+◌, Bool, false, Option, none, some, List, [], leb}
use tickstream_streaming_lak.Errors.{Result, ok, ◌>>=◌}
use tickstream_streaming_lak.Schema.{MarketEvent}
use tickstream_streaming_lak.Lake.Poll.{Poll, drain, write_rows}

-- `max_messages is not None and len(rows) >= max_messages`
unfoldable pub has_enough : Option ℕ → ℕ → Bool
has_enough none n = false
has_enough (some m) n = leb m n

module _ {F : Type 0} (decode : List ℕ → Result (MarketEvent F)) where
  -- The table behind the call, and the number of rows returned. `begun` is the time at the start.
  unfoldable pub write_bronze :
      ℕ
      → ℕ
      → ℕ
      → Option ℕ
      → Bool
      → List Poll
      → List (MarketEvent F)
      → Result (List (MarketEvent F) × ℕ)
  write_bronze begun timeout idle max_messages clear polls stored = do
    rows ← drain decode (has_enough max_messages) (begun + timeout) idle polls (begun + idle) []
    ok (write_rows clear stored rows)
