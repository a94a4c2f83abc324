-- ===== src/Quality/Landing.antt =====
-- `land_quarantine` of quality/quarantine.py: the poll loop, and the rows that are landed. The
-- consumer's answers and the clock are arguments; times are in ticks of the monotonic clock.
use tickstream_streaming_lak.Prelude.{
  ℕ, ◌+◌, ◌≡◌, refl, Bool, false, List, [], ◌++◌, length, if◌then◌else◌,
}
use tickstream_streaming_lak.Errors.{Result, ok, ◌>>=◌, Returns, Returns-bind}
use tickstream_streaming_lak.Py.{Json, null, get_field_or, index, Runtime}
use tickstream_streaming_lak.Time.{Datetime}
use tickstream_streaming_lak.Normalize.Timestamp.{parse_ts}
use tickstream_streaming_lak.Lake.Poll.{Poll, drain, IsDrained}
use tickstream_streaming_lak.Lake.Poll.Laws.{drain-IsDrained}

pub record Row (F : Type 0) : Type 0 where
  pub exchange : Json F
  pub seq : Json F
  pub reason : Json F
  pub payload : List ℕ
  pub ts_quarantined : Datetime

module _ {F : Type 0} (r : Runtime F) (loads : List ℕ → Result (Json F))
    (dumps : Json F → List ℕ) where
  unfoldable pub row_of : List ℕ → Result (Row F)
  row_of value = do
    rec ← loads value
    exchange ← get_field_or "exchange" null rec
    seq ← get_field_or "seq" null rec
    reason ← get_field_or "reason" null rec
    payload ← get_field_or "payload" null rec
    time ← index "ts_quarantined" rec
    ts ← parse_ts r time
    ok record {
      exchange = exchange;
      seq = seq;
      reason = reason;
      payload = dumps payload;
      ts_quarantined = ts;
    }

  -- The table behind the call, and the number of rows returned. `begun` is the time at the start.
  unfoldable pub land_quarantine :
      ℕ → ℕ → ℕ → Bool → List Poll → List (Row F) → Result (List (Row F) × ℕ)
  land_quarantine begun timeout idle clear polls stored = do
    rows ← drain row_of (λ n. false) (begun + timeout) idle polls (begun + idle) []
    ok ((if clear then [] else stored) ++ rows, length rows)

  abbrev pub HasLanded : Bool → List Poll → List (Row F) → List (Row F) × ℕ → Type 0
  HasLanded clear polls stored (table, n) =
      (rows : List (Row F)) × IsDrained row_of polls [] rows
      × (table ≡ (if clear then [] else stored) ++ rows)
      × (n ≡ length rows)

  land_quarantine-Returns :
      (begun timeout idle : ℕ) (clear : Bool) (polls : List Poll) (stored : List (Row F))
      → Returns
          (HasLanded clear polls stored)
          (land_quarantine begun timeout idle clear polls stored)
  unfolding land_quarantine
  land_quarantine-Returns begun timeout idle clear polls stored =
      Returns-bind (IsDrained row_of polls []) _ _ _
        (drain-IsDrained row_of (λ n. false) (begun + timeout) idle polls (begun + idle) [])
        λ rows v. (rows, v, refl, refl)

  -- A call that returns has stored, behind what it kept, one row for every message of the polls
  -- that it took, in their order, and returns their number.
  pub land_quarantine_lands :
      (begun timeout idle : ℕ) (clear : Bool) (polls : List Poll) (stored table : List (Row F))
      (n : ℕ)
      → land_quarantine begun timeout idle clear polls stored ≡ ok (table, n)
      → HasLanded clear polls stored (table, n)
  land_quarantine_lands begun timeout idle clear polls stored table n h =
      rw h at (land_quarantine-Returns begun timeout idle clear polls stored)
