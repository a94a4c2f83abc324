-- ===== src/Quality/Contract.antt =====
-- src/tickstream/quality/contract.py: the data contract as a Pandera schema, the frame that it is
-- put to, and the split of the frame by the failures that Pandera reports.
pub mod Rows
mod Verdicts
pub mod Laws
pub mod Stricter
use Prim.Native.String.{◌++◌ as ◌<>◌}
use tickstream_streaming_lak.Prelude.{
  ℕ, suc, String, Bool, true, false, not, ◌||◌, ◌&&◌, Option, none, some, List, [], ◌∷◌, ◌++◌, map,
  keep, length, if◌then◌else◌, nat_beq, leb,
}
use tickstream_streaming_lak.Prelude.Eq.{◌==◌, string_eq, nat_eq}
use tickstream_streaming_lak.Prelude.Dict.{Dict, get, contains}
use tickstream_streaming_lak.Prelude.Group.{distinct}
use tickstream_streaming_lak.Prelude.Sort.{sort}
use tickstream_streaming_lak.Prelude.Sets.{sorted_set}
use tickstream_streaming_lak.Prelude.Text.{str_leb}
use tickstream_streaming_lak.Errors.{Result, ok, err, key_error}
use tickstream_streaming_lak.Config.{Settings}
use tickstream_streaming_lak.Py.{Double}
use tickstream_streaming_lak.Schema.{MarketEvent, EventType, trade, ticker}
use tickstream_streaming_lak.Time.{Datetime}

-- A row of the frame; none is a null (None, NaN or NaT). The columns `side` and `trade_id`, which
-- the contract does not name, are left out.
pub record FrameRow (F : Type 0) : Type 0 where
  pub exchange : Option String
  pub symbol : Option String
  pub event_type : Option String
  pub price : Option F
  pub size : Option F
  pub best_bid : Option F
  pub best_ask : Option F
  pub best_bid_size : Option F
  pub best_ask_size : Option F
  pub ts_event : Option Datetime
  pub ts_ingest : Option Datetime

pub data ColumnName : Type 0 where
  exchange symbol event_type price size : ColumnName
  best_bid best_ask best_bid_size best_ask_size ts_event ts_ingest : ColumnName

pub data Dtype : Type 0 where
  text float64 datetime_ns datetime_us object : Dtype

abbrev pub same_dtype : Dtype → Dtype → Bool
same_dtype text text = true
same_dtype float64 float64 = true
same_dtype datetime_ns datetime_ns = true
same_dtype datetime_us datetime_us = true
same_dtype object object = true
same_dtype a b = false

-- The rows behind `reset_index`, and the type of each column, none for one that is not there.
pub record Frame (F : Type 0) : Type 0 where
  pub dtypes : ColumnName → Option Dtype
  pub rows : List (FrameRow F)

-- `Check.isin`, `Check.gt(0)`, `Check.ge(0)`
pub data Check : Type 0 where
  isin : List String → Check
  gt_zero ge_zero : Check

-- One `Column(…)`.
pub record Column : Type 0 where
  pub name : ColumnName
  pub dtype : Dtype
  pub check : Option Check
  pub nullable : Bool
  pub coerce : Bool

-- The columns, and the checks of the whole frame with their names. These compute row by row.
pub record DataFrameSchema (F : Type 0) : Type 0 where
  pub columns : List Column
  pub checks : List (String × (FrameRow F → Bool))

abbrev pub notna : {A : Type 0} → Option A → Bool
notna none = false
notna (some x) = true

-- `s == "…"` of a cell; a null is equal to nothing
abbrev pub is_cell : String → Option String → Bool
is_cell s none = false
is_cell s (some t) = t == s

abbrev pub text_column : ColumnName → Option Check → Column
text_column name check = record {
  name = name;
  dtype = text;
  check = check;
  nullable = false;
  coerce = false;
}

abbrev pub float_column : ColumnName → Check → Column
float_column name check = record {
  name = name;
  dtype = float64;
  check = some check;
  nullable = true;
  coerce = false;
}

abbrev pub time_column : ColumnName → Column
time_column name = record {
  name = name;
  dtype = datetime_ns;
  check = none;
  nullable = false;
  coerce = true;
}

-- The types of a frame of events.
abbrev pub event_dtypes : Dtype → ColumnName → Option Dtype
event_dtypes time exchange = some text
event_dtypes time symbol = some text
event_dtypes time event_type = some text
event_dtypes time ts_event = some time
event_dtypes time ts_ingest = some time
event_dtypes time name = some float64

module _ {F : Type 0} ⦃d : Double F⦄ where
  -- `a >= b` of two cells; false at a null
  abbrev pub ge_cells : Option F → Option F → Bool
  ge_cells (some a) (some b) = d.le b a
  ge_cells a b = false

  unfoldable pub spread_non_negative : FrameRow F → Bool
  spread_non_negative r =
      let both = notna r.best_bid && notna r.best_ask in not both || ge_cells r.best_ask r.best_bid

  unfoldable pub trade_has_price_and_size : FrameRow F → Bool
  trade_has_price_and_size r =
      let is_trade = is_cell "trade" r.event_type in not is_trade || (notna r.price && notna r.size)

  unfoldable pub build_contract : List String → DataFrameSchema F
  build_contract symbols = record {
    columns =
        text_column exchange none
        ∷ text_column symbol (some (isin symbols))
        ∷ text_column event_type (some (isin ("trade" ∷ "ticker" ∷ [])))
        ∷ float_column price gt_zero
        ∷ float_column size ge_zero
        ∷ float_column best_bid ge_zero
        ∷ float_column best_ask ge_zero
        ∷ float_column best_bid_size ge_zero
        ∷ float_column best_ask_size ge_zero
        ∷ time_column ts_event
        ∷ time_column ts_ingest
        ∷ [];
    checks =
        ("spread_non_negative", spread_non_negative)
        ∷ ("trade_has_price_and_size", trade_has_price_and_size)
        ∷ [];
  }

  -- `pd.to_numeric(…).astype("float64")` of a field of an event: None and a NaN are null.
  abbrev pub to_float64 : Option F → Option F
  to_float64 none = none
  to_float64 (some x) = if d.eq x x then some x else none

  abbrev pub row_of_event : MarketEvent F → FrameRow F
  row_of_event e = record {
    exchange = some e.exchange;
    symbol = some e.symbol;
    event_type = some (elim e.event_type [ trade ↦ "trade" | ticker ↦ "ticker" ]);
    price = to_float64 e.price;
    size = to_float64 e.size;
    best_bid = to_float64 e.best_bid;
    best_ask = to_float64 e.best_ask;
    best_bid_size = to_float64 e.best_bid_size;
    best_ask_size = to_float64 e.best_ask_size;
    ts_event = some e.ts_event;
    ts_ingest = some e.ts_ingest;
  }

  -- No event gives a frame with no column, and `df["ts_event"]` raises. `time` is the resolution
  -- that `pd.to_datetime` chooses.
  unfoldable pub events_to_frame : Dtype → List (MarketEvent F) → Result (Frame F)
  events_to_frame time [] = err key_error
  events_to_frame time (e ∷ es) =
      ok (record { dtypes = event_dtypes time; rows = map row_of_event (e ∷ es) })

-- A row of `failure_cases`: the position of the row, none for a failure of the schema, and the
-- name of the check.
pub record FailureCase : Type 0 where
  pub index : Option ℕ
  pub check : String

-- Pandera: `schema.validate(df, lazy=True)`, with the failure cases of the SchemaErrors, or none if
-- nothing is raised; and the names that it gives to the checks of columns.
pub record Pandera (F : Type 0) : Type 0 where
  pub validate : DataFrameSchema F → Frame F → Option (List FailureCase)
  pub check_name : Check → String

pub record ContractResult (F : Type 0) : Type 0 where
  pub valid : List (FrameRow F)
  pub quarantined : List (FrameRow F × String)
  pub n_valid : ℕ
  pub n_quarantined : ℕ
  pub reasons : List String

-- The property `ok`.
unfoldable pub is_ok : {F : Type 0} → ContractResult F → Bool
is_ok r = nat_beq r.n_quarantined 0

-- `failure_cases.dropna(subset=["index"])`
unfoldable pub indexed : List FailureCase → List (ℕ × String)
indexed [] = []
indexed (c ∷ cases) = elim c.index [ none ↦ indexed cases | some i ↦ (i, c.check) ∷ indexed cases ]

-- The checks of one group of `failures.groupby("index")["check"]`.
abbrev pub checks_at : ℕ → List (ℕ × String) → List String
checks_at i failures = map (λ f. f.1) (keep (λ f. f.0 == i) failures)

-- `", ".join(…)`
unfoldable pub join : List String → String
join [] = ""
join (s ∷ []) = s
join (s ∷ t ∷ rest) = s <> ", " <> join (t ∷ rest)

abbrev pub reason_of_checks : List String → String
reason_of_checks checks = join (sorted_set str_leb checks)

unfoldable pub reason_by_index : List (ℕ × String) → Dict ℕ String
unfolding join
reason_by_index failures =
    map (λ i. (i, reason_of_checks (checks_at i failures)))
      (sort leb (distinct (map (λ f. f.0) failures)))

module _ {F : Type 0} where
  -- `df.loc[df.index.isin(bad_index)]` with its reasons, from the position `n` on
  unfoldable pub bad_rows : Dict ℕ String → ℕ → List (FrameRow F) → List (FrameRow F × String)
  unfolding get
  bad_rows reasons n [] = []
  bad_rows reasons n (r ∷ rs) =
      let rest = bad_rows reasons (suc n) rs in
      elim (get n reasons) [ none ↦ rest | some reason ↦ (r, reason) ∷ rest ]

  -- `df.loc[~df.index.isin(bad_index)]`
  unfoldable pub good_rows : Dict ℕ String → ℕ → List (FrameRow F) → List (FrameRow F)
  unfolding contains
  good_rows reasons n [] = []
  good_rows reasons n (r ∷ rs) =
      let rest = good_rows reasons (suc n) rs in if contains n reasons then rest else r ∷ rest

  -- The handler of the SchemaErrors.
  unfoldable pub split_by : List FailureCase → List (FrameRow F) → ContractResult F
  unfolding indexed reason_by_index bad_rows good_rows
  split_by cases rows =
      let failures = indexed cases in
      let reasons = reason_by_index failures in
      let valid = good_rows reasons 0 rows in
      let quarantined = bad_rows reasons 0 rows in
      record {
        valid = valid;
        quarantined = quarantined;
        n_valid = length valid;
        n_quarantined = length quarantined;
        reasons = sorted_set str_leb (map (λ f. f.1) failures);
      }

module _ {F : Type 0} ⦃d : Double F⦄ where
  unfoldable pub apply_contract : Pandera F → Settings → Frame F → ContractResult F
  unfolding build_contract split_by
  apply_contract p settings df =
      let schema = build_contract settings.source.symbols in
      elim (p.validate schema df) [
        | some cases ↦ split_by cases df.rows
        | none ↦ record {
          valid = df.rows;
          quarantined = [];
          n_valid = length df.rows;
          n_quarantined = 0;
          reasons = [];
        }
      ]
