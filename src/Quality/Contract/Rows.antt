-- ===== src/Quality/Contract/Rows.antt =====
-- What the contract of quality/contract.py asks of one row, and what Pandera documents of the
-- checks of a schema: nulls are passed over but in a column that is not nullable, a column's check
-- is made of each value, and lazy validation reports every row that fails a check.
use Prim.Native.Nat.{zero, suc}
use tickstream_streaming_lak.Prelude.{
  ℕ, String, ◌≡◌, refl, Bool, true, false, not, ◌||◌, ◌&&◌, Option, none, some, List, [], ◌∷◌, ◌++◌,
  if◌then◌else◌, arith,
}
use tickstream_streaming_lak.Prelude.Eq.{string_eq, nat_eq, pair_eq}
use tickstream_streaming_lak.Prelude.Group.{elem}
use tickstream_streaming_lak.Py.{Double}
use tickstream_streaming_lak.Time.{Datetime}
use tickstream_streaming_lak.Quality.Contract.{
  FrameRow, ColumnName, exchange, symbol, event_type, price, size, best_bid, best_ask,
  best_bid_size, best_ask_size, ts_event, ts_ingest, Frame, Check, isin, gt_zero, ge_zero, Column,
  DataFrameSchema, build_contract, FailureCase, indexed, Pandera, same_dtype, spread_non_negative,
  trade_has_price_and_size, notna, is_cell, text_column, float_column, time_column,
}

-- A cell of any column.
pub data Cell (F : Type 0) : Type 0 where
  null : Cell F
  text : String → Cell F
  number : F → Cell F
  time : Datetime → Cell F

module _ {F : Type 0} where
  abbrev pub text_cell : Option String → Cell F
  text_cell none = null
  text_cell (some s) = text s

  abbrev pub number_cell : Option F → Cell F
  number_cell none = null
  number_cell (some x) = number x

  abbrev pub time_cell : Option Datetime → Cell F
  time_cell none = null
  time_cell (some t) = time t

  abbrev pub cell : FrameRow F → ColumnName → Cell F
  cell r exchange = text_cell r.exchange
  cell r symbol = text_cell r.symbol
  cell r event_type = text_cell r.event_type
  cell r price = number_cell r.price
  cell r size = number_cell r.size
  cell r best_bid = number_cell r.best_bid
  cell r best_ask = number_cell r.best_ask
  cell r best_bid_size = number_cell r.best_bid_size
  cell r best_ask_size = number_cell r.best_ask_size
  cell r ts_event = time_cell r.ts_event
  cell r ts_ingest = time_cell r.ts_ingest

-- The column is there, with its type or with one that is coerced to it.
abbrev pub has_column : {F : Type 0} → Frame F → Column → Bool
has_column df c = elim (df.dtypes c.name) [
  | none ↦ false
  | some t ↦ c.coerce || same_dtype t c.dtype
]

abbrev pub has_columns : {F : Type 0} → Frame F → List Column → Bool
has_columns df [] = true
has_columns df (c ∷ cs) = has_column df c && has_columns df cs

abbrev pub conforms : {F : Type 0} → DataFrameSchema F → Frame F → Bool
conforms schema df = has_columns df schema.columns

abbrev pub failed_unless : Bool → String → List String
failed_unless b name = if b then [] else name ∷ []

abbrev pub reported : Option (List FailureCase) → List (ℕ × String)
reported none = []
reported (some cases) = indexed cases

abbrev pub some_of : List String → Option String → Bool
some_of values none = false
some_of values (some s) = elem s values

abbrev pub is_empty : List String → Bool
is_empty [] = true
is_empty (x ∷ xs) = false

is_empty-append : (xs ys : List String) → is_empty (xs ++ ys) ≡ (is_empty xs && is_empty ys)
is_empty-append [] ys = refl
is_empty-append (x ∷ xs) ys = refl

is_empty-failed : (b : Bool) (name : String) → is_empty (failed_unless b name) ≡ b
is_empty-failed true name = refl
is_empty-failed false name = refl

and_assoc : (a b c : Bool) → ((a && b) && c) ≡ (a && (b && c))
and_assoc true b c = refl
and_assoc false b c = refl

and_true : (a : Bool) → (a && true) ≡ a
and_true true = refl
and_true false = refl

module _ {F : Type 0} ⦃d : Double F⦄ where
  abbrev pub holds : Check → Cell F → Bool
  holds (isin values) (text s) = elem s values
  holds gt_zero (number x) = d.lt d.zero_f x
  holds ge_zero (number x) = d.le d.zero_f x
  holds check value = false

  -- The checks of one column that a cell fails.
  abbrev pub cell_failures : (Check → String) → Column → Cell F → List String
  cell_failures name c null = failed_unless c.nullable "not_nullable"
  cell_failures name c value = elim c.check [
    | none ↦ []
    | some k ↦ failed_unless (holds k value) (name k)
  ]

  unfoldable pub column_failures : (Check → String) → List Column → FrameRow F → List String
  column_failures name [] r = []
  column_failures name (c ∷ cs) r =
      cell_failures name c (cell r c.name) ++ column_failures name cs r

  unfoldable pub check_failures : List (String × (FrameRow F → Bool)) → FrameRow F → List String
  check_failures [] r = []
  check_failures ((name, test) ∷ rest) r = failed_unless (test r) name ++ check_failures rest r

  -- The names of all the checks that a row fails.
  unfoldable pub row_failures : (Check → String) → DataFrameSchema F → FrameRow F → List String
  unfolding column_failures check_failures
  row_failures name schema r =
      column_failures name schema.columns r ++ check_failures schema.checks r

  abbrev pub row_failures_at :
      (Check → String) → DataFrameSchema F → ℕ → List (FrameRow F) → List String
  row_failures_at name schema i [] = []
  row_failures_at name schema zero (r ∷ rs) = row_failures name schema r
  row_failures_at name schema (suc i) (r ∷ rs) = row_failures_at name schema i rs

  -- Of a frame that has the columns of the contract, lazy validation reports a row with a check
  -- exactly when the row fails the check.
  pub record IsLazy (p : Pandera F) : Type 0 where
    pub reports :
        (symbols : List String) (df : Frame F)
        → conforms (build_contract symbols) df ≡ true
        → (i : ℕ) (check : String)
        → elem (i, check) (reported (p.validate (build_contract symbols) df))
          ≡ elem check (row_failures_at p.check_name (build_contract symbols) i df.rows)

  abbrev pub none_or : (F → Bool) → Option F → Bool
  none_or test none = true
  none_or test (some x) = test x

  abbrev pub is_positive : F → Bool
  is_positive x = d.lt d.zero_f x

  abbrev pub is_not_negative : F → Bool
  is_not_negative x = d.le d.zero_f x

  abbrev pub ordered : Option F → Option F → Bool
  ordered (some bid) (some ask) = d.le bid ask
  ordered bid ask = true

  -- The contract: a positive price, sizes and book sides that are not negative, an ordered book,
  -- non-null keys and times, a configured symbol, a trade or a tick, and for a trade a price and a
  -- size.
  unfoldable pub meets_contract : List String → FrameRow F → Bool
  meets_contract symbols r =
      notna r.exchange
      && some_of symbols r.symbol
      && some_of ("trade" ∷ "ticker" ∷ []) r.event_type
      && none_or is_positive r.price
      && none_or is_not_negative r.size
      && none_or is_not_negative r.best_bid
      && none_or is_not_negative r.best_ask
      && none_or is_not_negative r.best_bid_size
      && none_or is_not_negative r.best_ask_size
      && notna r.ts_event
      && notna r.ts_ingest
      && ordered r.best_bid r.best_ask
      && (not (is_cell "trade" r.event_type) || notna r.price && notna r.size)

module _ (F : Type 0) ⦃d : Double F⦄ where
  text_any :
      (name : Check → String) (n : ColumnName) (o : Option String)
      → is_empty (cell_failures {F = F} name (text_column n none) (text_cell o)) ≡ notna o
  text_any name n none = refl
  text_any name n (some x) = refl

  text_isin :
      (name : Check → String) (n : ColumnName) (vs : List String) (o : Option String)
      → is_empty (cell_failures {F = F} name (text_column n (some (isin vs))) (text_cell o))
        ≡ some_of vs o
  text_isin name n vs none = refl
  text_isin name n vs (some x) = is_empty-failed (elem x vs) _

  time_any :
      (name : Check → String) (n : ColumnName) (o : Option Datetime)
      → is_empty (cell_failures {F = F} name (time_column n) (time_cell o)) ≡ notna o
  time_any name n none = refl
  time_any name n (some x) = refl

module _ {F : Type 0} ⦃d : Double F⦄ where
  float_gt :
      (name : Check → String) (n : ColumnName) (o : Option F)
      → is_empty (cell_failures name (float_column n gt_zero) (number_cell o))
        ≡ none_or is_positive o
  float_gt name n none = refl
  float_gt name n (some x) = is_empty-failed _ _

  float_ge :
      (name : Check → String) (n : ColumnName) (o : Option F)
      → is_empty (cell_failures name (float_column n ge_zero) (number_cell o))
        ≡ none_or is_not_negative o
  float_ge name n none = refl
  float_ge name n (some x) = is_empty-failed _ _

  spread_ordered : (r : FrameRow F) → spread_non_negative r ≡ ordered r.best_bid r.best_ask
  unfolding spread_non_negative
  spread_ordered r = ground arith

  -- A row fails no check exactly when it meets the contract.
  pub row_failures-meets :
      (name : Check → String) (symbols : List String) (r : FrameRow F)
      → is_empty (row_failures name (build_contract symbols) r) ≡ meets_contract symbols r
  unfolding row_failures build_contract meets_contract trade_has_price_and_size
  row_failures-meets name symbols r = simp (
    is_empty-append, text_any, text_isin, float_gt, float_ge, time_any, is_empty-failed,
    spread_ordered, and_assoc, and_true,
  )
