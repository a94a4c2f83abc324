-- ===== src/Tests/ContractRuns.antt =====
-- The data contract at concrete rows, with a Pandera that evaluates the schema row by row.
use Prim.Native.Nat.{zero, suc}
use tickstream_streaming_lak.Prelude.{
  ℕ, ◌≡◌, refl, ap, ◌∙◌, String, true, false, Option, none, some, List, [], ◌∷◌, ◌++◌,
  if◌then◌else◌, arith, ◌+◌, ◌<◌, nat_beq,
}
use tickstream_streaming_lak.Prelude.Int.{ℤ, pos, negsuc}
use tickstream_streaming_lak.Prelude.Eq.{string_eq, nat_eq, pair_eq}
use tickstream_streaming_lak.Prelude.Group.{elem, add_keys}
use tickstream_streaming_lak.Prelude.Sets.{elem-++}
use tickstream_streaming_lak.Prelude.Sort.{sort, insert}
use tickstream_streaming_lak.Prelude.Text.{str_leb}
use tickstream_streaming_lak.Quality.Contract.{
  FrameRow, Frame, DataFrameSchema, build_contract, Check, isin, gt_zero, ge_zero, FailureCase,
  indexed, Pandera, apply_contract, datetime_us, event_dtypes, is_ok, spread_non_negative,
  trade_has_price_and_size,
}
use tickstream_streaming_lak.Quality.Contract.Rows.{row_failures, row_failures_at, reported, IsLazy}
use tickstream_streaming_lak.Quality.Contract.Laws.{
  IsSplit, apply_contract-splits, apply_contract-is_ok,
}
use tickstream_streaming_lak.Tests.Sample.{whole_numbers, sample_settings, sample_trade}
use tickstream_streaming_lak.Schema.{MarketEvent, basic_contract}
use tickstream_streaming_lak.Quality.Contract.Stricter.{
  IsComparison, meets, apply_contract-events_to_frame,
}
use tickstream_streaming_lak.Prelude.{sym, keep, All, map}
use tickstream_streaming_lak.Prelude.Int.{int_beq, int_beq_iff}
use tickstream_streaming_lak.Quality.Contract.{row_of_event, events_to_frame}

abbrev check_name : Check → String
check_name (isin values) = "isin"
check_name gt_zero = "greater_than(0)"
check_name ge_zero = "greater_than_or_equal_to(0)"

abbrev cases_of : ℕ → List String → List FailureCase
cases_of n [] = []
cases_of n (c ∷ cs) = record { index = some n; check = c } ∷ cases_of n cs

abbrev cases_from : DataFrameSchema ℤ → ℕ → List (FrameRow ℤ) → List FailureCase
cases_from schema n [] = []
cases_from schema n (r ∷ rs) =
    cases_of n (row_failures check_name schema r) ++ cases_from schema (suc n) rs

abbrev raised : List FailureCase → Option (List FailureCase)
raised [] = none
raised (c ∷ cs) = some (c ∷ cs)

abbrev row_by_row : Pandera ℤ
row_by_row = record {
  validate = λ schema df. raised (cases_from schema 0 df.rows);
  check_name = check_name;
}

reported-raised : (cases : List FailureCase) → reported (raised cases) ≡ indexed cases
unfolding indexed
reported-raised [] = refl
reported-raised (c ∷ cs) = refl

indexed-append : (xs ys : List FailureCase) → indexed (xs ++ ys) ≡ indexed xs ++ indexed ys
unfolding indexed
indexed-append [] ys = refl
indexed-append (x ∷ xs) ys = ground (arith, indexed-append xs ys)

elem-cases_of :
    (n i : ℕ) (c : String) (cs : List String)
    → elem (i, c) (indexed (cases_of n cs)) ≡ (if nat_beq n i then elem c cs else false)
unfolding indexed elem
elem-cases_of n i c [] = ground arith
elem-cases_of n i c (k ∷ cs) = ground (arith, elem-cases_of n i c cs)

module _ (schema : DataFrameSchema ℤ) (c : String) where
  elem-row :
      (n i : ℕ) (r : FrameRow ℤ) (rs : List (FrameRow ℤ))
      → elem (i, c) (indexed (cases_from schema n (r ∷ rs))) ≡ (
          if (if nat_beq n i then elem c (row_failures check_name schema r) else false)
          then true
          else elem (i, c) (indexed (cases_from schema (suc n) rs)))
  elem-row n i r rs =
      let cases = cases_of n (row_failures check_name schema r) in
      ap (elem (i, c)) (indexed-append cases (cases_from schema (suc n) rs))
      ∙ elem-++ (i, c) (indexed cases) _
      ∙ ap (λ b. if b then true else elem (i, c) (indexed (cases_from schema (suc n) rs)))
          (elem-cases_of n i c (row_failures check_name schema r))

  elem-below :
      (n i : ℕ) (rows : List (FrameRow ℤ))
      → i < n
      → elem (i, c) (indexed (cases_from schema n rows)) ≡ false
  unfolding elem indexed
  elem-below n i [] h = refl
  elem-below n i (r ∷ rs) h =
      elem-row n i r rs ∙ ground (arith, elem-below (suc n) i rs (omega arith))

  elem-cases_from :
      (n i : ℕ) (rows : List (FrameRow ℤ))
      → elem (n + i, c) (indexed (cases_from schema n rows))
        ≡ elem c (row_failures_at check_name schema i rows)
  unfolding elem indexed
  elem-cases_from n i [] = refl
  elem-cases_from n zero (r ∷ rs) =
      elem-row n (n + zero) r rs ∙ ground (arith, elem-below (suc n) (n + zero) rs (omega arith))
  elem-cases_from n (suc i) (r ∷ rs) =
      elem-row n (n + suc i) r rs
      ∙ ground (
        arith,
        elem-cases_from (suc n) i rs,
        ap (λ m. elem (m, c) (indexed (cases_from schema (suc n) rs)))
            (let e : n + suc i ≡ suc n + i = omega arith in e),
      )

row_by_row-IsLazy : IsLazy row_by_row
row_by_row-IsLazy = record {
  reports = λ symbols df h i c.
      ap (elem (i, c)) (reported-raised (cases_from (build_contract symbols) 0 df.rows))
      ∙ ap (λ m. elem (m, c) (indexed (cases_from (build_contract symbols) 0 df.rows)))
          (let e : i ≡ 0 + i = omega arith in e)
      ∙ elem-cases_from (build_contract symbols) c 0 i df.rows;
}

-- A good trade, a trade of an unknown symbol with a negative size, and a crossed tick.
abbrev trade_row : String → ℤ → FrameRow ℤ
trade_row symbol size = record {
  exchange = some "coinbase";
  symbol = some symbol;
  event_type = some "trade";
  price = some (pos 100);
  size = some size;
  best_bid = none;
  best_ask = none;
  best_bid_size = none;
  best_ask_size = none;
  ts_event = some (pos 1);
  ts_ingest = some (pos 2);
}

abbrev crossed_row : FrameRow ℤ
crossed_row = record (trade_row "ETH-USD" (pos 1)) {
  event_type = some "ticker";
  best_bid = some (pos 5);
  best_ask = some (pos 4);
}

abbrev batch : Frame ℤ
batch = record {
  dtypes = event_dtypes datetime_us;
  rows = trade_row "BTC-USD" (pos 2) ∷ trade_row "DOGE" (negsuc 0) ∷ crossed_row ∷ [];
}

split_run : apply_contract row_by_row sample_settings batch ≡ record {
  valid = trade_row "BTC-USD" (pos 2) ∷ [];
  quarantined =
      (trade_row "DOGE" (negsuc 0), "greater_than_or_equal_to(0), isin")
      ∷ (crossed_row, "spread_non_negative")
      ∷ [];
  n_valid = 1;
  n_quarantined = 2;
  reasons = "greater_than_or_equal_to(0)" ∷ "isin" ∷ "spread_non_negative" ∷ [];
}
unfolding apply_contract row_failures elem spread_non_negative trade_has_price_and_size sort
    add_keys insert str_leb
split_run = refl

apply_contract-splits_example :
    IsSplit check_name sample_settings.source.symbols batch.rows
      (apply_contract row_by_row sample_settings batch)
unfolding build_contract
apply_contract-splits_example =
    apply_contract-splits row_by_row row_by_row-IsLazy sample_settings batch refl

-- A frame with no column of symbols: Pandera reports a failure of the schema and no row.
abbrev without_symbols : Pandera ℤ
without_symbols = record {
  validate = λ schema df. some (record { index = none; check = "column_in_dataframe" } ∷ []);
  check_name = check_name;
}

apply_contract-is_ok_example :
    let result = apply_contract without_symbols sample_settings batch in
    (is_ok result ≡ true)
    × (result.valid ≡ batch.rows)
    × (result.quarantined ≡ [])
    × (result.reasons ≡ [])
apply_contract-is_ok_example =
    apply_contract-is_ok without_symbols sample_settings batch
      (record { index = none; check = "column_in_dataframe" } ∷ []) refl (refl, tt)

whole_numbers-IsComparison : IsComparison ℤ whole_numbers
whole_numbers-IsComparison = record {
  not_lt = λ x y h. ground (arith, h);
  nan_lt_left = λ x y h. absurd (not_nan x h);
  nan_lt_right = λ x y h. absurd (not_nan x h);
  nan_le_left = λ x y h. absurd (not_nan x h);
}
  where
    not_nan : (x : ℤ) → int_beq x x ≡ false → ⊥
    not_nan x h = cc (sym ((int_beq_iff x x).1 refl) ∙ h)

-- A configured trade and one of an unknown symbol.
abbrev two_trades : List (MarketEvent ℤ)
two_trades = sample_trade "BTC-USD" 100 2 61 ∷ sample_trade "DOGE" 1 1 62 ∷ []

abbrev two_rows : Frame ℤ
two_rows = record { dtypes = event_dtypes datetime_us; rows = map row_of_event two_trades }

apply_contract-events_to_frame_example :
    let kept = keep (meets sample_settings.source.symbols) two_trades in
    ((apply_contract row_by_row sample_settings two_rows).valid ≡ map row_of_event kept)
    × All (λ e. basic_contract e ≡ none) kept
unfolding events_to_frame
apply_contract-events_to_frame_example =
    apply_contract-events_to_frame whole_numbers-IsComparison row_by_row row_by_row-IsLazy
      sample_settings datetime_us two_trades two_rows refl
