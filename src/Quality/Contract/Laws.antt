-- ===== src/Quality/Contract/Laws.antt =====
-- `apply_contract` of quality/contract.py: the split by positions is the split by the contract.
use tickstream_streaming_lak.Prelude.{
  ℕ, suc, ◌+◌, String, ◌≡◌, refl, ap, sym, ◌∙◌, true, not, Option, none, some, List, [], ◌∷◌, map,
  keep, length, nat_beq, arith, All,
}
use tickstream_streaming_lak.Prelude.Eq.{string_eq, nat_eq, pair_eq}
use tickstream_streaming_lak.Prelude.Dict.{get, contains}
use tickstream_streaming_lak.Prelude.Group.{elem, add_keys}
use tickstream_streaming_lak.Prelude.Sort.{sort}
use tickstream_streaming_lak.Prelude.Sets.{sorted_set}
use tickstream_streaming_lak.Prelude.Text.{str_leb}
use tickstream_streaming_lak.Config.{Settings}
use tickstream_streaming_lak.Py.{Double}
use tickstream_streaming_lak.Quality.Contract.{
  FrameRow, Frame, build_contract, Check, FailureCase, indexed, Pandera, ContractResult, is_ok,
  reason_by_index, good_rows, bad_rows, split_by, apply_contract,
}
use tickstream_streaming_lak.Quality.Contract.Rows.{
  conforms, row_failures_at, reported, IsLazy, meets_contract,
}
use tickstream_streaming_lak.Quality.Contract.Verdicts.{
  get-reason_by_index, get-verdict, with_reason, Describes, describes, good_rows_lem, bad_rows_lem,
  keep_counts,
}

module _ {F : Type 0} ⦃d : Double F⦄ (name : Check → String) (symbols : List String) where
  -- The batch is split by the contract: the rows that meet it are valid, the others are quarantined
  -- with their failed checks, and both stay in their order.
  pub record IsSplit (rows : List (FrameRow F)) (result : ContractResult F) : Type 0 where
    pub valid : result.valid ≡ keep (meets_contract symbols) rows
    pub quarantined :
        result.quarantined
        ≡ map (with_reason name symbols) (keep (λ r. not (meets_contract symbols r)) rows)
    pub n_valid : result.n_valid ≡ length result.valid
    pub n_quarantined : result.n_quarantined ≡ length result.quarantined
    pub total : result.n_valid + result.n_quarantined ≡ length rows

no_reasons : (i : ℕ) → get i (reason_by_index []) ≡ none
unfolding elem
no_reasons i = get-reason_by_index i []

indexed-none : (cases : List FailureCase) → All (λ c. c.index ≡ none) cases → indexed cases ≡ []
unfolding indexed
indexed-none [] h = refl
indexed-none (c ∷ cs) (e, h) = rw (indexed, e) (indexed-none cs h)

module _ {F : Type 0} where
  good_rows-nil : (n : ℕ) (rows : List (FrameRow F)) → good_rows (reason_by_index []) n rows ≡ rows
  unfolding good_rows
  good_rows-nil n [] = refl
  good_rows-nil n (r ∷ rs) =
      rw (contains, good_rows, no_reasons n) (ap (λ l. r ∷ l) (good_rows-nil (suc n) rs))

  bad_rows-nil : (n : ℕ) (rows : List (FrameRow F)) → bad_rows (reason_by_index []) n rows ≡ []
  unfolding bad_rows
  bad_rows-nil n [] = refl
  bad_rows-nil n (r ∷ rs) = rw (bad_rows, no_reasons n) (bad_rows-nil (suc n) rs)

  unindexed :
      (cases : List FailureCase) (rows : List (FrameRow F))
      → indexed cases ≡ []
      → let result = split_by cases rows in
        (is_ok result ≡ true)
        × (result.valid ≡ rows)
        × (result.quarantined ≡ [])
        × (result.reasons ≡ [])
  unfolding split_by is_ok sort add_keys
  unindexed cases rows e =
      let bad : bad_rows (reason_by_index (indexed cases)) 0 rows ≡ [] =
        ap (λ fs. bad_rows (reason_by_index fs) 0 rows) e ∙ bad_rows-nil 0 rows in
      (
        ap (λ l. nat_beq (length l) 0) bad,
        ap (λ fs. good_rows (reason_by_index fs) 0 rows) e ∙ good_rows-nil 0 rows,
        bad,
        ap (λ fs. sorted_set str_leb (map (λ f. f.1) fs)) e,
      )

module _ {F : Type 0} ⦃d : Double F⦄ (p : Pandera F) where
  -- `apply_contract` splits a frame that has the columns of the contract by the contract: it
  -- returns as valid the rows that meet it, as quarantined the others, each with the sorted names of
  -- the checks that it fails, both in their order, and the two counts add up to the number of rows;
  -- if lazy validation reports each row with each check that it fails.
  pub apply_contract-splits :
      IsLazy p
      → (settings : Settings) (df : Frame F)
      → conforms (build_contract settings.source.symbols) df ≡ true
      → IsSplit p.check_name settings.source.symbols df.rows (apply_contract p settings df)
  unfolding apply_contract split_by
  apply_contract-splits lazy settings df h =
      go (p.validate (build_contract settings.source.symbols) df)
        (lazy.reports settings.source.symbols df h)
    where
      symbols : List String
      symbols = settings.source.symbols

      known :
          (fs : List (ℕ × String))
          → ((i : ℕ) (c : String)
              → elem (i, c) fs
                ≡ elem c (row_failures_at p.check_name (build_contract symbols) i df.rows))
          → Describes p.check_name symbols (reason_by_index fs) 0 df.rows
      known fs k =
          describes p.check_name symbols (reason_by_index fs) 0 df.rows
            λ i. ap (λ m. get m (reason_by_index fs)) (omega arith) ∙ get-verdict i fs _ (k i)

      go :
          (answer : Option (List FailureCase))
          → ((i : ℕ) (c : String)
              → elem (i, c) (reported answer)
                ≡ elem c (row_failures_at p.check_name (build_contract symbols) i df.rows))
          → IsSplit p.check_name symbols df.rows (elim answer [
            | some cases ↦ split_by cases df.rows
            | none ↦ record {
              valid = df.rows;
              quarantined = [];
              n_valid = length df.rows;
              n_quarantined = 0;
              reasons = [];
            }
          ])
      go none k =
          let g = good_rows_lem p.check_name symbols (reason_by_index []) 0 df.rows (known [] k) in
          let b = bad_rows_lem p.check_name symbols (reason_by_index []) 0 df.rows (known [] k) in
          record {
            valid = sym (good_rows-nil 0 df.rows) ∙ g;
            quarantined = sym (bad_rows-nil 0 df.rows) ∙ b;
            n_valid = refl;
            n_quarantined = refl;
            total = omega arith;
          }
      go (some cases) k =
          let fs = indexed cases in
          let g = good_rows_lem p.check_name symbols (reason_by_index fs) 0 df.rows (known fs k) in
          let b = bad_rows_lem p.check_name symbols (reason_by_index fs) 0 df.rows (known fs k) in
          record {
            valid = g;
            quarantined = b;
            n_valid = refl;
            n_quarantined = refl;
            total = rw (g, b) (keep_counts p.check_name symbols df.rows);
          }

  -- If all that Pandera reports are failures of the schema, without a row, as for a column that is
  -- not there or has another type, then `apply_contract` quarantines nothing: it returns all rows as
  -- valid, with no reason, and the result is ok.
  pub apply_contract-is_ok :
      (settings : Settings) (df : Frame F) (cases : List FailureCase)
      → p.validate (build_contract settings.source.symbols) df ≡ some cases
      → All (λ c. c.index ≡ none) cases
      → let result = apply_contract p settings df in
        (is_ok result ≡ true)
        × (result.valid ≡ df.rows)
        × (result.quarantined ≡ [])
        × (result.reasons ≡ [])
  unfolding apply_contract is_ok
  apply_contract-is_ok settings df cases e h =
      rw (apply_contract, e) (unindexed cases df.rows (indexed-none cases h))
