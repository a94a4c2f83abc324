-- ===== src/Quality/Contract/Verdicts.antt =====
-- The reasons that `apply_contract` of quality/contract.py finds for a row, and its two lists, against
-- the contract.
use tickstream_streaming_lak.Prelude.{
  ℕ, suc, ◌+◌, String, ◌≡◌, refl, ap, ◌∙◌, true, false, not, Option, none, some, List, [], ◌∷◌, map,
  keep, length, if◌then◌else◌, leb, arith, inl, inr, Bool-cases,
}
use tickstream_streaming_lak.Prelude.Eq.{◌==◌, string_eq, nat_eq, pair_eq, ==_refl, eq_of_==}
use tickstream_streaming_lak.Prelude.Dict.{Dict, get, contains}
use tickstream_streaming_lak.Prelude.Group.{elem, distinct}
use tickstream_streaming_lak.Prelude.Sort.{sort}
use tickstream_streaming_lak.Prelude.Sets.{elem-sort, elem-distinct, sorted_set_cong}
use tickstream_streaming_lak.Prelude.Text.{str_leb, str_leb_total, str_leb_trans, str_leb_antisym}
use tickstream_streaming_lak.Py.{Double}
use tickstream_streaming_lak.Quality.Contract.{
  FrameRow, build_contract, Check, checks_at, reason_of_checks, join, reason_by_index, good_rows,
  bad_rows,
}
use tickstream_streaming_lak.Quality.Contract.Rows.{
  row_failures, row_failures_at, is_empty, meets_contract, row_failures-meets,
}

get-table {ℓ} :
    {V : Type ℓ} (f : ℕ → V) (k : ℕ) (ks : List ℕ)
    → get k (map (λ i. (i, f i)) ks) ≡ (if elem k ks then some (f k) else none)
unfolding get elem
get-table f k [] = refl
get-table f k (j ∷ ks) = elim (Bool-cases (j == k)) [
  | inl b ↦ rw (b, eq_of_== j k b)
  | inr b ↦ rw b (get-table f k ks)
]

pub get-reason_by_index :
    (i : ℕ) (fs : List (ℕ × String))
    → get i (reason_by_index fs)
      ≡ (if elem i (map (λ f. f.0) fs) then some (reason_of_checks (checks_at i fs)) else none)
unfolding reason_by_index
get-reason_by_index i fs =
    get-table (λ j. reason_of_checks (checks_at j fs)) i (sort leb (distinct (map (λ f. f.0) fs)))
    ∙ rw (elem-sort leb i (distinct (map (λ f. f.0) fs)), elem-distinct i (map (λ f. f.0) fs))

elem-checks_at :
    (i : ℕ) (c : String) (fs : List (ℕ × String)) → elem c (checks_at i fs) ≡ elem (i, c) fs
unfolding elem
elem-checks_at i c [] = refl
elem-checks_at i c ((j, s) ∷ fs) = elim (Bool-cases (j == i)) [
  | inl b ↦ rw (b, elem, elem-checks_at i c fs)
  | inr b ↦ rw (b, elem-checks_at i c fs)
]

elem-first :
    (i : ℕ) (c : String) (fs : List (ℕ × String))
    → elem (i, c) fs ≡ true
    → elem i (map (λ f. f.0) fs) ≡ true
unfolding elem
elem-first i c [] h = cc
elem-first i c ((j, s) ∷ fs) h = elim (Bool-cases (j == i)) [
  | inl b ↦ rw b
  | inr b ↦ rw b (elem-first i c fs (rw b at h))
]

no_first :
    (i : ℕ) (fs : List (ℕ × String))
    → ((c : String) → elem (i, c) fs ≡ false)
    → elem i (map (λ f. f.0) fs) ≡ false
unfolding elem
no_first i [] h = refl
no_first i ((j, s) ∷ fs) h = elim (Bool-cases (j == i)) [
  | inl b ↦ absurd (ground (arith, h s, b, ==_refl s))
  | inr b ↦ rw b (no_first i fs (λ c. rw b at (h c)))
]

-- The reason of a row with these failed checks; none if there are none.
abbrev pub verdict : List String → Option String
verdict [] = none
verdict (c ∷ cs) = some (reason_of_checks (c ∷ cs))

verdict-empty : (cs : List String) → is_empty cs ≡ true → verdict cs ≡ none
verdict-empty [] h = refl
verdict-empty (c ∷ cs) h = cc

verdict-full : (cs : List String) → is_empty cs ≡ false → verdict cs ≡ some (reason_of_checks cs)
verdict-full [] h = cc
verdict-full (c ∷ cs) h = refl

reason_cong :
    (xs ys : List String)
    → ((c : String) → elem c xs ≡ elem c ys)
    → reason_of_checks xs ≡ reason_of_checks ys
reason_cong xs ys h =
    ap join (sorted_set_cong str_leb str_leb_total str_leb_trans str_leb_antisym xs ys h)

pub get-verdict :
    (i : ℕ) (fs : List (ℕ × String)) (names : List String)
    → ((c : String) → elem (i, c) fs ≡ elem c names)
    → get i (reason_by_index fs) ≡ verdict names
unfolding elem
get-verdict i fs [] h = rw (get-reason_by_index i fs, no_first i fs h)
get-verdict i fs (c ∷ cs) h = rw (
  get-reason_by_index i fs,
  elem-first i c fs (h c ∙ ground (arith, ==_refl c)),
  reason_cong (checks_at i fs) (c ∷ cs) (λ k. elem-checks_at i k fs ∙ h k),
)

module _ {F : Type 0} ⦃d : Double F⦄ (name : Check → String) (symbols : List String) where
  abbrev failures_of : FrameRow F → List String
  failures_of = row_failures name (build_contract symbols)

  -- What the contract says of a row, as a row of the quarantine.
  abbrev pub with_reason : FrameRow F → FrameRow F × String
  with_reason r = (r, reason_of_checks (failures_of r))

  abbrev pub Describes : Dict ℕ String → ℕ → List (FrameRow F) → Type 0
  Describes reasons n [] = Unit
  Describes reasons n (r ∷ rs) =
      (get n reasons ≡ verdict (failures_of r)) × Describes reasons (suc n) rs

  pub describes :
      (reasons : Dict ℕ String) (n : ℕ) (rows : List (FrameRow F))
      → ((i : ℕ)
          → get (n + i) reasons ≡ verdict (row_failures_at name (build_contract symbols) i rows))
      → Describes reasons n rows
  describes reasons n [] h = tt
  describes reasons n (r ∷ rs) h = (
    ap (λ m. get m reasons) (omega arith) ∙ h 0,
    describes reasons (suc n) rs (λ i. ap (λ m. get m reasons) (omega arith) ∙ h (suc i)),
  )

  verdict-good : (r : FrameRow F) → meets_contract symbols r ≡ true → verdict (failures_of r) ≡ none
  verdict-good r h = verdict-empty (failures_of r) (row_failures-meets name symbols r ∙ h)

  verdict-bad :
      (r : FrameRow F)
      → meets_contract symbols r ≡ false
      → verdict (failures_of r) ≡ some (reason_of_checks (failures_of r))
  verdict-bad r h = verdict-full (failures_of r) (row_failures-meets name symbols r ∙ h)

  pub good_rows_lem :
      (reasons : Dict ℕ String) (n : ℕ) (rows : List (FrameRow F))
      → Describes reasons n rows
      → good_rows reasons n rows ≡ keep (meets_contract symbols) rows
  unfolding good_rows
  good_rows_lem reasons n [] h = refl
  good_rows_lem reasons n (r ∷ rs) (v, h) = elim (Bool-cases (meets_contract symbols r)) [
    | inl b ↦ rw (b, ← good_rows_lem reasons (suc n) rs h, contains, good_rows, v, verdict-good r b)
    | inr b ↦ rw (b, ← good_rows_lem reasons (suc n) rs h, contains, good_rows, v, verdict-bad r b)
  ]

  pub bad_rows_lem :
      (reasons : Dict ℕ String) (n : ℕ) (rows : List (FrameRow F))
      → Describes reasons n rows
      → bad_rows reasons n rows ≡ map with_reason (keep (λ r. not (meets_contract symbols r)) rows)
  unfolding bad_rows
  bad_rows_lem reasons n [] h = refl
  bad_rows_lem reasons n (r ∷ rs) (v, h) = elim (Bool-cases (meets_contract symbols r)) [
    | inl b ↦ rw (b, ← bad_rows_lem reasons (suc n) rs h, bad_rows, v, verdict-good r b)
    | inr b ↦ rw (b, ← bad_rows_lem reasons (suc n) rs h, bad_rows, v, verdict-bad r b)
  ]

  pub keep_counts :
      (rows : List (FrameRow F))
      → length (keep (meets_contract symbols) rows)
          + length (map with_reason (keep (λ r. not (meets_contract symbols r)) rows))
        ≡ length rows
  keep_counts [] = omega arith
  keep_counts (r ∷ rs) = elim (Bool-cases (meets_contract symbols r)) [
    | inl b ↦ rw b (omega (arith, keep_counts rs))
    | inr b ↦ rw b (omega (arith, keep_counts rs))
  ]
