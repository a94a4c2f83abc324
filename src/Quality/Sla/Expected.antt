-- ===== src/Quality/Sla/Expected.antt =====
-- The windows that `_expected_windows_by_symbol` of quality/sla.py counts, symbol by symbol.
use tickstream_streaming_lak.Prelude.{
  ℕ, ◌+◌, String, ◌≡◌, refl, sym, ◌∙◌, ap, true, false, List, [], ◌∷◌, ◌++◌, map, keep, count_if,
  if◌then◌else◌, subst, ltb, arith, inl, inr, Bool-cases, Option, none, some,
}
use tickstream_streaming_lak.Prelude.Int.{ℤ}
use tickstream_streaming_lak.Prelude.Eq.{◌==◌, string_eq, pair_eq, int_eq, ==_refl, eq_of_==}
use tickstream_streaming_lak.Prelude.Dict.{Dict, get, get_default, put, get-put}
use tickstream_streaming_lak.Prelude.Group.{
  elem, elem-append, add_keys, distinct, AllDifferent, add_keys-AllDifferent,
}
use tickstream_streaming_lak.Prelude.Sets.{sorted_set, elem-sorted_set, AllDifferent-sort}
use tickstream_streaming_lak.Prelude.Text.{str_leb}
use tickstream_streaming_lak.Py.{Double}
use tickstream_streaming_lak.Schema.{MarketEvent}
use tickstream_streaming_lak.Metrics.{window_sizes, window_start_seconds}
use tickstream_streaming_lak.Quality.Sla.{
  add_counts, group_sizes, is_silver_valid, window_buckets, expected_from,
  expected_windows_by_symbol,
}

-- What the entries of one key add up to.
abbrev sum_at : String → List (String × ℕ) → ℕ
sum_at s [] = 0
sum_at s ((t, n) ∷ rest) = (if t == s then n else 0) + sum_at s rest

get_default-put :
    (k j : String) (n : ℕ) (d : Dict String ℕ)
    → get_default j 0 (put k n d) ≡ (if k == j then n else get_default j 0 d)
unfolding get_default
get_default-put k j n d = ground (arith, get-put k j n d)

get_default-add_counts :
    (s : String) (entries : List (String × ℕ)) (out : Dict String ℕ)
    → get_default s 0 (add_counts entries out) ≡ get_default s 0 out + sum_at s entries
unfolding add_counts
get_default-add_counts s [] out = omega arith
get_default-add_counts s ((t, n) ∷ rest) out = elim (Bool-cases (t == s)) [
  | inl b ↦
      let ih = get_default-add_counts s rest (put t (get_default t 0 out + n) out) in
      let here : get_default s 0 (put t (get_default t 0 out + n) out) ≡ get_default t 0 out + n =
        get_default-put t s _ out ∙ rw b refl in
      let same : get_default t 0 out ≡ get_default s 0 out =
        ap (λ k. get_default k 0 out) (eq_of_== t s b) in
      rw b (omega (arith, ih, here, same))
  | inr b ↦
      let ih = get_default-add_counts s rest (put t (get_default t 0 out + n) out) in
      let here : get_default s 0 (put t (get_default t 0 out + n) out) ≡ get_default s 0 out =
        get_default-put t s _ out ∙ rw b refl in
      rw b (omega (arith, ih, here))
]

sum_at-map :
    (f : String → ℕ) (s : String) (ks : List String)
    → AllDifferent ks
    → sum_at s (map (λ k. (k, f k)) ks) ≡ (if elem s ks then f s else 0)
unfolding elem
sum_at-map f s [] h = refl
sum_at-map f s (k ∷ ks) (n, h) = elim (Bool-cases (k == s)) [
  | inl b ↦
      let same : k ≡ s = eq_of_== k s b in
      let absent : elem s ks ≡ false = ap (λ j. elem j ks) (sym same) ∙ n in
      let ih : sum_at s (map (λ j. (j, f j)) ks) ≡ 0 = sum_at-map f s ks h ∙ rw absent refl in
      rw b (omega (arith, ih, ap f same))
  | inr b ↦ let ih = sum_at-map f s ks h in rw b (omega (arith, ih))
]

count_if-not_elem :
    (s : String) (buckets : List (String × ℤ))
    → elem s (map (λ b. b.0) buckets) ≡ false
    → count_if (λ b. b.0 == s) buckets ≡ 0
unfolding elem
count_if-not_elem s [] h = refl
count_if-not_elem s (b ∷ buckets) h = ground (arith, h, count_if-not_elem s buckets)

count_if-elem :
    (s : String) (buckets : List (String × ℤ))
    → elem s (map (λ b. b.0) buckets) ≡ true
    → ltb 0 (count_if (λ b. b.0 == s) buckets) ≡ true
unfolding elem
count_if-elem s [] h = absurd (cc)
count_if-elem s (b ∷ buckets) h = ground (arith, h, count_if-elem s buckets)

elem-map :
    (p : String × ℤ) (ps : List (String × ℤ))
    → elem p ps ≡ true
    → elem p.0 (map (λ b. b.0) ps) ≡ true
unfolding elem
elem-map p [] h = absurd (cc)
elem-map p (q ∷ ps) h = elim (Bool-cases (q == p)) [
  | inl b ↦ rw (eq_of_== q p b, ==_refl p.0) refl
  | inr b ↦ ground (arith, h, b, elem-map p ps)
]

map-snoc :
    (ks : List (String × ℤ)) (j : String × ℤ)
    → map (λ (b : String × ℤ). b.0) (ks ++ (j ∷ []))
      ≡ map (λ (b : String × ℤ). b.0) ks ++ (j.0 ∷ [])
map-snoc [] j = refl
map-snoc (k ∷ ks) j = ap (λ ss. k.0 ∷ ss) (map-snoc ks j)

-- Taking the repetitions out keeps the symbols.
elem-add_keys_symbols :
    (s : String) (ks js : List (String × ℤ))
    → elem s (map (λ b. b.0) (add_keys ks js))
      ≡ (if elem s (map (λ b. b.0) ks) then true else elem s (map (λ b. b.0) js))
unfolding add_keys elem
elem-add_keys_symbols s ks [] = ground arith
elem-add_keys_symbols s ks (j ∷ js) = elim (Bool-cases (elem j ks)) [
  | inl b ↦
      let here : (j.0 == s) ≡ true → elem s (map (λ p. p.0) ks) ≡ true =
        λ e. subst (λ k. elem k (map (λ p. p.0) ks) ≡ true) (eq_of_== j.0 s e) (elem-map j ks b) in
      rw b (ground (arith, elem-add_keys_symbols s ks js, here))
  | inr b ↦ rw b (
      ground (
        arith,
        elem-add_keys_symbols s (ks ++ (j ∷ [])) js,
        ap (elem s) (map-snoc ks j),
        elem-append s j.0 (map (λ p. p.0) ks),
      ))
]

sum_at-group_sizes :
    (s : String) (buckets : List (String × ℤ))
    → sum_at s (group_sizes buckets) ≡ count_if (λ b. b.0 == s) buckets
unfolding group_sizes
sum_at-group_sizes s buckets =
    sum_at-map (λ k. count_if (λ b. b.0 == k) buckets) s (sorted_set str_leb symbols)
      (AllDifferent-sort str_leb (distinct symbols) (add_keys-AllDifferent symbols [] tt))
    ∙ ap (λ b. if b then n else 0) (elem-sorted_set str_leb s symbols)
    ∙ chosen
  where
    symbols : List String
    symbols = map (λ b. b.0) buckets

    n : ℕ
    n = count_if (λ b. b.0 == s) buckets

    chosen : (if elem s symbols then n else 0) ≡ n
    chosen = elim (Bool-cases (elem s symbols)) [
      | inl b ↦ rw b refl
      | inr b ↦ rw b (sym (count_if-not_elem s buckets b))
    ]

module _ {F : Type 0} ⦃d : Double F⦄ where
  -- The number of the windows of a symbol: over all sizes, the different starts of the windows that
  -- its events lie in.
  abbrev pub windows_of : String → List (MarketEvent F) → Dict String ℕ → ℕ
  windows_of s valid [] = 0
  windows_of s valid ((label, secs) ∷ sizes) =
      count_if (λ b. b.0 == s) (window_buckets secs valid) + windows_of s valid sizes

  expected_from_lem :
      (s : String) (valid : List (MarketEvent F)) (sizes out : Dict String ℕ)
      → get_default s 0 (expected_from valid sizes out)
        ≡ get_default s 0 out + windows_of s valid sizes
  expected_from_lem s valid [] out = omega arith
  expected_from_lem s valid ((label, secs) ∷ sizes) out =
      let buckets = window_buckets secs valid in
      let ih = expected_from_lem s valid sizes (add_counts (group_sizes buckets) out) in
      let added = get_default-add_counts s (group_sizes buckets) out in
      let sizes_eq = sum_at-group_sizes s buckets in omega (arith, ih, added, sizes_eq)

  pub get-expected_windows_by_symbol :
      (s : String) (bronze : List (MarketEvent F))
      → ltb 0 (windows_of s (keep is_silver_valid bronze) window_sizes) ≡ true
      → get s (expected_windows_by_symbol bronze)
        ≡ some (windows_of s (keep is_silver_valid bronze) window_sizes)
  unfolding expected_windows_by_symbol get_default get
  get-expected_windows_by_symbol s bronze h =
      go (get s (expected_windows_by_symbol bronze))
        (expected_from_lem s (keep is_silver_valid bronze) window_sizes [])
    where
      n : ℕ
      n = windows_of s (keep is_silver_valid bronze) window_sizes

      go : (found : Option ℕ) → (elim found [ none ↦ 0 | some k ↦ k ]) ≡ 0 + n → found ≡ some n
      go none e = absurd (ground (arith, e, h))
      go (some k) e = ap some (omega (arith, e))

  map-symbols :
      (secs : ℕ) (valid : List (MarketEvent F))
      → map
          (λ (b : String × ℤ). b.0)
          (map (λ e. (e.symbol, window_start_seconds e.ts_event secs)) valid)
        ≡ map (λ e. e.symbol) valid
  map-symbols secs [] = refl
  map-symbols secs (e ∷ valid) = ap (λ ss. e.symbol ∷ ss) (map-symbols secs valid)

  -- A symbol that has a row has a window.
  pub windows_of-positive :
      (s : String) (valid : List (MarketEvent F))
      → elem s (map (λ e. e.symbol) valid) ≡ true
      → ltb 0 (windows_of s valid window_sizes) ≡ true
  unfolding window_buckets elem
  windows_of-positive s valid h =
      let known : elem s (map (λ (b : String × ℤ). b.0) (window_buckets 60 valid)) ≡ true =
        elem-add_keys_symbols s [] (map (λ e. (e.symbol, window_start_seconds e.ts_event 60)) valid)
        ∙ ap (elem s) (map-symbols 60 valid)
        ∙ h in
      let here : ltb 0 (count_if (λ b. b.0 == s) (window_buckets 60 valid)) ≡ true =
        count_if-elem s (window_buckets 60 valid) known in
      ground (arith, here)
