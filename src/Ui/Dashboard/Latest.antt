-- ===== src/Ui/Dashboard/Latest.antt =====
-- The row that the dashboard (src/tickstream/ui/dashboard.py) shows for each symbol.
use tickstream_streaming_lak.Prelude.{
  suc, ltb, length, subst, String, ◌≡◌, refl, ap, ◌∙◌, sym, Bool, true, false, List, [], ◌∷◌, map,
  keep, All, All-imp, arith, inl, inr, Bool-cases,
}
use tickstream_streaming_lak.Prelude.Int.{leb_ℤ}
use tickstream_streaming_lak.Prelude.Eq.{◌==◌, string_eq}
use tickstream_streaming_lak.Prelude.Group.{elem, AllDifferent}
use tickstream_streaming_lak.Prelude.Sort.{
  sort, insert, IsSorted, sort-IsSorted, sort-perm, sort-All, length-Perm,
}
use tickstream_streaming_lak.Prelude.Text.{str_leb_total, str_leb_trans}
use mathlib.Core.List.{Mem, mem-cons}
use mathlib.Core.Logic.Or
use text.Mathlib.TextEquality.{eq_iff}
use tickstream_streaming_lak.Py.{Double}
use tickstream_streaming_lak.Lake.Iceberg.{is_1m}
use tickstream_streaming_lak.Metrics.{WindowMetrics, key_leb}
use tickstream_streaming_lak.Metrics.Reference.{key_leb_total, key_leb_trans}
use tickstream_streaming_lak.Ui.Dashboard.{
  has_symbol, last_of_each, symbol_leb, latest, one_minute, Loaded, Page, no_windows, panels,
  panels_of, page,
}

module _ {F : Type 0} where
  abbrev pub symbols : List (WindowMetrics F) → List String
  symbols rows = map (λ m. m.symbol) rows

  has_symbol-elem :
      (s : String) (rows : List (WindowMetrics F)) → has_symbol s rows ≡ elem s (symbols rows)
  unfolding elem
  has_symbol-elem s [] = refl
  has_symbol-elem s (m ∷ ms) = ground (arith, has_symbol-elem s ms)

  elem-last :
      (s : String) (rows : List (WindowMetrics F))
      → elem s (symbols (last_of_each rows)) ≡ elem s (symbols rows)
  unfolding elem last_of_each
  elem-last s [] = refl
  elem-last s (m ∷ ms) = elim (Bool-cases (has_symbol m.symbol ms)) [
    | inl b ↦
        rw b (ground (arith, elem-last s ms, has_symbol-elem m.symbol ms, b, eq_iff m.symbol s))
    | inr b ↦ rw b (ground (arith, elem-last s ms))
  ]

  AllDifferent-last : (rows : List (WindowMetrics F)) → AllDifferent (symbols (last_of_each rows))
  unfolding last_of_each
  AllDifferent-last [] = tt
  AllDifferent-last (m ∷ ms) = elim (Bool-cases (has_symbol m.symbol ms)) [
    | inl b ↦ rw b (AllDifferent-last ms)
    | inr b ↦
        rw b (elem-last m.symbol ms ∙ sym (has_symbol-elem m.symbol ms) ∙ b, AllDifferent-last ms)
  ]

  -- Sorting keeps the symbols, and that none stands twice.
  module _ (le : WindowMetrics F → WindowMetrics F → Bool) where
    elem-insert_symbol :
        (s : String) (m : WindowMetrics F) (rows : List (WindowMetrics F))
        → elem s (symbols (insert le m rows)) ≡ elem s (symbols (m ∷ rows))
    unfolding elem insert
    elem-insert_symbol s m [] = refl
    elem-insert_symbol s m (n ∷ ns) = ground (arith, elem-insert_symbol s m ns)

    elem-sort_symbol :
        (s : String) (rows : List (WindowMetrics F))
        → elem s (symbols (sort le rows)) ≡ elem s (symbols rows)
    unfolding elem sort
    elem-sort_symbol s [] = refl
    elem-sort_symbol s (m ∷ ms) =
        elem-insert_symbol s m (sort le ms) ∙ ground (arith, elem-sort_symbol s ms)

    AllDifferent-insert_symbol :
        (m : WindowMetrics F) (rows : List (WindowMetrics F))
        → elem m.symbol (symbols rows) ≡ false
        → AllDifferent (symbols rows)
        → AllDifferent (symbols (insert le m rows))
    unfolding elem insert
    AllDifferent-insert_symbol m [] h a = (refl, tt)
    AllDifferent-insert_symbol m (n ∷ ns) h (b, a) = ground (
      arith,
      AllDifferent-insert_symbol m ns,
      elem-insert_symbol n.symbol m ns,
      eq_iff m.symbol n.symbol,
      eq_iff n.symbol m.symbol,
    )

    AllDifferent-sort_symbol :
        (rows : List (WindowMetrics F))
        → AllDifferent (symbols rows)
        → AllDifferent (symbols (sort le rows))
    unfolding sort
    AllDifferent-sort_symbol [] a = tt
    AllDifferent-sort_symbol (m ∷ ms) (b, a) =
        AllDifferent-insert_symbol m (sort le ms) (elem-sort_symbol m.symbol ms ∙ b)
          (AllDifferent-sort_symbol ms a)

  -- No window of the row's symbol, among these, starts later.
  abbrev pub IsNewest : List (WindowMetrics F) → WindowMetrics F → Type 0
  IsNewest rows m =
      All (λ n. (n.symbol == m.symbol) ≡ true → leb_ℤ n.window_start m.window_start ≡ true) rows

  All-last :
      (P : WindowMetrics F → Type 0) (rows : List (WindowMetrics F))
      → All P rows
      → All P (last_of_each rows)
  unfolding last_of_each
  All-last P [] h = tt
  All-last P (m ∷ ms) (p, h) = elim (Bool-cases (has_symbol m.symbol ms)) [
    | inl b ↦ rw b (All-last P ms h)
    | inr b ↦ rw b (p, All-last P ms h)
  ]

  newest_alone :
      (m : WindowMetrics F) (rows : List (WindowMetrics F))
      → has_symbol m.symbol rows ≡ false
      → IsNewest rows m
  newest_alone m [] h = tt
  newest_alone m (n ∷ ns) h = ((λ e. ground (arith, h, e)), newest_alone m ns (ground (arith, h)))

module _ {ℓ} {A : Type ℓ} where
  All-both :
      (P Q R : A → Type 0) (xs : List A)
      → ((x : A) → P x → Q x → R x)
      → All P xs
      → All Q xs
      → All R xs
  All-both P Q R [] f p q = tt
  All-both P Q R (x ∷ xs) f (px, p) (qx, q) = (f x px qx, All-both P Q R xs f p q)

  All-insert :
      (le : A → A → Bool) (P : A → Type 0) (x : A) (ys : List A)
      → All P (insert le x ys)
      → P x × All P ys
  unfolding insert
  All-insert le P x [] h = h
  All-insert le P x (y ∷ ys) h = elim (Bool-cases (le x y)) [
    | inl b ↦ rw b at h
    | inr b ↦
        let k : P y × All P (insert le x ys) = rw b at h in
        let (px, rest) = All-insert le P x ys k.1 in (px, (k.0, rest))
  ]

  -- What holds of all of a sorted list held before it was sorted.
  All-sort : (le : A → A → Bool) (P : A → Type 0) (xs : List A) → All P (sort le xs) → All P xs
  unfolding sort
  All-sort le P [] h = tt
  All-sort le P (x ∷ xs) h =
      let (px, rest) = All-insert le P x (sort le xs) h in (px, All-sort le P xs rest)

  All-Mem : (xs : List A) → All (λ x. Mem x xs) xs
  All-Mem [] = tt
  All-Mem (x ∷ xs) =
      (mem-cons.1 (Or.inl refl), All-imp _ _ xs (λ y m. mem-cons.1 (Or.inr m)) (All-Mem xs))

  sort-nil : (le : A → A → Bool) (xs : List A) → sort le xs ≡ [] → xs ≡ []
  sort-nil le [] h = refl
  sort-nil le (x ∷ xs) h =
      let none : suc (length xs) ≡ 0 = sym (length-Perm (sort-perm le (x ∷ xs))) ∙ ap length h in
      absurd (omega arith)

module _ {F : Type 0} ⦃d : Double F⦄ where
  last_of_each-newest :
      (rows : List (WindowMetrics F))
      → IsSorted key_leb rows
      → All (IsNewest rows) (last_of_each rows)
  unfolding last_of_each key_leb
  last_of_each-newest [] h = tt
  last_of_each-newest (m ∷ ms) (below, h) =
      let rest : All (IsNewest (m ∷ ms)) (last_of_each ms) =
        All-both (λ n. key_leb m n ≡ true) (IsNewest ms) (IsNewest (m ∷ ms)) (last_of_each ms)
          (λ n le newest. ((λ e. ground (arith, le, e)), newest)) (All-last _ ms below)
          (last_of_each-newest ms h) in
      elim (Bool-cases (has_symbol m.symbol ms)) [
        | inl b ↦ rw b rest
        | inr b ↦ rw b (((λ e. ground arith), newest_alone m ms b), rest)
      ]

  -- One row for each symbol of the windows of a minute, the newest of them, by symbol.
  pub record IsLatest (minutes rows : List (WindowMetrics F)) : Type 0 where
    pub drawn : All (λ m. Mem m minutes) rows
    pub newest : All (IsNewest minutes) rows
    pub once : AllDifferent (symbols rows)
    pub every : (s : String) → elem s (symbols rows) ≡ elem s (symbols minutes)
    pub ordered : IsSorted symbol_leb rows

  latest-IsLatest :
      (gold : List (WindowMetrics F)) → IsLatest (keep is_1m gold) (latest (one_minute gold))
  unfolding latest one_minute
  latest-IsLatest gold =
      let minutes = keep is_1m gold in
      let rows = sort key_leb minutes in
      let newest =
        last_of_each-newest rows (sort-IsSorted key_leb key_leb_total key_leb_trans minutes) in
      record {
        drawn =
            sort-All symbol_leb _ (last_of_each rows)
              (All-last _ rows (sort-All key_leb _ minutes (All-Mem minutes)));
        newest = sort-All symbol_leb _ (last_of_each rows) (
            All-imp (IsNewest rows) (IsNewest minutes) (last_of_each rows)
              (λ m. All-sort key_leb _ minutes) newest);
        once = AllDifferent-sort_symbol symbol_leb (last_of_each rows) (AllDifferent-last rows);
        every = λ s.
            elem-sort_symbol symbol_leb s (last_of_each rows)
            ∙ elem-last s rows
            ∙ elem-sort_symbol key_leb s minutes;
        ordered =
            sort-IsSorted symbol_leb (λ m n. str_leb_total m.symbol n.symbol)
              (λ m n o. str_leb_trans m.symbol n.symbol o.symbol) (last_of_each rows);
      }

  -- What a page shows of the gold rows.
  abbrev pub Shows : List (WindowMetrics F) → Page F → Type 0
  Shows gold (no_windows result) = keep is_1m gold ≡ []
  Shows gold (panels p) =
      IsLatest (keep is_1m gold) p.latest_rows
      × All (λ m. ltb 0 m.trade_count ≡ true) p.trades
      × All (λ m. ltb 0 m.ticker_count ≡ true) p.ticks

  All-keep_test :
      (test : WindowMetrics F → Bool) (rows : List (WindowMetrics F))
      → All (λ m. test m ≡ true) (keep test rows)
  All-keep_test test [] = tt
  All-keep_test test (m ∷ ms) = elim (Bool-cases (test m)) [
    | inl b ↦ rw b (b, All-keep_test test ms)
    | inr b ↦ rw b (All-keep_test test ms)
  ]

  -- The page stops below the title only if there are no windows of a minute. Else it shows, by
  -- symbol, exactly one row for each symbol that has a window of a minute, and this is one of the
  -- symbol's windows of which none starts later; and the charts of the trades and of the ticks draw
  -- only windows that have some.
  pub page-Shows : (loaded : Loaded F) → Shows loaded.gold (page loaded)
  unfolding page panels_of
  page-Shows loaded = go (one_minute loaded.gold) refl
    where
      go :
          (rows : List (WindowMetrics F))
          → one_minute loaded.gold ≡ rows
          → Shows loaded.gold (panels_of rows loaded)
      go [] e = sort-nil key_leb (keep is_1m loaded.gold) e
      go (m ∷ ms) e = (
        subst (λ rows. IsLatest (keep is_1m loaded.gold) (latest rows)) e
            (latest-IsLatest loaded.gold),
        All-keep_test (λ w. ltb 0 w.trade_count) (m ∷ ms),
        All-keep_test (λ w. ltb 0 w.ticker_count) (m ∷ ms),
      )
