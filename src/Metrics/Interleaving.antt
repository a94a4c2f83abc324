-- ===== src/Metrics/Interleaving.antt =====
-- `compute_windows` of processing/metrics.py on two lists that mix the events of the symbols in
-- different ways, as the partitions of a topic may.
use tickstream_streaming_lak.Prelude.{
  ◌⊎◌, ℕ, String, ◌≡◌, refl, ap, ap₂, sym, ◌∙◌, Bool, true, false, not, ◌&&◌, Option, none, some,
  List, [], ◌∷◌, map, keep, arith, inl, inr, Bool-cases,
}
use tickstream_streaming_lak.Prelude.Int.{ℤ, leb_ℤ, eq_of_parts}
use tickstream_streaming_lak.Prelude.Eq.{Eq, ◌==◌, string_eq, int_eq, pair_eq, eq_of_==}
use tickstream_streaming_lak.Prelude.Group.{elem}
use tickstream_streaming_lak.Prelude.Sets.{sorted_set_cong}
use tickstream_streaming_lak.Prelude.Sort.{sort, insert}
use tickstream_streaming_lak.Prelude.Text.{str_leb_antisym}
use mathlib.Core.Path.{fun_ext}
use mathlib.Core.List.{foldl}
use text.Mathlib.TextEquality.{eq_iff}
use tickstream_streaming_lak.Py.{Double}
use tickstream_streaming_lak.Schema.{MarketEvent, EventType, trade, ticker, is_ticker, is_trade}
use tickstream_streaming_lak.Metrics.{
  BucketKey, bucket_of, Acc, fresh, add_trade, add_ticker, add_event, WindowMetrics, window_metrics,
  key_leb, compute_windows,
}
use tickstream_streaming_lak.Metrics.Reference.{
  window_of, buckets, key_leb_total, key_leb_trans, compute_windows-by_bucket,
}

-- Sorting images is sorting by the images.
module _ {ℓ κ} {A : Type ℓ} {B : Type κ} (le : B → B → Bool) (f : A → B) where
  insert-map :
      (x : A) (ys : List A)
      → insert le (f x) (map f ys) ≡ map f (insert (λ a b. le (f a) (f b)) x ys)
  unfolding insert
  insert-map x [] = refl
  insert-map x (y ∷ ys) = elim (Bool-cases (le (f x) (f y))) [
    | inl b ↦ rw b
    | inr b ↦ rw b (ap (λ l. f y ∷ l) (insert-map x ys))
  ]

  sort-map : (xs : List A) → sort le (map f xs) ≡ map f (sort (λ a b. le (f a) (f b)) xs)
  unfolding sort
  sort-map [] = refl
  sort-map (x ∷ xs) = ap (insert le (f x)) (sort-map xs) ∙ insert-map x _

leb_ℤ_antisym : (a b : ℤ) → leb_ℤ a b ≡ true → leb_ℤ b a ≡ true → a ≡ b
leb_ℤ_antisym a b h k = eq_of_parts a b (ground (arith, h, k))

abbrev is_empty {ℓ} : {A : Type ℓ} → List A → Bool
is_empty [] = true
is_empty (x ∷ xs) = false

-- A key is among those of a list exactly when some element has it.
elem-keys {ℓ κ} :
    {A : Type ℓ} {K : Type κ} ⦃e : Eq K⦄ (key : A → K) (k : K) (xs : List A)
    → elem k (map key xs) ≡ not (is_empty (keep (λ x. key x == k) xs))
unfolding elem
elem-keys key k [] = refl
elem-keys key k (x ∷ xs) = elim (Bool-cases (key x == k)) [
  | inl b ↦ rw b
  | inr b ↦ rw b (elem-keys key k xs)
]

-- The events of one type and one symbol, in their order.
abbrev pub stream_of :
    {F : Type 0} → (EventType → Bool) → String → List (MarketEvent F) → List (MarketEvent F)
stream_of test s = keep (λ e. test e.event_type && e.symbol == s)

type-cases : (t : EventType) → (t ≡ trade) ⊎ (t ≡ ticker)
type-cases trade = inl refl
type-cases ticker = inr refl

module _ {F : Type 0} ⦃d : Double F⦄ where
  window_of-antisym :
      (w : ℕ) (label : String) (events : List (MarketEvent F)) (a b : BucketKey)
      → key_leb (window_of w label events a) (window_of w label events b) ≡ true
      → key_leb (window_of w label events b) (window_of w label events a) ≡ true
      → a ≡ b
  unfolding key_leb window_metrics
  window_of-antisym w label events (s, t) (s', t') h k = elim (Bool-cases (s == s')) [
    | inl b ↦
        let same : s ≡ s' = eq_of_== s s' b in
        ap₂ (λ x y. (x, y)) same
          (leb_ℤ_antisym t t' (ground (arith, h, b))
            (ground (arith, k, eq_iff s s', eq_iff s' s, b)))
    | inr b ↦ absurd (ground (arith, h, k, b, eq_iff s s', eq_iff s' s, str_leb_antisym s s'))
  ]

  abbrev of_bucket : ℕ → BucketKey → List (MarketEvent F) → List (MarketEvent F)
  of_bucket w key = keep (λ e. bucket_of w e == key)

  abbrev ticks : List (MarketEvent F) → List (MarketEvent F)
  ticks = keep (λ e. is_ticker e.event_type)

  abbrev trades : List (MarketEvent F) → List (MarketEvent F)
  trades = keep (λ e. is_trade e.event_type)

  -- Trades and ticks change different parts of an accumulator.
  abbrev merged : Acc F → Acc F → Acc F
  merged a b = record {
    pv = a.pv;
    vol = a.vol;
    trades = a.trades;
    spread_sum = b.spread_sum;
    mid_sum = b.mid_sum;
    tickers = b.tickers;
  }

  add_trade-merged :
      (a b : Acc F) (price size : Option F)
      → add_trade (merged a b) price size ≡ merged (add_trade a price size) b
  unfolding add_trade
  add_trade-merged a b (some price) (some size) = refl
  add_trade-merged a b none size = refl
  add_trade-merged a b (some price) none = refl

  add_ticker-merged :
      (a b : Acc F) (bid ask : Option F)
      → add_ticker (merged a b) bid ask ≡ merged a (add_ticker b bid ask)
  unfolding add_ticker
  add_ticker-merged a b (some bid) (some ask) = refl
  add_ticker-merged a b none ask = refl
  add_ticker-merged a b (some bid) none = refl

  foldl-merged :
      (a b : Acc F) (es : List (MarketEvent F))
      → foldl add_event (merged a b) es
        ≡ merged (foldl add_event a (trades es)) (foldl add_event b (ticks es))
  unfolding add_event
  foldl-merged a b [] = refl
  foldl-merged a b (e ∷ es) = elim (type-cases e.event_type) [
    | inl t ↦
        rw (t, add_trade-merged a b e.price e.size) (foldl-merged (add_trade a e.price e.size) b es)
    | inr t ↦
        rw (t, add_ticker-merged a b e.best_bid e.best_ask)
          (foldl-merged a (add_ticker b e.best_bid e.best_ask) es)
  ]

  -- Equal trades and equal ticks give equal accumulators.
  foldl-types :
      (xs ys : List (MarketEvent F))
      → trades xs ≡ trades ys
      → ticks xs ≡ ticks ys
      → foldl add_event fresh xs ≡ foldl add_event fresh ys
  foldl-types xs ys h k =
      foldl-merged fresh fresh xs
      ∙ ap₂ (λ t u. merged (foldl add_event fresh t) (foldl add_event fresh u)) h k
      ∙ sym (foldl-merged fresh fresh ys)

  is_empty-types :
      (xs : List (MarketEvent F)) → is_empty xs ≡ (is_empty (trades xs) && is_empty (ticks xs))
  is_empty-types [] = refl
  is_empty-types (x ∷ xs) = elim (type-cases x.event_type) [
    | inl t ↦ rw t
    | inr t ↦ rw t (ground (arith, Bool-cases (is_empty (trades xs))))
  ]

  -- Buckets with equal trades and equal ticks give equal windows.
  buckets_decide :
      (w : ℕ) (label : String) (xs ys : List (MarketEvent F))
      → ((key : BucketKey) → trades (of_bucket w key xs) ≡ trades (of_bucket w key ys))
      → ((key : BucketKey) → ticks (of_bucket w key xs) ≡ ticks (of_bucket w key ys))
      → compute_windows w label xs ≡ compute_windows w label ys
  buckets_decide w label xs ys h k =
      let f : BucketKey → WindowMetrics F = window_of w label xs in
      let same : window_of w label xs ≡ window_of w label ys = fun_ext λ key.
        ap (λ a. window_metrics w label (key, a))
          (foldl-types (of_bucket w key xs) (of_bucket w key ys) (h key) (k key)) in
      let le : BucketKey → BucketKey → Bool = λ a b. key_leb (f a) (f b) in
      let keys : sort le (buckets w xs) ≡ sort le (buckets w ys) =
        sorted_set_cong le (λ a b. key_leb_total (f a) (f b))
          (λ a b c. key_leb_trans (f a) (f b) (f c)) (window_of-antisym w label xs)
          (map (bucket_of w) xs) (map (bucket_of w) ys)
          (λ key.
            elem-keys (bucket_of w) key xs
            ∙ ap not (is_empty-types (of_bucket w key xs))
            ∙ ap₂ (λ t u. not (is_empty t && is_empty u)) (h key) (k key)
            ∙ ap not (sym (is_empty-types (of_bucket w key ys)))
            ∙ sym (elem-keys (bucket_of w) key ys)) in
      (compute_windows-by_bucket w label xs).0
      ∙ sort-map key_leb f (buckets w xs)
      ∙ ap (map f) keys
      ∙ sym (sort-map key_leb f (buckets w ys))
      ∙ ap (λ g. sort key_leb (map g (buckets w ys))) same
      ∙ sym (compute_windows-by_bucket w label ys).0

  -- A bucket's trades, or its ticks, are a part of what its symbol has.
  of_bucket-stream_of :
      (test : EventType → Bool) (w : ℕ) (key : BucketKey) (xs : List (MarketEvent F))
      → of_bucket w key (stream_of test key.0 xs)
        ≡ keep (λ e. test e.event_type) (of_bucket w key xs)
  of_bucket-stream_of test w key [] = refl
  of_bucket-stream_of test w key (x ∷ xs) = elim (Bool-cases (x.symbol == key.0)) [
    | inl b ↦ ground (arith, b, of_bucket-stream_of test w key xs)
    | inr b ↦ ground (arith, b, of_bucket-stream_of test w key xs)
  ]

  streams_decide :
      (test : EventType → Bool) (w : ℕ) (key : BucketKey) (xs ys : List (MarketEvent F))
      → stream_of test key.0 xs ≡ stream_of test key.0 ys
      → keep (λ e. test e.event_type) (of_bucket w key xs)
        ≡ keep (λ e. test e.event_type) (of_bucket w key ys)
  streams_decide test w key xs ys h =
      sym (of_bucket-stream_of test w key xs)
      ∙ ap (of_bucket w key) h
      ∙ of_bucket-stream_of test w key ys

  -- The windows depend only on each symbol's trades in their order and on each symbol's ticks in
  -- their order: two lists in which every symbol has the same trades in the same order, and the same
  -- ticks in the same order, have the same windows, however the symbols and the two types are mixed.
  pub compute_windows_interleaving :
      (w : ℕ) (label : String) (xs ys : List (MarketEvent F))
      → ((s : String) → stream_of is_trade s xs ≡ stream_of is_trade s ys)
      → ((s : String) → stream_of is_ticker s xs ≡ stream_of is_ticker s ys)
      → compute_windows w label xs ≡ compute_windows w label ys
  compute_windows_interleaving w label xs ys h k =
      buckets_decide w label xs ys (λ key. streams_decide is_trade w key xs ys (h key.0))
        (λ key. streams_decide is_ticker w key xs ys (k key.0))
