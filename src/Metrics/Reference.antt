-- ===== src/Metrics/Reference.antt =====
-- `compute_windows` of processing/metrics.py against a description bucket by bucket.
use tickstream_streaming_lak.Prelude.{
  ℕ, String, ◌≡◌, refl, ap, ◌∙◌, true, false, List, [], ◌∷◌, map, arith,
}
use tickstream_streaming_lak.Prelude.Eq.{string_eq, int_eq, pair_eq}
use tickstream_streaming_lak.Prelude.Dict.{Dict}
use tickstream_streaming_lak.Prelude.Text.{str_leb_total, str_leb_trans, str_leb_antisym}
use tickstream_streaming_lak.Prelude.Sort.{sort, IsSorted, sort-IsSorted}
use tickstream_streaming_lak.Prelude.Group.{
  group, group_lem, distinct, AllDifferent, add_keys-AllDifferent, members,
}
use text.Mathlib.TextEquality.{eq_iff}
use mathlib.Core.List.{foldl, map-map}
use tickstream_streaming_lak.Py.{Double}
use tickstream_streaming_lak.Schema.{MarketEvent}
use tickstream_streaming_lak.Metrics.{
  BucketKey, bucket_of, Acc, fresh, add_event, accumulate, WindowMetrics, window_metrics, key_leb,
  compute_windows,
}

module _ {F : Type 0} ⦃d : Double F⦄ where
  accumulate-eq-group :
      (w : ℕ) (events : List (MarketEvent F)) (acc : Dict BucketKey (Acc F))
      → accumulate w events acc ≡ group (bucket_of w) fresh add_event events acc
  unfolding accumulate group
  accumulate-eq-group w [] acc = refl
  accumulate-eq-group w (e ∷ es) acc = accumulate-eq-group w es _

  -- The window of one key, from the events of that key alone, in their order.
  abbrev pub window_of : ℕ → String → List (MarketEvent F) → BucketKey → WindowMetrics F
  window_of w label events key =
      window_metrics w label
        (key, foldl add_event fresh (members (bucket_of w) fresh add_event key events))

  abbrev pub buckets : ℕ → List (MarketEvent F) → List BucketKey
  buckets w events = distinct (map (bucket_of w) events)

  pub key_leb_total : (m n : WindowMetrics F) → key_leb m n ≡ false → key_leb n m ≡ true
  unfolding key_leb
  key_leb_total m n h =
      ground
        (arith, eq_iff m.symbol n.symbol, eq_iff n.symbol m.symbol, str_leb_total m.symbol n.symbol)

  pub key_leb_trans :
      (m n o : WindowMetrics F) → key_leb m n ≡ true → key_leb n o ≡ true → key_leb m o ≡ true
  unfolding key_leb
  key_leb_trans m n o h k = ground (
    arith,
    eq_iff m.symbol n.symbol,
    eq_iff n.symbol o.symbol,
    eq_iff m.symbol o.symbol,
    str_leb_trans m.symbol n.symbol o.symbol,
    str_leb_antisym m.symbol n.symbol,
  )

  -- `compute_windows` gives one window for each (symbol, window start) that some event has, each
  -- computed from exactly the events of that bucket, in their order, whatever events of other
  -- buckets stand between them; no bucket has two windows; and the windows are sorted by symbol,
  -- then by start.
  pub compute_windows-by_bucket :
      (w : ℕ) (label : String) (events : List (MarketEvent F))
      → (compute_windows w label events
          ≡ sort key_leb (map (window_of w label events) (buckets w events)))
        × AllDifferent (buckets w events)
        × IsSorted key_leb (compute_windows w label events)
  unfolding compute_windows
  compute_windows-by_bucket w label events = (
    ap (λ acc. sort key_leb (map (window_metrics w label) acc))
          (accumulate-eq-group w events [] ∙ group_lem (bucket_of w) fresh add_event events)
        ∙ ap (sort key_leb) (map-map _ _ _),
    add_keys-AllDifferent (map (bucket_of w) events) [] tt,
    sort-IsSorted key_leb key_leb_total key_leb_trans _,
  )
