-- ===== src/Metrics/Counts.antt =====
-- Every event that `compute_windows` (processing/metrics.py) can use is counted once.
use tickstream_streaming_lak.Prelude.{
  ℕ, ◌+◌, String, ◌≡◌, refl, ap, ◌∙◌, Bool, true, false, Option, some, List, [], ◌∷◌, map,
  if◌then◌else◌, count_if, arith, inl, inr, Bool-cases,
}
use tickstream_streaming_lak.Prelude.Eq.{◌==◌, string_eq, int_eq, pair_eq}
use tickstream_streaming_lak.Prelude.Dict.{Dict, get, put, get_default}
use tickstream_streaming_lak.Prelude.Sort.{sort, insert}
use tickstream_streaming_lak.Py.{Double}
use tickstream_streaming_lak.Schema.{MarketEvent, trade, ticker}
use tickstream_streaming_lak.Metrics.{
  BucketKey, bucket_of, Acc, fresh, add_trade, add_ticker, add_event, accumulate, WindowMetrics,
  window_metrics, key_leb, compute_windows,
}

module _ {F : Type 0} where
  -- A trade with a price and a size, or a tick with a bid and an ask.
  abbrev both : Option F → Option F → Bool
  both (some x) (some y) = true
  both x y = false

  abbrev pub is_complete : MarketEvent F → Bool
  is_complete e = elim e.event_type [
    | trade ↦ both e.price e.size
    | ticker ↦ both e.best_bid e.best_ask
  ]

  abbrev acc_count : Acc F → ℕ
  acc_count a = a.trades + a.tickers

  abbrev dict_count : Dict BucketKey (Acc F) → ℕ
  dict_count [] = 0
  dict_count ((k, a) ∷ acc) = acc_count a + dict_count acc

  abbrev pub total_events : List (WindowMetrics F) → ℕ
  total_events [] = 0
  total_events (m ∷ ms) = m.event_count + total_events ms

  total_events-insert :
      (le : WindowMetrics F → WindowMetrics F → Bool) (m : WindowMetrics F)
      (ms : List (WindowMetrics F))
      → total_events (insert le m ms) ≡ m.event_count + total_events ms
  unfolding insert
  total_events-insert le m [] = refl
  total_events-insert le m (n ∷ ms) = ground (arith, total_events-insert le m ms)

  total_events-sort :
      (le : WindowMetrics F → WindowMetrics F → Bool) (ms : List (WindowMetrics F))
      → total_events (sort le ms) ≡ total_events ms
  unfolding sort
  total_events-sort le [] = refl
  total_events-sort le (m ∷ ms) =
      total_events-insert le m (sort le ms) ∙ ap (λ n. m.event_count + n) (total_events-sort le ms)

module _ {F : Type 0} ⦃d : Double F⦄ where
  acc_count-add_event :
      (a : Acc F) (e : MarketEvent F)
      → acc_count (add_event a e) ≡ acc_count a + (if is_complete e then 1 else 0)
  unfolding add_event add_trade add_ticker
  acc_count-add_event a e = ground arith

  dict_count-put :
      (k : BucketKey) (a : Acc F) (acc : Dict BucketKey (Acc F))
      → dict_count (put k a acc) + acc_count (get_default k fresh acc)
        ≡ dict_count acc + acc_count a
  unfolding put get_default get
  dict_count-put k a [] = omega arith
  dict_count-put k a ((j, b) ∷ acc) = elim (Bool-cases (j == k)) [
    | inl h ↦ rw (h, get_default, get) (omega arith)
    | inr h ↦ rw (h, get_default, get) (omega (arith, dict_count-put k a acc))
  ]

  dict_count-accumulate :
      (w : ℕ) (events : List (MarketEvent F)) (acc : Dict BucketKey (Acc F))
      → dict_count (accumulate w events acc) ≡ dict_count acc + count_if is_complete events
  unfolding accumulate
  dict_count-accumulate w [] acc = omega arith
  dict_count-accumulate w (e ∷ es) acc =
      let key = bucket_of w e in
      let a = get_default key fresh acc in
      omega (
        arith,
        dict_count-accumulate w es (put key (add_event a e) acc),
        dict_count-put key (add_event a e) acc,
        acc_count-add_event a e,
      )

  total_events-map :
      (w : ℕ) (label : String) (acc : Dict BucketKey (Acc F))
      → total_events (map (window_metrics w label) acc) ≡ dict_count acc
  unfolding window_metrics
  total_events-map w label [] = refl
  total_events-map w label ((k, a) ∷ acc) = ap (λ n. acc_count a + n) (total_events-map w label acc)

  -- The event counts of all windows add up to the number of events that carry what their type
  -- needs: none is lost and none is counted twice.
  pub compute_windows-counts :
      (w : ℕ) (label : String) (events : List (MarketEvent F))
      → total_events (compute_windows w label events) ≡ count_if is_complete events
  unfolding compute_windows
  compute_windows-counts w label events =
      total_events-sort key_leb _
      ∙ total_events-map w label (accumulate w events [])
      ∙ dict_count-accumulate w events []
      ∙ (omega arith)
