-- ===== src/Metrics/Closed.antt =====
-- `closed_windows` of processing/metrics.py, under the watermarks that the same events give.
use tickstream_streaming_lak.Prelude.{
  ℕ, ◌*◌, String, ◌≡◌, ◌↔◌, Bool, true, List, [], ◌∷◌, ◌++◌, keep, All, arith, inl, inr, Bool-cases,
  Option-cases,
}
use tickstream_streaming_lak.Prelude.Eq.{◌==◌, string_eq, int_eq}
use tickstream_streaming_lak.Prelude.Int.{pos, ◌+ℤ◌, ◌≤ℤ◌, int_beq_iff}
use tickstream_streaming_lak.Prelude.Dict.{get}
use tickstream_streaming_lak.Prelude.Group.{elem}
use tickstream_streaming_lak.Time.{Datetime, us_per_second}
use tickstream_streaming_lak.Schema.{MarketEvent}
use tickstream_streaming_lak.Metrics.{
  max_event_ts_by_symbol, WindowMetrics, has_closed, closed_windows,
}
use tickstream_streaming_lak.Metrics.Watermark.{
  times_of, max_event_ts_by_symbol-latest, max_event_ts_by_symbol-none,
}

le_of_elem :
    (t m : Datetime) (ts : List Datetime) → All (λ u. u ≤ℤ m) ts → elem t ts ≡ true → t ≤ℤ m
unfolding elem
le_of_elem t m [] h e = cc
le_of_elem t m (u ∷ ts) (hu, h) e = elim (Bool-cases (u == t)) [
  | inl b ↦ rw (← (int_beq_iff u t).0 b) hu
  | inr b ↦ le_of_elem t m ts h (rw b at e)
]

module _ {F : Type 0} where
  -- Some event of the symbol lies at or behind the end of the window and the grace.
  abbrev pub IsPassed : List (MarketEvent F) → ℕ → WindowMetrics F → Type 0
  IsPassed events grace m =
      (t : Datetime) × (elem t (times_of m.symbol events) ≡ true)
      × (m.window_end +ℤ pos (grace * us_per_second) ≤ℤ t)

  has_closed_sound :
      (events : List (MarketEvent F)) (grace : ℕ) (m : WindowMetrics F)
      → has_closed (get m.symbol (max_event_ts_by_symbol events)) grace m ≡ true
      → IsPassed events grace m
  unfolding has_closed
  has_closed_sound events grace m h =
      elim (Option-cases (get m.symbol (max_event_ts_by_symbol events))) [
        | inl n ↦ absurd (cc (rw (n, has_closed) at h))
        | inr (wm, e) ↦
            (wm, (max_event_ts_by_symbol-latest m.symbol events wm e).1, ground (arith, h, e))
      ]

  has_closed_complete :
      (events : List (MarketEvent F)) (grace : ℕ) (m : WindowMetrics F)
      → IsPassed events grace m
      → has_closed (get m.symbol (max_event_ts_by_symbol events)) grace m ≡ true
  unfolding has_closed elem
  has_closed_complete events grace m (t, member, le) =
      elim (Option-cases (get m.symbol (max_event_ts_by_symbol events))) [
        | inl n ↦ absurd (cc (rw (max_event_ts_by_symbol-none m.symbol events n) at member))
        | inr (wm, e) ↦
            let top : t ≤ℤ wm =
              le_of_elem t wm (times_of m.symbol events)
                (max_event_ts_by_symbol-latest m.symbol events wm e).0 member in
            rw e (ground arith)
      ]

  -- Under the watermarks of a list of events a window is closed exactly when some event of its
  -- symbol lies at or behind the window's end plus the grace.
  pub has_closed_iff :
      (events : List (MarketEvent F)) (grace : ℕ) (m : WindowMetrics F)
      → (has_closed (get m.symbol (max_event_ts_by_symbol events)) grace m ≡ true)
        ↔ IsPassed events grace m
  has_closed_iff events grace m =
      (has_closed_sound events grace m, has_closed_complete events grace m)

  elem-times_of-append :
      (s : String) (t : Datetime) (es more : List (MarketEvent F))
      → elem t (times_of s es) ≡ true
      → elem t (times_of s (es ++ more)) ≡ true
  unfolding elem
  elem-times_of-append s t [] more h = cc
  elem-times_of-append s t (e ∷ es) more h = ground (arith, elem-times_of-append s t es more)

  keep-All :
      (p : WindowMetrics F → Bool) (q : WindowMetrics F → Bool) (ms : List (WindowMetrics F))
      → ((m : WindowMetrics F) → p m ≡ true → q m ≡ true)
      → All (λ m. q m ≡ true) (keep p ms)
  keep-All p q [] f = tt
  keep-All p q (m ∷ ms) f = elim (Bool-cases (p m)) [
    | inl b ↦ rw b (f m b, keep-All p q ms f)
    | inr b ↦ rw b (keep-All p q ms f)
  ]

  -- A window that `closed_windows` returns stays closed when more events arrive.
  pub closed_windows_stay :
      (metrics : List (WindowMetrics F)) (events more : List (MarketEvent F)) (grace : ℕ)
      → All
          (λ m. has_closed (get m.symbol (max_event_ts_by_symbol (events ++ more))) grace m ≡ true)
          (closed_windows metrics (max_event_ts_by_symbol events) grace)
  unfolding closed_windows
  closed_windows_stay metrics events more grace = keep-All _ _ metrics λ m h.
      let (t, member, le) = has_closed_sound events grace m h in
      has_closed_complete (events ++ more) grace m
        (t, elem-times_of-append m.symbol t events more member, le)
