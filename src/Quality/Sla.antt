-- ===== src/Quality/Sla.antt =====
-- quality/sla.py: what the SLA report says of the rows of the lake. The rows of the tables are
-- arguments, as are numpy's percentile, Python's `round` and the seconds of a duration.
pub mod Expected
pub mod Passed
use tickstream_streaming_lak.Prelude.{
  ℕ, ◌+◌, String, ◌≡◌, Bool, true, false, ◌&&◌, ◌||◌, not, Option, none, some, List, [], ◌∷◌, map,
  keep, All, length, count_if, if◌then◌else◌, ltb, nat_beq, arith, inl, inr, Bool-cases,
}
use tickstream_streaming_lak.Prelude.Int.{ℤ, ◌-ℤ◌}
use tickstream_streaming_lak.Prelude.Eq.{◌==◌, string_eq, int_eq, pair_eq}
use tickstream_streaming_lak.Prelude.Dict.{Dict, get_default, put}
use tickstream_streaming_lak.Prelude.Group.{distinct}
use tickstream_streaming_lak.Prelude.Sort.{sort}
use tickstream_streaming_lak.Prelude.Text.{str_leb}
use tickstream_streaming_lak.Py.{Double}
use tickstream_streaming_lak.Time.{Datetime}
use tickstream_streaming_lak.Schema.{MarketEvent, trade, ticker}
use tickstream_streaming_lak.Metrics.{WindowMetrics, window_sizes, window_start_seconds}

pub record SlaReport (F : Type 0) : Type 0 where
  pub latency_p95_s : F
  pub windows_produced : ℕ
  pub windows_expected : ℕ
  pub completeness_pct : F
  pub completeness_by_symbol : Dict String F
  pub gold_violations : ℕ

-- What is computed by other libraries.
pub record Numeric (F : Type 0) : Type 0 where
  pub percentile_95 : List F → F
  pub round : F → ℕ → F
  pub total_seconds : ℤ → F

-- `sum(d.values())`
abbrev sum_values : Dict String ℕ → ℕ
sum_values [] = 0
sum_values ((k, n) ∷ d) = n + sum_values d

-- `out[sym] += n`, for the sizes of the groups of one window size
unfoldable pub add_counts : List (String × ℕ) → Dict String ℕ → Dict String ℕ
add_counts [] out = out
add_counts ((s, n) ∷ rest) out = add_counts rest (put s (get_default s 0 out + n) out)

unfoldable pub group_sizes : List (String × ℤ) → List (String × ℕ)
group_sizes buckets =
    map (λ s. (s, count_if (λ b. b.0 == s) buckets))
      (sort str_leb (distinct (map (λ b. b.0) buckets)))

module _ {F : Type 0} ⦃d : Double F⦄ where
  abbrev pub latency_ok : SlaReport F → Bool
  latency_ok s = d.lt s.latency_p95_s (d.of_count 60)

  abbrev pub completeness_ok : SlaReport F → Bool
  completeness_ok s = d.le (d.of_count 99) s.completeness_pct

  abbrev pub violations_ok : SlaReport F → Bool
  violations_ok s = nat_beq s.gold_violations 0

  unfoldable pub passed : SlaReport F → Bool
  passed s = latency_ok s && completeness_ok s && violations_ok s

  -- `isna`: no value, or a NaN, which is not equal to itself
  abbrev pub is_na : Option F → Bool
  is_na none = true
  is_na (some x) = not (d.eq x x)

  -- A comparison of a column is false where there is no value.
  abbrev pub holds : (F → Bool) → Option F → Bool
  holds p none = false
  holds p (some x) = p x

  -- `_silver_valid`, for one row
  unfoldable pub is_silver_valid : MarketEvent F → Bool
  is_silver_valid e = elim e.event_type [
    | trade ↦
        (elim e.trade_id [ none ↦ false | some t ↦ true ])
        && holds (λ p. d.lt d.zero_f p) e.price
        && holds (λ q. d.le d.zero_f q) e.size
    | ticker ↦
        not (is_na e.best_bid)
        && not (is_na e.best_ask)
        && (elim e.best_bid [ none ↦ false | some b ↦ holds (λ a. d.le b a) e.best_ask ])
  ]

  -- `drop_duplicates` of the rows (symbol, bucket)
  unfoldable pub window_buckets : ℕ → List (MarketEvent F) → List (String × ℤ)
  window_buckets secs rows =
      distinct (map (λ e. (e.symbol, window_start_seconds e.ts_event secs)) rows)

  abbrev pub expected_from : List (MarketEvent F) → Dict String ℕ → Dict String ℕ → Dict String ℕ
  expected_from valid [] out = out
  expected_from valid ((label, secs) ∷ windows) out =
      expected_from valid windows (add_counts (group_sizes (window_buckets secs valid)) out)

  unfoldable pub expected_windows_by_symbol : List (MarketEvent F) → Dict String ℕ
  expected_windows_by_symbol bronze = expected_from (keep is_silver_valid bronze) window_sizes []

  -- Whether a gold row breaks an invariant.
  unfoldable pub is_violation : WindowMetrics F → Bool
  is_violation m =
      (ltb 0 m.ticker_count && holds (λ x. d.lt x d.zero_f) m.avg_spread)
      || (ltb 0 m.trade_count && (is_na m.vwap || holds (λ x. d.le x d.zero_f) m.vwap))
      || not (nat_beq m.event_count (m.trade_count + m.ticker_count))

  unfoldable pub gold_violations : List (WindowMetrics F) → ℕ
  gold_violations gold = count_if is_violation gold

  -- `min(values)`
  unfoldable pub least : F → List F → F
  least best [] = best
  least best (x ∷ xs) = least (if d.lt x best then x else best) xs

  -- `min(by_symbol.values()) if by_symbol else 100.0`
  unfoldable pub worst : Dict String F → F
  worst [] = d.of_count 100
  worst ((s, x) ∷ rest) = least x (map (λ entry. entry.1) rest)

module _ {F : Type 0} ⦃d : Double F⦄ (np : Numeric F) where
  -- `round(100.0 * produced / exp, 2)`
  abbrev pub percentage : ℕ → ℕ → F
  percentage produced exp =
      np.round (d.div (d.mul (d.of_count 100) (d.of_count produced)) (d.of_count exp)) 2

  unfoldable pub completeness : List (WindowMetrics F) → Dict String ℕ → Dict String F
  completeness gold expected =
      map (λ entry. (entry.0, percentage (count_if (λ m. m.symbol == entry.0) gold) entry.1))
        expected

  abbrev latency : Datetime → List (MarketEvent F) → F
  latency built [] = d.zero_f
  latency built (e ∷ es) =
      np.percentile_95 (map (λ row. np.total_seconds (built -ℤ row.ts_ingest)) (e ∷ es))

  unfoldable pub measure_sla :
      List (MarketEvent F) → List (WindowMetrics F) → Datetime → SlaReport F
  measure_sla bronze gold built =
      let expected = expected_windows_by_symbol bronze in
      let by_symbol = completeness gold expected in
      record {
        latency_p95_s = np.round (latency built bronze) 3;
        windows_produced = length gold;
        windows_expected = sum_values expected;
        completeness_pct = worst by_symbol;
        completeness_by_symbol = by_symbol;
        gold_violations = gold_violations gold;
      }
