-- ===== src/Metrics/Bounds.antt =====
-- `window_bounds` of processing/metrics.py: where the window of a time lies.
use tickstream_streaming_lak.Prelude.{
  ℕ, zero, suc, ◌+◌, ◌-◌, ◌*◌, ◌/◌, ◌≤◌, ◌<◌, ◌≡◌, refl, ap, arith,
}
use tickstream_streaming_lak.Prelude.Int.{
  pos, ◌+ℤ◌, ◌≤ℤ◌, ◌<ℤ◌, floor_div, trunc_div, pos-*ℤ-pos, pos-+ℤ-pos, neg, neg_parts, neg-*ℤ-pos,
}
use tickstream_streaming_lak.Time.{us_per_second, epoch_seconds, from_seconds}
use tickstream_streaming_lak.Metrics.{window_start_seconds, window_bounds}

window_start_seconds-pos :
    (n w : ℕ) → window_start_seconds (pos n) w ≡ pos (n / us_per_second / w * w)
unfolding window_start_seconds epoch_seconds trunc_div floor_div
window_start_seconds-pos n w = pos-*ℤ-pos _ _

pub window_bounds-pos :
    (n w : ℕ)
    → window_bounds (pos n) w ≡ (
      pos (n / us_per_second / w * w * us_per_second),
      pos ((n / us_per_second / w * w + w) * us_per_second),
    )
unfolding window_bounds from_seconds
window_bounds-pos n w = rw (window_start_seconds-pos n w, pos-+ℤ-pos, pos-*ℤ-pos, pos-*ℤ-pos)

div_bounds : (s w : ℕ) → 0 < w → (s / w * w ≤ s) × (s < s / w * w + w)
div_bounds s w h = grind arith

-- For a time from 1970 on and a positive width, the window starts at a multiple of the width
-- counted from 1970-01-01, contains the time, and is as long as the width says.
pub window_bounds_contains :
    (n w : ℕ)
    → 0 < w
    → ((k : ℕ) × ((window_bounds (pos n) w).0 ≡ pos (k * w * us_per_second)))
      × ((window_bounds (pos n) w).0 ≤ℤ pos n)
      × (pos n <ℤ (window_bounds (pos n) w).1)
      × ((window_bounds (pos n) w).1 ≡ (window_bounds (pos n) w).0 +ℤ pos (w * us_per_second))
window_bounds_contains n w h =
    let s = n / us_per_second in
    let b = div_bounds s w h in
    rw (window_bounds-pos n w)
      ((s / w, refl), omega arith, omega arith, rw pos-+ℤ-pos (ap pos (omega arith)))

-- Before 1970 `int(epoch)` rounds towards zero, so that a time with a fraction of a second counts
-- for the second after it.
pred_div : (q w : ℕ) → 0 < w → (suc q * w - 1) / w ≡ q
pred_div q w h = grind arith

mul_pos : (q w : ℕ) → 0 < w → 0 < suc q * w
mul_pos q w h = grind arith

floor_div-neg : (q w : ℕ) → 0 < w → floor_div (neg (q * w)) w ≡ neg q
unfolding floor_div
floor_div-neg zero w h = ground arith
floor_div-neg (suc q) w h = ground (arith, pred_div q w h, mul_pos q w h)

epoch_seconds-neg :
    (s f : ℕ) → 0 < f → f < us_per_second → epoch_seconds (neg (s * us_per_second + f)) ≡ neg s
unfolding epoch_seconds trunc_div
epoch_seconds-neg s f h k = ground arith

-- A time before 1970 that lies less than a second before the window that starts `q` widths before
-- 1970, and not at a whole second, is put into that window, and so lies before its start.
pub window_bounds_before_epoch :
    (q w f : ℕ)
    → 0 < w
    → 0 < f
    → f < us_per_second
    → let ts = neg (q * w * us_per_second + f) in
      ((window_bounds ts w).0 ≡ neg (q * w * us_per_second)) × (ts <ℤ (window_bounds ts w).0)
unfolding window_bounds window_start_seconds from_seconds
window_bounds_before_epoch q w f h hf k =
    rw
      (
        epoch_seconds-neg (q * w) f hf k,
        floor_div-neg q w h,
        neg-*ℤ-pos q w,
        neg-*ℤ-pos (q * w) us_per_second,
      )
      (
        refl,
        omega (arith, neg_parts (q * w * us_per_second + f), neg_parts (q * w * us_per_second)),
      )
