-- ===== src/Producer/Backoff.antt =====
-- `backoff_delays` of producer/backoff.py: the generator's state is the number of the attempt.
use tickstream_streaming_lak.Prelude.{ℕ, ◌≡◌, Bool, true, if◌then◌else◌, inl, inr, Bool-cases}
use tickstream_streaming_lak.Errors.{Result, ok, ◌>>=◌, Returns, Returns-then}
use tickstream_streaming_lak.Py.{Double}

pub record Schedule (F : Type 0) : Type 0 where
  pub base : F
  pub cap : F
  pub factor : F
  pub jitter : Bool

module _ {F : Type 0} ⦃d : Double F⦄ (s : Schedule F) where
  -- `min(cap, base * (factor**attempt))`
  unfoldable pub ceiling : ℕ → Result F
  ceiling attempt = do
    power ← d.pow s.factor attempt
    let delay = d.mul s.base power
    ok (if d.lt delay s.cap then delay else s.cap)

  -- What `next` yields at an attempt. `uniform` is `rng.uniform`.
  unfoldable pub next_delay : (F → F → F) → ℕ → Result F
  next_delay uniform attempt = do
    top ← ceiling attempt
    ok (if s.jitter then uniform d.zero_f top else top)

  -- The order of the floats that are no NaN, and the documented range of `rng.uniform`.
  pub record IsRanged (uniform : F → F → F) : Type 0 where
    pub le_of_lt : (x y : F) → d.lt x y ≡ true → d.le x y ≡ true
    pub le_trans : (x y z : F) → d.le x y ≡ true → d.le y z ≡ true → d.le x z ≡ true
    pub uniform_le : (top : F) → d.le (uniform d.zero_f top) top ≡ true

  ceiling-le-cap :
      (uniform : F → F → F) (attempt : ℕ)
      → IsRanged uniform
      → d.le s.cap s.cap ≡ true
      → Returns (λ top. d.le top s.cap ≡ true) (ceiling attempt)
  unfolding ceiling
  ceiling-le-cap uniform attempt laws h = Returns-then _ (d.pow s.factor attempt) _ λ power.
      elim (Bool-cases (d.lt (d.mul s.base power) s.cap)) [
        | inl b ↦ rw b (laws.le_of_lt _ _ b)
        | inr b ↦ rw b h
      ]
