-- ===== src/Quality/Sla/Passed.antt =====
-- What the rows of the lake are when the SLA report of quality/sla.py passes.
use tickstream_streaming_lak.Prelude.{◌≡◌, true, false}
use tickstream_streaming_lak.Prelude.Eq.{string_eq}
use tickstream_streaming_lak.Prelude.Dict.{Dict}
use tickstream_streaming_lak.Py.{Double}

-- The order of floats; two of them that are no NaN are comparable.
pub record IsOrder (F : Type 0) (d : Double F) : Type 0 where
  pub le_of_lt : (x y : F) → d.lt x y ≡ true → d.le x y ≡ true
  pub le_of_not_lt :
      (x y : F) → d.eq x x ≡ true → d.eq y y ≡ true → d.lt x y ≡ false → d.le y x ≡ true
  pub le_trans : (x y z : F) → d.le x y ≡ true → d.le y z ≡ true → d.le x z ≡ true

module _ {F : Type 0} ⦃d : Double F⦄ where
  -- A float that is no NaN.
  abbrev pub IsNumber : F → Type 0
  IsNumber x = d.eq x x ≡ true
