-- ===== src/Normalize/Truncation.antt =====
-- The fraction of a second in `parse_ts` of producer/normalize.py: at most six digits stay.
use tickstream_streaming_lak.Prelude.{
  ℕ, zero, suc, ◌≡◌, ◌↔◌, Bool, true, false, Option, none, some, List, [], ◌∷◌, if◌then◌else◌,
  nat_beq, arith, ap,
}
use tickstream_streaming_lak.Normalize.Timestamp.{frac_sub}

module _ (is_digit : ℕ → Bool) where
  -- Behind every dot there stand at most six digits. The state is that of `frac_sub`.
  unfoldable pub fits : Option ℕ → List ℕ → Bool
  fits state [] = true
  fits none (c ∷ cs) = fits (if nat_beq c b'.' then some 6 else none) cs
  fits (some zero) (c ∷ cs) =
      let outside = fits (if nat_beq c b'.' then some 6 else none) cs in
      if is_digit c then false else outside
  fits (some (suc k)) (c ∷ cs) =
      let within = fits (some k) cs in
      let outside = fits (if nat_beq c b'.' then some 6 else none) cs in
      if is_digit c then within else outside

  fits-frac_sub : (state : Option ℕ) (s : List ℕ) → fits state (frac_sub is_digit state s) ≡ true
  unfolding fits frac_sub
  fits-frac_sub state [] = ground arith
  fits-frac_sub none (c ∷ cs) = fits-frac_sub _ cs
  fits-frac_sub (some zero) (c ∷ cs) =
      ground (
        arith,
        fits-frac_sub (some 0) cs,
        fits-frac_sub (if nat_beq c b'.' then some 6 else none) cs,
      )
  fits-frac_sub (some (suc k)) (c ∷ cs) =
      ground (
        arith,
        fits-frac_sub (some k) cs,
        fits-frac_sub (if nat_beq c b'.' then some 6 else none) cs,
      )

  frac_sub-fits :
      (state : Option ℕ) (s : List ℕ) → fits state s ≡ true → frac_sub is_digit state s ≡ s
  unfolding fits frac_sub
  frac_sub-fits state [] h = ground arith
  frac_sub-fits none (c ∷ cs) h = ap (λ t. c ∷ t) (frac_sub-fits _ cs h)
  frac_sub-fits (some zero) (c ∷ cs) h =
      ground (arith, frac_sub-fits (if nat_beq c b'.' then some 6 else none) cs)
  frac_sub-fits (some (suc k)) (c ∷ cs) h =
      ground (
        arith,
        frac_sub-fits (some k) cs,
        frac_sub-fits (if nat_beq c b'.' then some 6 else none) cs,
      )

  -- For every text, after the substitution at most six digits stand behind each dot, and the
  -- substitution changes a text exactly if more than six stood behind some dot; so a second
  -- substitution changes nothing.
  pub frac_sub_truncates :
      (s : List ℕ)
      → (fits none (frac_sub is_digit none s) ≡ true)
        × ((frac_sub is_digit none s ≡ s) ↔ (fits none s ≡ true))
        × (frac_sub is_digit none (frac_sub is_digit none s) ≡ frac_sub is_digit none s)
  frac_sub_truncates s =
      let done = fits-frac_sub none s in
      (done, ((λ e. rw e at done), frac_sub-fits none s), frac_sub-fits none _ done)
