-- ===== src/Normalize/Timestamp.antt =====
-- `parse_ts` and `_ts_from_millis` of producer/normalize.py.
use tickstream_streaming_lak.Prelude.{
  ℕ, zero, suc, Bool, Option, none, some, List, [], ◌∷◌, ◌++◌, if◌then◌else◌, nat_beq,
}
use tickstream_streaming_lak.Prelude.Int.{ℤ, pos, ◌-ℤ◌}
use tickstream_streaming_lak.Prelude.Text.{codes}
use tickstream_streaming_lak.Errors.{
  Result, ok, err, ◌>>=◌, value_error, type_error, attribute_error, overflow_error,
}
use tickstream_streaming_lak.Py.{Double, Json, bool, int, float, str, Runtime, IsoDate}
use tickstream_streaming_lak.Time.{Datetime, in_range}
use mathlib.Core.List.{reverse}

unfoldable pub drop_while : (ℕ → Bool) → List ℕ → List ℕ
drop_while p [] = []
drop_while p (c ∷ cs) = let rest = drop_while p cs in if p c then rest else c ∷ cs

-- `value.strip()`
unfoldable pub strip : (ℕ → Bool) → List ℕ → List ℕ
unfolding drop_while
strip p s = reverse (drop_while p (reverse (drop_while p s)))

-- `.replace("Z", "+00:00")`
unfoldable pub replace_z : List ℕ → List ℕ
replace_z [] = []
replace_z (c ∷ cs) = if nat_beq c b'Z' then codes "+00:00" ++ replace_z cs else c ∷ replace_z cs

-- `_FRAC.sub(lambda m: "." + m.group(1)[:6], s)` with `_FRAC` the expression `\.(\d+)`: behind a
-- dot the first six digits stay and the others go. The state is `none` outside a run of digits
-- behind a dot, and `some k` inside it, with `k` digits that may still be kept.
unfoldable pub frac_sub : (ℕ → Bool) → Option ℕ → List ℕ → List ℕ
frac_sub is_digit state [] = []
frac_sub is_digit none (c ∷ cs) = c ∷ frac_sub is_digit (if nat_beq c b'.' then some 6 else none) cs
frac_sub is_digit (some zero) (c ∷ cs) =
    let within = frac_sub is_digit (some zero) cs in
    let outside = c ∷ frac_sub is_digit (if nat_beq c b'.' then some 6 else none) cs in
    if is_digit c then within else outside
frac_sub is_digit (some (suc k)) (c ∷ cs) =
    let within = c ∷ frac_sub is_digit (some k) cs in
    let outside = c ∷ frac_sub is_digit (if nat_beq c b'.' then some 6 else none) cs in
    if is_digit c then within else outside

-- `dt.astimezone(UTC)`, after a date without an offset is taken as UTC
unfoldable pub to_utc : IsoDate → Result Datetime
to_utc date =
    let utc : Datetime = elim date.offset [ none ↦ date.local | some off ↦ date.local -ℤ off ] in
    if in_range utc then ok utc else err overflow_error

module _ {F : Type 0} (r : Runtime F) where
  unfoldable pub parse_ts_text : List ℕ → Result Datetime
  parse_ts_text s = elim (r.from_iso (frac_sub r.is_digit none (replace_z (strip r.is_space s)))) [
    | none ↦ err value_error
    | some date ↦ to_utc date
  ]

  -- A value that is no text has no method `strip`.
  unfoldable pub parse_ts : Json F → Result Datetime
  parse_ts (str s) = parse_ts_text (codes s)
  parse_ts v = err attribute_error

  module _ ⦃d : Double F⦄ where
    -- `int(ms)`
    unfoldable pub to_int : Json F → Result ℤ
    to_int (str s) = elim (r.parse_int s) [ none ↦ err value_error | some n ↦ ok n ]
    to_int (int n) = ok n
    to_int (float x) = d.int_of x
    to_int (bool b) = ok (pos (if b then 1 else 0))
    to_int v = err type_error

    -- `datetime.fromtimestamp(int(ms) / 1000.0, tz=UTC)`
    unfoldable pub ts_from_millis : Json F → Result Datetime
    ts_from_millis ms = do
      n ← to_int ms
      x ← d.of_int n
      r.from_timestamp (d.div x (d.of_count 1000))
