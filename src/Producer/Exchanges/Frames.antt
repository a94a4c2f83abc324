-- ===== src/Producer/Exchanges/Frames.antt =====
-- `BinanceUSClient.stream` of src/tickstream/producer/exchanges/binance_us.py: the messages that it
-- yields, each with the channel that the name of its stream says.
use tickstream_streaming_lak.Prelude.{
  String, ◌≡◌, ap, ◌∙◌, Bool, false, ◌||◌, Option, none, some, List, [], ◌∷◌, if◌then◌else◌,
  nat_beq, arith, inl, inr, Bool-cases,
}
use Prim.Native.Char.{code}
use text.Mathlib.TextLemmas.{nil-append, cons-append}
use Prim.Native.String.{◌++◌ as ◌<>◌}
use tickstream_streaming_lak.Errors.{Exc, Result, ok, err, attribute_error, ◌>>=◌}
use tickstream_streaming_lak.Py.{Json, str, get_field_or, iterate, is_text}
use tickstream_streaming_lak.Producer.Exchanges.{has_char}

-- `stream.split("@", 1)[1] if "@" in stream else None`, of a text
unfoldable pub after_at : String → Option String
after_at String.[] = none
after_at (String.◌∷◌ c s) = let rest = after_at s in if nat_beq (code c) b'@' then some s else rest

module _ {F : Type 0} where
  -- Whether some element is the text "@".
  abbrev any_at : List (Json F) → Bool
  any_at [] = false
  any_at (v ∷ vs) = is_text "@" v || any_at vs

  -- The same of any value: `in` looks among the elements or the keys, and only a text has `split`.
  unfoldable pub channel_of : Json F → Result (Option String)
  channel_of (str s) = ok (after_at s)
  channel_of v = do parts ← iterate v; if any_at parts then err attribute_error else ok none

  -- What is yielded, and the exception that ends it, if one does.
  unfoldable pub binance_frames : List (Json F) → List (Option String × Json F) × Option Exc
  binance_frames [] = ([], none)
  binance_frames (msg ∷ msgs) =
      let later = binance_frames msgs in
      elim (get_field_or "stream" (str "") msg >>= channel_of) [
        | err x ↦ ([], some x)
        | ok channel ↦ ((channel, msg) ∷ later.0, later.1)
      ]

after_at-append : (s t : String) → has_char b'@' s ≡ false → after_at (s <> ("@" <> t)) ≡ some t
unfolding after_at has_char
after_at-append String.[] t h =
    ap after_at (nil-append ("@" <> t) ∙ cons-append "@" "" t) ∙ ap some (nil-append t)
after_at-append (String.◌∷◌ c s) t h = elim (Bool-cases (nat_beq (code c) b'@')) [
  | inl b ↦ absurd (ground (arith, h, b))
  | inr b ↦
      ap after_at (cons-append c s ("@" <> t))
      ∙ rw (b, after_at) (after_at-append s t (ground (arith, h, b)))
]

-- The channel of a stream that is named as `build_client` names it is the channel of that name, if
-- there is no "@" in the symbol.
channel_of-stream :
    (F : Type 0) (symbol channel : String)
    → has_char b'@' symbol ≡ false
    → channel_of {F = F} (str (symbol <> ("@" <> channel))) ≡ ok (some channel)
unfolding channel_of
channel_of-stream F symbol channel h = ap ok (after_at-append symbol channel h)
