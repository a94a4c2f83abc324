-- ===== src/Normalize/Symbols.antt =====
-- `build_symbol_map` of producer/normalize.py: from an exchange's own symbols back to the
-- configured ones.
use tickstream_streaming_lak.Prelude.{
  ◌≡◌, refl, ap, ◌∙◌, String, Option, some, List, [], ◌∷◌, ◌++◌, All, if◌then◌else◌, inl, inr,
  Bool-cases,
}
use tickstream_streaming_lak.Prelude.Eq.{string_eq, ◌==◌, eq_of_==, ==_refl}
use tickstream_streaming_lak.Prelude.Dict.{get, put, get-put, put-All}
use tickstream_streaming_lak.Errors.{ok}
use tickstream_streaming_lak.Config.{ExchangeProfile, exchange_symbol, Settings}
use tickstream_streaming_lak.Normalize.Record.{SymbolMap}
use tickstream_streaming_lak.Normalize.Dispatch.{add_symbols, build_symbol_map}

module _ (p : ExchangeProfile) where
  -- The last of the symbols that the exchange spells `raw`.
  unfoldable pub last_spelled : String → List String → Option String → Option String
  last_spelled raw [] found = found
  last_spelled raw (s ∷ syms) found =
      last_spelled raw syms (if exchange_symbol p s == raw then some s else found)

  pub get-add_symbols :
      (raw : String) (syms : List String) (m : SymbolMap)
      → get raw (add_symbols p syms m) ≡ last_spelled raw syms (get raw m)
  unfolding add_symbols last_spelled
  get-add_symbols raw [] m = refl
  get-add_symbols raw (s ∷ syms) m =
      get-add_symbols raw syms (put (exchange_symbol p s) s m)
      ∙ ap (last_spelled raw syms) (get-put (exchange_symbol p s) raw s m)

  abbrev pub IsSpelling : String × String → Type 0
  IsSpelling (raw, s) = exchange_symbol p s ≡ raw

  add_symbols-All :
      (syms : List String) (m : SymbolMap)
      → All IsSpelling m
      → All IsSpelling (add_symbols p syms m)
  unfolding add_symbols
  add_symbols-All [] m h = h
  add_symbols-All (s ∷ syms) m h =
      add_symbols-All syms _ (put-All IsSpelling (exchange_symbol p s) s m refl h)

  last_spelled-kept :
      (s : String) (after : List String)
      → All (λ t. exchange_symbol p t ≡ exchange_symbol p s → t ≡ s) after
      → last_spelled (exchange_symbol p s) after (some s) ≡ some s
  unfolding last_spelled
  last_spelled-kept s [] h = refl
  last_spelled-kept s (t ∷ after) (h, hs) =
      elim (Bool-cases (exchange_symbol p t == exchange_symbol p s)) [
        | inl b ↦ rw (b, h (eq_of_== _ _ b)) (last_spelled-kept s after hs)
        | inr b ↦ rw b (last_spelled-kept s after hs)
      ]

  last_spelled-append :
      (raw : String) (before after : List String) (found : Option String)
      → last_spelled raw (before ++ after) found
        ≡ last_spelled raw after (last_spelled raw before found)
  unfolding last_spelled
  last_spelled-append raw [] after found = refl
  last_spelled-append raw (s ∷ before) after found = last_spelled-append raw before after _

-- The map of a configured exchange sends the exchange's spelling of a configured symbol back to
-- that symbol, if no later symbol of the configuration has the same spelling; and every entry of
-- the map is a spelling with a symbol that has it.
pub build_symbol_map_inverts :
    (settings : Settings) (exchange : String) (p : ExchangeProfile) (m : SymbolMap) (s : String)
    (before after : List String)
    → get exchange settings.source.exchanges ≡ some p
    → build_symbol_map settings exchange ≡ ok m
    → settings.source.symbols ≡ before ++ (s ∷ after)
    → All (λ t. exchange_symbol p t ≡ exchange_symbol p s → t ≡ s) after
    → (get (exchange_symbol p s) m ≡ some s) × All (IsSpelling p) m
unfolding build_symbol_map last_spelled
build_symbol_map_inverts settings exchange p m s before after known built split apart =
    let syms = settings.source.symbols in
    let made : add_symbols p syms [] ≡ m = cc (rw (known, build_symbol_map) at built) in
    let raw = exchange_symbol p s in
    (
      rw (← made, get-add_symbols p raw syms [], split)
          (rw (last_spelled-append p raw before (s ∷ after), ==_refl raw)
            (last_spelled-kept p s after apart)),
      rw (← made) (add_symbols-All p syms [] tt),
    )
