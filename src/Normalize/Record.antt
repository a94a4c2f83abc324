-- ===== src/Normalize/Record.antt =====
-- What the two normalizers of producer/normalize.py share: the symbol map, optional floats, and
-- the loop that takes one record at a time and turns its exception into a reject.
use tickstream_streaming_lak.Prelude.{
  String, Bool, true, false, Option, none, some, List, [], ◌∷◌, ◌++◌, if◌then◌else◌,
}
use tickstream_streaming_lak.Prelude.Eq.{string_eq}
use tickstream_streaming_lak.Prelude.Dict.{Dict, get}
use tickstream_streaming_lak.Errors.{
  Exc, validation_error, value_error, key_error, type_error, symbol_not_text, Result, ok, err,
  ◌>>=◌,
}
use tickstream_streaming_lak.Py.{Double, Json, null, str, arr, obj, is_text, to_float}
use tickstream_streaming_lak.Schema.{MarketEvent}

abbrev pub SymbolMap : Type 0
SymbolMap = Dict String String

-- The first part of a reject. The wording of the message, `str(exc)`, is not modelled.
pub data Reason : Type 0 where
  raised : Exc → Reason
  bad_envelope_timestamp : Exc → Reason

abbrev pub Reject : Type 0 → Type 0
Reject F = Reason × Json F

pub record Batch (F : Type 0) : Type 0 where
  pub events : List (MarketEvent F)
  pub rejects : List (Reject F)

abbrev pub nothing : {F : Type 0} → Batch F
nothing = record { events = []; rejects = [] }

-- `except NORMALIZE_ERRORS`
abbrev pub is_normalize_error : Exc → Bool
is_normalize_error (validation_error v) = true
is_normalize_error value_error = true
is_normalize_error key_error = true
is_normalize_error type_error = true
is_normalize_error x = false

module _ {F : Type 0} where
  -- `symbol_map.get(raw)`: a list or a dict has no hash
  unfoldable pub map_symbol : SymbolMap → Json F → Result (Option String)
  unfolding get
  map_symbol m (str s) = ok (get s m)
  map_symbol m (arr vs) = err type_error
  map_symbol m (obj fs) = err type_error
  map_symbol m v = ok none

  -- `_resolve_symbol`, whose result is `None` for a symbol to drop
  unfoldable pub resolve_symbol : Json F → Option SymbolMap → Result (Json F)
  resolve_symbol raw none = ok raw
  resolve_symbol raw (some m) = do
    found ← map_symbol m raw
    ok (elim found [ none ↦ null | some s ↦ str s ])

  -- The check that `MarketEvent` makes of `symbol: str`.
  unfoldable pub as_symbol : Json F → Result String
  as_symbol (str s) = ok s
  as_symbol v = err (validation_error symbol_not_text)

  -- `if symbol is None: continue`, and else the event of the record
  unfoldable pub unless_dropped :
      Json F → (Json F → Result (MarketEvent F)) → Result (Option (MarketEvent F))
  unless_dropped null build = ok none
  unless_dropped symbol build = do e ← build symbol; ok (some e)

  -- One record, and what follows its `try` block: `continue`, `events.append`, or the handler.
  unfoldable pub take_record : Json F → Result (Option (MarketEvent F)) → Batch F → Result (Batch F)
  take_record rec (ok none) batch = ok batch
  take_record rec (ok (some e)) batch = ok (record batch { events = batch.events ++ (e ∷ []) })
  take_record rec (err x) batch =
      if is_normalize_error x
      then ok (record batch { rejects = batch.rejects ++ ((raised x, rec) ∷ []) })
      else err x

  unfoldable pub take_records :
      (Json F → Result (Option (MarketEvent F))) → List (Json F) → Batch F → Result (Batch F)
  take_records parse [] batch = ok batch
  take_records parse (rec ∷ recs) batch = do
    next ← take_record rec (parse rec) batch
    take_records parse recs next

-- `_opt_float`, of what `.get` returned
unfoldable pub opt_float : {F : Type 0} ⦃d : Double F⦄ → Option (Json F) → Result (Option F)
opt_float none = ok none
opt_float (some null) = ok none
opt_float (some v) = if is_text "" v then ok none else (do x ← to_float v; ok (some x))
