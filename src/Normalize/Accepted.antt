-- ===== src/Normalize/Accepted.antt =====
-- What every event and every reject that the normalizers return has in common.
use tickstream_streaming_lak.Prelude.{
  ◌≡◌, refl, true, String, Option, none, some, List, [], ◌∷◌, All, All-append, inl, inr, Bool-cases,
}
use tickstream_streaming_lak.Prelude.Eq.{string_eq}
use tickstream_streaming_lak.Prelude.Dict.{get}
use tickstream_streaming_lak.Errors.{Result, ok, err, Returns, Returns-bind}
use tickstream_streaming_lak.Py.{Double, Json, null, bool, int, float, str, arr, obj}
use tickstream_streaming_lak.Time.{Datetime}
use tickstream_streaming_lak.Schema.{MarketEvent, validated}
use tickstream_streaming_lak.Schema.Contract.{MeetsContract, validated-MeetsContract}
use tickstream_streaming_lak.Normalize.Record.{
  SymbolMap, Reject, raised, bad_envelope_timestamp, Batch, is_normalize_error, map_symbol,
  resolve_symbol, as_symbol, unless_dropped, take_record, take_records,
}

-- The symbol is a value of the map, if there is one.
abbrev pub IsConfigured : Option SymbolMap → String → Type 0
IsConfigured none s = Unit
IsConfigured (some m) s = (raw : String) × (get raw m ≡ some s)

-- A reject has a reason that the handlers catch.
abbrev pub IsCaughtReject : {F : Type 0} → Reject F → Type 0
IsCaughtReject (raised x, rec) = is_normalize_error x ≡ true
IsCaughtReject (bad_envelope_timestamp x, rec) = is_normalize_error x ≡ true

module _ {F : Type 0} ⦃d : Double F⦄ where
  pub record IsNormalized (exchange : String) (ts_ingest : Datetime) (symbol_map : Option SymbolMap)
      (e : MarketEvent F) : Type 0 where
    pub contract : MeetsContract e
    pub exchange_eq : e.exchange ≡ exchange
    pub ingest_eq : e.ts_ingest ≡ ts_ingest
    pub configured : IsConfigured symbol_map e.symbol

  abbrev pub IsSound : String → Datetime → Option SymbolMap → Batch F → Type 0
  IsSound exchange ts m batch =
      All (IsNormalized exchange ts m) batch.events × All IsCaughtReject batch.rejects

  abbrev pub OfSome : (MarketEvent F → Type 0) → Option (MarketEvent F) → Type 0
  OfSome P none = Unit
  OfSome P (some e) = P e

  validated-Returns : (e : MarketEvent F) → Returns (λ e'. (e' ≡ e) × MeetsContract e) (validated e)
  validated-Returns e = go (validated e) (λ e' h. validated-MeetsContract e h)
    where
      go :
          (res : Result (MarketEvent F))
          → ((e' : MarketEvent F) → res ≡ ok e' → (e' ≡ e) × MeetsContract e)
          → Returns (λ e'. (e' ≡ e) × MeetsContract e) res
      go (ok e') h = h e' refl
      go (err x) h = tt

  pub validated-IsNormalized :
      (e : MarketEvent F) (m : Option SymbolMap)
      → IsConfigured m e.symbol
      → Returns (IsNormalized e.exchange e.ts_ingest m) (validated e)
  validated-IsNormalized e m c = go (validated e) (validated-Returns e)
    where
      go :
          (res : Result (MarketEvent F))
          → Returns (λ e'. (e' ≡ e) × MeetsContract e) res
          → Returns (IsNormalized e.exchange e.ts_ingest m) res
      go (ok e') (same, k) =
          rw same record { contract = k; exchange_eq = refl; ingest_eq = refl; configured = c }
      go (err x) h = tt

  pub unless_dropped-Returns :
      (P : MarketEvent F → Type 0) (symbol : Json F) (build : Json F → Result (MarketEvent F))
      → Returns P (build symbol)
      → Returns (OfSome P) (unless_dropped symbol build)
  unfolding unless_dropped
  unless_dropped-Returns P null build h = tt
  unless_dropped-Returns P (bool b) build h =
      Returns-bind P (OfSome P) (build (bool b)) _ h (λ e k. k)
  unless_dropped-Returns P symbol build h = Returns-bind P (OfSome P) (build symbol) _ h (λ e k. k)

  module _ (P : MarketEvent F → Type 0) where
    pub take_record-Returns :
        (rec : Json F) (res : Result (Option (MarketEvent F))) (batch : Batch F)
        → Returns (OfSome P) res
        → All P batch.events × All IsCaughtReject batch.rejects
        → Returns (λ b. All P b.events × All IsCaughtReject b.rejects) (take_record rec res batch)
    unfolding take_record
    take_record-Returns rec (ok none) batch h s = s
    take_record-Returns rec (ok (some e)) batch h (se, sr) =
        (All-append P batch.events (e ∷ []) se (h, tt), sr)
    take_record-Returns rec (err x) batch h (se, sr) = elim (Bool-cases (is_normalize_error x)) [
      | inl c ↦ rw c (se, All-append IsCaughtReject batch.rejects ((raised x, rec) ∷ []) sr (c, tt))
      | inr c ↦ rw c tt
    ]

    pub take_records-Returns :
        (parse : Json F → Result (Option (MarketEvent F))) (recs : List (Json F)) (batch : Batch F)
        → ((rec : Json F) → Returns (OfSome P) (parse rec))
        → All P batch.events × All IsCaughtReject batch.rejects
        → Returns
            (λ b. All P b.events × All IsCaughtReject b.rejects)
            (take_records parse recs batch)
    unfolding take_records
    take_records-Returns parse [] batch h s = s
    take_records-Returns parse (rec ∷ recs) batch h s =
        Returns-bind _ _ (take_record rec (parse rec) batch) _
          (take_record-Returns rec (parse rec) batch (h rec) s)
          (λ next n. take_records-Returns parse recs next h n)

  pub as_symbol-Returns : (symbol : Json F) → Returns (λ name. symbol ≡ str name) (as_symbol symbol)
  unfolding as_symbol
  as_symbol-Returns (str s) = refl
  as_symbol-Returns symbol = tt

  -- What `_resolve_symbol` hands on is a configured symbol, or no text.
  abbrev pub IsResolved : Option SymbolMap → Json F → Type 0
  IsResolved m symbol = (s : String) → symbol ≡ str s → IsConfigured m s

  pub map_symbol-Returns :
      (m : SymbolMap) (raw : Json F)
      → Returns
          (λ found. (s : String) → found ≡ some s → IsConfigured (some m) s)
          (map_symbol m raw)
  unfolding map_symbol
  map_symbol-Returns m (str t) = λ s e. (t, e)
  map_symbol-Returns m null = λ s e. cc
  map_symbol-Returns m (bool b) = λ s e. cc
  map_symbol-Returns m (int n) = λ s e. cc
  map_symbol-Returns m (float x) = λ s e. cc
  map_symbol-Returns m (arr vs) = tt
  map_symbol-Returns m (obj fs) = tt

  pub resolve_symbol-Returns :
      (raw : Json F) (m : Option SymbolMap) → Returns (IsResolved m) (resolve_symbol raw m)
  unfolding resolve_symbol
  resolve_symbol-Returns raw none = λ s e. tt
  resolve_symbol-Returns raw (some m) =
      Returns-bind _ _ (map_symbol m raw) _ (map_symbol-Returns m raw) λ found h. go found h
    where
      go :
          (found : Option String)
          → ((s : String) → found ≡ some s → IsConfigured (some m) s)
          → (s : String) → ◌≡◌ {A = Json F} (elim found [ none ↦ null | some t ↦ str t ]) (str s)
          → IsConfigured (some m) s
      go none h s e = cc
      go (some t) h s e = h s (cc)
