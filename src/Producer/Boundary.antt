-- ===== src/Producer/Boundary.antt =====
-- The contract boundary of src/tickstream/producer/: what may stand on the raw topics and on the
-- quarantine topic, whoever produces it, and that what `normalize_safe` returns may.
pub mod Live
pub mod Replayed
use tickstream_streaming_lak.Prelude.{
  String, ◌≡◌, refl, ap, sym, ◌∙◌, true, Option, none, some, List, [], ◌∷◌, All, All-imp, subst,
  arith, if◌then◌else◌, inl, inr, Bool-cases,
}
use tickstream_streaming_lak.Prelude.Eq.{◌==◌, string_eq, ==_refl, eq_of_==}
use tickstream_streaming_lak.Prelude.Dict.{get, put, put-All, get-All}
use tickstream_streaming_lak.Prelude.Group.{elem}
use tickstream_streaming_lak.Errors.{Returns, err, ok, key_error}
use tickstream_streaming_lak.Config.{ExchangeProfile, exchange_symbol, Settings}
use tickstream_streaming_lak.Py.{Double, Json, Runtime}
use tickstream_streaming_lak.Time.{Datetime}
use tickstream_streaming_lak.Schema.{MarketEvent}
use tickstream_streaming_lak.Schema.Contract.{MeetsContract}
use tickstream_streaming_lak.Normalize.Record.{SymbolMap, Batch}
use tickstream_streaming_lak.Normalize.Accepted.{IsCaughtReject, IsNormalized}
use tickstream_streaming_lak.Normalize.Contract.{normalize_safe-IsSound}
use tickstream_streaming_lak.Normalize.Dispatch.{add_symbols, build_symbol_map, normalize_safe}
use tickstream_streaming_lak.Kafka.{Message, event, quarantine}

module _ (symbols : List String) where
  -- A map that leads to configured symbols only.
  abbrev pub LeadsHome : SymbolMap → Type 0
  LeadsHome = All (λ entry. elem entry.1 symbols ≡ true)

  add_symbols-LeadsHome :
      (p : ExchangeProfile) (syms : List String) (m : SymbolMap)
      → All (λ s. elem s symbols ≡ true) syms
      → LeadsHome m
      → LeadsHome (add_symbols p syms m)
  unfolding add_symbols
  add_symbols-LeadsHome p [] m h k = k
  add_symbols-LeadsHome p (s ∷ syms) m (a, h) k =
      add_symbols-LeadsHome p syms (put (exchange_symbol p s) s m) h
        (put-All (λ entry. elem entry.1 symbols ≡ true) (exchange_symbol p s) s m a k)

All-elem : (xs : List String) → All (λ x. elem x xs ≡ true) xs
unfolding elem
All-elem [] = tt
All-elem (x ∷ xs) = (
  rw (==_refl x),
  All-imp (λ y. elem y xs ≡ true) (λ y. elem y (x ∷ xs) ≡ true) xs (λ y h. ground (arith, h))
      (All-elem xs),
)

pub build_symbol_map-LeadsHome :
    (settings : Settings) (exchange : String)
    → Returns (LeadsHome settings.source.symbols) (build_symbol_map settings exchange)
unfolding build_symbol_map
build_symbol_map-LeadsHome settings exchange = go (get exchange settings.source.exchanges)
  where
    go :
        (found : Option ExchangeProfile)
        → Returns (LeadsHome settings.source.symbols) (elim found [
          | none ↦ err key_error
          | some p ↦ ok (add_symbols p settings.source.symbols [])
        ])
    go none = tt
    go (some p) =
        add_symbols-LeadsHome settings.source.symbols p settings.source.symbols []
          (All-elem settings.source.symbols) tt

module _ {F : Type 0} ⦃d : Double F⦄ where
  -- The event meets the contract of `MarketEvent`, and its symbol is configured.
  abbrev pub IsAdmitted : Settings → MarketEvent F → Type 0
  IsAdmitted settings e = MeetsContract e × (elem e.symbol settings.source.symbols ≡ true)

  -- An event is admitted; a quarantine record has one of NORMALIZE_ERRORS for a reason.
  abbrev pub IsClean : Settings → Message F → Type 0
  IsClean settings m = elim m.body [
    | event e ↦ IsAdmitted settings e
    | quarantine q ↦ IsCaughtReject (q.reason, q.payload)
  ]

  pub normalize_safe-IsAdmitted :
      (r : Runtime F) (settings : Settings) (now : Datetime) (exchange : String) (m : SymbolMap)
      (payload : Json F) (batch : Batch F)
      → LeadsHome settings.source.symbols m
      → normalize_safe r now exchange (some m) payload ≡ ok batch
      → All (IsAdmitted settings) batch.events × All IsCaughtReject batch.rejects
  normalize_safe-IsAdmitted r settings now exchange m payload batch home h =
      let (events, rejects) = normalize_safe-IsSound r now exchange m payload batch h in
      (
        All-imp (IsNormalized exchange now (some m)) (IsAdmitted settings) batch.events
            (λ e n. (
              n.contract,
              get-All (λ s. elem s settings.source.symbols ≡ true) n.configured.0 e.symbol m home
                  n.configured.1,
            ))
            events,
        rejects,
      )
