-- ===== src/Quality/Contract/Stricter.antt =====
-- The contract of quality/contract.py against the validator of `MarketEvent` in schema.py, of which
-- it is said to be a stricter version.
use tickstream_streaming_lak.Prelude.{
  String, ◌≡◌, refl, ap, sym, ◌∙◌, Bool, true, false, ◌&&◌, Option, none, some, List, [], ◌∷◌, map,
  keep, All, subst, arith, inl, inr, Bool-cases,
}
use tickstream_streaming_lak.Py.{Double}
use tickstream_streaming_lak.Schema.{
  MarketEvent, basic_contract, is_not_positive, is_negative, is_crossed,
}
use tickstream_streaming_lak.Schema.Contract.{MeetsContract, basic_contract_iff}
use tickstream_streaming_lak.Errors.{ok, ok-injective}
use tickstream_streaming_lak.Config.{Settings}
use tickstream_streaming_lak.Quality.Contract.{
  Dtype, Frame, Pandera, build_contract, row_of_event, to_float64, notna, event_dtypes,
  events_to_frame, apply_contract,
}
use tickstream_streaming_lak.Quality.Contract.Laws.{apply_contract-splits}
use tickstream_streaming_lak.Quality.Contract.Rows.{
  conforms, IsLazy, meets_contract, none_or, is_positive, is_not_negative, ordered, some_of,
}

-- What the comparisons of doubles obey: an order test and its reverse do not both hold, and a NaN,
-- which is not equal to itself, compares false with everything.
pub record IsComparison (F : Type 0) (d : Double F) : Type 0 where
  pub not_lt : (x y : F) → d.le x y ≡ true → d.lt y x ≡ false
  pub nan_lt_left : (x y : F) → d.eq x x ≡ false → d.lt x y ≡ false
  pub nan_lt_right : (x y : F) → d.eq x x ≡ false → d.lt y x ≡ false
  pub nan_le_left : (x y : F) → d.eq x x ≡ false → d.le x y ≡ false

-- The parts of the contract's conjunction that speak of numbers.
sized_parts :
    (keys symbol type price size bid ask bid_size ask_size event ingest book trade : Bool)
    → (keys && symbol && type && price && size && bid && ask && bid_size && ask_size && event
        && ingest && book && trade)
      ≡ true
    → (price ≡ true)
      × (size ≡ true)
      × (bid ≡ true)
      × (ask ≡ true)
      × (bid_size ≡ true)
      × (ask_size ≡ true)
      × (book ≡ true)
sized_parts keys symbol type price size bid ask bid_size ask_size event ingest book trade h =
    ground arith

module _ {F : Type 0} ⦃d : Double F⦄ where
  -- A frame of events has the columns of the contract.
  event_columns :
      (time : Dtype) (es : List (MarketEvent F)) (symbols : List String)
      → conforms
          (build_contract symbols)
          (record { dtypes = event_dtypes time; rows = map row_of_event es })
        ≡ true
  unfolding build_contract
  event_columns time es symbols = refl

  abbrev pub meets : List String → MarketEvent F → Bool
  meets symbols e = meets_contract symbols (row_of_event e)

  keep-rows :
      (symbols : List String) (es : List (MarketEvent F))
      → keep (meets_contract symbols) (map row_of_event es)
        ≡ map row_of_event (keep (meets symbols) es)
  keep-rows symbols [] = refl
  keep-rows symbols (e ∷ es) = elim (Bool-cases (meets symbols e)) [
    | inl b ↦ rw b (ap (λ l. row_of_event e ∷ l) (keep-rows symbols es))
    | inr b ↦ rw b (keep-rows symbols es)
  ]

module _ {F : Type 0} ⦃d : Double F⦄ (c : IsComparison F d) where
  price_lem : (p : Option F) → none_or is_positive (to_float64 p) ≡ true → is_not_positive p ≡ false
  price_lem none h = refl
  price_lem (some x) h = ground (arith, c.nan_le_left x d.zero_f, c.not_lt x d.zero_f)

  size_lem : (p : Option F) → none_or is_not_negative (to_float64 p) ≡ true → is_negative p ≡ false
  size_lem none h = refl
  size_lem (some x) h = ground (arith, c.nan_lt_left x d.zero_f, c.not_lt d.zero_f x)

  book_lem :
      (b a : Option F) → ordered (to_float64 b) (to_float64 a) ≡ true → is_crossed b a ≡ false
  book_lem none a h = refl
  book_lem (some b) none h = refl
  book_lem (some b) (some a) h = ground (arith, c.nan_lt_left a b, c.nan_lt_right b a, c.not_lt b a)

  meets_contract-MeetsContract :
      (symbols : List String) (e : MarketEvent F)
      → meets_contract symbols (row_of_event e) ≡ true
      → MeetsContract e
  unfolding meets_contract
  meets_contract-MeetsContract symbols e h =
      let r = row_of_event e in
      let (price, size, bid, ask, bid_size, ask_size, book) =
        sized_parts (notna r.exchange) (some_of symbols r.symbol)
          (some_of ("trade" ∷ "ticker" ∷ []) r.event_type) (none_or is_positive r.price)
          (none_or is_not_negative r.size) (none_or is_not_negative r.best_bid)
          (none_or is_not_negative r.best_ask) (none_or is_not_negative r.best_bid_size)
          (none_or is_not_negative r.best_ask_size) (notna r.ts_event) (notna r.ts_ingest)
          (ordered r.best_bid r.best_ask) _ h in
      record {
        price_ok = price_lem e.price price;
        size_ok = size_lem e.size size;
        bid_ok = size_lem e.best_bid bid;
        ask_ok = size_lem e.best_ask ask;
        bid_size_ok = size_lem e.best_bid_size bid_size;
        ask_size_ok = size_lem e.best_ask_size ask_size;
        book_ok = book_lem e.best_bid e.best_ask book;
      }

  All-meets :
      (symbols : List String) (es : List (MarketEvent F))
      → All (λ e. basic_contract e ≡ none) (keep (meets symbols) es)
  All-meets symbols [] = tt
  All-meets symbols (e ∷ es) = elim (Bool-cases (meets symbols e)) [
    | inl b ↦
        rw b (
          (basic_contract_iff e).1 (meets_contract-MeetsContract symbols e b),
          All-meets symbols es,
        )
    | inr b ↦ rw b (All-meets symbols es)
  ]

  -- Of a frame that `events_to_frame` makes of events, `apply_contract` returns as valid the rows of
  -- those events that meet the contract, in their order, and each of these events passes the
  -- validator of the model too: the contract is the stricter one; if lazy validation reports as
  -- documented and the comparisons obey the laws of doubles.
  pub apply_contract-events_to_frame :
      (p : Pandera F)
      → IsLazy p
      → (settings : Settings) (time : Dtype) (events : List (MarketEvent F)) (df : Frame F)
      → events_to_frame time events ≡ ok df
      → let kept = keep (meets settings.source.symbols) events in
        ((apply_contract p settings df).valid ≡ map row_of_event kept)
        × All (λ e. basic_contract e ≡ none) kept
  unfolding events_to_frame
  apply_contract-events_to_frame p lazy settings time [] df h = cc
  apply_contract-events_to_frame p lazy settings time (e ∷ es) df h =
      let made = ok-injective h in
      let columns : conforms (build_contract settings.source.symbols) df ≡ true =
        subst (λ x. conforms (build_contract settings.source.symbols) x ≡ true) made
          (event_columns time (e ∷ es) settings.source.symbols) in
      (
        (apply_contract-splits p lazy settings df columns).valid
            ∙ ap (λ (x : Frame F). keep (meets_contract settings.source.symbols) x.rows) (sym made)
            ∙ keep-rows settings.source.symbols (e ∷ es),
        All-meets settings.source.symbols (e ∷ es),
      )
