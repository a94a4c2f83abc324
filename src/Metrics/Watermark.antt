-- ===== src/Metrics/Watermark.antt =====
-- `max_event_ts_by_symbol` and `closed_windows` of processing/metrics.py.
use tickstream_streaming_lak.Prelude.{
  ◌⊎◌, String, ◌≡◌, refl, sym, ◌∙◌, ap, true, false, Option, none, some, List, [], ◌∷◌, All,
  if◌then◌else◌, arith, inl, inr, Bool-cases,
}
use tickstream_streaming_lak.Prelude.Eq.{◌==◌, string_eq, int_eq, ==_refl, eq_of_==}
use tickstream_streaming_lak.Prelude.Int.{◌≤ℤ◌, ltb_ℤ, int_beq_iff}
use tickstream_streaming_lak.Prelude.Dict.{Dict, get, put, get-put, get-nil}
use tickstream_streaming_lak.Prelude.Group.{elem}
use tickstream_streaming_lak.Time.{Datetime}
use tickstream_streaming_lak.Schema.{MarketEvent}
use tickstream_streaming_lak.Metrics.{
  is_later, note_event, max_event_ts_from, max_event_ts_by_symbol,
}

module _ {F : Type 0} where
  -- The event times of one symbol, and the later of a time and the times of a list.
  abbrev pub times_of : String → List (MarketEvent F) → List Datetime
  times_of s [] = []
  times_of s (e ∷ es) =
      let rest = times_of s es in if e.symbol == s then e.ts_event ∷ rest else rest

-- The latest of a list of times, and of a time that may be there before.
unfoldable pub latest : Option Datetime → List Datetime → Option Datetime
latest cur [] = cur
latest cur (t ∷ ts) = latest (if is_later cur t then some t else cur) ts

-- From a time on, the latest is that time or one of the list, and none is later.
latest_lem :
    (ts : List Datetime) (a m : Datetime)
    → latest (some a) ts ≡ some m
    → (a ≤ℤ m) × All (λ t. t ≤ℤ m) ts × ((a ≡ m) ⊎ (elem m ts ≡ true))
unfolding latest elem
latest_lem [] a m h = ground arith
latest_lem (t ∷ ts) a m h = elim (Bool-cases (ltb_ℤ a t)) [
  | inl b ↦
      let (t_below, rest, at) = latest_lem ts t m (rw b at h) in
      (ground (arith, b), (t_below, rest), ground (arith, int_beq_iff t m))
  | inr b ↦
      let (a_below, rest, at) = latest_lem ts a m (rw b at h) in
      (a_below, (ground (arith, b), rest), ground (arith, int_beq_iff t m))
]

latest-none :
    (ts : List Datetime) (m : Datetime)
    → latest none ts ≡ some m
    → All (λ t. t ≤ℤ m) ts × (elem m ts ≡ true)
unfolding latest elem
latest-none [] m h = cc
latest-none (t ∷ ts) m h =
    let (t_below, rest, at) = latest_lem ts t m h in
    ((t_below, rest), ground (arith, int_beq_iff t m))

latest_empty : (ts : List Datetime) → latest none ts ≡ none → ts ≡ []
unfolding latest
latest_empty [] h = refl
latest_empty (t ∷ ts) h = absurd (never ts t h)
  where
    never : (us : List Datetime) (a : Datetime) → latest (some a) us ≡ none → ⊥
    never [] a e = cc
    never (u ∷ us) a e = never us (if ltb_ℤ a u then u else a) (ground (arith, e))

module _ {F : Type 0} where
  get-note_event :
      (s : String) (e : MarketEvent F) (out : Dict String Datetime)
      → get s (note_event e out) ≡ (
          if e.symbol == s
          then (if is_later (get s out) e.ts_event then some e.ts_event else get s out)
          else get s out)
  get-note_event s e out = elim (Bool-cases (e.symbol == s)) [
    | inl b ↦
        rw (eq_of_== e.symbol s b, ==_refl s)
          (at_symbol (Bool-cases (is_later (get s out) e.ts_event)))
    | inr b ↦ rw b (elsewhere b (Bool-cases (is_later (get e.symbol out) e.ts_event)))
  ]
    where
      at_symbol :
          ((is_later (get s out) e.ts_event ≡ true) ⊎ (is_later (get s out) e.ts_event ≡ false))
          → get s (if is_later (get s out) e.ts_event then put s e.ts_event out else out)
            ≡ (if is_later (get s out) e.ts_event then some e.ts_event else get s out)
      at_symbol (inl l) = rw (l, get-put s s e.ts_event out, ==_refl s)
      at_symbol (inr l) = rw l

      elsewhere :
          (e.symbol == s) ≡ false
          → ((is_later (get e.symbol out) e.ts_event ≡ true)
              ⊎ (is_later (get e.symbol out) e.ts_event ≡ false))
          → get s
              (if is_later (get e.symbol out) e.ts_event then put e.symbol e.ts_event out else out)
            ≡ get s out
      elsewhere b (inl l) = rw (l, get-put e.symbol s e.ts_event out, b)
      elsewhere b (inr l) = rw l

  get-max_event_ts_from :
      (s : String) (es : List (MarketEvent F)) (out : Dict String Datetime)
      → get s (max_event_ts_from es out) ≡ latest (get s out) (times_of s es)
  unfolding max_event_ts_from latest
  get-max_event_ts_from s [] out = refl
  get-max_event_ts_from s (e ∷ es) out =
      get-max_event_ts_from s es (note_event e out) ∙ elim (Bool-cases (e.symbol == s)) [
        | inl b ↦ rw (get-note_event s e out, b)
        | inr b ↦ rw (get-note_event s e out, b)
      ]

  -- The watermark of a symbol is the time of one of its events, and no event of the symbol is
  -- later.
  pub max_event_ts_by_symbol-latest :
      (s : String) (events : List (MarketEvent F)) (m : Datetime)
      → get s (max_event_ts_by_symbol events) ≡ some m
      → All (λ t. t ≤ℤ m) (times_of s events) × (elem m (times_of s events) ≡ true)
  unfolding max_event_ts_by_symbol
  max_event_ts_by_symbol-latest s events m h = latest-none (times_of s events) m (
      sym (get-max_event_ts_from s events [] ∙ ap (λ o. latest o (times_of s events)) (get-nil s))
      ∙ h)

  pub max_event_ts_by_symbol-none :
      (s : String) (events : List (MarketEvent F))
      → get s (max_event_ts_by_symbol events) ≡ none
      → times_of s events ≡ []
  unfolding max_event_ts_by_symbol
  max_event_ts_by_symbol-none s events h = latest_empty (times_of s events) (
      sym (get-max_event_ts_from s events [] ∙ ap (λ o. latest o (times_of s events)) (get-nil s))
      ∙ h)
