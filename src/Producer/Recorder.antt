-- ===== src/Producer/Recorder.antt =====
-- producer/record.py: the capture of one exchange, and the fallback over the configured ones.
use tickstream_streaming_lak.Prelude.{
  ℕ, String, ◌≡◌, refl, Bool, true, false, not, Option, none, some, List, [], ◌∷◌, ◌++◌, All,
  length, keep, if◌then◌else◌,
}
use tickstream_streaming_lak.Prelude.Eq.{◌==◌, string_eq}
use tickstream_streaming_lak.Prelude.Group.{keys}
use tickstream_streaming_lak.Errors.{Exc, Result, ok, err, runtime_error, ◌>>=◌}
use tickstream_streaming_lak.Config.{Settings}
use tickstream_streaming_lak.Py.{Json}
use tickstream_streaming_lak.Time.{Datetime}
use tickstream_streaming_lak.Producer.Exchanges.{build_client}
use tickstream_streaming_lak.Producer.Recording.{RecordedMessage, write_fixture}
use tickstream_streaming_lak.Producer.Service.{reached}

-- What a client yields within the budget of seconds, each message with its channel and its time,
-- and the exception that ends it, unless the stream is closed or the budget is used up.
pub record Delivery (F : Type 0) : Type 0 where
  pub messages : List (Option String × (Json F × Datetime))
  pub failure : Option Exc

-- The configured or given exchange, then the others.
unfoldable pub candidates : Settings → Option String → Bool → List String
candidates settings exchange fallback =
    let primary : String = elim exchange [
      | none ↦ settings.source.exchange
      | some e ↦ if e == "" then settings.source.exchange else e
    ] in
    primary
    ∷ (if fallback then keep (λ e. not (e == primary)) (keys settings.source.exchanges) else [])

module _ {F : Type 0} where
  -- The loop, and whether it was left by `break`.
  unfoldable pub capture_loop :
      String
      → Option ℕ
      → List (Option String × (Json F × Datetime))
      → List (RecordedMessage F)
      → List (RecordedMessage F) × Bool
  capture_loop exchange max_messages [] captured = (captured, false)
  capture_loop exchange max_messages ((channel, (payload, now)) ∷ rest) captured =
      let next =
        captured
        ++ (record {
          seq = length captured;
          ts_recorded = now;
          exchange = exchange;
          channel = channel;
          payload = payload;
        }
            ∷ []) in
      let later = capture_loop exchange max_messages rest next in
      if reached max_messages (length next) then (next, true) else later

  unfoldable pub record_once :
      (String → String)
      → Settings
      → String
      → Option ℕ
      → Delivery F
      → Result (List (RecordedMessage F))
  record_once lower settings exchange max_messages delivery = do
    client ← build_client lower settings (some exchange)
    let (captured, stopped) = capture_loop exchange max_messages delivery.messages []
    if stopped then ok captured else elim delivery.failure [ none ↦ ok captured | some x ↦ err x ]

  -- The loop over the candidates, with the last error.
  unfoldable pub try_candidates :
      (String → Result (List (RecordedMessage F)))
      → List String
      → Option Exc
      → Result (String × List (RecordedMessage F))
  try_candidates attempt [] none = err runtime_error
  try_candidates attempt [] (some x) = err x
  try_candidates attempt (name ∷ names) last_error = elim (attempt name) [
    | err x ↦ try_candidates attempt names (some x)
    | ok [] ↦ try_candidates attempt names last_error
    | ok (m ∷ ms) ↦ ok (name, m ∷ ms)
  ]

  -- `record`: the bytes of the fixture, the exchange used and the count
  unfoldable pub record_fixture :
      (ℕ → Bool)
      → (RecordedMessage F → List ℕ)
      → (List ℕ → Result (RecordedMessage F))
      → (String → String)
      → Settings
      → Option String
      → Option ℕ
      → (String → Delivery F)
      → Bool
      → Result (List ℕ × (String × ℕ))
  record_fixture is_space dumps loads lower settings exchange max_messages deliver fallback = do
    (name, messages) ←
        try_candidates (λ e. record_once lower settings e max_messages (deliver e))
          (candidates settings exchange fallback) none
    let (bytes, n) = write_fixture is_space dumps loads messages
    ok (bytes, (name, n))

  abbrev pub IsBarren : Result (List (RecordedMessage F)) → Type 0
  IsBarren (ok []) = Unit
  IsBarren (ok (m ∷ ms)) = ⊥
  IsBarren (err x) = Unit

  -- The exchange used is the first that delivers something.
  pub record IsFirst (attempt : String → Result (List (RecordedMessage F))) (names : List String)
      (name : String) (messages : List (RecordedMessage F)) : Type 0 where
    pub before : List String
    pub after : List String
    pub split : names ≡ before ++ (name ∷ after)
    pub barren : All (λ n. IsBarren (attempt n)) before
    pub delivered : attempt name ≡ ok messages
    pub not_empty : IsBarren (ok messages) → ⊥

  module _ (attempt : String → Result (List (RecordedMessage F))) where
    abbrev pub IsSettled : List String → Result (String × List (RecordedMessage F)) → Type 0
    IsSettled names (ok (name, messages)) = IsFirst attempt names name messages
    IsSettled names (err x) = All (λ n. IsBarren (attempt n)) names

    settle-skip :
        (name : String) (names : List String) (res : Result (String × List (RecordedMessage F)))
        → IsBarren (attempt name)
        → IsSettled names res
        → IsSettled (name ∷ names) res
    settle-skip name names (err x) b h = (b, h)
    settle-skip name names (ok (n, ms)) b h = record {
      before = name ∷ h.before;
      after = h.after;
      split = rw h.split;
      barren = (b, h.barren);
      delivered = h.delivered;
      not_empty = h.not_empty;
    }

    -- A recording uses the first candidate that delivers a message, and what it delivered; it
    -- fails only if every candidate fails or delivers nothing.
    pub try_candidates-IsSettled :
        (names : List String) (last_error : Option Exc)
        → IsSettled names (try_candidates attempt names last_error)
    unfolding try_candidates
    try_candidates-IsSettled [] none = tt
    try_candidates-IsSettled [] (some x) = tt
    try_candidates-IsSettled (name ∷ names) last_error =
        go (attempt name) refl (λ last. try_candidates-IsSettled names last)
      where
        go :
            (res : Result (List (RecordedMessage F)))
            → attempt name ≡ res
            → ((last : Option Exc) → IsSettled names (try_candidates attempt names last))
            → IsSettled (name ∷ names) (elim res [
              | err x ↦ try_candidates attempt names (some x)
              | ok [] ↦ try_candidates attempt names last_error
              | ok (m ∷ ms) ↦ ok (name, m ∷ ms)
            ])
        go (err x) e ih = settle-skip name names _ (rw e tt) (ih (some x))
        go (ok []) e ih = settle-skip name names _ (rw e tt) (ih last_error)
        go (ok (m ∷ ms)) e ih = record {
          before = [];
          after = names;
          split = refl;
          barren = tt;
          delivered = e;
          not_empty = λ b. b;
        }
