-- ===== src/Producer/Boundary/Replayed.antt =====
-- What `replay` (src/tickstream/producer/replay.py) hands to the broker is admitted.
use tickstream_streaming_lak.Prelude.{
  ℕ, ◌+◌, ◌≡◌, String, Bool, true, ◌||◌, Option, none, some, List, [], ◌∷◌, All, All-append, ltb,
  if◌then◌else◌, inl, inr, Bool-cases, refl,
}
use tickstream_streaming_lak.Prelude.Eq.{string_eq}
use tickstream_streaming_lak.Prelude.Dict.{get, put, put-All, get-All}
use tickstream_streaming_lak.Errors.{
  Result, ok, err, ◌>>=◌, Returns, Returns-bind, Returns-then, Returns-self, file_not_found_error,
}
use tickstream_streaming_lak.Config.{Settings}
use tickstream_streaming_lak.Py.{Double, Runtime}
use tickstream_streaming_lak.Schema.{MarketEvent}
use tickstream_streaming_lak.Normalize.Record.{SymbolMap, Reject}
use tickstream_streaming_lak.Normalize.Accepted.{IsCaughtReject}
use tickstream_streaming_lak.Normalize.Dispatch.{build_symbol_map, normalize_safe}
use tickstream_streaming_lak.Kafka.{Message, ensure_topics, new_counter, deliver_all}
use tickstream_streaming_lak.Producer.Boundary.{
  LeadsHome, build_symbol_map-LeadsHome, IsAdmitted, IsClean, normalize_safe-IsAdmitted,
}
use tickstream_streaming_lak.Producer.Recording.{RecordedMessage}
use tickstream_streaming_lak.Producer.Replay.{
  ReplaySummary, Progress, no_progress, Clock, at_limit, replay_rejects, replay_events,
  symbol_map_for, replay_one, replay_loop, Answers, replay,
}

module _ {F : Type 0} ⦃d : Double F⦄ (r : Runtime F) (settings : Settings) (clock : Clock) where
  abbrev Home : SymbolMap → Type 0
  Home = LeadsHome settings.source.symbols

  -- The maps that are cached lead to configured symbols, and the messages are clean.
  record IsFine (p : Progress F) : Type 0 where
    maps : All (λ entry. Home entry.1) p.symbol_maps
    clean : All (IsClean settings) p.log

  replay_rejects-IsFine :
      (rec : RecordedMessage F) (rs : List (Reject F)) (p : Progress F)
      → All IsCaughtReject rs
      → IsFine p
      → IsFine (replay_rejects settings.topics clock rec rs p)
  unfolding replay_rejects
  replay_rejects-IsFine rec [] p c h = h
  replay_rejects-IsFine rec ((reason, sub) ∷ rs) p (c, cs) h =
      replay_rejects-IsFine rec rs _ cs
        record { maps = h.maps; clean = All-append (IsClean settings) p.log _ h.clean (c, tt) }

  replay_events-IsFine :
      (es : List (MarketEvent F)) (p : Progress F)
      → All (IsAdmitted settings) es
      → IsFine p
      → IsFine (replay_events settings.topics es p)
  unfolding replay_events
  replay_events-IsFine [] p c h = h
  replay_events-IsFine (e ∷ es) p (c, cs) h =
      replay_events-IsFine es _ cs
        record { maps = h.maps; clean = All-append (IsClean settings) p.log _ h.clean (c, tt) }

  symbol_map_for-IsFine :
      (exchange : String) (p : Progress F)
      → IsFine p
      → Returns
          (λ found. Home found.0 × IsFine found.1)
          (symbol_map_for r settings clock exchange p)
  unfolding symbol_map_for
  symbol_map_for-IsFine exchange p h = go (get exchange p.symbol_maps) refl
    where
      go :
          (o : Option SymbolMap)
          → get exchange p.symbol_maps ≡ o
          → Returns {A = SymbolMap × Progress F}
              (λ found. Home found.0 × IsFine found.1)
              (elim o [
                | some m ↦ ok (m, p)
                | none ↦ (do
                  m ← build_symbol_map settings exchange
                  ok (m, record p { symbol_maps = put exchange m p.symbol_maps }))
              ])
      go (some m) e = (get-All Home exchange m p.symbol_maps h.maps e, h)
      go none e =
          Returns-bind Home _ (build_symbol_map settings exchange) _
            (build_symbol_map-LeadsHome settings exchange)
            λ m home. (
              home,
              record {
                maps = put-All (λ entry. Home entry.1) exchange m p.symbol_maps home h.maps;
                clean = h.clean;
              },
            )

  replay_one-IsFine :
      (rec : RecordedMessage F) (p : Progress F)
      → IsFine p
      → Returns IsFine (replay_one r settings clock rec p)
  unfolding replay_one
  replay_one-IsFine rec p h =
      Returns-bind _ _ (symbol_map_for r settings clock rec.exchange _) _
        (symbol_map_for-IsFine rec.exchange (record p { messages = p.messages + 1 })
          record { maps = h.maps; clean = h.clean })
        λ found (home, fine).
          let res =
            normalize_safe r (clock.ingest p.messages) rec.exchange (some found.0) rec.payload in
          Returns-bind _ _ res _ (Returns-self res) λ batch e.
            let (events, rejects) =
              normalize_safe-IsAdmitted r settings (clock.ingest p.messages) rec.exchange found.0
                rec.payload batch home e in
            replay_events-IsFine batch.events _ events
              (replay_rejects-IsFine rec batch.rejects found.1 rejects fine)

  replay_loop-IsFine :
      (limit : Option ℕ) (lines : List (Result (RecordedMessage F))) (p : Progress F)
      → IsFine p
      → Returns IsFine (replay_loop r settings clock limit lines p)
  unfolding replay_loop
  replay_loop-IsFine limit [] p h = h
  replay_loop-IsFine limit (line ∷ lines) p h = Returns-then _ line _ λ rec.
      elim (Bool-cases (at_limit limit p.messages)) [
        | inl b ↦ rw b h
        | inr b ↦ rw b (
            Returns-bind _ _ (replay_one r settings clock rec p) _ (replay_one-IsFine rec p h)
              λ next w. replay_loop-IsFine limit lines next w)
      ]

  replay-Returns :
      (answers : Answers F) (exists : Bool) (lines : List (Result (RecordedMessage F)))
      (limit : Option ℕ)
      → Returns
          (λ done. All (IsClean settings) done.1)
          (replay r settings clock answers exists lines limit)
  unfolding replay
  replay-Returns answers exists lines limit =
      Returns-then _ (if exists then ok true else err file_not_found_error) _ λ found.
        Returns-then _ (ensure_topics answers.creation answers.existing _) _ λ created.
          Returns-bind _ _ (replay_loop r settings clock limit lines no_progress) _
            (replay_loop-IsFine limit lines no_progress record { maps = tt; clean = tt })
            λ p h. elim (Bool-cases (failing p)) [ inl b ↦ rw b tt | inr b ↦ rw b h.clean ]
    where
      failing : Progress F → Bool
      failing p =
          ltb 0 (answers.remaining p.log)
          || ltb 0 (deliver_all new_counter (answers.failures p.log)).failed

  -- When `replay` returns, every event that it produced meets the contract of `MarketEvent` and has
  -- a configured symbol, and every quarantine record has one of NORMALIZE_ERRORS for a reason.
  pub replay-IsClean :
      (answers : Answers F) (exists : Bool) (lines : List (Result (RecordedMessage F)))
      (limit : Option ℕ) (summary : ReplaySummary) (log : List (Message F))
      → replay r settings clock answers exists lines limit ≡ ok (summary, log)
      → All (IsClean settings) log
  replay-IsClean answers exists lines limit summary log h =
      rw h at (replay-Returns answers exists lines limit)
