-- ===== src/Consume.antt =====
-- src/tickstream/consume.py: `consume_events`. `decode` is `MarketEvent.from_json_bytes`; a round
-- gives no message also for an error.
pub mod Laws
use tickstream_streaming_lak.Prelude.{
  ℕ, Bool, true, false, ◌&&◌, Option, none, some, List, [], ◌∷◌, ◌++◌, length, ltb,
}
use tickstream_streaming_lak.Errors.{Result, ok, ◌>>=◌}
use tickstream_streaming_lak.Schema.{MarketEvent}
use tickstream_streaming_lak.Lake.Poll.{Poll}

module _ {F : Type 0} (decode : List ℕ → Result (MarketEvent F)) where
  -- The loop. A list of rounds that ends stands for a deadline that has passed.
  unfoldable pub consume_events :
      ℕ → ℕ → List Poll → List (MarketEvent F) → Result (List (MarketEvent F))
  consume_events deadline max_messages [] out = ok out
  consume_events deadline max_messages (p ∷ polls) out =
      elim (ltb (length out) max_messages && ltb p.checked deadline) [
        | false ↦ ok out
        | true ↦ (elim p.message [
          | none ↦ consume_events deadline max_messages polls out
          | some value ↦ (do
            e ← decode value
            consume_events deadline max_messages polls (out ++ (e ∷ [])))
        ])
      ]
