-- ===== src/Producer/Service/Outage.antt =====
-- `run_producer` (producer/service.py) through a long outage, with `backoff_delays`
-- (producer/backoff.py).
use tickstream_streaming_lak.Prelude.{
  ℕ, ◌+◌, ◌≤◌, ◌<◌, ◌≡◌, ◌≢◌, refl, ap, false, none, some, List, [], All, length, arith, inl, inr,
  ◌⊎◌,
}
use tickstream_streaming_lak.Errors.{Exc, ok, err, overflow_error}
use tickstream_streaming_lak.Py.{Double, Runtime}
use tickstream_streaming_lak.Producer.Backoff.{Schedule, ceiling, next_delay}
use tickstream_streaming_lak.Producer.Exchanges.{Client, build_client}
use tickstream_streaming_lak.Producer.Service.{
  connect, Connection, State, Flow, closed, lost, flow_at_end, failed, Options, did, exceeded,
  stream_loop, idle, run_producer,
}
use tickstream_streaming_lak.Producer.Service.Rule.{IsInvariant, serve_rule}

-- The loop goes on behind such an end.
abbrev pub GoesOn : Flow → Type 0
GoesOn closed = Unit
GoesOn lost = Unit
GoesOn flow = ⊥

-- A connection that delivers nothing, and is closed or ends by a WebSocketException or an OSError.
abbrev pub IsIdle : {F : Type 0} → Connection F → Type 0
IsIdle c = (c.messages ≡ []) × GoesOn (flow_at_end c.failure)

module _ {F : Type 0} ⦃d : Double F⦄ where
  next_delay-overflow :
      (s : Schedule F) (uniform : F → F → F) (a : ℕ)
      → d.pow s.factor a ≡ err overflow_error
      → next_delay s uniform a ≡ err overflow_error
  unfolding next_delay ceiling
  next_delay-overflow s uniform a h = rw h

  next_delay-ok :
      (s : Schedule F) (uniform : F → F → F) (a : ℕ) (x : Exc) {p : F}
      → d.pow s.factor a ≡ ok p
      → next_delay s uniform a ≢ err x
  unfolding next_delay ceiling
  next_delay-ok s uniform a x h e = cc (rw (h, next_delay, ceiling) at e)

  module _ (r : Runtime F) (o : Options F) (top : ℕ) (client : Client)
      (unlimited : o.max_reconnects ≡ none)
      (known : build_client r.lower o.settings (some o.exchange) ≡ ok client)
      (below : (k : ℕ) → k < top → (p : F) × (d.pow o.schedule.factor k ≡ ok p))
      (overflows : d.pow o.schedule.factor top ≡ err overflow_error) where
    never_exceeded : (k : ℕ) → exceeded o.max_reconnects k ≡ false
    unfolding exceeded
    never_exceeded k = rw unlimited

    idle_loop :
        (c : Connection F) (s : State F)
        → IsIdle c
        → stream_loop r o c.messages c.failure (did connect s, 0)
          ≡ (flow_at_end c.failure, (did connect s, 0))
    unfolding stream_loop
    idle_loop c s (h, g) = rw h

    error_at :
        (a : ℕ) (uniform : F → F → F) (x : Exc)
        → a ≤ top
        → next_delay o.schedule uniform a ≡ err x
        → x ≡ overflow_error
    error_at a uniform x h e =
        let split : (a < top) ⊎ (a ≡ top) = omega arith in
        elim split [
          | inl lt ↦ absurd (next_delay-ok o.schedule uniform a x (below a lt).1 e)
          | inr at ↦ cc (next_delay-overflow o.schedule uniform a (rw at overflows), e)
        ]

    below_top :
        (a : ℕ) (uniform : F → F → F) (delay : F)
        → a ≤ top
        → next_delay o.schedule uniform a ≡ ok delay
        → a < top
    below_top a uniform delay h e =
        let split : (a < top) ⊎ (a ≡ top) = omega arith in
        elim split [
          | inl lt ↦ lt
          | inr at ↦ absurd (cc (next_delay-overflow o.schedule uniform a (rw at overflows), e))
        ]

    outage_rule :
        IsInvariant r o
          (λ cs s. All IsIdle cs × (s.attempt ≤ top) × (top < s.attempt + length cs))
          (λ cs flow s n.
            GoesOn flow
            × (n ≡ 0)
            × All IsIdle cs
            × (s.attempt ≤ top)
            × (top ≤ s.attempt + length cs))
          (λ out s. out ≡ failed overflow_error)
    outage_rule = record {
      at_end = λ s h. absurd (omega arith);
      no_client = λ c cs s x h e. absurd (cc (known, e));
      streams = λ c cs s h. rw (idle_loop c s h.0.0) (h.0.0.1, refl, h.0.1, h.1, omega arith);
      flushed = λ cs s n h. (tt, h.1, h.2, h.3, h.4);
      finishes = λ cs s n h. absurd h.0;
      raises = λ cs x s n h. absurd h.0;
      gives_up = λ cs s n h b. absurd (cc (never_exceeded (s.reconnects + 1), b));
      no_delay = λ cs s n x h b e. ap failed (error_at s.attempt _ x h.3 (rw h.1 at e));
      resumes = λ cs s n delay h b e.
          let lt : s.attempt < top = below_top s.attempt _ delay h.3 (rw h.1 at e) in
          rw h.1 (h.2, lt, omega arith);
    }

    -- With no limit on the reconnects, connections that deliver nothing, and are closed or end by a
    -- WebSocketException or an OSError, end the producer with an OverflowError, as soon as there have
    -- been so many that the power of the backoff overflows.
    pub run_producer-overflows :
        (connections : List (Connection F))
        → All IsIdle connections
        → top < length connections
        → (run_producer r o connections).0 ≡ failed overflow_error
    unfolding run_producer
    run_producer-overflows connections h k =
        serve_rule r o _ _ _ outage_rule connections idle (h, omega arith, omega arith)
