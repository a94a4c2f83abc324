-- ===== src/Producer/Service/Rule.antt =====
-- The proof rule of the reconnect loop of producer/service.py: an invariant at the head of the
-- loop, and what holds where it ends.
use tickstream_streaming_lak.Prelude.{
  Option, ℕ, suc, ◌+◌, ◌≡◌, refl, true, false, some, List, [], ◌∷◌, if◌then◌else◌, ltb, inl, inr,
  Bool-cases,
}
use tickstream_streaming_lak.Errors.{Exc, Result, ok, err}
use tickstream_streaming_lak.Py.{Double, Json, Runtime}
use tickstream_streaming_lak.Time.{Datetime}
use tickstream_streaming_lak.Normalize.Record.{Batch}
use tickstream_streaming_lak.Normalize.Dispatch.{normalize_safe}
use tickstream_streaming_lak.Producer.Backoff.{next_delay}
use tickstream_streaming_lak.Producer.Exchanges.{Client, build_client}
use tickstream_streaming_lak.Producer.Service.{
  connect, flush, sleep, Connection, State, Flow, closed, lost, finished, raised, Outcome, running,
  returned, failed, Options, did, exceeded, reached, flow_of, publish_batch, stream_loop, reconnect,
  serve,
}

module _ {F : Type 0} ⦃d : Double F⦄ (r : Runtime F) (o : Options F) where
  -- What publishing a batch and flushing keep, the loop over the messages keeps.
  module _ (P : State F → ℕ → Type 0)
      (batches : (payload : Json F) (now : Datetime) (batch : Batch F) (s : State F) (n : ℕ)
        → normalize_safe r now o.exchange (some o.symbol_map) payload ≡ ok batch
        → P s n
        → let (s', n') = publish_batch r o batch (s, n) in P s' n')
      (flushes : (s : State F) (n : ℕ) → P s n → P (did flush s) n) where
    step :
        (payload : Json F) (now : Datetime) (x : Result (Batch F)) (rest : List (Json F × Datetime))
        (failure : Option Exc) (s : State F) (n : ℕ)
        → normalize_safe r now o.exchange (some o.symbol_map) payload ≡ x
        → P s n
        → ((s' : State F) (n' : ℕ)
            → P s' n'
            → let (s'', n'') = (stream_loop r o rest failure (s', n')).1 in P s'' n'')
        → let (flow, (s', n')) : Flow × (State F × ℕ) = elim x [
          | err x ↦ (flow_of x, (s, n))
          | ok batch ↦
              let next = publish_batch r o batch (s, n) in
              let later = stream_loop r o rest failure next in
              if reached o.max_messages next.0.published
              then (finished, (did flush next.0, next.1))
              else later
        ] in
          P s' n'
    step payload now (err x) rest failure s n e p ih = p
    step payload now (ok batch) rest failure s n e p ih =
        let next = publish_batch r o batch (s, n) in
        let ready : P next.0 next.1 = batches payload now batch s n e p in
        elim (Bool-cases (reached o.max_messages next.0.published)) [
          | inl b ↦ rw b (flushes next.0 next.1 ready)
          | inr b ↦ rw b (ih next.0 next.1 ready)
        ]

    pub stream_loop_rule :
        (msgs : List (Json F × Datetime)) (failure : Option Exc) (s : State F) (n : ℕ)
        → P s n
        → let (s', n') = (stream_loop r o msgs failure (s, n)).1 in P s' n'
    unfolding stream_loop
    stream_loop_rule [] failure s n p = p
    stream_loop_rule ((payload, now) ∷ rest) failure s n p =
        step payload now (normalize_safe r now o.exchange (some o.symbol_map) payload) rest failure
          s n refl p (λ s' n' p'. stream_loop_rule rest failure s' n' p')

  -- The state behind a connection, when the loop goes on after the `n` events of it.
  abbrev pub counted : State F → State F
  counted s = record s { reconnects = s.reconnects + 1 }

  abbrev pub resumed : State F → ℕ → F → State F
  resumed s n delay =
      did (sleep delay) (record (counted s) { attempt = suc (if ltb 0 n then 0 else s.attempt) })

  -- `I` holds at the head of the loop, `J` behind a connection, and `Q` of the outcome, with the
  -- connections that were still to come at the head. The flush at the end keeps `J`.
  pub record IsInvariant (I : List (Connection F) → State F → Type 0)
      (J : List (Connection F) → Flow → State F → ℕ → Type 0) (Q : Outcome → State F → Type 0)
      : Type 0 where
    pub at_end : (s : State F) → I [] s → Q running s
    pub no_client :
        (c : Connection F) (cs : List (Connection F)) (s : State F) (x : Exc)
        → I (c ∷ cs) s
        → build_client r.lower o.settings (some o.exchange) ≡ err x
        → Q (failed x) (did flush s)
    pub streams :
        (c : Connection F) (cs : List (Connection F)) (s : State F)
        → I (c ∷ cs) s
        → let (flow, acc) = stream_loop r o c.messages c.failure (did connect s, 0) in
          J cs flow acc.0 acc.1
    pub flushed :
        (cs : List (Connection F)) (s : State F) (n : ℕ)
        → J cs lost s n
        → J cs closed (did flush s) n
    pub finishes :
        (cs : List (Connection F)) (s : State F) (n : ℕ)
        → J cs finished s n
        → Q (returned s.published) (did flush s)
    pub raises :
        (cs : List (Connection F)) (x : Exc) (s : State F) (n : ℕ)
        → J cs (raised x) s n
        → Q (failed x) (did flush s)
    pub gives_up :
        (cs : List (Connection F)) (s : State F) (n : ℕ)
        → J cs closed s n
        → exceeded o.max_reconnects (s.reconnects + 1) ≡ true
        → Q (returned s.published) (did flush (counted s))
    pub no_delay :
        (cs : List (Connection F)) (s : State F) (n : ℕ) (x : Exc)
        → J cs closed s n
        → exceeded o.max_reconnects (s.reconnects + 1) ≡ false
        → next_delay o.schedule (o.uniform (s.reconnects + 1)) (if ltb 0 n then 0 else s.attempt)
          ≡ err x
        → Q (failed x) (did flush (counted s))
    pub resumes :
        (cs : List (Connection F)) (s : State F) (n : ℕ) (delay : F)
        → J cs closed s n
        → exceeded o.max_reconnects (s.reconnects + 1) ≡ false
        → next_delay o.schedule (o.uniform (s.reconnects + 1)) (if ltb 0 n then 0 else s.attempt)
          ≡ ok delay
        → I cs (resumed s n delay)

  module _ (I : List (Connection F) → State F → Type 0)
      (J : List (Connection F) → Flow → State F → ℕ → Type 0) (Q : Outcome → State F → Type 0)
      (inv : IsInvariant I J Q) where
    reconnect_rule :
        (cs : List (Connection F)) (s : State F) (n : ℕ) (again : State F → Outcome × State F)
        → J cs closed s n
        → ((s' : State F) → I cs s' → Q (again s').0 (again s').1)
        → let (out, s') = reconnect r o (s, n) again in Q out s'
    unfolding reconnect
    reconnect_rule cs s n again j ih =
        elim (Bool-cases (exceeded o.max_reconnects (s.reconnects + 1))) [
          | inl b ↦ rw b (inv.gives_up cs s n j b)
          | inr b ↦ rw b (go b _ refl)
        ]
      where
        go :
            exceeded o.max_reconnects (s.reconnects + 1) ≡ false
            → (res : Result F)
            → next_delay o.schedule
                (o.uniform (s.reconnects + 1))
                (if ltb 0 n then 0 else s.attempt)
              ≡ res
            → let (out, s') : Outcome × State F = elim res [
              | err x ↦ (failed x, did flush (counted s))
              | ok delay ↦ again (resumed s n delay)
            ] in
              Q out s'
        go b (err x) e = inv.no_delay cs s n x j b e
        go b (ok delay) e = ih (resumed s n delay) (inv.resumes cs s n delay j b e)

    pub serve_rule :
        (cs : List (Connection F)) (s : State F)
        → I cs s
        → let (out, s') = serve r o cs s in Q out s'
    unfolding serve
    serve_rule [] s i = inv.at_end s i
    serve_rule (c ∷ cs) s i = go (build_client r.lower o.settings (some o.exchange)) refl (
        leave (stream_loop r o c.messages c.failure (did connect s, 0)) (inv.streams c cs s i)
          (λ s' i'. serve_rule cs s' i'))
      where
        leave :
            (acc : Flow × (State F × ℕ))
            → J cs acc.0 acc.1.0 acc.1.1
            → ((s' : State F) → I cs s' → Q (serve r o cs s').0 (serve r o cs s').1)
            → let (out, s') : Outcome × State F = elim acc.0 [
              | closed ↦ reconnect r o (acc.1.0, acc.1.1) (serve r o cs)
              | lost ↦ reconnect r o (did flush acc.1.0, acc.1.1) (serve r o cs)
              | finished ↦ (returned acc.1.0.published, did flush acc.1.0)
              | raised x ↦ (failed x, did flush acc.1.0)
            ] in
              Q out s'
        leave (closed, (s', n)) j ih = reconnect_rule cs s' n (serve r o cs) j ih
        leave (lost, (s', n)) j ih =
            reconnect_rule cs (did flush s') n (serve r o cs) (inv.flushed cs s' n j) ih
        leave (finished, (s', n)) j ih = inv.finishes cs s' n j
        leave (raised x, (s', n)) j ih = inv.raises cs x s' n j

        go :
            (res : Result Client)
            → build_client r.lower o.settings (some o.exchange) ≡ res
            → let (out, s') : Outcome × State F =
                (let (flow, (s', n)) = stream_loop r o c.messages c.failure (did connect s, 0) in
                  elim flow [
                    | closed ↦ reconnect r o (s', n) (serve r o cs)
                    | lost ↦ reconnect r o (did flush s', n) (serve r o cs)
                    | finished ↦ (returned s'.published, did flush s')
                    | raised x ↦ (failed x, did flush s')
                  ]) in
              Q out s'
              → let (out, s') : Outcome × State F = elim res [
                | err x ↦ (failed x, did flush s)
                | ok client ↦
                    let (flow, (s', n)) = stream_loop r o c.messages c.failure (did connect s, 0) in
                    elim flow [
                      | closed ↦ reconnect r o (s', n) (serve r o cs)
                      | lost ↦ reconnect r o (did flush s', n) (serve r o cs)
                      | finished ↦ (returned s'.published, did flush s')
                      | raised x ↦ (failed x, did flush s')
                    ]
              ] in
                Q out s'
        go (err x) e q = inv.no_client c cs s x i e
        go (ok client) e q = q
