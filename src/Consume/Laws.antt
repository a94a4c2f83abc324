-- ===== src/Consume/Laws.antt =====
-- What `consume_events` (src/tickstream/consume.py) returns.
use tickstream_streaming_lak.Prelude.{
  ℕ, ◌+◌, ◌≤◌, ◌≡◌, refl, ap, true, ◌&&◌, Option, none, some, List, [], ◌∷◌, ◌++◌, length,
  length-append, ltb, All, arith, inl, inr, Bool-cases, append-nil,
}
use tickstream_streaming_lak.Errors.{Result, ok, ◌>>=◌, Returns, Returns-then}
use tickstream_streaming_lak.Schema.{MarketEvent}
use tickstream_streaming_lak.Lake.Poll.{Poll, delivered, rows_of}
use tickstream_streaming_lak.Lake.Poll.Laws.{settle}
use tickstream_streaming_lak.Consume.{consume_events}

module _ {F : Type 0} (decode : List ℕ → Result (MarketEvent F)) where
  nothing_left : (polls : List Poll) → length (delivered polls) ≤ 0 → rows_of decode polls ≡ ok []
  nothing_left [] h = refl
  nothing_left (p ∷ polls) h = go p.message h refl (λ k. nothing_left polls k)
    where
      go :
          (m : Option (List ℕ))
          → length (delivered (p ∷ polls)) ≤ 0
          → p.message ≡ m
          → (length (delivered polls) ≤ 0 → rows_of decode polls ≡ ok [])
          → rows_of decode (p ∷ polls) ≡ ok []
      go none h e ih = rw e (ih (rw e at h))
      go (some value) h e ih =
          let k : length (value ∷ delivered polls) ≤ 0 = rw e at h in absurd (omega arith)

  -- If every round comes before the deadline and there is room for all messages, all of them are
  -- decoded, in their order, or the first that cannot be decoded raises.
  pub consume_events_complete :
      (deadline max_messages : ℕ) (polls : List Poll) (out : List (MarketEvent F))
      → All (λ p. ltb p.checked deadline ≡ true) polls
      → length out + length (delivered polls) ≤ max_messages
      → consume_events decode deadline max_messages polls out
        ≡ (rows_of decode polls >>= λ events. ok (out ++ events))
  unfolding consume_events
  consume_events_complete deadline max_messages [] out h k = rw append-nil
  consume_events_complete deadline max_messages (p ∷ polls) out (b, h) k =
      elim (Bool-cases (ltb (length out) max_messages)) [
        | inr f ↦
            rw (consume_events, f, nothing_left (p ∷ polls) (ground (arith, f, k)))
              (ap ok (rw append-nil))
        | inl f ↦
            go p.message f k refl
              (λ out' l. consume_events_complete deadline max_messages polls out' h l)
      ]
    where
      go :
          (m : Option (List ℕ))
          → ltb (length out) max_messages ≡ true
          → length out + length (delivered (p ∷ polls)) ≤ max_messages
          → p.message ≡ m
          → ((out' : List (MarketEvent F))
              → length out' + length (delivered polls) ≤ max_messages
              → consume_events decode deadline max_messages polls out'
                ≡ (rows_of decode polls >>= λ events. ok (out' ++ events)))
          → consume_events decode deadline max_messages (p ∷ polls) out
            ≡ (rows_of decode (p ∷ polls) >>= λ events. ok (out ++ events))
      go none f k e ih = rw (consume_events, f, b, e) (ih out (rw e at k))
      go (some value) f k e ih =
          let l : length out + length (value ∷ delivered polls) ≤ max_messages = rw e at k in
          rw (consume_events, f, b, e)
            (settle decode out (decode value) (rows_of decode polls) _
              (λ event. ih (out ++ (event ∷ [])) (omega (arith, length-append out (event ∷ [])))))

  -- No more events are returned than were asked for.
  pub consume_events_bounded :
      (deadline max_messages : ℕ) (polls : List Poll) (out : List (MarketEvent F))
      → length out ≤ max_messages
      → Returns
          (λ events. length events ≤ max_messages)
          (consume_events decode deadline max_messages polls out)
  unfolding consume_events
  consume_events_bounded deadline max_messages [] out h = h
  consume_events_bounded deadline max_messages (p ∷ polls) out h =
      elim (Bool-cases (ltb (length out) max_messages && ltb p.checked deadline)) [
        | inr f ↦ rw (consume_events, f) h
        | inl f ↦
            rw (consume_events, f)
              (go p.message (λ out' l. consume_events_bounded deadline max_messages polls out' l) f)
      ]
    where
      go :
          (m : Option (List ℕ))
          → ((out' : List (MarketEvent F))
              → length out' ≤ max_messages
              → Returns
                  (λ events. length events ≤ max_messages)
                  (consume_events decode deadline max_messages polls out'))
          → (ltb (length out) max_messages && ltb p.checked deadline) ≡ true
          → Returns
              (λ events. length events ≤ max_messages)
              (elim m [
                | none ↦ consume_events decode deadline max_messages polls out
                | some value ↦ (do
                  e ← decode value
                  consume_events decode deadline max_messages polls (out ++ (e ∷ [])))
              ])
      go none ih f = ih out h
      go (some value) ih f =
          Returns-then _ (decode value) _
            λ e. ih (out ++ (e ∷ [])) (ground (arith, f, length-append out (e ∷ [])))
