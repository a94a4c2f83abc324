-- ===== src/Lake/Bronze/Laws.antt =====
-- What `write_bronze` (src/tickstream/lake/bronze.py) lands.
use tickstream_streaming_lak.Prelude.{
  ℕ, ◌+◌, ◌≤◌, ◌≡◌, refl, Bool, true, false, Option, none, some, List, [], ◌∷◌, ◌++◌, length,
  length-append, ltb, leb, All, arith, inl, inr, Bool-cases,
}
use tickstream_streaming_lak.Errors.{
  Result, ok, err, ◌>>=◌, bind-ok, Returns-and, Returns, Returns-bind, Returns-then,
}
use tickstream_streaming_lak.Schema.{MarketEvent}
use tickstream_streaming_lak.Lake.Poll.{Poll, drain, rows_of, IsDrained, IsPrompt, write_rows}
use tickstream_streaming_lak.Lake.Poll.Laws.{
  drain-IsDrained, drain-prompt, drain-silent, HasRows, write_rows-HasRows, write_rows-count,
}
use tickstream_streaming_lak.Lake.Bronze.{has_enough, write_bronze}

-- The limit on the rows.
abbrev pub IsWithin : Option ℕ → ℕ → Type 0
IsWithin none n = Unit
IsWithin (some m) n = n ≤ m

grown {ℓ} :
    {A : Type ℓ} (m : ℕ) (rows : List A) (row : A)
    → has_enough (some m) (length rows) ≡ false
    → length (rows ++ (row ∷ [])) ≤ m
unfolding has_enough
grown m rows row f = ground (arith, f, length-append rows (row ∷ []))

module _ {F : Type 0} (decode : List ℕ → Result (MarketEvent F)) where
  within :
      (m deadline idle : ℕ) (polls : List Poll) (idle_until : ℕ) (rows : List (MarketEvent F))
      → length rows ≤ m
      → Returns
          (λ out. length out ≤ m)
          (drain decode (has_enough (some m)) deadline idle polls idle_until rows)
  unfolding drain
  within m deadline idle [] idle_until rows h = h
  within m deadline idle (p ∷ polls) idle_until rows h =
      elim (Bool-cases (ltb p.checked deadline)) [
        | inr b ↦ rw (drain, b) h
        | inl b ↦ elim (Bool-cases (has_enough (some m) (length rows))) [
          | inl f ↦ rw (drain, b, f) h
          | inr f ↦
              rw (drain, b, f)
                (go p.message f (λ until out k. within m deadline idle polls until out k))
        ]
      ]
    where
      go :
          (message : Option (List ℕ))
          → has_enough (some m) (length rows) ≡ false
          → ((until : ℕ) (out : List (MarketEvent F))
              → length out ≤ m
              → Returns
                  (λ end. length end ≤ m)
                  (drain decode (has_enough (some m)) deadline idle polls until out))
          → Returns
              (λ end. length end ≤ m)
              (elim message [
                | none ↦ (elim (leb idle_until p.polled) [
                  | true ↦ ok rows
                  | false ↦ drain decode (has_enough (some m)) deadline idle polls idle_until rows
                ])
                | some value ↦ (do
                  row ← decode value
                  drain decode
                      (has_enough (some m))
                      deadline
                      idle
                      polls
                      (p.polled + idle)
                      (rows ++ (row ∷ [])))
              ])
      go none f ih = elim (Bool-cases (leb idle_until p.polled)) [
        | inl b ↦ rw b h
        | inr b ↦ rw b (ih idle_until rows h)
      ]
      go (some value) f ih =
          Returns-then _ (decode value) _ λ row. ih (p.polled + idle) _ (grown m rows row f)

  pub drain-IsWithin :
      (max_messages : Option ℕ) (deadline idle : ℕ) (polls : List Poll) (idle_until : ℕ)
      → Returns
          (λ out. IsWithin max_messages (length out))
          (drain decode (has_enough max_messages) deadline idle polls idle_until [])
  drain-IsWithin none deadline idle polls idle_until =
      trivial (drain decode (has_enough none) deadline idle polls idle_until [])
    where
      trivial : {R : Type 0} (m : Result (List R)) → Returns (λ out. Unit {0}) m
      trivial (ok out) = tt
      trivial (err x) = tt
  drain-IsWithin (some m) deadline idle polls idle_until =
      within m deadline idle polls idle_until [] (omega arith)

  -- What is behind a call that returns.
  abbrev pub HasBronze :
      Option ℕ → Bool → List Poll → List (MarketEvent F) → List (MarketEvent F) × ℕ → Type 0
  HasBronze max_messages clear polls stored (table, n) =
      HasRows decode clear polls stored (table, n) × IsWithin max_messages n

  write_bronze-Returns :
      (begun timeout idle : ℕ) (max_messages : Option ℕ) (clear : Bool) (polls : List Poll)
      (stored : List (MarketEvent F))
      → Returns
          (HasBronze max_messages clear polls stored)
          (write_bronze decode begun timeout idle max_messages clear polls stored)
  unfolding write_bronze
  write_bronze-Returns begun timeout idle max_messages clear polls stored =
      let read =
        drain decode (has_enough max_messages) (begun + timeout) idle polls (begun + idle) [] in
      Returns-bind (λ rows. IsDrained decode polls [] rows × IsWithin max_messages (length rows)) _
        read _
        (Returns-and _ _ read
          (drain-IsDrained decode (has_enough max_messages) (begun + timeout) idle polls
            (begun + idle) [])
          (drain-IsWithin max_messages (begun + timeout) idle polls (begun + idle)))
        λ rows v. (
          write_rows-HasRows decode clear polls stored rows v.0,
          rw (write_rows-count decode clear stored rows) v.1,
        )

  -- A call that returns has read one event for each message of some first rounds, in their order
  -- and at most `max_messages`; it returns their number, and if there are any they stand behind
  -- what the call kept, which is nothing if it clears. If there are none the table stays as it was.
  pub write_bronze_lands :
      (begun timeout idle : ℕ) (max_messages : Option ℕ) (clear : Bool) (polls : List Poll)
      (stored table : List (MarketEvent F)) (n : ℕ)
      → write_bronze decode begun timeout idle max_messages clear polls stored ≡ ok (table, n)
      → HasBronze max_messages clear polls stored (table, n)
  write_bronze_lands begun timeout idle max_messages clear polls stored table n h =
      rw h at (write_bronze-Returns begun timeout idle max_messages clear polls stored)

  -- Without a limit, and if every round comes before the deadline and no silence lasts for the idle
  -- time, every message is read: the table holds the events of all of them, or the call raises
  -- what the first undecodable message raises.
  pub write_bronze_complete :
      (begun timeout idle : ℕ) (clear : Bool) (polls : List Poll) (stored : List (MarketEvent F))
      → IsPrompt (begun + timeout) idle (begun + idle) polls
      → write_bronze decode begun timeout idle none clear polls stored
        ≡ (rows_of decode polls >>= λ rows. ok (write_rows clear stored rows))
  unfolding write_bronze has_enough
  write_bronze_complete begun timeout idle clear polls stored h =
      rw (drain-prompt decode (begun + timeout) idle polls (begun + idle) [] h) (rw bind-ok refl)

  -- When nothing arrives, the rows of an earlier run stay, also if the call is to clear them.
  pub write_bronze_stale :
      (begun timeout idle : ℕ) (max_messages : Option ℕ) (clear : Bool) (polls : List Poll)
      (stored : List (MarketEvent F))
      → All (λ p. p.message ≡ none) polls
      → write_bronze decode begun timeout idle max_messages clear polls stored ≡ ok (stored, 0)
  unfolding write_bronze write_rows
  write_bronze_stale begun timeout idle max_messages clear polls stored h =
      rw
        (drain-silent decode (has_enough max_messages) (begun + timeout) idle polls (begun + idle)
          [] h)
        refl
