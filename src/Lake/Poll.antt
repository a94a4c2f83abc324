-- ===== src/Lake/Poll.antt =====
-- The poll loop that `write_bronze` (src/tickstream/lake/bronze.py), `land_windows`
-- (src/tickstream/lake/windows.py) and `land_quarantine` (src/tickstream/quality/quarantine.py)
-- have in common. The consumer's answers and the clock are arguments.
pub mod Laws
use tickstream_streaming_lak.Prelude.{
  ℕ, ◌+◌, ◌≡◌, Bool, true, false, Option, none, some, List, [], ◌∷◌, ◌++◌, length, ltb, leb,
  if◌then◌else◌,
}
use tickstream_streaming_lak.Errors.{Result, ok, ◌>>=◌}

-- One round: the time of the loop's test, what `poll` gives (none also for an error), and the
-- time behind it, in ticks of the monotonic clock.
pub record Poll : Type 0 where
  pub checked : ℕ
  pub message : Option (List ℕ)
  pub polled : ℕ

module _ {R : Type 0} (read : List ℕ → Result R) (is_full : ℕ → Bool) where
  -- The loop, with the rows so far. A list of rounds that ends stands for a deadline that has
  -- passed. `is_full` is the limit on the rows, where the loop has one.
  unfoldable pub drain : ℕ → ℕ → List Poll → ℕ → List R → Result (List R)
  drain deadline idle [] idle_until rows = ok rows
  drain deadline idle (p ∷ polls) idle_until rows = elim (ltb p.checked deadline) [
    | false ↦ ok rows
    | true ↦ (elim (is_full (length rows)) [
      | true ↦ ok rows
      | false ↦ (elim p.message [
        | none ↦ (elim (leb idle_until p.polled) [
          | true ↦ ok rows
          | false ↦ drain deadline idle polls idle_until rows
        ])
        | some value ↦ (do
          row ← read value
          drain deadline idle polls (p.polled + idle) (rows ++ (row ∷ [])))
      ])
    ])
  ]

-- The messages that the rounds bring.
abbrev pub delivered : List Poll → List (List ℕ)
delivered [] = []
delivered (p ∷ polls) = elim p.message [
  | none ↦ delivered polls
  | some value ↦ value ∷ delivered polls
]

module _ {R : Type 0} (read : List ℕ → Result R) where
  -- The rows of all the messages of a list of rounds.
  abbrev pub rows_of : List Poll → Result (List R)
  rows_of [] = ok []
  rows_of (p ∷ polls) = elim p.message [
    | none ↦ rows_of polls
    | some value ↦ (do row ← read value; rest ← rows_of polls; ok (row ∷ rest))
  ]

  -- Some first rounds were taken, and every message among them gave one row.
  pub record IsDrained (polls : List Poll) (rows out : List R) : Type 0 where
    pub taken : List Poll
    pub rest : List Poll
    pub fresh : List R
    pub split : polls ≡ taken ++ rest
    pub read_taken : rows_of taken ≡ ok fresh
    pub landed : out ≡ rows ++ fresh

-- Each round comes before the deadline, and no silence before it lasts for the idle time.
abbrev pub IsPrompt : ℕ → ℕ → ℕ → List Poll → Type 0
IsPrompt deadline idle idle_until [] = Unit
IsPrompt deadline idle idle_until (p ∷ polls) = (ltb p.checked deadline ≡ true) × (elim p.message [
  | none ↦ (leb idle_until p.polled ≡ false) × IsPrompt deadline idle idle_until polls
  | some value ↦ IsPrompt deadline idle (p.polled + idle) polls
])

-- `if not rows: return 0`, and else the write, behind a wipe if `clear`: the table behind the call,
-- and the number that is returned.
unfoldable pub write_rows {ℓ} : {R : Type ℓ} → Bool → List R → List R → List R × ℕ
write_rows clear stored [] = (stored, 0)
write_rows clear stored (row ∷ rows) =
    ((if clear then [] else stored) ++ (row ∷ rows), length (row ∷ rows))
