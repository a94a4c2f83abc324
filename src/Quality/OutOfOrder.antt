-- ===== src/Quality/OutOfOrder.antt =====
-- `count_out_of_order` of quality/contract.py. A row is its symbol and its event time, where they
-- are there.
use tickstream_streaming_lak.Prelude.{
  ℕ, ◌+◌, String, ◌≡◌, refl, ap₂, Bool, false, ◌||◌, Option, none, some, List, [], ◌∷◌,
  if◌then◌else◌, arith, inl, inr, Bool-cases,
}
use tickstream_streaming_lak.Prelude.Int.{ltb_ℤ}
use tickstream_streaming_lak.Prelude.Eq.{◌==◌, string_eq}
use tickstream_streaming_lak.Prelude.Group.{distinct}
use tickstream_streaming_lak.Time.{Datetime}

-- `ts < prev`, which is false of a NaT
abbrev pub is_late : Option Datetime → Option Datetime → Bool
is_late none prev = false
is_late (some ts) none = false
is_late (some ts) (some prev) = ltb_ℤ ts prev

-- The loop over one group, with `prev`: `None`, or a time, or a NaT.
unfoldable pub count_group : Option (Option Datetime) → List (Option Datetime) → ℕ
count_group prev [] = 0
count_group none (ts ∷ rest) = count_group (some ts) rest
count_group (some prev) (ts ∷ rest) =
    let late = count_group (some prev) rest + 1 in
    let next = count_group (some ts) rest in if is_late ts prev then late else next

-- The times of one symbol, in the order of the rows.
abbrev pub group_times : String → List (Option String × Option Datetime) → List (Option Datetime)
group_times s [] = []
group_times s ((none, ts) ∷ rows) = group_times s rows
group_times s ((some t, ts) ∷ rows) =
    let rest = group_times s rows in if t == s then ts ∷ rest else rest

-- The keys of the groups: `groupby` drops the rows without a symbol.
abbrev pub group_symbols : List (Option String × Option Datetime) → List String
group_symbols [] = []
group_symbols ((none, ts) ∷ rows) = group_symbols rows
group_symbols ((some s, ts) ∷ rows) = s ∷ group_symbols rows

abbrev pub sum_over : (String → ℕ) → List String → ℕ
sum_over f [] = 0
sum_over f (s ∷ ss) = f s + sum_over f ss

unfoldable pub count_out_of_order : List (Option String × Option Datetime) → ℕ
count_out_of_order rows =
    sum_over (λ s. count_group none (group_times s rows)) (distinct (group_symbols rows))

-- Whether some time of a list is later.
abbrev pub any_later : Datetime → List Datetime → Bool
any_later ts [] = false
any_later ts (t ∷ seen) = ltb_ℤ ts t || any_later ts seen

-- The number of the times that are earlier than a time before them, where a time that is missing
-- makes the count start again.
abbrev pub late_times : List Datetime → List (Option Datetime) → ℕ
late_times seen [] = 0
late_times seen (none ∷ rest) = late_times [] rest
late_times seen (some ts ∷ rest) =
    (if any_later ts seen then 1 else 0) + late_times (ts ∷ seen) rest

-- `prev` is the latest of what was seen, as far as comparisons go.
abbrev IsLatest : Option Datetime → List Datetime → Type 0
IsLatest prev seen = (ts : Datetime) → any_later ts seen ≡ is_late (some ts) prev

count_group-late :
    (prev : Option Datetime) (seen : List Datetime) (ts : List (Option Datetime))
    → IsLatest prev seen
    → count_group (some prev) ts ≡ late_times seen ts
unfolding count_group
count_group-late prev seen [] h = refl
count_group-late prev seen (none ∷ ts) h = count_group-late none [] ts (λ u. refl)
count_group-late none seen (some t ∷ ts) h =
    let ih = count_group-late (some t) (t ∷ seen) ts (λ u. ground (arith, h u)) in
    rw (h t, ih) (omega arith)
count_group-late (some prev) seen (some t ∷ ts) h = elim (Bool-cases (ltb_ℤ t prev)) [
  | inl b ↦
      let ih = count_group-late (some prev) (t ∷ seen) ts (λ u. ground (arith, b, h u)) in
      rw (h t, b, ih) (omega arith)
  | inr b ↦
      let ih = count_group-late (some t) (t ∷ seen) ts (λ u. ground (arith, b, h u)) in
      rw (h t, b, ih) (omega arith)
]

count_group-first : (ts : List (Option Datetime)) → count_group none ts ≡ late_times [] ts
unfolding count_group
count_group-first [] = refl
count_group-first (none ∷ ts) = count_group-late none [] ts (λ u. refl)
count_group-first (some t ∷ ts) =
    let late = count_group-late (some t) (t ∷ []) ts (λ u. ground arith) in omega (arith, late)

sum_over_cong :
    (f g : String → ℕ) (ss : List String)
    → ((s : String) → f s ≡ g s)
    → sum_over f ss ≡ sum_over g ss
sum_over_cong f g [] h = refl
sum_over_cong f g (s ∷ ss) h = ap₂ (λ a b. a + b) (h s) (sum_over_cong f g ss h)

-- The count is, over all symbols, the number of the records whose time is earlier than the time
-- of any record of the same symbol before them, not only of the one just before; a record
-- without a time makes the count of its symbol start again.
pub count_out_of_order-late :
    (rows : List (Option String × Option Datetime))
    → count_out_of_order rows
      ≡ sum_over (λ s. late_times [] (group_times s rows)) (distinct (group_symbols rows))
unfolding count_out_of_order
count_out_of_order-late rows = sum_over_cong _ _ _ λ s. count_group-first (group_times s rows)
