-- ===== src/Lake/Iceberg/Laws.antt =====
-- What the gold table of src/tickstream/lake/iceberg.py holds, now and at its snapshots.
use tickstream_streaming_lak.Prelude.{
  ℕ, ◌≡◌, refl, sym, subst, Bool, not, inl, inr, Bool-cases, length, Option, none, some, List, [],
  ◌∷◌, ◌++◌, keep, append-nil,
}
use mathlib.Core.List.{Perm, perm_middle}
use mathlib.Core.List.Perm
use tickstream_streaming_lak.Prelude.Sort.{length-Perm}
use tickstream_streaming_lak.Metrics.{WindowMetrics}
use tickstream_streaming_lak.Lake.Iceberg.{
  Tables, IsVersioned, HoldsRows, last_id, is_1m, append_rows, materialize_gold, read_gold,
}

pub last_id-append : (ids : List ℕ) (id : ℕ) → last_id (ids ++ (id ∷ [])) ≡ some id
last_id-append [] id = refl
last_id-append (i ∷ []) id = refl
last_id-append (i ∷ j ∷ ids) id = last_id-append (j ∷ ids) id

HoldsRows-trans :
    {R : Type 0} {xs ys : List R} (read : Option (List R))
    → HoldsRows read xs
    → Perm xs ys
    → HoldsRows read ys
HoldsRows-trans none h p = h
HoldsRows-trans (some rows) h p = Perm.trans h p

-- A read that gives these rows gives a list, as long as they are.
pub HoldsRows-length :
    {R : Type 0} (rows : List R) (read : Option (List R))
    → HoldsRows read rows
    → (found : List R) × (read ≡ some found) × (length found ≡ length rows)
HoldsRows-length rows none h = absurd h
HoldsRows-length rows (some found) h = (found, refl, length-Perm h)

-- The rows that pass a test and those that do not are all rows.
keep-Perm {ℓ} :
    {A : Type ℓ} (p : A → Bool) (xs : List A) → Perm (keep p xs ++ keep (λ x. not (p x)) xs) xs
keep-Perm p [] = Perm.refl _
keep-Perm p (x ∷ xs) = elim (Bool-cases (p x)) [
  | inl b ↦ rw b (Perm.cons x (keep-Perm p xs))
  | inr b ↦ rw b (
      Perm.trans (perm_middle (keep p xs) (keep (λ z. not (p z)) xs))
        (Perm.cons x (keep-Perm p xs)))
]

module _ {F T : Type 0} (t : Tables (WindowMetrics F) T)
    (laws : IsVersioned (WindowMetrics F) T t) where
  -- What a snapshot id stands for: nothing was appended and there is none, or it reads the rows, in
  -- some order.
  abbrev pub Reads : T → Option ℕ → List (WindowMetrics F) → Type 0
  Reads s none rows = rows ≡ []
  Reads s (some id) rows = HoldsRows (read_gold t s (some id)) rows

  pub append_rows-scan :
      (rows : List (WindowMetrics F)) (before : Option ℕ) (s : T)
      → Perm (t.scan (append_rows t rows before s).0) (t.scan s ++ rows)
  unfolding append_rows
  append_rows-scan [] before s =
      subst (λ l. Perm (t.scan s) l) (sym (append-nil (t.scan s))) (Perm.refl (t.scan s))
  append_rows-scan (m ∷ ms) before s = laws.scan-append (m ∷ ms) s

  -- Rows that a table holds, in some order, are what the snapshot behind an append reads.
  append_rows-Reads :
      (rows held : List (WindowMetrics F)) (before : Option ℕ) (s : T)
      → Perm (t.scan s) held
      → Reads s before held
      → let (s', id) = append_rows t rows before s in Reads s' id (held ++ rows)
  unfolding append_rows read_gold
  append_rows-Reads [] held before s p h = subst (Reads s before) (sym (append-nil held)) h
  append_rows-Reads (m ∷ ms) held before s p h =
      rw (laws.snapshots-append (m ∷ ms) s, last_id-append)
        (HoldsRows-trans _ (laws.scan_at-new (m ∷ ms) s) (Perm.append_right (m ∷ ms) p))

  -- A later append leaves an older snapshot.
  append_rows-keeps :
      (rows : List (WindowMetrics F)) (before id : Option ℕ) (s : T) (old : List (WindowMetrics F))
      → Reads s id old
      → Reads (append_rows t rows before s).0 id old
  unfolding append_rows read_gold
  append_rows-keeps [] before id s old h = h
  append_rows-keeps (m ∷ ms) before none s old h = h
  append_rows-keeps (m ∷ ms) before (some id) s old h = laws.scan_at-old (m ∷ ms) s id old h

  Reads-Perm :
      {rows other : List (WindowMetrics F)} (s : T) (id : Option ℕ)
      → Reads s id rows
      → Perm rows other
      → Reads s id other
  Reads-Perm {other} s none h p = Perm.eq-nil (Perm.symm (subst (λ l. Perm l other) h p))
  Reads-Perm s (some id) h p = HoldsRows-trans (read_gold t s (some id)) h p

  -- The table then holds the rows of the mart, each as often as the mart has it; the first id reads
  -- the windows of a minute alone, as of the first append, and the second reads all; each read gives
  -- its rows in some order. No id is given only if there was nothing to append.
  pub materialize_gold-Reads :
      (gold : List (WindowMetrics F))
      → let (s, (snap_1m, snap_5m)) = materialize_gold t gold in
        HoldsRows (read_gold t s none) gold
        × Reads s snap_1m (keep is_1m gold)
        × Reads s snap_5m gold
  unfolding materialize_gold read_gold
  materialize_gold-Reads gold =
      let first = keep is_1m gold in
      let rest = keep (λ m. not (is_1m m)) gold in
      let (s, snap_1m) = append_rows t first none t.create in
      let all : Perm (first ++ rest) gold = keep-Perm is_1m gold in
      let created : Perm (t.scan t.create) [] =
        subst (λ l. Perm l []) (sym laws.scan-create) (Perm.refl []) in
      let scan_first : Perm (t.scan s) first =
        Perm.trans (append_rows-scan first none t.create) (Perm.append_right first created) in
      let reads_first : Reads s snap_1m first =
        append_rows-Reads first [] none t.create created refl in
      (
        Perm.trans (append_rows-scan rest snap_1m s)
            (Perm.trans (Perm.append_right rest scan_first) all),
        append_rows-keeps rest snap_1m snap_1m s first reads_first,
        Reads-Perm (append_rows t rest snap_1m s).0 (append_rows t rest snap_1m s).1
            (append_rows-Reads rest first snap_1m s scan_first reads_first) all,
      )
