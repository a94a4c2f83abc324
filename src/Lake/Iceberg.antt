-- ===== src/Lake/Iceberg.antt =====
-- src/tickstream/lake/iceberg.py: the gold table. pyiceberg enters as the operations on a table
-- that the code calls, with their documented laws; `T` is the state of a table.
pub mod Laws
use tickstream_streaming_lak.Prelude.{
  ℕ, String, ◌≡◌, Bool, true, false, not, Option, none, some, List, [], ◌∷◌, ◌++◌, keep,
  if◌then◌else◌, ltb,
}
use mathlib.Core.List.{Perm}
use tickstream_streaming_lak.Prelude.Eq.{◌==◌, string_eq, nat_eq}
use tickstream_streaming_lak.Prelude.Group.{elem}
use tickstream_streaming_lak.Metrics.{WindowMetrics}

-- `create_table`, `append`, `scan().to_arrow()`, `scan(snapshot_id=…)` (none for an unknown id), and
-- the ids of `snapshots()`, of which the last is that of `current_snapshot()`.
pub record Tables (R T : Type 0) : Type 0 where
  pub create : T
  pub append : List R → T → T
  pub scan : T → List R
  pub scan_at : ℕ → T → Option (List R)
  pub snapshots : T → List ℕ

-- A read gives these rows, in some order.
abbrev pub HoldsRows : {R : Type 0} → Option (List R) → List R → Type 0
HoldsRows none rows = ⊥
HoldsRows (some read) rows = Perm read rows

-- An append adds the rows and makes one snapshot, under a new id, of what the table then holds, and
-- leaves the older snapshots as they are. No law says in which order a scan gives the rows.
pub record IsVersioned (R T : Type 0) (t : Tables R T) : Type 0 where
  pub scan-create : t.scan t.create ≡ []
  pub snapshots-create : t.snapshots t.create ≡ []
  pub scan-append : (rows : List R) (s : T) → Perm (t.scan (t.append rows s)) (t.scan s ++ rows)
  pub new_id : List R → T → ℕ
  pub new_id_is_new : (rows : List R) (s : T) → elem (new_id rows s) (t.snapshots s) ≡ false
  pub new_id_is_positive : (rows : List R) (s : T) → ltb 0 (new_id rows s) ≡ true
  pub snapshots-append :
      (rows : List R) (s : T)
      → t.snapshots (t.append rows s) ≡ t.snapshots s ++ (new_id rows s ∷ [])
  pub scan_at-new :
      (rows : List R) (s : T)
      → HoldsRows (t.scan_at (new_id rows s) (t.append rows s)) (t.scan s ++ rows)
  pub scan_at-old :
      (rows : List R) (s : T) (id : ℕ) (old : List R)
      → HoldsRows (t.scan_at id s) old
      → HoldsRows (t.scan_at id (t.append rows s)) old

-- `table.current_snapshot().snapshot_id`
abbrev pub last_id : List ℕ → Option ℕ
last_id [] = none
last_id (id ∷ []) = some id
last_id (id ∷ next ∷ ids) = last_id (next ∷ ids)

abbrev pub is_1m : {F : Type 0} → WindowMetrics F → Bool
is_1m m = m.window_size == "1m"

module _ {F T : Type 0} (t : Tables (WindowMetrics F) T) where
  -- `if rows.num_rows: table.append(rows)`, with the id of the snapshot behind it
  unfoldable pub append_rows : List (WindowMetrics F) → Option ℕ → T → T × Option ℕ
  append_rows [] before s = (s, before)
  append_rows (m ∷ ms) before s = let s' = t.append (m ∷ ms) s in (s', last_id (t.snapshots s'))

  -- The table is created anew, and the windows of a minute are appended first.
  unfoldable pub materialize_gold : List (WindowMetrics F) → T × (Option ℕ × Option ℕ)
  materialize_gold gold =
      let (s, snap_1m) = append_rows (keep is_1m gold) none t.create in
      let (s', snap_5m) = append_rows (keep (λ m. not (is_1m m)) gold) snap_1m s in
      (s', (snap_1m, snap_5m))

  unfoldable pub read_gold : T → Option ℕ → Option (List (WindowMetrics F))
  read_gold s none = some (t.scan s)
  read_gold s (some id) = t.scan_at id s

  unfoldable pub gold_snapshots : T → List ℕ
  gold_snapshots s = t.snapshots s
