-- ===== src/Lake/Marts/Laws.antt =====
-- How many snapshots the gold table has, and what the pipeline says of it.
use tickstream_streaming_lak.Prelude.{
  ℕ, ◌+◌, ◌≡◌, refl, ◌∙◌, ap₂, subst, Bool, true, false, not, Option, none, some, List, [], ◌∷◌,
  keep, length, if◌then◌else◌, nat_beq, arith,
}
use tickstream_streaming_lak.Prelude.Group.{elem}
use tickstream_streaming_lak.Prelude.Eq.{nat_eq}
use tickstream_streaming_lak.Metrics.{WindowMetrics}
use tickstream_streaming_lak.Lake.Iceberg.{
  Tables, IsVersioned, is_1m, append_rows, materialize_gold, read_gold, gold_snapshots,
}
use tickstream_streaming_lak.Lake.Iceberg.Laws.{Reads, HoldsRows-length, materialize_gold-Reads}
use tickstream_streaming_lak.Lake.Marts.{MartsResult, count_snapshots, time_travel}

abbrev pub is_empty {ℓ} : {A : Type ℓ} → List A → Bool
is_empty [] = true
is_empty (x ∷ xs) = false

balance :
    (a b : Bool)
    → (if b then 1 else 2) ≡ (if a then 0 else 1) + (if b then 0 else 1) + (if a then 1 else 0)
balance a b = ground arith

module _ {F T : Type 0} (t : Tables (WindowMetrics F) T)
    (laws : IsVersioned (WindowMetrics F) T t) where
  -- The report of `build_marts` on the snapshots.
  abbrev pub report_of : List (WindowMetrics F) → MartsResult
  report_of gold =
      let (s, (snap_1m, snap_5m)) = materialize_gold t gold in
      record { gold_rows = length gold; snapshot_1m = snap_1m; snapshot_5m = snap_5m }

  abbrev pub actual : List (WindowMetrics F) → ℕ
  actual gold = length (gold_snapshots t (materialize_gold t gold).0)

  module _ (m : WindowMetrics F) (first : List (WindowMetrics F)) where
    one_id : t.snapshots (t.append (m ∷ first) t.create) ≡ laws.new_id (m ∷ first) t.create ∷ []
    one_id = rw (laws.snapshots-append (m ∷ first) t.create, laws.snapshots-create) refl

    module _ (n : WindowMetrics F) (rest : List (WindowMetrics F)) where
      other_id :
          nat_beq
            (laws.new_id (n ∷ rest) (t.append (m ∷ first) t.create))
            (laws.new_id (m ∷ first) t.create)
          ≡ false
      unfolding elem
      other_id =
          let s = t.append (m ∷ first) t.create in
          let fresh = rw one_id at (laws.new_id_is_new (n ∷ rest) s) in ground (arith, fresh)

  -- The two lists that are appended, by cases.
  two_appends :
      (rows : ℕ) (first rest : List (WindowMetrics F))
      → let (s, snap_1m) = append_rows t first none t.create in
        let (s', snap_5m) = append_rows t rest snap_1m s in
        let m : MartsResult = record {
          gold_rows = rows;
          snapshot_1m = snap_1m;
          snapshot_5m = snap_5m;
        } in
        (length (t.snapshots s')
          ≡ (if is_empty first then 0 else 1) + (if is_empty rest then 0 else 1))
        × (count_snapshots m ≡ (if is_empty rest then 1 else 2))
  unfolding append_rows count_snapshots
  two_appends rows [] [] = (rw laws.snapshots-create refl, refl)
  two_appends rows (m ∷ first) [] =
      let id = laws.new_id (m ∷ first) t.create in
      (rw (one_id m first) refl, rw (one_id m first) (ground arith))
  two_appends rows [] (m ∷ rest) = (
    rw (one_id m rest) refl,
    rw (one_id m rest, laws.new_id_is_positive (m ∷ rest) t.create) refl,
  )
  two_appends rows (m ∷ first) (n ∷ rest) =
      let s = t.append (m ∷ first) t.create in
      let id : ℕ = laws.new_id (n ∷ rest) s in
      let ids : t.snapshots (t.append (n ∷ rest) s) ≡ laws.new_id (m ∷ first) t.create ∷ id ∷ [] =
        rw (laws.snapshots-append (n ∷ rest) s, one_id m first) refl in
      (
        rw ids refl,
        rw (ids, one_id m first, laws.new_id_is_positive (n ∷ rest) s, other_id m first n rest)
            refl,
      )

  -- The gold table has a snapshot for the windows of a minute, if there are any, and one for the
  -- others, if there are any. The number that the pipeline reports is this number whenever there are
  -- windows of a minute; it is one too many if there are none.
  pub count_snapshots_report :
      (gold : List (WindowMetrics F))
      → let none_1m = is_empty (keep is_1m gold) in
        let none_else = is_empty (keep (λ m. not (is_1m m)) gold) in
        (actual gold ≡ (if none_1m then 0 else 1) + (if none_else then 0 else 1))
        × (count_snapshots (report_of gold) ≡ actual gold + (if none_1m then 1 else 0))
  unfolding materialize_gold gold_snapshots
  count_snapshots_report gold =
      let first = keep is_1m gold in
      let rest = keep (λ m. not (is_1m m)) gold in
      let (n, k) = two_appends (length gold) first rest in
      (n, k ∙ rw n (balance (is_empty first) (is_empty rest)))

  -- The first snapshot stays the first.
  first_snapshot :
      (first rest : List (WindowMetrics F))
      → is_empty first ≡ false
      → let (s, snap_1m) = append_rows t first none t.create in
        let s' = (append_rows t rest snap_1m s).0 in
        (id : ℕ) × (ids : List ℕ) × (snap_1m ≡ some id) × (t.snapshots s' ≡ id ∷ ids)
  unfolding append_rows
  first_snapshot [] rest h = absurd (cc)
  first_snapshot (m ∷ first) [] h =
      (laws.new_id (m ∷ first) t.create, [], rw (one_id m first) refl, one_id m first)
  first_snapshot (m ∷ first) (n ∷ rest) h =
      let s = t.append (m ∷ first) t.create in
      (
        laws.new_id (m ∷ first) t.create,
        laws.new_id (n ∷ rest) s ∷ [],
        rw (one_id m first) refl,
        rw (laws.snapshots-append (n ∷ rest) s, one_id m first) refl,
      )

  time_travel_lem :
      (s : T) (current first : List (WindowMetrics F)) (id : ℕ) (ids : List ℕ)
      → read_gold t s none ≡ some current
      → gold_snapshots t s ≡ id ∷ ids
      → read_gold t s (some id) ≡ some first
      → time_travel t s ≡ some (gold_snapshots t s, (length current, some (id, length first)))
  unfolding time_travel
  time_travel_lem s current first id ids h k l = rw (time_travel, h, k, l) refl

  -- When there are windows of a minute, time travel tells the number of all rows now, and that of
  -- the windows of a minute at the first snapshot.
  pub time_travel-materialize_gold :
      (gold : List (WindowMetrics F))
      → is_empty (keep is_1m gold) ≡ false
      → let s = (materialize_gold t gold).0 in
        (id : ℕ) × (time_travel t s
          ≡ some (gold_snapshots t s, (length gold, some (id, length (keep is_1m gold)))))
  unfolding gold_snapshots materialize_gold
  time_travel-materialize_gold gold h =
      let first = keep is_1m gold in
      let rest = keep (λ m. not (is_1m m)) gold in
      let (id, ids, made, snaps) = first_snapshot first rest h in
      let s = (materialize_gold t gold).0 in
      let (now, at_1m, at_5m) = materialize_gold-Reads t laws gold in
      let reads = subst (λ (x : Option ℕ). Reads t laws s x first) made at_1m in
      let (current, is_current, current_size) = HoldsRows-length gold (read_gold t s none) now in
      let (found, is_found, found_size) = HoldsRows-length first (read_gold t s (some id)) reads in
      (
        id,
        time_travel_lem s current found id ids is_current snaps is_found
            ∙ ap₂ (λ (n k : ℕ). some (gold_snapshots t s, (n, some (id, k)))) current_size
                found_size,
      )
