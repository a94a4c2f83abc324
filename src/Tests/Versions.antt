-- ===== src/Tests/Versions.antt =====
-- A table with snapshots, as the list of the rows that it held, the newest first; a scan gives the
-- rows of the last append first. It has the laws that the gold table is taken to have.
use tickstream_streaming_lak.Prelude.{
  ℕ, suc, ◌≤◌, ◌<◌, ◌≡◌, refl, sym, subst, append-nil, true, false, Option, none, some, List, [],
  ◌∷◌, ◌++◌, length, if◌then◌else◌, nat_beq, arith, inl, inr, Bool-cases,
}
use mathlib.Core.List.{Perm, perm_middle}
use mathlib.Core.List.Perm
use tickstream_streaming_lak.Prelude.Eq.{nat_eq}
use tickstream_streaming_lak.Prelude.Group.{elem, elem-append}
use tickstream_streaming_lak.Lake.Iceberg.{Tables, IsVersioned, HoldsRows}

same_id : (n : ℕ) → nat_beq n n ≡ true
same_id n = ground arith

module _ {R : Type 0} where
  abbrev newest : List (List R) → List R
  newest [] = []
  newest (rows ∷ older) = rows

  abbrev ids : List (List R) → List ℕ
  ids [] = []
  ids (rows ∷ older) = ids older ++ (suc (length older) ∷ [])

  abbrev rows_at : ℕ → List (List R) → Option (List R)
  rows_at id [] = none
  rows_at id (rows ∷ older) =
      let rest = rows_at id older in if nat_beq id (suc (length older)) then some rows else rest

  abbrev pub versioned : Tables R (List (List R))
  versioned = record {
    create = [];
    append = λ rows s. (rows ++ newest s) ∷ s;
    scan = newest;
    scan_at = rows_at;
    snapshots = ids;
  }

  fresh : (s : List (List R)) (id : ℕ) → length s < id → elem id (ids s) ≡ false
  unfolding elem
  fresh [] id h = refl
  fresh (rows ∷ older) id h =
      ground (arith, h, fresh older id, elem-append id (suc (length older)) (ids older))

  taken : (s : List (List R)) (id : ℕ) (old : List R) → HoldsRows (rows_at id s) old → id ≤ length s
  taken [] id old h = absurd h
  taken (rows ∷ older) id old h = elim (Bool-cases (nat_beq id (suc (length older)))) [
    | inl b ↦ ground (arith, b)
    | inr b ↦ omega (arith, taken older id old (rw b at h))
  ]

  other_order : (rows old : List R) → Perm (rows ++ old) (old ++ rows)
  other_order [] old = subst (λ l. Perm old l) (sym (append-nil old)) (Perm.refl old)
  other_order (x ∷ rows) old =
      Perm.trans (Perm.cons x (other_order rows old)) (Perm.symm (perm_middle old rows))

  older_rows :
      (rows : List R) (s : List (List R)) (id : ℕ) (old : List R)
      → HoldsRows (rows_at id s) old
      → HoldsRows (rows_at id (rows ∷ s)) old
  older_rows rows s id old h =
      let new : nat_beq id (suc (length s)) ≡ false = ground (arith, taken s id old h) in rw new h

  pub versioned-IsVersioned : IsVersioned R (List (List R)) versioned
  versioned-IsVersioned = record {
    scan-create = refl;
    snapshots-create = refl;
    scan-append = λ rows s. other_order rows (newest s);
    new_id = λ rows s. suc (length s);
    new_id_is_new = λ rows s. fresh s (suc (length s)) (omega arith);
    new_id_is_positive = λ rows s. ground arith;
    snapshots-append = λ rows s. refl;
    scan_at-new = λ rows s. rw (same_id (suc (length s))) (other_order rows (newest s));
    scan_at-old = λ rows s id old h. older_rows (rows ++ newest s) s id old h;
  }
