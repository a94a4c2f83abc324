-- ===== src/Prelude/Sort.antt =====
-- Python's stable `list.sort(key=…)`, by insertion, over any total preorder on the elements.
use Prim.Native.Nat as Native
use mathlib.Core.Path.{◌≡◌, refl, sym, ap, ◌∙◌}
use mathlib.Core.Nat.{ℕ as LibraryNat, zero, suc}
use mathlib.Core.Logic.{inl, inr}
use mathlib.Core.Bool.{Bool, true, false}
use mathlib.Core.List.{List, [], ◌∷◌, Perm, length as library_length}
use mathlib.Core.List.Perm
use native.Mathlib.Omega.{arith}
use tickstream_streaming_lak.Prelude.Tests.{if◌then◌else◌, Bool-cases}
use tickstream_streaming_lak.Prelude.Lists.{All, All-imp, length}

module _ {ℓ} {A : Type ℓ} (le : A → A → Bool) where
  unfoldable pub insert : A → List A → List A
  insert x [] = x ∷ []
  insert x (y ∷ ys) = let rest = insert x ys in if le x y then x ∷ y ∷ ys else y ∷ rest

  unfoldable pub sort : List A → List A
  unfolding insert
  sort [] = []
  sort (x ∷ xs) = insert x (sort xs)

  abbrev pub IsSorted : List A → Type 0
  IsSorted [] = Unit {0}
  IsSorted (x ∷ xs) = All (λ y. le x y ≡ true) xs × IsSorted xs

  insert-perm : (x : A) (ys : List A) → Perm (insert x ys) (x ∷ ys)
  unfolding insert
  insert-perm x [] = Perm.refl _
  insert-perm x (y ∷ ys) = elim (Bool-cases (le x y)) [
    | inl h ↦ rw h (Perm.refl _)
    | inr h ↦ rw h (Perm.trans (Perm.cons y (insert-perm x ys)) (Perm.swap x y ys))
  ]

  pub sort-perm : (xs : List A) → Perm (sort xs) xs
  unfolding sort
  sort-perm [] = Perm.refl _
  sort-perm (x ∷ xs) = Perm.trans (insert-perm x (sort xs)) (Perm.cons x (sort-perm xs))

  insert-All : (P : A → Type 0) (x : A) (ys : List A) → P x → All P ys → All P (insert x ys)
  unfolding insert
  insert-All P x [] px h = (px, tt)
  insert-All P x (y ∷ ys) px (py, h) = ground (arith, insert-All P x ys px h)

  module _ (total : (x y : A) → le x y ≡ false → le y x ≡ true)
      (trans : (x y z : A) → le x y ≡ true → le y z ≡ true → le x z ≡ true) where
    insert-IsSorted : (x : A) (ys : List A) → IsSorted ys → IsSorted (insert x ys)
    unfolding insert
    insert-IsSorted x [] h = (tt, tt)
    insert-IsSorted x (y ∷ ys) (below, h) = elim (Bool-cases (le x y)) [
      | inl e ↦ rw e ((e, All-imp _ _ ys (λ z p. trans x y z e p) below), (below, h))
      | inr e ↦ rw e (insert-All _ x ys (total x y e) below, insert-IsSorted x ys h)
    ]

    -- The result is sorted.
    pub sort-IsSorted : (xs : List A) → IsSorted (sort xs)
    unfolding sort
    sort-IsSorted [] = tt
    sort-IsSorted (x ∷ xs) = insert-IsSorted x (sort xs) (sort-IsSorted xs)

  pub sort-All : (P : A → Type 0) (xs : List A) → All P xs → All P (sort xs)
  unfolding sort
  sort-All P [] h = tt
  sort-All P (x ∷ xs) (px, h) = insert-All P x (sort xs) px (sort-All P xs h)

-- The library's length, in native numbers.
abbrev native_count : LibraryNat → Native.ℕ
native_count zero = 0
native_count (suc n) = Native.suc (native_count n)

pub length-Perm {ℓ} : {A : Type ℓ} {xs ys : List A} → Perm xs ys → length xs ≡ length ys
length-Perm {A} {xs} {ys} p = sym (same xs) ∙ ap native_count (Perm.length-eq p) ∙ same ys
  where
    same : (zs : List A) → native_count (library_length zs) ≡ length zs
    same [] = refl
    same (z ∷ zs) = ap Native.suc (same zs)
