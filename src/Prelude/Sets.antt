-- ===== src/Prelude/Sets.antt =====
-- `sorted(set(xs))` over a total order: the members, and that the result is fixed by them.
use mathlib.Core.Path.{◌≡◌, refl, ap₂, sym, ◌∙◌, subst}
use mathlib.Core.Logic.{inl, inr}
use mathlib.Core.Bool.{Bool, true, false}
use mathlib.Core.List.{List, [], ◌∷◌, ◌++◌}
use native.Mathlib.Omega.{arith}
use tickstream_streaming_lak.Prelude.Tests.{if◌then◌else◌, Bool-cases}
use tickstream_streaming_lak.Prelude.Lists.{All}
use tickstream_streaming_lak.Prelude.Eq.{Eq, ◌==◌, ==_refl, eq_of_==}
use tickstream_streaming_lak.Prelude.Group.{
  elem, add_keys, distinct, AllDifferent, add_keys-AllDifferent, elem-append,
}
use tickstream_streaming_lak.Prelude.Sort.{insert, sort, IsSorted, sort-IsSorted}

module _ {ℓ} {K : Type ℓ} ⦃e : Eq K⦄ where
  pub elem-cons : (k j : K) (ks : List K) → elem k (j ∷ ks) ≡ (if j == k then true else elem k ks)
  unfolding elem
  elem-cons k j ks = refl

  pub elem-++ :
      (k : K) (xs ys : List K) → elem k (xs ++ ys) ≡ (if elem k xs then true else elem k ys)
  unfolding elem
  elem-++ k [] ys = refl
  elem-++ k (x ∷ xs) ys = ground (arith, elem-++ k xs ys)

  pub elem-add_keys :
      (k : K) (ks js : List K) → elem k (add_keys ks js) ≡ (if elem k ks then true else elem k js)
  unfolding add_keys elem
  elem-add_keys k ks [] = ground arith
  elem-add_keys k ks (j ∷ js) = elim (Bool-cases (elem j ks)) [
    | inl b ↦ rw b (ground (arith, elem-add_keys k ks js, e.beq_iff j k, b))
    | inr b ↦ rw b (ground (arith, elem-add_keys k (ks ++ (j ∷ [])) js, elem-append k j ks))
  ]

  pub elem-distinct : (k : K) (js : List K) → elem k (distinct js) ≡ elem k js
  unfolding elem
  elem-distinct k js = elem-add_keys k [] js

  module _ (le : K → K → Bool) where
    pub elem-insert :
        (k x : K) (ys : List K) → elem k (insert le x ys) ≡ (if x == k then true else elem k ys)
    unfolding insert elem
    elem-insert k x [] = refl
    elem-insert k x (y ∷ ys) = ground (arith, elem-insert k x ys)

    pub elem-sort : (k : K) (xs : List K) → elem k (sort le xs) ≡ elem k xs
    unfolding sort elem
    elem-sort k [] = refl
    elem-sort k (x ∷ xs) = ground (arith, elem-insert k x (sort le xs), elem-sort k xs)

    AllDifferent-insert :
        (x : K) (ys : List K) → elem x ys ≡ false → AllDifferent ys → AllDifferent (insert le x ys)
    unfolding insert elem
    AllDifferent-insert x [] h d = (refl, tt)
    AllDifferent-insert x (y ∷ ys) h (n, d) =
        ground (arith, AllDifferent-insert x ys, elem-insert y x ys, e.beq_iff x y, e.beq_iff y x)

    pub AllDifferent-sort : (xs : List K) → AllDifferent xs → AllDifferent (sort le xs)
    unfolding sort
    AllDifferent-sort [] d = tt
    AllDifferent-sort (x ∷ xs) (n, d) =
        AllDifferent-insert x (sort le xs) (elem-sort x xs ∙ n) (AllDifferent-sort xs d)

    -- `sorted(set(xs))`
    abbrev pub sorted_set : List K → List K
    sorted_set xs = sort le (distinct xs)

    pub elem-sorted_set : (k : K) (xs : List K) → elem k (sorted_set xs) ≡ elem k xs
    elem-sorted_set k xs = elem-sort k (distinct xs) ∙ elem-distinct k xs

    All-elem : (P : K → Type 0) (x : K) (ys : List K) → All P ys → elem x ys ≡ true → P x
    unfolding elem
    All-elem P x [] h m = absurd (cc)
    All-elem P x (y ∷ ys) (p, h) m = elim (Bool-cases (y == x)) [
      | inl b ↦ subst P (eq_of_== y x b) p
      | inr b ↦ All-elem P x ys h (ground (arith, b, m))
    ]

    module _ (total : (x y : K) → le x y ≡ false → le y x ≡ true)
        (trans : (x y z : K) → le x y ≡ true → le y z ≡ true → le x z ≡ true)
        (antisym : (x y : K) → le x y ≡ true → le y x ≡ true → x ≡ y) where
      heads_agree :
          (x y : K) (xs ys : List K)
          → All (λ z. le x z ≡ true) xs
          → All (λ z. le y z ≡ true) ys
          → ((k : K) → elem k (x ∷ xs) ≡ elem k (y ∷ ys))
          → x ≡ y
      unfolding elem
      heads_agree x y xs ys below below' same = elim (Bool-cases (y == x)) [
        | inl b ↦ sym (eq_of_== y x b)
        | inr b ↦
            let in_ys : elem x ys ≡ true = ground (arith, same x, b, ==_refl x) in
            let in_xs : elem y xs ≡ true =
              ground (arith, same y, b, ==_refl y, e.beq_iff x y, e.beq_iff y x) in
            antisym x y (All-elem _ y xs below in_xs) (All-elem _ x ys below' in_ys)
      ]

      tails_agree :
          (x : K) (xs ys : List K)
          → elem x xs ≡ false
          → elem x ys ≡ false
          → ((k : K) → elem k (x ∷ xs) ≡ elem k (x ∷ ys))
          → (k : K) → elem k xs ≡ elem k ys
      unfolding elem
      tails_agree x xs ys n n' same k = elim (Bool-cases (x == k)) [
        | inl b ↦ subst (λ j. elem j xs ≡ elem j ys) (eq_of_== x k b) (n ∙ sym n')
        | inr b ↦ ground (arith, same k, b)
      ]

      -- Sorted lists without repetition that have the same members are equal.
      canonical :
          (xs ys : List K)
          → IsSorted le xs
          → AllDifferent xs
          → IsSorted le ys
          → AllDifferent ys
          → ((k : K) → elem k xs ≡ elem k ys)
          → xs ≡ ys
      unfolding elem
      canonical [] [] s d s' d' same = refl
      canonical [] (y ∷ ys) s d s' d' same = absurd (ground (arith, same y, ==_refl y))
      canonical (x ∷ xs) [] s d s' d' same = absurd (ground (arith, same x, ==_refl x))
      canonical (x ∷ xs) (y ∷ ys) (below, s) (n, d) (below', s') (n', d') same =
          let h : x ≡ y = heads_agree x y xs ys below below' same in
          let m : elem x ys ≡ false = subst (λ z. elem z ys ≡ false) (sym h) n' in
          let same' : (k : K) → elem k (x ∷ xs) ≡ elem k (x ∷ ys) =
            subst (λ z. (k : K) → elem k (x ∷ xs) ≡ elem k (z ∷ ys)) (sym h) same in
          ap₂ (λ z zs. z ∷ zs) h (canonical xs ys s d s' d' (tails_agree x xs ys n m same'))

      pub sorted_set_cong :
          (xs ys : List K) → ((k : K) → elem k xs ≡ elem k ys) → sorted_set xs ≡ sorted_set ys
      sorted_set_cong xs ys same =
          canonical (sorted_set xs) (sorted_set ys) (sort-IsSorted le total trans (distinct xs))
            (AllDifferent-sort (distinct xs) (add_keys-AllDifferent xs [] tt))
            (sort-IsSorted le total trans (distinct ys))
            (AllDifferent-sort (distinct ys) (add_keys-AllDifferent ys [] tt))
            (λ k. elem-sorted_set k xs ∙ same k ∙ sym (elem-sorted_set k ys))
