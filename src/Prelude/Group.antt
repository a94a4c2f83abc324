-- ===== src/Prelude/Group.antt =====
-- Grouping into a `defaultdict`: `for x in xs: acc[key(x)] = step(acc[key(x)], x)`, and its
-- equation with a description that goes key by key.
use mathlib.Core.Path.{◌≡◌, refl, ap, ap₂, sym, ◌∙◌, fun_ext}
use mathlib.Core.Logic.{inl, inr}
use mathlib.Core.Bool.{Bool, true, false}
use mathlib.Core.List.{List, [], ◌∷◌, ◌++◌, map, foldl}
use mathlib.Core.Option.{none}
use native.Mathlib.Omega.{arith}
use tickstream_streaming_lak.Prelude.Tests.{if◌then◌else◌, Bool-cases}
use tickstream_streaming_lak.Prelude.Lists.{keep, All, All-imp, map_cong}
use tickstream_streaming_lak.Prelude.Eq.{Eq, ◌==◌, ==_refl, eq_of_==}
use tickstream_streaming_lak.Prelude.Dict.{Dict, get, get_default, put, get-put}

module _ {ℓ} {K : Type ℓ} ⦃e : Eq K⦄ where
  unfoldable pub elem : K → List K → Bool
  elem k [] = false
  elem k (j ∷ ks) = let rest = elem k ks in if j == k then true else rest

  -- The keys in the order of their first appearance, behind those of `ks`.
  unfoldable pub add_keys : List K → List K → List K
  add_keys ks [] = ks
  add_keys ks (j ∷ js) = add_keys (if elem j ks then ks else ks ++ (j ∷ [])) js

  abbrev pub distinct : List K → List K
  distinct = add_keys []

  abbrev pub AllDifferent : List K → Type 0
  AllDifferent [] = Unit
  AllDifferent (k ∷ ks) = (elem k ks ≡ false) × AllDifferent ks

  pub elem-append :
      (k j : K) (ks : List K) → elem k (ks ++ (j ∷ [])) ≡ (if elem k ks then true else j == k)
  unfolding elem
  elem-append k j [] = ground arith
  elem-append k j (i ∷ ks) = ground (arith, elem-append k j ks)

  AllDifferent-append :
      (j : K) (ks : List K) → elem j ks ≡ false → AllDifferent ks → AllDifferent (ks ++ (j ∷ []))
  unfolding elem
  AllDifferent-append j [] h a = (refl, tt)
  AllDifferent-append j (k ∷ ks) h (a, as') =
      ground (arith, AllDifferent-append j ks, elem-append k j ks, e.beq_iff j k, e.beq_iff k j)

  pub add_keys-AllDifferent : (js ks : List K) → AllDifferent ks → AllDifferent (add_keys ks js)
  unfolding add_keys
  add_keys-AllDifferent [] ks h = h
  add_keys-AllDifferent (j ∷ js) ks h = elim (Bool-cases (elem j ks)) [
    | inl b ↦ rw b (add_keys-AllDifferent js ks h)
    | inr b ↦ rw b (add_keys-AllDifferent js (ks ++ (j ∷ [])) (AllDifferent-append j ks b h))
  ]

  All-not_elem : (j : K) (ks : List K) → elem j ks ≡ false → All (λ k. (j == k) ≡ false) ks
  unfolding elem
  All-not_elem j [] h = tt
  All-not_elem j (k ∷ ks) h = ground (arith, All-not_elem j ks, e.beq_iff j k, e.beq_iff k j)

module _ {ℓ κ} {K : Type ℓ} {V : Type κ} ⦃e : Eq K⦄ where
  abbrev pub keys : Dict K V → List K
  keys [] = []
  keys ((k, v) ∷ d) = k ∷ keys d

  keys-put :
      (k : K) (v : V) (d : Dict K V)
      → keys (put k v d) ≡ (if elem k (keys d) then keys d else keys d ++ (k ∷ []))
  unfolding put elem
  keys-put k v [] = refl
  keys-put k v ((j, w) ∷ d) = ground (arith, keys-put k v d, e.beq_iff j k)

  get-not_elem : (k : K) (d : Dict K V) → elem k (keys d) ≡ false → get k d ≡ none
  unfolding get elem
  get-not_elem k [] h = refl
  get-not_elem k ((j, w) ∷ d) h = ground (arith, get-not_elem k d)

  -- A dict with different keys is what its keys and its lookups say.
  pub entries_lem :
      (v : V) (d : Dict K V)
      → AllDifferent (keys d)
      → d ≡ map (λ k. (k, get_default k v d)) (keys d)
  unfolding get_default get
  entries_lem v [] h = refl
  entries_lem v ((k, w) ∷ d) (n, h) =
      let same : map (λ j. (j, get_default j v ((k, w) ∷ d))) (keys d)
          ≡ map (λ j. (j, get_default j v d)) (keys d) =
        map_cong _ _ (keys d) (
          All-imp (λ j. (k == j) ≡ false) _ (keys d) (λ j b. ground (arith, b))
            (All-not_elem k (keys d) n)) in
      ap₂ (λ p ps. p ∷ ps) (rw (==_refl k, get_default, get)) (entries_lem v d h ∙ sym same)

module _ {ℓ κ μ} {A : Type ℓ} {K : Type κ} {V : Type μ} ⦃e : Eq K⦄ (key : A → K) (start : V)
    (step : V → A → V) where
  unfoldable pub group : List A → Dict K V → Dict K V
  group [] acc = acc
  group (x ∷ xs) acc = group xs (put (key x) (step (get_default (key x) start acc) x) acc)

  abbrev pub members : K → List A → List A
  members k = keep (λ x. key x == k)

  get_default-put :
      (k j : K) (v : V) (d : Dict K V)
      → get_default j start (put k v d) ≡ (if k == j then v else get_default j start d)
  unfolding get_default
  get_default-put k j v d = ground (arith, get-put k j v d)

  fold_member :
      (k : K) (x : A) (xs : List A) (acc : Dict K V)
      → foldl step
          (if key x == k then step (get_default (key x) start acc) x else get_default k start acc)
          (members k xs)
        ≡ foldl step (get_default k start acc) (members k (x ∷ xs))
  fold_member k x xs acc = elim (Bool-cases (key x == k)) [
    | inl b ↦ rw (b, eq_of_== (key x) k b)
    | inr b ↦ rw b
  ]

  get-group :
      (k : K) (xs : List A) (acc : Dict K V)
      → get_default k start (group xs acc) ≡ foldl step (get_default k start acc) (members k xs)
  unfolding group
  get-group k [] acc = refl
  get-group k (x ∷ xs) acc =
      get-group k xs (put (key x) (step (get_default (key x) start acc) x) acc)
      ∙ ap (λ v. foldl step v (members k xs)) (get_default-put (key x) k _ acc)
      ∙ fold_member k x xs acc

  keys-group :
      (xs : List A) (acc : Dict K V) → keys (group xs acc) ≡ add_keys (keys acc) (map key xs)
  unfolding group add_keys
  keys-group [] acc = refl
  keys-group (x ∷ xs) acc = rw (keys-group xs _) (rw keys-put)

  -- Grouping is one entry for each key, in the order of first appearance, with the fold of the
  -- key's own elements.
  pub group_lem :
      (xs : List A)
      → group xs [] ≡ map (λ k. (k, foldl step start (members k xs))) (distinct (map key xs))
  unfolding get_default
  group_lem xs =
      entries_lem start (group xs [])
        (rw (keys-group xs []) (add_keys-AllDifferent (map key xs) [] tt))
      ∙ ap₂ (λ f ks. map f ks) (fun_ext λ k. ap (λ v. (k, v)) (get-group k xs []))
          (keys-group xs [])
