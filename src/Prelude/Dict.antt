-- ===== src/Prelude/Dict.antt =====
-- Python's `dict` over any key type with `==`: entries in insertion order, an update in place.
use mathlib.Core.Path.{◌≡◌, refl, subst}
use mathlib.Core.Logic.{inl, inr}
use mathlib.Core.Bool.{Bool, true, false}
use mathlib.Core.List.{List, [], ◌∷◌}
use mathlib.Core.Option.{Option, none, some}
use native.Mathlib.Omega.{arith}
use tickstream_streaming_lak.Prelude.Tests.{if◌then◌else◌, Bool-cases}
use tickstream_streaming_lak.Prelude.Lists.{All}
use tickstream_streaming_lak.Prelude.Eq.{Eq, ◌==◌}

abbrev pub Dict {ℓ κ} : Type ℓ → Type κ → Type (ℓ ⊔ κ)
Dict K V = List (K × V)

module _ {ℓ κ} {K : Type ℓ} {V : Type κ} ⦃e : Eq K⦄ where
  -- `d.get(k)`
  unfoldable pub get : K → Dict K V → Option V
  get k [] = none
  get k ((j, v) ∷ d) = if j == k then some v else get k d

  -- `d.get(k, v)`, and what a `defaultdict` reads
  unfoldable pub get_default : K → V → Dict K V → V
  unfolding get
  get_default k v d = elim (get k d) [ none ↦ v | some w ↦ w ]

  -- `d[k] = v`
  unfoldable pub put : K → V → Dict K V → Dict K V
  put k v [] = (k, v) ∷ []
  put k v ((j, w) ∷ d) = if j == k then (k, v) ∷ d else (j, w) ∷ put k v d

  -- `k in d`
  unfoldable pub contains : K → Dict K V → Bool
  unfolding get
  contains k d = elim (get k d) [ none ↦ false | some w ↦ true ]

  pub get-put :
      (k j : K) (v : V) (d : Dict K V) → get j (put k v d) ≡ (if k == j then some v else get j d)
  unfolding get put
  get-put k j v [] = refl
  get-put k j v ((i, w) ∷ d) =
      ground (arith, e.beq_iff k j, e.beq_iff i k, e.beq_iff i j, get-put k j v d)

  pub get-nil : (k : K) → get k [] ≡ none
  unfolding get
  get-nil k = refl

module _ {ℓ κ} {K : Type ℓ} {V : Type κ} ⦃e : Eq K⦄ where
  pub put-All :
      (P : K × V → Type 0) (k : K) (v : V) (d : Dict K V) → P (k, v) → All P d → All P (put k v d)
  unfolding put
  put-All P k v [] p h = (p, tt)
  put-All P k v ((j, w) ∷ d) p (q, h) = ground (arith, put-All P k v d p h)

  -- What holds of all values holds of one that is found.
  pub get-All :
      (P : V → Type 0) (k : K) (v : V) (d : Dict K V)
      → All (λ entry. P entry.1) d
      → get k d ≡ some v
      → P v
  unfolding get
  get-All P k v [] h e = cc
  get-All P k v ((j, w) ∷ d) (p, h) e = elim (Bool-cases (j == k)) [
    | inl b ↦ let same : w ≡ v = cc (rw b at e) in subst P same p
    | inr b ↦ get-All P k v d h (rw b at e)
  ]

pub ruleset dict_laws = (get-nil, get-put)
