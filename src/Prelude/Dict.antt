-- ===== src/Prelude/Dict.antt =====
-- A `dict` as the list of its items in insertion order.
use mathlib.Core.Path.{◌≡◌, refl, sym, subst, ap₂}
use mathlib.Core.Logic.{inl, inr}
use mathlib.Core.Bool.{true, false, ◌||◌}
use mathlib.Core.List.{List, [], ◌∷◌, map}
use mathlib.Core.Option.{Option, none, some}
use native.Mathlib.Omega.{arith}
use network_mapper.Prelude.Tests.{Bool-cases, if◌then◌else◌}
use network_mapper.Prelude.Lists.{All}
use network_mapper.Prelude.Eq.{Eq, ◌==◌, nat_eq, beq_refl, eq_of_beq, elem}
use network_mapper.Prelude.Group.{IsDistinct}
use network_mapper.Prelude.Sets.{lookup}

abbrev pub or_else {ℓ} : {A : Type ℓ} → Option A → Option A → Option A
or_else none b = b
or_else (some a) b = some a

pub or_else-none {ℓ} : {A : Type ℓ} (o : Option A) → or_else o none ≡ o
or_else-none none = refl
or_else-none (some a) = refl

module _ {ℓ} {K V : Type ℓ} ⦃e : Eq K⦄ where
  abbrev pub keys_of : List (K × V) → List K
  keys_of d = map (λ p. p.0) d

  -- `d[k] = v`
  unfoldable pub assign : K → V → List (K × V) → List (K × V)
  assign k v [] = (k, v) ∷ []
  assign k v ((j, w) ∷ d) = if j == k then (j, v) ∷ d else (j, w) ∷ assign k v d

  pub elem-assign :
      (i k : K) (v : V) (d : List (K × V))
      → elem i (keys_of (assign k v d)) ≡ (elem i (keys_of d) || k == i)
  unfolding assign
  elem-assign i k v [] = ground arith
  elem-assign i k v ((j, w) ∷ d) = ground (arith, elem-assign i k v d, eq_of_beq j k)

  pub assign-IsDistinct :
      (k : K) (v : V) (d : List (K × V))
      → IsDistinct (keys_of d)
      → IsDistinct (keys_of (assign k v d))
  unfolding assign
  assign-IsDistinct k v [] h = (refl, tt)
  assign-IsDistinct k v ((j, w) ∷ d) h =
      ground (arith, elem-assign j k v d, assign-IsDistinct k v d h.1, e.exact j k, e.exact k j)

  pub All-assign :
      (P : K × V → Type 0) (k : K) (v : V) (d : List (K × V))
      → P (k, v)
      → All P d
      → All P (assign k v d)
  unfolding assign
  All-assign P k v [] here h = (here, tt)
  All-assign P k v ((j, w) ∷ d) here h = elim (Bool-cases (j == k)) [
    | inl p ↦
        subst (λ b. All P (if b then (j, v) ∷ d else (j, w) ∷ assign k v d)) (sym p)
          (subst (λ i. P (i, v)) (sym (eq_of_beq j k p)) here, h.1)
    | inr p ↦
        subst (λ b. All P (if b then (j, v) ∷ d else (j, w) ∷ assign k v d)) (sym p)
          (h.0, All-assign P k v d here h.1)
  ]

  lookup-skip :
      (j : K) (w : V) (full items : List (K × V))
      → elem j (keys_of items) ≡ false
      → All (λ p. lookup p.0 full ≡ some p.1) items
      → All (λ p. lookup p.0 ((j, w) ∷ full) ≡ some p.1) items
  lookup-skip j w full [] h found = tt
  lookup-skip j w full ((i, v) ∷ items) h found = (
    ground (arith, found.0, e.exact i j, e.exact j i),
    lookup-skip j w full items (ground arith) found.1,
  )

  -- Every item of a dictionary is found under its key.
  pub lookup-items :
      (d : List (K × V)) → IsDistinct (keys_of d) → All (λ p. lookup p.0 d ≡ some p.1) d
  lookup-items [] h = tt
  lookup-items ((j, w) ∷ d) h =
      (ground (arith, beq_refl j), lookup-skip j w d d h.0 (lookup-items d h.1))

  -- What is found under a key has what every item has.
  pub lookup-All :
      (P : K × V → Type 0) (k : K) (v : V) (d : List (K × V))
      → All P d
      → lookup k d ≡ some v
      → P (k, v)
  lookup-All P k v [] h found = absurd (ground arith)
  lookup-All P k v ((j, w) ∷ d) h found = elim (Bool-cases (j == k)) [
    | inl p ↦ subst P (ap₂ (λ i u. (i, u)) (eq_of_beq j k p) (ground arith)) h.0
    | inr p ↦ lookup-All P k v d h.1 (ground arith)
  ]

  pub lookup-assign_absent :
      (i k : K) (v : V) (d : List (K × V))
      → elem k (keys_of d) ≡ false
      → lookup i (assign k v d) ≡ or_else (lookup i d) (if k == i then some v else none)
  unfolding assign
  lookup-assign_absent i k v [] h = refl
  lookup-assign_absent i k v ((j, w) ∷ d) h = ground (arith, lookup-assign_absent i k v d)

  pub lookup-or_else_present :
      (i k : K) (v : V) (d : List (K × V))
      → elem k (keys_of d) ≡ true
      → or_else (lookup i d) (if k == i then some v else none) ≡ lookup i d
  lookup-or_else_present i k v [] h = absurd (ground arith)
  lookup-or_else_present i k v ((j, w) ∷ d) h =
      ground (arith, lookup-or_else_present i k v d, e.exact j i, e.exact k i, e.exact j k)
