-- ===== src/Prelude/Reorder.antt =====
-- Reordering a list reorders its selections and keeps its set of keys; two lists of distinct keys
-- with the same members sort to the same list.
use mathlib.Core.Path.{◌≡◌, refl, sym, ◌∙◌, subst, ap}
use mathlib.Core.Bool.{Bool, true, false, false≢true, Bool-set, ◌||◌}
use mathlib.Core.Option.{Option, none, some}
use mathlib.Core.Logic.{inl, inr, ∥∥₁_elim}
use mathlib.Core.HLevel.{hedberg}
use mathlib.Core.List.{
  List, [], ◌∷◌, map, Perm, Permᴰ, Mem, Memᴰ, Nodup, Nodup-cons, mem-cons_self, mem-cons_of_mem,
  Pairwise, perm_ext_iff_of_Nodup,
}
use native.Mathlib.Omega.{arith}
use network_mapper.Prelude.Tests.{if◌then◌else◌, Bool-cases}
use network_mapper.Prelude.Lists.{All, select, cons_some, filter_map}
use network_mapper.Prelude.Eq.{Eq, list_eq, ◌==◌, beq_sym, elem}
use network_mapper.Prelude.Ord.{Ord}
use network_mapper.Prelude.Sort.{insert, sort, sort_by-permᴰ}
use network_mapper.Prelude.Group.{IsDistinct}

module _ {ℓ} {A : Type ℓ} where
  pub Permᴰ-refl : (xs : List A) → Permᴰ xs xs
  Permᴰ-refl [] = Permᴰ.nil
  Permᴰ-refl (x ∷ xs) = Permᴰ.cons refl (Permᴰ-refl xs)

  pub All-trivial {κ} : (xs : List A) → All (λ _. Unit {κ}) xs
  All-trivial [] = tt
  All-trivial (x ∷ xs) = (tt, All-trivial xs)

  -- one element at the head of a selection
  keep : Bool → A → List A → List A
  keep b x xs = if b then x ∷ xs else xs

  keep-cons :
      (b c : Bool) (x y : A) {xs ys : List A}
      → b ≡ c
      → x ≡ y
      → Permᴰ xs ys
      → Permᴰ (keep b x xs) (keep c y ys)
  unfolding keep
  keep-cons true true x y h q r = Permᴰ.cons q r
  keep-cons false false x y h q r = r
  keep-cons true false x y h q r = cc
  keep-cons false true x y h q r = cc

  keep-swap :
      (b c : Bool) (x y : A) (xs : List A) → Permᴰ (keep b x (keep c y xs)) (keep c y (keep b x xs))
  unfolding keep
  keep-swap true true x y xs = Permᴰ.swap refl refl
  keep-swap true false x y xs = Permᴰ-refl (x ∷ xs)
  keep-swap false true x y xs = Permᴰ-refl (y ∷ xs)
  keep-swap false false x y xs = Permᴰ-refl xs

  pub select-permᴰ :
      (p : A → Bool) {xs ys : List A} → Permᴰ xs ys → Permᴰ (select p xs) (select p ys)
  unfolding keep
  select-permᴰ p Permᴰ.nil = Permᴰ.nil
  select-permᴰ p (Permᴰ.cons {a = a} {b = b} q r) =
      keep-cons (p a) (p b) a b (ap p q) q (select-permᴰ p r)
  select-permᴰ p (Permᴰ.swap {a = a} {b = b} {b' = b'} {l = l} q r) =
      subst (λ z. Permᴰ (select p (a ∷ b ∷ l)) (select p (z ∷ b' ∷ l))) r
        (subst (λ z. Permᴰ (select p (a ∷ b ∷ l)) (select p (b ∷ z ∷ l))) q
          (keep-swap (p a) (p b) a b (select p l)))
  select-permᴰ p (Permᴰ.trans q r) = Permᴰ.trans (select-permᴰ p q) (select-permᴰ p r)

module _ {ℓ} {B : Type ℓ} where
  cons_some-permᴰ :
      (o : Option B) {xs ys : List B} → Permᴰ xs ys → Permᴰ (cons_some o xs) (cons_some o ys)
  cons_some-permᴰ none r = r
  cons_some-permᴰ (some y) r = Permᴰ.cons refl r

  cons_some-swap :
      (o p : Option B) (xs : List B)
      → Permᴰ (cons_some o (cons_some p xs)) (cons_some p (cons_some o xs))
  cons_some-swap none p xs = Permᴰ-refl (cons_some p xs)
  cons_some-swap (some x) none xs = Permᴰ-refl (x ∷ xs)
  cons_some-swap (some x) (some y) xs = Permᴰ.swap refl refl

module _ {ℓ κ} {A : Type ℓ} {B : Type κ} (f : A → Option B) where
  pub filter_map-permᴰ : {xs ys : List A} → Permᴰ xs ys → Permᴰ (filter_map f xs) (filter_map f ys)
  filter_map-permᴰ Permᴰ.nil = Permᴰ.nil
  filter_map-permᴰ (Permᴰ.cons {a = a} {l₁ = l} {l₂ = m} q r) =
      subst (λ z. Permᴰ (filter_map f (a ∷ l)) (filter_map f (z ∷ m))) q
        (cons_some-permᴰ (f a) (filter_map-permᴰ r))
  filter_map-permᴰ (Permᴰ.swap {a = a} {b = b} {b' = b'} {l = l} q r) =
      subst (λ z. Permᴰ (filter_map f (a ∷ b ∷ l)) (filter_map f (z ∷ b' ∷ l))) r
        (subst (λ z. Permᴰ (filter_map f (a ∷ b ∷ l)) (filter_map f (b ∷ z ∷ l))) q
          (cons_some-swap (f a) (f b) (filter_map f l)))
  filter_map-permᴰ (Permᴰ.trans q r) = Permᴰ.trans (filter_map-permᴰ q) (filter_map-permᴰ r)

module _ {ℓ} {K : Type ℓ} ⦃e : Eq K⦄ where
  pub elem-map-permᴰ {κ} :
      {A : Type κ} (key : A → K) (k : K) {xs ys : List A}
      → Permᴰ xs ys
      → elem k (map key xs) ≡ elem k (map key ys)
  elem-map-permᴰ key k Permᴰ.nil = refl
  elem-map-permᴰ key k (Permᴰ.cons q r) = ground (arith, elem-map-permᴰ key k r, ap key q)
  elem-map-permᴰ key k (Permᴰ.swap q r) = ground (arith, ap key q, ap key r)
  elem-map-permᴰ key k (Permᴰ.trans q r) = elem-map-permᴰ key k q ∙ elem-map-permᴰ key k r

  pub elem→Mem : (k : K) (ks : List K) → elem k ks ≡ true → Mem k ks
  elem→Mem k [] h = cc
  elem→Mem k (j ∷ ks) h = elim (Bool-cases (j == k)) [
    | inl q ↦ subst (λ i. Mem i (j ∷ ks)) ((e.exact j k).0 q) mem-cons_self
    | inr q ↦ mem-cons_of_mem j (elem→Mem k ks (ground arith))
  ]

  Memᴰ→elem : (k : K) (ks : List K) → Memᴰ k ks → elem k ks ≡ true
  Memᴰ→elem k [] m = elim m [ ]
  Memᴰ→elem k (j ∷ ks) (Memᴰ.head q) = ground (arith, e.exact j k)
  Memᴰ→elem k (j ∷ ks) (Memᴰ.tail m) = ground (arith, Memᴰ→elem k ks m)

  pub Mem→elem : (k : K) (ks : List K) → Mem k ks → elem k ks ≡ true
  Mem→elem k ks m = ∥∥₁_elim m (Bool-set _ _) (Memᴰ→elem k ks)

  IsDistinct→Nodup : (ks : List K) → IsDistinct ks → Nodup ks
  IsDistinct→Nodup [] d = Pairwise.nil
  IsDistinct→Nodup (k ∷ ks) d =
      Nodup-cons.1 (λ m. false≢true (sym d.0 ∙ Mem→elem k ks m), IsDistinct→Nodup ks d.1)

  IsDistinct-perm :
      (ks js : List K)
      → IsDistinct ks
      → IsDistinct js
      → ((k : K) → elem k ks ≡ elem k js)
      → Perm ks js
  IsDistinct-perm ks js d c h =
      (perm_ext_iff_of_Nodup (IsDistinct→Nodup ks d) (IsDistinct→Nodup js c)).1 (λ k. (
        λ m. elem→Mem k js (sym (h k) ∙ Mem→elem k ks m),
        λ m. elem→Mem k ks (h k ∙ Mem→elem k js m),
      ))

  pub Eq→set : IsSet K
  Eq→set = hedberg dec
    where
      dec : Discrete K
      dec a b = elim (Bool-cases (a == b)) [
        | inl q ↦ yes ((e.exact a b).0 q)
        | inr q ↦ no (λ p. false≢true (sym q ∙ (e.exact a b).1 p))
      ]

-- Two lists of the same distinct keys sort to one list.
pub sort_distinct {ℓ} :
    {K : Type ℓ} ⦃o : Ord K⦄ (ks js : List K)
    → IsDistinct ⦃e = o.eq⦄ ks
    → IsDistinct ⦃e = o.eq⦄ js
    → ((k : K) → elem ⦃e = o.eq⦄ k ks ≡ elem ⦃e = o.eq⦄ k js)
    → sort o.le ks ≡ sort o.le js
sort_distinct ⦃o⦄ ks js d c h =
    ∥∥₁_elim (IsDistinct-perm ⦃e = o.eq⦄ ks js d c h) (Eq→set ⦃e = list_eq ⦃e = o.eq⦄⦄ _ _)
      (λ p. sort_by-permᴰ (λ k. k) (λ k. Unit) (λ a b _ _ q. q) p (All-trivial ks))

module _ {ℓ} {K : Type ℓ} ⦃e : Eq K⦄ (le : K → K → Bool) where
  elem-insert : (j k : K) (ks : List K) → elem j (insert le k ks) ≡ (k == j || elem j ks)
  unfolding insert
  elem-insert j k [] = refl
  elem-insert j k (i ∷ ks) = ground (arith, elem-insert j k ks)

  pub elem-sort : (j : K) (ks : List K) → elem j (sort le ks) ≡ elem j ks
  unfolding sort
  elem-sort j [] = refl
  elem-sort j (k ∷ ks) = ground (arith, elem-insert j k (sort le ks), elem-sort j ks)

  insert-IsDistinct :
      (k : K) (ks : List K) → elem k ks ≡ false → IsDistinct ks → IsDistinct (insert le k ks)
  unfolding insert
  insert-IsDistinct k [] h d = (refl, tt)
  insert-IsDistinct k (i ∷ ks) h d = elim (Bool-cases (le k i)) [
    | inl q ↦ rw q (h, d)
    | inr q ↦ rw q (
      ground (arith, elem-insert i k ks, beq_sym k i, d),
      insert-IsDistinct k ks (ground arith) d.1,
    )
  ]

  pub sort-IsDistinct : (ks : List K) → IsDistinct ks → IsDistinct (sort le ks)
  unfolding sort
  sort-IsDistinct [] d = tt
  sort-IsDistinct (k ∷ ks) d =
      insert-IsDistinct k (sort le ks) (elem-sort k ks ∙ d.0) (sort-IsDistinct ks d.1)
