-- ===== src/Prelude/Sort.antt =====
-- Python's `sorted(xs, key=key)`: a stable sort. Every stable sort returns the same list, so the
-- model is the insertion sort. `le` compares two elements by their keys.
use mathlib.Core.Path.{◌≡◌, refl, ◌∙◌, subst, ap, ap₂}
use mathlib.Core.Logic.{inl, inr}
use mathlib.Core.Bool.{Bool, true, false}
use mathlib.Core.List.{List, [], ◌∷◌, map, Perm, Permᴰ}
use mathlib.Core.List.Perm
use native.Mathlib.Omega.{arith}
use network_mapper.Prelude.Tests.{if◌then◌else◌, Bool-cases}
use network_mapper.Prelude.Lists.{All, All-weaken}
use network_mapper.Prelude.Ord.{Ord}

module _ {ℓ} {A : Type ℓ} (le : A → A → Bool) where
  unfoldable pub insert : A → List A → List A
  insert x [] = x ∷ []
  insert x (y ∷ ys) = if le x y then x ∷ y ∷ ys else y ∷ insert x ys

  unfoldable pub sort : List A → List A
  unfolding insert
  sort [] = []
  sort (x ∷ xs) = insert x (sort xs)

  pub insert-perm : (x : A) (xs : List A) → Perm (insert x xs) (x ∷ xs)
  unfolding insert
  insert-perm x [] = Perm.rfl
  insert-perm x (y ∷ ys) = elim (Bool-cases (le x y)) [
    | inl e ↦ rw e Perm.rfl
    | inr e ↦ rw e (Perm.trans (Perm.cons y (insert-perm x ys)) (Perm.swap x y ys))
  ]

  -- Sorting only reorders.
  pub sort-perm : (xs : List A) → Perm (sort xs) xs
  unfolding sort
  sort-perm [] = Perm.rfl
  sort-perm (x ∷ xs) = Perm.trans (insert-perm x (sort xs)) (Perm.cons x (sort-perm xs))

  -- The head is at most every element of the tail.
  abbrev pub IsSorted : List A → Type 0
  IsSorted [] = Unit
  IsSorted (x ∷ xs) = All (λ y. le x y ≡ true) xs × IsSorted xs

  pub All-insert {κ} : (P : A → Type κ) (x : A) (xs : List A) → P x → All P xs → All P (insert x xs)
  unfolding insert
  All-insert P x [] h a = (h, tt)
  All-insert P x (y ∷ ys) h a = elim (Bool-cases (le x y)) [
    | inl e ↦ rw e (h, a)
    | inr e ↦ rw e (a.0, All-insert P x ys h a.1)
  ]

  pub All-sort {κ} : (P : A → Type κ) (xs : List A) → All P xs → All P (sort xs)
  unfolding sort
  All-sort P [] a = tt
  All-sort P (x ∷ xs) a = All-insert P x (sort xs) a.0 (All-sort P xs a.1)

  All-of_insert {κ} : (P : A → Type κ) (x : A) (xs : List A) → All P (insert x xs) → P x × All P xs
  unfolding insert
  All-of_insert P x [] = λ a. a
  All-of_insert P x (y ∷ ys) = elim (Bool-cases (le x y)) [
    | inl e ↦ rw e (λ a. a)
    | inr e ↦ rw e (λ a. let more = All-of_insert P x ys a.1 in (more.0, (a.0, more.1)))
  ]

  pub All-of_sort {κ} : (P : A → Type κ) (xs : List A) → All P (sort xs) → All P xs
  unfolding sort
  All-of_sort P [] a = tt
  All-of_sort P (x ∷ xs) a =
      let parts = All-of_insert P x (sort xs) a in (parts.0, All-of_sort P xs parts.1)

  pub insert_comm :
      (total : (a b : A) → le a b ≡ false → le b a ≡ true)
      (trans : (a b c : A) → le a b ≡ true → le b c ≡ true → le a c ≡ true) (x y : A)
      (antisym : le x y ≡ true → le y x ≡ true → x ≡ y) (zs : List A)
      → insert x (insert y zs) ≡ insert y (insert x zs)
  unfolding insert
  insert_comm total trans x y antisym [] = ground (arith, total x y, total y x)
  insert_comm total trans x y antisym (z ∷ zs) = ground (
    arith,
    total x y,
    total y x,
    trans x y z,
    trans y x z,
    insert_comm total trans x y antisym zs,
  )

  pub insert-IsSorted :
      (total : (a b : A) → le a b ≡ false → le b a ≡ true)
      (trans : (a b c : A) → le a b ≡ true → le b c ≡ true → le a c ≡ true) (x : A) (xs : List A)
      → IsSorted xs
      → IsSorted (insert x xs)
  unfolding insert
  insert-IsSorted total trans x [] s = (tt, tt)
  insert-IsSorted total trans x (y ∷ ys) s = elim (Bool-cases (le x y)) [
    | inl e ↦
        rw e
          ((e, All-weaken (λ z. le y z ≡ true) (λ z. le x z ≡ true) ys (λ z. trans x y z e) s.0), s)
    | inr e ↦ rw e (
      All-insert (λ z. le y z ≡ true) x ys (total x y e) s.0,
      insert-IsSorted total trans x ys s.1,
    )
  ]

-- Every element of a rearrangement has what every element of the list had.
pub All-permᴰ {ℓ κ} :
    {A : Type ℓ} (P : A → Type κ) {xs ys : List A} → Permᴰ xs ys → All P xs → All P ys
All-permᴰ P Permᴰ.nil a = a
All-permᴰ P (Permᴰ.cons e p) a = (subst P e a.0, All-permᴰ P p a.1)
All-permᴰ P (Permᴰ.swap e d) a = (subst P d a.1.0, (subst P e a.0, a.1.1))
All-permᴰ P (Permᴰ.trans p q) a = All-permᴰ P q (All-permᴰ P p a)

module _ {ℓ} {A K : Type ℓ} ⦃o : Ord K⦄ (key : A → K) where
  open o use {le, le_total, le_trans, le_antisym}

  abbrev pub le_by : A → A → Bool
  le_by a b = le (key a) (key b)

  -- `sorted(xs, key=key)`
  abbrev pub sort_by : List A → List A
  sort_by xs = sort le_by xs

  pub sort_by-IsSorted : (xs : List A) → IsSorted le_by (sort_by xs)
  unfolding sort
  sort_by-IsSorted [] = tt
  sort_by-IsSorted (x ∷ xs) =
      insert-IsSorted le_by (λ a b. le_total (key a) (key b))
        (λ a b c. le_trans (key a) (key b) (key c)) x (sort_by xs) (sort_by-IsSorted xs)

  -- Where the key determines an element of the list, the result does not depend on the order.
  pub sort_by-permᴰ :
      (P : A → Type ℓ) (determined : (a b : A) → P a → P b → key a ≡ key b → a ≡ b) {xs ys : List A}
      → Permᴰ xs ys
      → All P xs
      → sort_by xs ≡ sort_by ys
  unfolding sort
  sort_by-permᴰ P determined Permᴰ.nil a = refl
  sort_by-permᴰ P determined (Permᴰ.cons e p) a =
      ap₂ (insert le_by) e (sort_by-permᴰ P determined p a.1)
  sort_by-permᴰ P determined (Permᴰ.swap {a = x} {b = y} {l = zs} e d) a =
      insert_comm le_by (λ a b. le_total (key a) (key b))
        (λ a b c. le_trans (key a) (key b) (key c)) x y
        (λ h k. determined x y a.0 a.1.0 (le_antisym (key x) (key y) h k)) (sort_by zs)
      ∙ ap₂ (λ u v. insert le_by u (insert le_by v (sort_by zs))) d e
  sort_by-permᴰ P determined (Permᴰ.trans p q) a =
      sort_by-permᴰ P determined p a ∙ sort_by-permᴰ P determined q (All-permᴰ P p a)

  -- Sorting records that are made from their keys is making them from the sorted keys.
  pub insert-map :
      (f : K → A) (h : (k : K) → key (f k) ≡ k) (k : K) (ks : List K)
      → insert le_by (f k) (map f ks) ≡ map f (insert le k ks)
  unfolding insert
  insert-map f h k [] = refl
  insert-map f h k (j ∷ js) = ground (arith, h k, h j, insert-map f h k js)

  pub sort_by-map :
      (f : K → A) (h : (k : K) → key (f k) ≡ k) (ks : List K)
      → sort_by (map f ks) ≡ map f (sort le ks)
  unfolding sort
  sort_by-map f h [] = refl
  sort_by-map f h (k ∷ ks) =
      ap (insert le_by (f k)) (sort_by-map f h ks) ∙ insert-map f h k (sort le ks)

-- Sorting the images by a key is mapping what was sorted by the key of the images.
module _ {ℓ} {A B K : Type ℓ} ⦃o : Ord K⦄ (key : B → K) (image_key : A → K) (f : A → B) where
  insert-image :
      ((x : A) → key (f x) ≡ image_key x)
      → (x : A) (xs : List A)
      → insert (le_by key) (f x) (map f xs) ≡ map f (insert (le_by image_key) x xs)
  unfolding insert
  insert-image h x [] = refl
  insert-image h x (y ∷ ys) = ground (arith, h x, h y, insert-image h x ys)

  pub sort_by-image :
      ((x : A) → key (f x) ≡ image_key x)
      → (xs : List A) → sort_by key (map f xs) ≡ map f (sort_by image_key xs)
  unfolding sort
  sort_by-image h [] = refl
  sort_by-image h (x ∷ xs) =
      ap (insert (le_by key) (f x)) (sort_by-image h xs) ∙ insert-image h x (sort_by image_key xs)
