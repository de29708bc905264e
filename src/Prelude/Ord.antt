-- ===== src/Prelude/Ord.antt =====
-- Python's `<=` on the values that the program sorts by: numbers, and by the lexicographic order
-- strings (lists of code points) and tuples of strings (lists of the same length).
use mathlib.Core.Path.{◌≡◌, refl, ap}
use mathlib.Core.Logic.{◌↔◌}
use mathlib.Core.Bool.{Bool, true, false}
use mathlib.Core.List.{List, [], ◌∷◌}
use Prim.Native.Nat.{ℕ}
use native.Mathlib.Omega.{arith}
use network_mapper.Prelude.Tests.{leb, if◌then◌else◌}
use network_mapper.Prelude.Eq.{Eq, nat_eq, list_eq, list_beq, list_beq_iff}

pub record Ord {ℓ} (A : Type ℓ) : Type ℓ where
  pub eq : Eq A
  pub le : A → A → Bool
  pub le_total : (a b : A) → le a b ≡ false → le b a ≡ true
  pub le_trans : (a b c : A) → le a b ≡ true → le b c ≡ true → le a c ≡ true
  pub le_antisym : (a b : A) → le a b ≡ true → le b a ≡ true → a ≡ b

pub nat_total : (a b : ℕ) → leb a b ≡ false → leb b a ≡ true
nat_total a b h = ground arith

pub nat_trans : (a b c : ℕ) → leb a b ≡ true → leb b c ≡ true → leb a c ≡ true
nat_trans a b c h k = ground arith

pub nat_antisym : (a b : ℕ) → leb a b ≡ true → leb b a ≡ true → a ≡ b
nat_antisym a b h k = ground arith

instance abbrev pub nat_ord : Ord ℕ
nat_ord = record {
  eq = nat_eq;
  le = leb;
  le_total = nat_total;
  le_trans = nat_trans;
  le_antisym = nat_antisym;
}

module _ {ℓ} {A : Type ℓ} ⦃o : Ord A⦄ where
  open o use {eq, le, le_total, le_trans, le_antisym}

  -- The first place where the lists differ decides; a proper prefix comes first.
  unfoldable pub list_le : List A → List A → Bool
  list_le [] ys = true
  list_le (x ∷ xs) [] = false
  list_le (x ∷ xs) (y ∷ ys) = if eq.decide x y then list_le xs ys else le x y

  pub list_total : (xs ys : List A) → list_le xs ys ≡ false → list_le ys xs ≡ true
  unfolding list_le
  list_total [] ys h = ground arith
  list_total (x ∷ xs) [] h = refl
  list_total (x ∷ xs) (y ∷ ys) h =
      ground (arith, list_total xs ys, le_total x y, eq.exact x y, eq.exact y x)

  pub list_antisym : (xs ys : List A) → list_le xs ys ≡ true → list_le ys xs ≡ true → xs ≡ ys
  unfolding list_le
  list_antisym [] [] h k = refl
  list_antisym [] (y ∷ ys) h k = ground arith
  list_antisym (x ∷ xs) [] h k = ground arith
  list_antisym (x ∷ xs) (y ∷ ys) h k =
      ground (arith, list_antisym xs ys, le_antisym x y, eq.exact x y, eq.exact y x)

  pub list_trans :
      (xs ys zs : List A) → list_le xs ys ≡ true → list_le ys zs ≡ true → list_le xs zs ≡ true
  unfolding list_le
  list_trans [] ys zs h k = refl
  list_trans (x ∷ xs) [] zs h k = ground arith
  list_trans (x ∷ xs) (y ∷ ys) [] h k = ground arith
  list_trans (x ∷ xs) (y ∷ ys) (z ∷ zs) h k = ground (
    arith,
    list_trans xs ys zs,
    le_trans x y z,
    le_antisym x y,
    eq.exact x y,
    eq.exact y z,
    eq.exact x z,
  )

instance abbrev pub list_ord {ℓ} : {A : Type ℓ} ⦃o : Ord A⦄ → Ord (List A)
list_ord ⦃o⦄ = record {
  eq = list_eq ⦃e = o.eq⦄;
  le = list_le;
  le_total = list_total;
  le_trans = list_trans;
  le_antisym = list_antisym;
}

-- A Python tuple of three strings.
module _ {ℓ} {A : Type ℓ} ⦃o : Ord A⦄ where
  abbrev pub triple_list : A × A × A → List A
  triple_list (a, b, c) = a ∷ b ∷ c ∷ []

  abbrev pub triple_le : A × A × A → A × A × A → Bool
  triple_le s t = list_le (triple_list s) (triple_list t)

  abbrev pub triple_beq : A × A × A → A × A × A → Bool
  triple_beq s t = list_beq ⦃e = o.eq⦄ (triple_list s) (triple_list t)

  pub triple_list-injective : (s t : A × A × A) → triple_list s ≡ triple_list t → s ≡ t
  triple_list-injective (a, b, c) (a', b', c') h = ground arith

  pub triple_beq_iff : (s t : A × A × A) → (triple_beq s t ≡ true) ↔ (s ≡ t)
  triple_beq_iff s t = (
    λ h. triple_list-injective s t ((list_beq_iff ⦃e = o.eq⦄ _ _).0 h),
    λ h. (list_beq_iff ⦃e = o.eq⦄ _ _).1 (ap triple_list h),
  )

  pub triple_antisym : (s t : A × A × A) → triple_le s t ≡ true → triple_le t s ≡ true → s ≡ t
  triple_antisym s t h k = triple_list-injective s t (list_antisym _ _ h k)

  instance abbrev pub triple_eq : Eq (A × A × A)
  triple_eq = record { decide = triple_beq; exact = triple_beq_iff }

instance abbrev pub triple_ord {ℓ} : {A : Type ℓ} ⦃o : Ord A⦄ → Ord (A × A × A)
triple_ord = record {
  eq = triple_eq;
  le = triple_le;
  le_total = λ s t. list_total (triple_list s) (triple_list t);
  le_trans = λ s t u. list_trans (triple_list s) (triple_list t) (triple_list u);
  le_antisym = triple_antisym;
}
