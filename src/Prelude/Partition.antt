-- ===== src/Prelude/Partition.antt =====
-- Grouping loses and invents nothing: the groups together are a rearrangement of the list.
use mathlib.Core.Path.{subst}
use mathlib.Core.Logic.{inl, inr, ∥∥₁_elim}
use mathlib.Core.List.{List, [], ◌∷◌, ◌++◌, map, Perm, Permᴰ, perm_middle, append_assoc, append-nil}
use mathlib.Core.List.Perm
use network_mapper.Prelude.Tests.{Bool-cases}
use network_mapper.Prelude.Lists.{concat}
use network_mapper.Prelude.Eq.{Eq, ◌==◌}
use network_mapper.Prelude.Group.{put, group_from, group}

module _ {ℓ κ} {A : Type ℓ} {B : Type κ} where
  pub concat-map-perm :
      (f g : B → List A) (ps : List B)
      → ((p : B) → Perm (f p) (g p))
      → Perm (concat (map f ps)) (concat (map g ps))
  concat-map-perm f g [] h = Perm.rfl
  concat-map-perm f g (p ∷ ps) h = Perm.append (h p) (concat-map-perm f g ps h)

swap_blocks {ℓ} : {A : Type ℓ} (xs ys zs : List A) → Perm (xs ++ (ys ++ zs)) (ys ++ (xs ++ zs))
swap_blocks [] ys zs = Perm.rfl
swap_blocks (x ∷ xs) ys zs =
    Perm.trans (Perm.cons x (swap_blocks xs ys zs)) (Perm.symm (perm_middle ys (xs ++ zs)))

module _ {ℓ κ} {A : Type ℓ} {B : Type κ} (f : B → List A) where
  -- a rearrangement of the parts rearranges the whole
  pub concat-permᴰ : {ps qs : List B} → Permᴰ ps qs → Perm (concat (map f ps)) (concat (map f qs))
  concat-permᴰ Permᴰ.nil = Perm.rfl
  concat-permᴰ (Permᴰ.cons {a = a} {b = b} e r) =
      Perm.append (subst (λ c. Perm (f a) (f c)) e Perm.rfl) (concat-permᴰ r)
  concat-permᴰ (Permᴰ.swap {a = a} {b = b} {b' = b'} {l = l} e d) =
      subst (λ z. Perm (concat (map f (a ∷ b ∷ l))) (concat (map f (z ∷ b' ∷ l)))) d
        (subst (λ z. Perm (concat (map f (a ∷ b ∷ l))) (concat (map f (b ∷ z ∷ l)))) e
          (swap_blocks (f a) (f b) (concat (map f l))))
  concat-permᴰ (Permᴰ.trans r q) = Perm.trans (concat-permᴰ r) (concat-permᴰ q)

  pub concat-perm : {ps qs : List B} → Perm ps qs → Perm (concat (map f ps)) (concat (map f qs))
  concat-perm r = ∥∥₁_elim r squash₁ concat-permᴰ

module _ {ℓ} {A K : Type ℓ} ⦃e : Eq K⦄ where
  put-perm :
      (k : K) (x : A) (d : List (K × List A))
      → Perm (concat (map (λ p. p.1) (put k x d))) (x ∷ concat (map (λ p. p.1) d))
  unfolding put
  put-perm k x [] = Perm.rfl
  put-perm k x ((j, xs) ∷ d) = elim (Bool-cases (j == k)) [
    | inl h ↦ rw h (rw append_assoc (perm_middle xs (concat (map (λ p. p.1) d))))
    | inr h ↦ rw h (
        Perm.trans (Perm.append_left xs (put-perm k x d))
          (perm_middle xs (concat (map (λ p. p.1) d))))
  ]

  group_from-perm :
      (key : A → K) (d : List (K × List A)) (xs : List A)
      → Perm (concat (map (λ p. p.1) (group_from key d xs))) (concat (map (λ p. p.1) d) ++ xs)
  unfolding group_from
  group_from-perm key d [] = rw append-nil Perm.rfl
  group_from-perm key d (x ∷ xs) = Perm.trans (group_from-perm key (put (key x) x d) xs) (
      Perm.trans (Perm.append_right xs (put-perm (key x) x d))
        (Perm.symm (perm_middle (concat (map (λ p. p.1) d)) xs)))

  pub group-perm : (key : A → K) (xs : List A) → Perm (concat (map (λ p. p.1) (group key xs))) xs
  group-perm key xs = group_from-perm key [] xs
