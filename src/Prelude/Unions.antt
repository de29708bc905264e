-- ===== src/Prelude/Unions.antt =====
-- How many values and how many keys a dictionary of sets holds, told by the list that filled it.
use mathlib.Core.Path.{◌≡◌, refl, sym, ◌∙◌, ap, fun_ext}
use mathlib.Core.Bool.{Bool, true}
use mathlib.Core.Logic.Iff
use mathlib.Core.Logic.{◌↔◌, inl, inr}
use mathlib.Core.List.{List, [], ◌∷◌, map}
use Prim.Native.Nat.{◌≤◌}
use native.Mathlib.Omega.{arith}
use network_mapper.Prelude.Tests.{ltb, Bool-cases, Bool-ext}
use network_mapper.Prelude.Lists.{length, any, concat, map-map, length-map}
use network_mapper.Prelude.Eq.{Eq, ◌==◌, beq_refl, elem}
use network_mapper.Prelude.Group.{
  group, IsDistinct, elem-append, of_key, group-entries, group_keys, elem-group_keys,
  group_keys-IsDistinct,
}
use network_mapper.Prelude.Sets.{
  to_set, to_set-IsDistinct, elem-to_set, AreEqual, length-le_one, sets_of, group_set,
  group_set-group,
}

module _ {ℓ} {V : Type ℓ} ⦃e : Eq V⦄ where
  pub elem-concat {κ} :
      {B : Type κ} (w : V) (g : B → List V) (ks : List B)
      → elem w (concat (map g ks)) ≡ any (λ k. elem w (g k)) ks
  elem-concat w g [] = refl
  elem-concat w g (k ∷ ks) =
      ground (arith, elem-append w (g k) (concat (map g ks)), elem-concat w g ks)

  pub any-elem :
      (f : V → Bool) (k : V) (ks : List V) → elem k ks ≡ true → f k ≡ true → any f ks ≡ true
  any-elem f k [] h p = cc
  any-elem f k (j ∷ ks) h p = ground (arith, any-elem f k ks, e.exact j k)

  le_one_transfer :
      (s t : List V)
      → IsDistinct s
      → IsDistinct t
      → ((v : V) → elem v s ≡ elem v t)
      → length t ≤ 1
      → length s ≤ 1
  le_one_transfer s t d c h small =
      (length-le_one s d).1
        (λ v w p q. (length-le_one t c).0 small v w (sym (h v) ∙ p) (sym (h w) ∙ q))

  -- Of distinct lists with the same members, either both or neither have more than one.
  pub more_than_one :
      (s t : List V)
      → IsDistinct s
      → IsDistinct t
      → ((v : V) → elem v s ≡ elem v t)
      → ltb 1 (length s) ≡ ltb 1 (length t)
  more_than_one s t d c h =
      let forth = le_one_transfer s t d c h in
      let back = le_one_transfer t s c d (λ v. sym (h v)) in ground (arith, forth, back)

-- `{v for vs in d.values() for v in vs}`
abbrev pub all_values {ℓ} : {K V : Type ℓ} ⦃v : Eq V⦄ → List (K × List V) → List V
all_values d = to_set (concat (map (λ p. p.1) d))

module _ {ℓ} {A K V : Type ℓ} ⦃e : Eq K⦄ ⦃v : Eq V⦄ (key : A → K) (value : A → V) where
  of_key-value :
      (w : V) (k : K) (xs : List A)
      → elem w (map value (of_key key k xs)) ≡ true
      → elem w (map value xs) ≡ true
  of_key-value w k [] h = cc
  of_key-value w k (x ∷ xs) h = ground (arith, of_key-value w k xs)

  any_key-value :
      (w : V) (ks : List K) (xs : List A)
      → any (λ k. elem w (map value (of_key key k xs))) ks ≡ true
      → elem w (map value xs) ≡ true
  any_key-value w [] xs h = cc
  any_key-value w (k ∷ ks) xs h = ground (arith, of_key-value w k xs, any_key-value w ks xs)

  value_key :
      (w : V) (xs : List A)
      → elem w (map value xs) ≡ true
      → (k : K) × (elem k (map key xs) ≡ true) × (elem w (map value (of_key key k xs)) ≡ true)
  value_key w [] h = cc
  value_key w (x ∷ xs) h = elim (Bool-cases (value x == w)) [
    | inl p ↦ (key x, ground (arith, beq_refl (key x)), ground (arith, beq_refl (key x)))
    | inr p ↦
        let (k, listed, valued) = value_key w xs (ground arith) in (k, ground arith, ground arith)
  ]

  values_of : (xs : List A) → List V
  values_of xs = concat (map (λ k. to_set (map value (of_key key k xs))) (group_keys key xs))

  concat-group_set : (xs : List A) → concat (map (λ p. p.1) (group_set key value xs)) ≡ values_of xs
  unfolding values_of
  concat-group_set xs =
      ap (λ d. concat (map (λ p. p.1) d))
        (group_set-group key value xs ∙ ap (sets_of value) (group-entries key xs))
      ∙ ap concat
          (ap (map (λ p. p.1)) (map-map _ _ (group_keys key xs)) ∙ map-map _ _ (group_keys key xs))

  -- The values in all sets of the dictionary are the values of the list.
  pub elem-all_values :
      (w : V) (xs : List A) → elem w (all_values (group_set key value xs)) ≡ elem w (map value xs)
  unfolding values_of
  elem-all_values w xs =
      elem-to_set w _
      ∙ ap (elem w) (concat-group_set xs)
      ∙ elem-concat w (λ k. to_set (map value (of_key key k xs))) (group_keys key xs)
      ∙ ap (λ f. any f (group_keys key xs))
          (fun_ext (λ k. elem-to_set w (map value (of_key key k xs))))
      ∙ Bool-ext _ _ (any_key-value w (group_keys key xs) xs) listed
    where
      listed :
          elem w (map value xs) ≡ true
          → any (λ k. elem w (map value (of_key key k xs))) (group_keys key xs) ≡ true
      listed h =
          let (k, at_key, valued) = value_key w xs h in
          any-elem (λ j. elem w (map value (of_key key j xs))) k (group_keys key xs)
            (elem-group_keys key k xs ∙ at_key) valued

  -- The dictionary has a key for each key of the list, once.
  pub length-group_set :
      (xs : List A) → length (group_set key value xs) ≡ length (group_keys key xs)
  unfolding group_keys
  length-group_set xs =
      ap length (group_set-group key value xs)
      ∙ length-map _ (group key xs)
      ∙ sym (length-map (λ p. p.0) (group key xs))

module _ {ℓ} {V : Type ℓ} ⦃e : Eq V⦄ where
  -- Lists with the same members are alike in that all their members are equal.
  pub AreEqual-members :
      (vs ws : List V) → ((v : V) → elem v vs ≡ elem v ws) → AreEqual vs ↔ AreEqual ws
  AreEqual-members vs ws h =
      (λ a v w p q. a v w (h v ∙ p) (h w ∙ q), λ a v w p q. a v w (sym (h v) ∙ p) (sym (h w) ∙ q))

module _ {ℓ} {A K V : Type ℓ} ⦃e : Eq K⦄ ⦃v : Eq V⦄ (key : A → K) (value : A → V) where
  pub length-all_values_le_one :
      (xs : List A) → (length (all_values (group_set key value xs)) ≤ 1) ↔ AreEqual (map value xs)
  length-all_values_le_one xs =
      Iff.trans (length-le_one _ (to_set-IsDistinct _))
        (AreEqual-members _ _ (λ w. elem-all_values key value w xs))

  pub length-group_set_le_one :
      (xs : List A) → (length (group_set key value xs) ≤ 1) ↔ AreEqual (map key xs)
  length-group_set_le_one xs = rw (length-group_set key value xs) (
      Iff.trans (length-le_one _ (group_keys-IsDistinct key xs))
        (AreEqual-members _ _ (λ k. elem-group_keys key k xs)))
