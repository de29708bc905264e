-- ===== src/Prelude/Sets.antt =====
-- Python's `set` as the list of its elements in the order of insertion, and the program's
-- `d.setdefault(key(x), set()).add(value(x))` for each `x`. Only sizes and memberships are read.
use mathlib.Core.Path.{◌≡◌, refl, sym, ◌∙◌, ap}
use mathlib.Core.Option.{Option, none, some}
use mathlib.Core.Bool.{true, ◌||◌}
use mathlib.Core.Logic.{◌↔◌, inl, inr}
use mathlib.Core.List.{List, [], ◌∷◌, ◌++◌, map, map-append}
use Prim.Native.Nat.{◌≤◌}
use native.Mathlib.Omega.{arith}
use network_mapper.Prelude.Tests.{if◌then◌else◌, Bool-cases}
use network_mapper.Prelude.Lists.{length, map-map}
use network_mapper.Prelude.Eq.{Eq, ◌==◌, beq_refl, elem}
use network_mapper.Prelude.Group.{
  put, group_from, group, IsDistinct, elem-append, snoc-IsDistinct, of_key, group-entries,
  group_keys, elem-group_keys,
}

module _ {ℓ} {V : Type ℓ} ⦃e : Eq V⦄ where
  -- `s.add(v)`
  abbrev pub set_add : List V → V → List V
  set_add s v = if elem v s then s else s ++ v ∷ []

  unfoldable pub set_from : List V → List V → List V
  set_from s [] = s
  set_from s (v ∷ vs) = set_from (set_add s v) vs

  -- `{v for v in vs}`
  abbrev pub to_set : List V → List V
  to_set vs = set_from [] vs

  pub set_from-snoc :
      (s vs : List V) (v : V) → set_from s (vs ++ v ∷ []) ≡ set_add (set_from s vs) v
  unfolding set_from
  set_from-snoc s [] v = refl
  set_from-snoc s (w ∷ vs) v = set_from-snoc (set_add s w) vs v

  elem-set_add : (w v : V) (s : List V) → elem w (set_add s v) ≡ (elem w s || v == w)
  elem-set_add w v s = ground (arith, elem-append w s (v ∷ []), e.exact v w)

  pub elem-set_from : (w : V) (s vs : List V) → elem w (set_from s vs) ≡ (elem w s || elem w vs)
  unfolding set_from
  elem-set_from w s [] = ground arith
  elem-set_from w s (v ∷ vs) = ground (arith, elem-set_from w (set_add s v) vs, elem-set_add w v s)

  -- A set has the members of the list that it was made from,
  pub elem-to_set : (w : V) (vs : List V) → elem w (to_set vs) ≡ elem w vs
  elem-to_set w vs = elem-set_from w [] vs

  set_from-IsDistinct : (s vs : List V) → IsDistinct s → IsDistinct (set_from s vs)
  unfolding set_from
  set_from-IsDistinct s [] d = d
  set_from-IsDistinct s (v ∷ vs) d =
      set_from-IsDistinct (set_add s v) vs
        (elim (Bool-cases (elem v s)) [ inl h ↦ rw h d | inr h ↦ rw h (snoc-IsDistinct v s h d) ])

  -- each once.
  pub to_set-IsDistinct : (vs : List V) → IsDistinct (to_set vs)
  to_set-IsDistinct vs = set_from-IsDistinct [] vs tt

  abbrev pub AreEqual : List V → Type ℓ
  AreEqual vs = (v w : V) → elem v vs ≡ true → elem w vs ≡ true → v ≡ w

  -- A list of distinct elements has at most one exactly if all members are equal.
  pub length-le_one : (s : List V) → IsDistinct s → (length s ≤ 1) ↔ AreEqual s
  length-le_one [] d = (λ h v w p q. cc, λ h. omega arith)
  length-le_one (x ∷ []) d =
      (λ h v w p q. ground (arith, e.exact x v, e.exact x w), λ h. omega arith)
  length-le_one (x ∷ y ∷ s) d = (
    λ h v w p q. absurd (omega arith),
    λ h. ground (arith, h x y, beq_refl x, beq_refl y, e.exact y x, d),
  )

  pub to_set-le_one : (vs : List V) → (length (to_set vs) ≤ 1) ↔ AreEqual vs
  to_set-le_one vs = (
    λ h v w p q.
        (length-le_one (to_set vs) (to_set-IsDistinct vs)).0 h v w (elem-to_set v vs ∙ p)
          (elem-to_set w vs ∙ q),
    λ h.
        (length-le_one (to_set vs) (to_set-IsDistinct vs)).1
          (λ v w p q. h v w (sym (elem-to_set v vs) ∙ p) (sym (elem-to_set w vs) ∙ q)),
  )

module _ {ℓ} {K V : Type ℓ} ⦃e : Eq K⦄ ⦃v : Eq V⦄ where
  -- `d.setdefault(k, set()).add(w)`
  unfoldable pub put_set : K → V → List (K × List V) → List (K × List V)
  put_set k w [] = (k, set_add [] w) ∷ []
  put_set k w ((j, s) ∷ d) = if j == k then (j, set_add s w) ∷ d else (j, s) ∷ put_set k w d

module _ {ℓ} {A K V : Type ℓ} ⦃e : Eq K⦄ ⦃v : Eq V⦄ where
  unfoldable pub group_set_from : (A → K) → (A → V) → List (K × List V) → List A → List (K × List V)
  unfolding put_set
  group_set_from key value d [] = d
  group_set_from key value d (x ∷ xs) = group_set_from key value (put_set (key x) (value x) d) xs

  abbrev pub group_set : (A → K) → (A → V) → List A → List (K × List V)
  group_set key value xs = group_set_from key value [] xs

  abbrev pub sets_of : (A → V) → List (K × List A) → List (K × List V)
  sets_of value d = map (λ p. (p.0, to_set (map value p.1))) d

  put_set-sets_of :
      (key : A → K) (value : A → V) (x : A) (d : List (K × List A))
      → put_set (key x) (value x) (sets_of value d) ≡ sets_of value (put (key x) x d)
  unfolding put_set put
  put_set-sets_of key value x [] = unfold set_from in refl
  put_set-sets_of key value x ((j, xs) ∷ d) = ground (
    arith,
    map-append value xs (x ∷ []),
    set_from-snoc [] (map value xs) (value x),
    put_set-sets_of key value x d,
  )

  group_set_from-sets_of :
      (key : A → K) (value : A → V) (xs : List A) (d : List (K × List A))
      → group_set_from key value (sets_of value d) xs ≡ sets_of value (group_from key d xs)
  unfolding group_set_from group_from
  group_set_from-sets_of key value [] d = refl
  group_set_from-sets_of key value (x ∷ xs) d =
      rw (put_set-sets_of key value x d) (group_set_from-sets_of key value xs (put (key x) x d))

  -- Filling a dictionary of sets is grouping, and then making each group's set of values.
  pub group_set-group :
      (key : A → K) (value : A → V) (xs : List A)
      → group_set key value xs ≡ sets_of value (group key xs)
  group_set-group key value xs = group_set_from-sets_of key value xs []

module _ {ℓ} {K V : Type ℓ} ⦃e : Eq K⦄ where
  -- `d.get(k)`
  abbrev pub lookup : K → List (K × V) → Option V
  lookup k [] = none
  lookup k ((j, v) ∷ d) = if j == k then some v else lookup k d

  lookup-map :
      (k : K) (f : K → V) (ks : List K)
      → lookup k (map (λ j. (j, f j)) ks) ≡ (if elem k ks then some (f k) else none)
  lookup-map k f [] = refl
  lookup-map k f (j ∷ ks) = ground (arith, lookup-map k f ks, e.exact j k)

module _ {ℓ} {A K V : Type ℓ} ⦃e : Eq K⦄ ⦃v : Eq V⦄ (key : A → K) (value : A → V) where
  -- The set under a key holds the values of the elements with that key; a key that no element has
  -- is absent.
  pub lookup-group_set :
      (k : K) (xs : List A)
      → lookup k (group_set key value xs)
        ≡ (if elem k (map key xs) then some (to_set (map value (of_key key k xs))) else none)
  lookup-group_set k xs =
      ap (lookup k) (
        group_set-group key value xs
        ∙ ap (sets_of value) (group-entries key xs)
        ∙ map-map _ _ (group_keys key xs))
      ∙ lookup-map k (λ j. to_set (map value (of_key key j xs))) (group_keys key xs)
      ∙ ap (λ b. if b then some (to_set (map value (of_key key k xs))) else none)
          (elem-group_keys key k xs)
