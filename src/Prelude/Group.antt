-- ===== src/Prelude/Group.antt =====
-- The program's way to group: a `dict` that keeps the order of insertion, filled by
-- `d.setdefault(key(x), []).append(x)` for each `x`. The reference is: the distinct keys, each with
-- the elements of that key in their order.
use Prim.Native.Nat.{◌<◌}
use mathlib.Core.Path.{◌≡◌, refl, sym, ◌∙◌, ap}
use mathlib.Core.Bool.{true, false, ◌||◌}
use mathlib.Core.Logic.{inl, inr}
use mathlib.Core.List.{List, [], ◌∷◌, ◌++◌, map, map-append, append-nil, append_assoc}
use native.Mathlib.Omega.{arith}
use network_mapper.Prelude.Tests.{if◌then◌else◌, Bool-cases}
use network_mapper.Prelude.Lists.{All, All-map, length, length-append, length-map, select}
use network_mapper.Prelude.Eq.{Eq, ◌==◌, beq_refl, beq_sym, elem}

module _ {ℓ} {A K : Type ℓ} ⦃e : Eq K⦄ where
  -- `d.setdefault(k, []).append(x)`
  unfoldable pub put : K → A → List (K × List A) → List (K × List A)
  put k x [] = (k, x ∷ []) ∷ []
  put k x ((j, xs) ∷ d) = if j == k then (j, xs ++ x ∷ []) ∷ d else (j, xs) ∷ put k x d

  unfoldable pub group_from : (A → K) → List (K × List A) → List A → List (K × List A)
  unfolding put
  group_from key d [] = d
  group_from key d (x ∷ xs) = group_from key (put (key x) x d) xs

  abbrev pub group : (A → K) → List A → List (K × List A)
  group key xs = group_from key [] xs

  abbrev pub keys : List (K × List A) → List K
  keys d = map (λ p. p.0) d

  -- The elements of one key, in their order.
  abbrev pub of_key : (A → K) → K → List A → List A
  of_key key k xs = select (λ x. key x == k) xs

  abbrev pub entries : (A → K) → List A → List K → List (K × List A)
  entries key xs ks = map (λ k. (k, of_key key k xs)) ks

module _ {ℓ} {K : Type ℓ} ⦃e : Eq K⦄ where
  abbrev pub IsDistinct : List K → Type 0
  IsDistinct [] = Unit
  IsDistinct (k ∷ ks) = (elem k ks ≡ false) × IsDistinct ks

  pub elem-append : (k : K) (ks js : List K) → elem k (ks ++ js) ≡ (elem k ks || elem k js)
  elem-append k [] js = refl
  elem-append k (i ∷ ks) js = ground (arith, elem-append k ks js)

  pub snoc-IsDistinct :
      (k : K) (ks : List K) → elem k ks ≡ false → IsDistinct ks → IsDistinct (ks ++ k ∷ [])
  snoc-IsDistinct k [] h d = (refl, tt)
  snoc-IsDistinct k (j ∷ ks) h d = (
    ground (arith, elem-append j ks (k ∷ []), e.exact k j, e.exact j k),
    snoc-IsDistinct k ks (ground arith) d.1,
  )

module _ {ℓ} {A K : Type ℓ} ⦃e : Eq K⦄ (key : A → K) where
  pub of_key-absent : (k : K) (xs : List A) → elem k (map key xs) ≡ false → of_key key k xs ≡ []
  of_key-absent k [] h = refl
  of_key-absent k (x ∷ xs) h = ground (arith, of_key-absent k xs)

  of_key-snoc_ne :
      (k : K) (x : A) (xs : List A)
      → (key x == k) ≡ false
      → of_key key k (xs ++ x ∷ []) ≡ of_key key k xs
  of_key-snoc_ne k x [] h = ground arith
  of_key-snoc_ne k x (y ∷ ys) h = ground (arith, of_key-snoc_ne k x ys)

  of_key-snoc_eq :
      (k : K) (x : A) (xs : List A)
      → (key x == k) ≡ true
      → of_key key k (xs ++ x ∷ []) ≡ of_key key k xs ++ x ∷ []
  of_key-snoc_eq k x [] h = ground arith
  of_key-snoc_eq k x (y ∷ ys) h = ground (arith, of_key-snoc_eq k x ys)

  -- An element of another key changes no entry.
  entries-other :
      (x : A) (xs : List A) (ks : List K)
      → elem (key x) ks ≡ false
      → entries key (xs ++ x ∷ []) ks ≡ entries key xs ks
  entries-other x xs [] h = refl
  entries-other x xs (k ∷ ks) h =
      ground (arith, of_key-snoc_ne k x xs, beq_sym k (key x), entries-other x xs ks)

  put-present :
      (x : A) (xs : List A) (ks : List K)
      → elem (key x) ks ≡ true
      → IsDistinct ks
      → put (key x) x (entries key xs ks) ≡ entries key (xs ++ x ∷ []) ks
  unfolding put
  put-present x xs [] h d = ground arith
  put-present x xs (k ∷ ks) h d = ground (
    arith,
    e.exact k (key x),
    beq_sym k (key x),
    of_key-snoc_eq k x xs,
    of_key-snoc_ne k x xs,
    entries-other x xs ks,
    put-present x xs ks,
  )

  put-absent :
      (x : A) (xs : List A) (ks : List K)
      → elem (key x) ks ≡ false
      → put (key x) x (entries key xs ks) ≡ entries key xs ks ++ (key x, x ∷ []) ∷ []
  unfolding put
  put-absent x xs [] h = refl
  put-absent x xs (k ∷ ks) h = ground (arith, put-absent x xs ks)

  -- What the dictionary is after the elements of `pre`: `ks` are its keys.
  record Grouped (pre : List A) (d : List (K × List A)) : Type ℓ where
    ks : List K
    shape : d ≡ entries key pre ks
    distinct : IsDistinct ks
    complete : (k : K) → elem k ks ≡ elem k (map key pre)

  put-Grouped-present :
      (pre : List A) (x : A) (d : List (K × List A)) (g : Grouped pre d)
      → elem (key x) g.ks ≡ true
      → Grouped (pre ++ x ∷ []) (put (key x) x d)
  put-Grouped-present pre x d g h = record {
    ks = g.ks;
    shape = ap (put (key x) x) g.shape ∙ put-present x pre g.ks h g.distinct;
    distinct = g.distinct;
    complete = λ k. ground (
      arith,
      map-append key pre (x ∷ []),
      elem-append k (map key pre) (key x ∷ []),
      g.complete k,
      g.complete (key x),
      e.exact (key x) k,
    );
  }

  put-Grouped-absent :
      (pre : List A) (x : A) (d : List (K × List A)) (g : Grouped pre d)
      → elem (key x) g.ks ≡ false
      → Grouped (pre ++ x ∷ []) (put (key x) x d)
  put-Grouped-absent pre x d g h = record {
    ks = g.ks ++ key x ∷ [];
    shape =
        ap (put (key x) x) g.shape
        ∙ put-absent x pre g.ks h
        ∙ ground (
          arith,
          map-append {B = K × List A} (λ k. (k, of_key key k (pre ++ x ∷ []))) g.ks (key x ∷ []),
          entries-other x pre g.ks h,
          of_key-snoc_eq (key x) x pre,
          of_key-absent (key x) pre,
          g.complete (key x),
          beq_refl (key x),
        );
    distinct = snoc-IsDistinct (key x) g.ks h g.distinct;
    complete = λ k. ground (
      arith,
      map-append key pre (x ∷ []),
      elem-append k (map key pre) (key x ∷ []),
      elem-append k g.ks (key x ∷ []),
      g.complete k,
    );
  }

  put-Grouped :
      (pre : List A) (x : A) (d : List (K × List A))
      → Grouped pre d
      → Grouped (pre ++ x ∷ []) (put (key x) x d)
  put-Grouped pre x d g = elim (Bool-cases (elem (key x) g.ks)) [
    | inl h ↦ put-Grouped-present pre x d g h
    | inr h ↦ put-Grouped-absent pre x d g h
  ]

  group_from-Grouped :
      (pre xs : List A) (d : List (K × List A))
      → Grouped pre d
      → Grouped (pre ++ xs) (group_from key d xs)
  unfolding group_from
  group_from-Grouped pre [] d g = rw append-nil g
  group_from-Grouped pre (x ∷ xs) d g =
      rw (← append_assoc pre (x ∷ []) xs)
        (group_from-Grouped (pre ++ x ∷ []) xs (put (key x) x d) (put-Grouped pre x d g))

  -- The keys in the order in which they first occur.
  unfoldable pub group_keys : List A → List K
  group_keys xs = keys (group key xs)

  group-Grouped : (xs : List A) → Grouped xs (group key xs)
  group-Grouped xs =
      group_from-Grouped [] xs []
        (record { ks = []; shape = refl; distinct = tt; complete = λ k. refl })

  keys-entries : (xs : List A) (ks : List K) → keys (entries key xs ks) ≡ ks
  keys-entries xs [] = refl
  keys-entries xs (k ∷ ks) = ap (◌∷◌ k) (keys-entries xs ks)

  group_keys-Grouped : (xs : List A) → group_keys xs ≡ (group-Grouped xs).ks
  unfolding group_keys
  group_keys-Grouped xs = ap keys (group-Grouped xs).shape ∙ keys-entries xs (group-Grouped xs).ks

  -- The dictionary is the reference grouping: every distinct key with exactly its elements.
  pub group-entries : (xs : List A) → group key xs ≡ entries key xs (group_keys xs)
  group-entries xs = rw group_keys-Grouped (group-Grouped xs).shape

  pub group_keys-IsDistinct : (xs : List A) → IsDistinct (group_keys xs)
  group_keys-IsDistinct xs = rw group_keys-Grouped (group-Grouped xs).distinct

  pub elem-group_keys : (k : K) (xs : List A) → elem k (group_keys xs) ≡ elem k (map key xs)
  elem-group_keys k xs = rw group_keys-Grouped ((group-Grouped xs).complete k)

  -- What is selected for a key has that key.
  pub All-of_key {κ} :
      (P : A → Type κ) (k : K) (xs : List A)
      → All P xs
      → All (λ x. P x × (key x ≡ k)) (of_key key k xs)
  All-of_key P k [] a = tt
  All-of_key P k (x ∷ xs) a = elim (Bool-cases (key x == k)) [
    | inl h ↦ rw h ((a.0, (e.exact (key x) k).0 h), All-of_key P k xs a.1)
    | inr h ↦ rw h (All-of_key P k xs a.1)
  ]

module _ {ℓ} {A K : Type ℓ} ⦃e : Eq K⦄ where
  abbrev pub IsFilled : K × List A → Type 0
  IsFilled p = (0 < length p.1)

  put-nonempty : (k : K) (x : A) (d : List (K × List A)) → All IsFilled d → All IsFilled (put k x d)
  unfolding put
  put-nonempty k x [] a = (omega arith, tt)
  put-nonempty k x ((j, xs) ∷ d) a = elim (Bool-cases (j == k)) [
    | inl h ↦ rw h (omega (arith, length-append xs (x ∷ []), a.0), a.1)
    | inr h ↦ rw h (a.0, put-nonempty k x d a.1)
  ]

  group_from-nonempty :
      (key : A → K) (d : List (K × List A)) (xs : List A)
      → All IsFilled d
      → All IsFilled (group_from key d xs)
  unfolding group_from
  group_from-nonempty key d [] a = a
  group_from-nonempty key d (x ∷ xs) a =
      group_from-nonempty key (put (key x) x d) xs (put-nonempty (key x) x d a)

  -- No group is empty.
  pub group-nonempty : (key : A → K) (xs : List A) → All IsFilled (group key xs)
  group-nonempty key xs = group_from-nonempty key [] xs tt

  -- The elements of a group have its key.
  pub group-keyed {κ} :
      (key : A → K) (P : A → Type κ) (xs : List A)
      → All P xs
      → All (λ p. All (λ x. P x × (key x ≡ p.0)) p.1) (group key xs)
  group-keyed key P xs a = rw (group-entries key xs) (
      All-map (λ p. All (λ x. P x × (key x ≡ p.0)) p.1) (λ k. (k, of_key key k xs))
        (group_keys key xs) (λ k. All-of_key key P k xs a))

  pub length-group :
      (key : A → K) (xs : List A) → length (group key xs) ≡ length (group_keys key xs)
  unfolding group_keys
  length-group key xs = sym (length-map (λ p. p.0) (group key xs))
