-- ===== src/Relationships/Keys.antt =====
-- The edges that the resolver meets: each edge of the observations, once.
use network_mapper.Prelude.{
  ◌≡◌, refl, sym, ap, ◌∙◌, subst, Bool, true, false, ◌&&◌, List, [], ◌∷◌, ◌++◌, map, any, concat,
  arith, Bool-cases, inl, inr, Bool-ext,
}
use network_mapper.Prelude.Text.{Text}
use network_mapper.Prelude.Ord.{nat_ord, list_ord, triple_eq}
use network_mapper.Prelude.Eq.{
  Eq, list_beq, nat_eq, list_eq, pair_eq, ◌==◌, elem, beq_refl, eq_of_beq,
}
use network_mapper.Prelude.Group.{
  group_keys, IsDistinct, elem-append, elem-group_keys, group_keys-IsDistinct,
}
use network_mapper.Prelude.Unions.{any-elem, elem-concat}
use network_mapper.Observations.{RelationshipObservation}
use network_mapper.Relationships.{group_key}
use network_mapper.Relationships.Canonical.{Edge, related, of_group, group_edges, edges}

module _ {ℓ} {T : Type ℓ} ⦃e : Eq T⦄ where
  append-IsDistinct :
      (xs ys : List T)
      → IsDistinct xs
      → IsDistinct ys
      → ((t : T) → elem t xs ≡ true → elem t ys ≡ false)
      → IsDistinct (xs ++ ys)
  append-IsDistinct [] ys d c h = c
  append-IsDistinct (x ∷ xs) ys d c h = (
    ground (arith, elem-append x xs ys, h x, beq_refl x, d.0),
    append-IsDistinct xs ys d.1 c (λ t m. h t (ground arith)),
  )

-- Lists that are distinct, and of which a projection tells where each element is from.
module _ {ℓ} {T K : Type ℓ} ⦃e : Eq T⦄ ⦃d : Eq K⦄ (proj : T → K) (g : K → List T)
    (distinct : (k : K) → IsDistinct (g k))
    (from : (k : K) (t : T) → elem t (g k) ≡ true → proj t ≡ k) where
  any-from : (t : T) (ks : List K) → any (λ k. elem t (g k)) ks ≡ true → elem (proj t) ks ≡ true
  any-from t [] h = h
  any-from t (k ∷ ks) h = elim (Bool-cases (elem t (g k))) [
    | inl p ↦ ground (arith, d.exact k (proj t), from k t p)
    | inr p ↦ ground (arith, any-from t ks)
  ]

  concat-IsDistinct : (ks : List K) → IsDistinct ks → IsDistinct (concat (map g ks))
  concat-IsDistinct [] c = tt
  concat-IsDistinct (k ∷ ks) c =
      append-IsDistinct (g k) (concat (map g ks)) (distinct k) (concat-IsDistinct ks c.1) (λ t m.
        elim (Bool-cases (elem t (concat (map g ks)))) [
          | inl p ↦
              let later : elem (proj t) ks ≡ true = any-from t ks (sym (elem-concat t g ks) ∙ p) in
              cc (later, from k t m, c.0)
          | inr p ↦ p
        ])

edge_beq :
    (k : Text × Text) (r : Text) (t : Edge)
    → (let e : Edge = (k.0, k.1, r) in e == t) ≡ (k == (t.0, t.1) && r == t.2)
unfolding list_beq
edge_beq k r t = ground arith

module _ (k : Text × Text) where
  elem-map_edge :
      (t : Edge) (rs : List Text)
      → elem t (map (λ r. (k.0, k.1, r)) rs) ≡ (k == (t.0, t.1) && elem t.2 rs)
  elem-map_edge t [] = ground arith
  elem-map_edge t (r ∷ rs) = ground (arith, edge_beq k r t, elem-map_edge t rs)

  map_edge-IsDistinct :
      (rs : List Text) → IsDistinct rs → IsDistinct {K = Edge} (map (λ r. (k.0, k.1, r)) rs)
  map_edge-IsDistinct [] d = tt
  map_edge-IsDistinct (r ∷ rs) d =
      (ground (arith, elem-map_edge (k.0, k.1, r) rs, d.0), map_edge-IsDistinct rs d.1)

and_left : (a b : Bool) → (a && b) ≡ true → a ≡ true
and_left a b h = ground arith

and_right : (a b : Bool) → (a && b) ≡ true → b ≡ true
and_right a b h = ground arith

-- The edge that an observation claims.
abbrev pub edge_key : RelationshipObservation → Edge
edge_key o = (o.subject, o.category, o.related_subject)

-- The group of an edge.
abbrev pub pair_of : Edge → Text × Text
pair_of t = (t.0, t.1)

module _ (xs : List RelationshipObservation) where
  elem-group_edges :
      (k : Text × Text) (t : Edge)
      → elem t (group_edges xs k) ≡ (k == pair_of t && elem t.2 (map related (of_group k xs)))
  unfolding group_edges
  elem-group_edges k t =
      elem-map_edge k t (group_keys related (of_group k xs))
      ∙ ap (λ b. k == pair_of t && b) (elem-group_keys related t.2 (of_group k xs))

  group_edges-from : (k : Text × Text) (t : Edge) → elem t (group_edges xs k) ≡ true → pair_of t ≡ k
  group_edges-from k t m =
      sym (eq_of_beq k (pair_of t) (and_left _ _ (sym (elem-group_edges k t) ∙ m)))

related-edge :
    (t : Edge) (xs : List RelationshipObservation)
    → elem t.2 (map related (of_group (pair_of t) xs)) ≡ elem t (map edge_key xs)
related-edge t [] = refl
related-edge t (x ∷ xs) =
    ground (arith, edge_beq (group_key x) x.related_subject t, related-edge t xs)

edge-group :
    (t : Edge) (xs : List RelationshipObservation)
    → elem t (map edge_key xs) ≡ true
    → elem (pair_of t) (map group_key xs) ≡ true
edge-group t [] h = h
edge-group t (x ∷ xs) h =
    ground (arith, edge_beq (group_key x) x.related_subject t, edge-group t xs)

pub edges-IsDistinct : (xs : List RelationshipObservation) → IsDistinct (edges xs)
unfolding edges
edges-IsDistinct xs =
    concat-IsDistinct (λ (t : Edge). (t.0, t.1)) (group_edges xs)
      (λ k.
        map_edge-IsDistinct k (group_keys related (of_group k xs))
          (group_keys-IsDistinct related (of_group k xs)))
      (group_edges-from xs) (group_keys group_key xs) (group_keys-IsDistinct group_key xs)

-- The edges are those that the observations claim,
pub elem-edges :
    (t : Edge) (xs : List RelationshipObservation) → elem t (edges xs) ≡ elem t (map edge_key xs)
unfolding edges
elem-edges t xs = elem-concat t (group_edges xs) (group_keys group_key xs) ∙ Bool-ext _ _ forth back
  where
    at_group :
        (ks : List (Text × Text))
        → any (λ k. elem t (group_edges xs k)) ks ≡ true
        → elem t (map edge_key xs) ≡ true
    at_group [] h = cc
    at_group (k ∷ ks) h = elim (Bool-cases (elem t (group_edges xs k))) [
      | inl p ↦
          sym (related-edge t xs)
          ∙ subst (λ j. elem t.2 (map related (of_group j xs)) ≡ true)
              (sym (group_edges-from xs k t p)) (and_right _ _ (sym (elem-group_edges xs k t) ∙ p))
      | inr p ↦ at_group ks (ground arith)
    ]

    forth :
        any (λ k. elem t (group_edges xs k)) (group_keys group_key xs) ≡ true
        → elem t (map edge_key xs) ≡ true
    forth = at_group (group_keys group_key xs)

    back :
        elem t (map edge_key xs) ≡ true
        → any (λ k. elem t (group_edges xs k)) (group_keys group_key xs) ≡ true
    back m =
        any-elem (λ k. elem t (group_edges xs k)) (pair_of t) (group_keys group_key xs)
          (elem-group_keys group_key (pair_of t) xs ∙ edge-group t xs m)
          (ground
            (arith, elem-group_edges xs (pair_of t) t, related-edge t xs, beq_refl (pair_of t)))
