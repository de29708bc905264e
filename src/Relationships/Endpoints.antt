-- ===== src/Relationships/Endpoints.antt =====
-- The endpoints of a relationship.
use network_mapper.Prelude.{
  ◌≡◌, ◌≢◌, sym, ◌∙◌, subst, true, List, [], ◌∷◌, map, All, All-select, arith, Bool-cases, inl, inr,
}
use network_mapper.Prelude.Ord.{nat_ord, list_ord, triple_ord, triple_eq, triple_le}
use network_mapper.Prelude.Eq.{
  Eq, nat_eq, list_eq, pair_eq, ◌==◌, elem, beq_refl, beq_of_eq, eq_of_beq,
}
use network_mapper.Prelude.Sort.{sort}
use network_mapper.Prelude.Reorder.{elem-sort}
use network_mapper.Observations.{RelationshipObservation, Observation, relationship_observations}
use network_mapper.Identity.{CanonicalIdentity}
use network_mapper.Relationships.{
  Policy, CanonicalRelationship, ok, is_resolvable, preprocess, relationship_key, resolve,
}
use network_mapper.Relationships.Evidence.{ok-injective}
use network_mapper.Relationships.Canonical.{Edge, edge_of, edges, resolve-edges}
use network_mapper.Relationships.Keys.{edge_key, elem-edges}

-- A property of all members is a property of each element.
All-elem {ℓ} :
    {K : Type ℓ} ⦃e : Eq K⦄ (P : K → Type 0) (all ks : List K)
    → ((k : K) → elem k all ≡ true → P k)
    → ((k : K) → elem k ks ≡ true → elem k all ≡ true)
    → All P ks
All-elem P all [] h sub = tt
All-elem P all (k ∷ ks) h sub =
    (h k (sub k (ground (arith, beq_refl k))), All-elem P all ks h (λ j m. sub j (ground arith)))

-- Both endpoints of the edge are subjects of identities, and they differ.
pub record Connects (ids : List CanonicalIdentity) (e : Edge) : Type 0 where
  pub from : elem e.0 (map (λ i. i.subject) ids) ≡ true
  pub to : elem e.2 (map (λ i. i.subject) ids) ≡ true
  pub distinct : e.0 ≢ e.2

is_resolvable-Connects :
    (ids : List CanonicalIdentity) (o : RelationshipObservation)
    → is_resolvable ids o ≡ true
    → Connects ids (edge_key o)
is_resolvable-Connects ids o h = record {
  from = ground arith;
  to = ground arith;
  distinct = λ p. ground (arith, beq_of_eq o.subject o.related_subject p);
}

edge-Connects :
    (ids : List CanonicalIdentity) (e : Edge) (xs : List RelationshipObservation)
    → All (λ o. is_resolvable ids o ≡ true) xs
    → elem e (map edge_key xs) ≡ true
    → Connects ids e
edge-Connects ids e [] a m = cc
edge-Connects ids e (x ∷ xs) a m = elim (Bool-cases (edge_key x == e)) [
  | inl p ↦ subst (Connects ids) (eq_of_beq (edge_key x) e p) (is_resolvable-Connects ids x a.0)
  | inr p ↦ edge-Connects ids e xs a.1 (ground arith)
]

All-map_of {ℓ κ μ} :
    {A : Type ℓ} {B : Type κ} (P : B → Type μ) (f : A → B) (xs : List A)
    → All (λ a. P (f a)) xs
    → All P (map f xs)
All-map_of P f [] a = tt
All-map_of P f (x ∷ xs) a = (a.0, All-map_of P f xs a.1)

-- When a run returns records, each of them connects two different subjects that both have a resolved
-- identity.
pub resolve_relationships-Connects :
    (policy : Policy) (os : List Observation) (ids : List CanonicalIdentity)
    (rs : List CanonicalRelationship)
    → resolve policy os ids ≡ ok rs
    → All (λ r. Connects ids (relationship_key r)) rs
unfolding preprocess
resolve_relationships-Connects policy os ids rs h =
    let xs = preprocess os ids in
    let es = edges xs in
    subst (All (λ r. Connects ids (relationship_key r)))
      (ok-injective _ rs (sym (resolve-edges policy os ids) ∙ h))
      (All-map_of (λ r. Connects ids (relationship_key r)) (edge_of policy xs) (sort triple_le es)
        (All-elem (Connects ids) es (sort triple_le es)
          (λ e m.
            edge-Connects ids e xs (All-select (is_resolvable ids) (relationship_observations os))
              (sym (elem-edges e xs) ∙ m))
          (λ e m. sym (elem-sort triple_le e es) ∙ m)))
