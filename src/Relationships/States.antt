-- ===== src/Relationships/States.antt =====
-- What the corroboration state of a relationship says about the observations.
use mathlib.Core.Logic.Iff
use network_mapper.Prelude.{
  ℕ, ◌≤◌, ◌≡◌, ◌≢◌, ◌↔◌, ◌⊎◌, inl, inr, sym, ◌∙◌, subst, List, map, length, arith, All, All-map,
  All-weaken,
}
use network_mapper.Prelude.Text.{Text}
use network_mapper.Prelude.Ord.{nat_ord, list_ord, triple_le}
use network_mapper.Prelude.Eq.{nat_eq, list_eq, pair_eq}
use network_mapper.Prelude.Sort.{sort}
use network_mapper.Prelude.Group.{of_key, group_keys, elem-group_keys, group_keys-IsDistinct}
use network_mapper.Prelude.Sets.{AreEqual, to_set, to_set-le_one, length-le_one}
use network_mapper.Prelude.Unions.{AreEqual-members}
use network_mapper.Observations.{RelationshipObservation, Observation}
use network_mapper.Identity.{CanonicalIdentity}
use network_mapper.Relationships.{
  Cardinality, Policy, State, CanonicalRelationship, ok, cardinality_for, edge_state,
  group_conflict, observation_source, preprocess, resolve, category_cardinality,
}
use network_mapper.Relationships.Evidence.{ok-injective}
use network_mapper.Relationships.Canonical.{Edge, related, of_group, edge_of, edges, resolve-edges}

module _ (k : Cardinality) (n m : ℕ) where
  edge_state-ne-conflicting :
      (edge_state (group_conflict k n) m ≢ State.conflicting)
      ↔ ((k ≡ Cardinality.multiple) ⊎ (n ≤ 1))
  edge_state-ne-conflicting = (λ h. ground arith, λ h. ground arith)

  edge_state-confirmed :
      (edge_state (group_conflict k n) m ≡ State.confirmed)
      ↔ (((k ≡ Cardinality.multiple) ⊎ (n ≤ 1)) × (2 ≤ m))
  edge_state-confirmed = (λ h. ground arith, λ h. ground arith)

  edge_state-weak :
      (edge_state (group_conflict k n) m ≡ State.weak)
      ↔ (((k ≡ Cardinality.multiple) ⊎ (n ≤ 1)) × (m ≤ 1))
  edge_state-weak = (λ h. ground arith, λ h. ground arith)

-- What a record of the output says, given the preprocessed observations `xs`.
pub record IsExact (policy : Policy) (xs : List RelationshipObservation) (r : CanonicalRelationship)
    : Type 0 where
  -- of one related subject, or in a multi-valued category
  pub not_conflicting : (r.state ≢ State.conflicting) ↔ (
      (cardinality_for r.category policy ≡ Cardinality.multiple)
      ⊎ AreEqual (map related (of_group (r.subject, r.category) xs)))
  -- not conflicting, and from more than one source
  pub confirmed : (r.state ≡ State.confirmed) ↔ (
      (r.state ≢ State.conflicting)
      × ¬ AreEqual (
          map observation_source
            (of_key related r.related_subject (of_group (r.subject, r.category) xs))))
  -- not conflicting, and from one source
  pub weak : (r.state ≡ State.weak) ↔ (
      (r.state ≢ State.conflicting)
      × AreEqual (
          map observation_source
            (of_key related r.related_subject (of_group (r.subject, r.category) xs))))

related_le_one :
    (ys : List RelationshipObservation)
    → (length (group_keys related ys) ≤ 1) ↔ AreEqual (map related ys)
related_le_one ys =
    Iff.trans (length-le_one _ (group_keys-IsDistinct related ys))
      (AreEqual-members _ _ (λ r. elem-group_keys related r ys))

two_le : (m : ℕ) → ¬ (m ≤ 1) → 2 ≤ m
two_le m h = omega arith

edge_of-IsExact :
    (policy : Policy) (xs : List RelationshipObservation) (e : Edge)
    → IsExact policy xs (edge_of policy xs e)
edge_of-IsExact policy xs (s, c, r) =
    let k = cardinality_for c policy in
    let ys = of_group (s, c) xs in
    let n = length (group_keys related ys) in
    let zs = of_key related r ys in
    let m = length (to_set (map observation_source zs)) in
    let sources = to_set-le_one (map observation_source zs) in
    let calm = edge_state-ne-conflicting k n m in
    record {
      not_conflicting = Iff.trans calm (
        λ h. elim h [ inl p ↦ inl p | inr p ↦ inr ((related_le_one ys).0 p) ],
        λ h. elim h [ inl p ↦ inl p | inr p ↦ inr ((related_le_one ys).1 p) ],
      );
      confirmed = Iff.trans (edge_state-confirmed k n m) (
        λ h. (calm.1 h.0, λ a. omega (arith, h.1, sources.1 a)),
        λ h. (calm.0 h.0, two_le m (λ small. h.1 (sources.0 small))),
      );
      weak =
          Iff.trans (edge_state-weak k n m)
            (λ h. (calm.1 h.0, sources.0 h.1), λ h. (calm.0 h.0, sources.1 h.1));
    }

-- When a run returns records, the state of each is exact: it conflicts exactly if the category is
-- single-valued and the record's group has two related subjects, and otherwise it is confirmed
-- exactly if its edge has two independent sources, and weak if not.
pub resolve_relationships-IsExact :
    (policy : Policy) (os : List Observation) (ids : List CanonicalIdentity)
    (rs : List CanonicalRelationship)
    → resolve policy os ids ≡ ok rs
    → All (IsExact policy (preprocess os ids)) rs
resolve_relationships-IsExact policy os ids rs h =
    let xs = preprocess os ids in
    subst (All (IsExact policy xs)) (ok-injective _ rs (sym (resolve-edges policy os ids) ∙ h)) (
      All-map (IsExact policy xs) (edge_of policy xs) (sort triple_le (edges xs))
        (edge_of-IsExact policy xs))

-- Under the production policy no category is single-valued.
production_multiple : (c : Text) → cardinality_for c category_cardinality ≡ Cardinality.multiple
unfolding cardinality_for
production_multiple c = ground arith

-- When a run under the production policy `CATEGORY_CARDINALITY` returns records, none of them has the
-- state `CONFLICTING`.
pub production-ne-conflicting :
    (os : List Observation) (ids : List CanonicalIdentity) (rs : List CanonicalRelationship)
    → resolve category_cardinality os ids ≡ ok rs
    → All (λ r. r.state ≢ State.conflicting) rs
production-ne-conflicting os ids rs h =
    All-weaken (IsExact category_cardinality (preprocess os ids)) _ rs
      (λ r exact. exact.not_conflicting.1 (inl (production_multiple r.category)))
      (resolve_relationships-IsExact category_cardinality os ids rs h)
