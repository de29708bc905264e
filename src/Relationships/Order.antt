-- ===== src/Relationships/Order.antt =====
-- Relationship resolution and the order of its two inputs.
use mathlib.Core.List.{Perm, Permᴰ}
use mathlib.Core.Logic.{∥∥₁_elim}
use mathlib.Core.Path.{fun_ext}
use native.Mathlib.Decide.{ℕ_discrete}
use network_mapper.Prelude.{
  ◌≡◌, sym, ap, ap₂, ◌∙◌, Bool, List, map, select, All, All-weaken, length, arith, ◌&&◌, not,
}
use network_mapper.Prelude.Text.{Text}
use network_mapper.Prelude.Ord.{nat_ord, list_ord, triple_ord, triple_eq, triple_le}
use network_mapper.Prelude.Eq.{nat_eq, list_eq, pair_eq, ◌==◌}
use network_mapper.Prelude.Sort.{sort, sort_by-permᴰ}
use network_mapper.Prelude.Group.{
  of_key, group_keys, All-of_key, group_keys-IsDistinct, elem-group_keys,
}
use network_mapper.Prelude.Sets.{to_set, to_set-IsDistinct, elem-to_set}
use network_mapper.Prelude.Unions.{more_than_one}
use network_mapper.Prelude.Reorder.{
  All-trivial, filter_map-permᴰ, select-permᴰ, elem-map-permᴰ, sort_distinct,
}
use network_mapper.Observations.{
  RelationshipObservation, Observation, as_relationship, relationship_observations,
}
use network_mapper.Identity.{CanonicalIdentity}
use network_mapper.Relationships.{
  Cardinality, Policy, cardinality_for, CanonicalRelationship, Result, ok,
  edge_observation_sort_key, observation_source, edge_record, group_conflict, is_single,
  is_resolvable, preprocess, group_key, resolve,
}
use network_mapper.Relationships.Edges.{OfEdge}
use network_mapper.Relationships.Canonical.{Edge, related, of_group, edge_of, edges, resolve-edges}
use network_mapper.Relationships.Keys.{edge_key, edges-IsDistinct, elem-edges}

-- Among the observations of one edge the sort key determines the observation.
key_determines :
    (s c r : Text) (a b : RelationshipObservation)
    → OfEdge s c r a
    → OfEdge s c r b
    → edge_observation_sort_key a ≡ edge_observation_sort_key b
    → a ≡ b
key_determines s c r a b ca cb e = ground arith

edge_record-permᴰ :
    (s c r : Text) (k : Cardinality) (n m : Bool) {xs ys : List RelationshipObservation}
    → Permᴰ xs ys
    → All (OfEdge s c r) xs
    → n ≡ m
    → edge_record s c k n r xs ≡ edge_record s c k m r ys
edge_record-permᴰ s c r k n m {xs} {ys} p a h =
    let sources =
      more_than_one (to_set (map observation_source xs)) (to_set (map observation_source ys))
        (to_set-IsDistinct _) (to_set-IsDistinct _)
        (λ w.
          elem-to_set w (map observation_source xs)
          ∙ elem-map-permᴰ observation_source w p
          ∙ sym (elem-to_set w (map observation_source ys))) in
    ground (
      arith,
      h,
      sources,
      sort_by-permᴰ edge_observation_sort_key (OfEdge s c r) (key_determines s c r) p a,
    )

conflict-permᴰ :
    (k : Cardinality) {xs ys : List RelationshipObservation}
    → Permᴰ xs ys
    → group_conflict k (length (group_keys related xs))
      ≡ group_conflict k (length (group_keys related ys))
conflict-permᴰ k {xs} {ys} p =
    ap (λ b. is_single k && b)
      (more_than_one (group_keys related xs) (group_keys related ys)
        (group_keys-IsDistinct related xs) (group_keys-IsDistinct related ys)
        (λ r.
          elem-group_keys related r xs
          ∙ elem-map-permᴰ related r p
          ∙ sym (elem-group_keys related r ys)))

All-OfEdge :
    (s c r : Text) (xs : List RelationshipObservation)
    → All (OfEdge s c r) (of_key related r (of_group (s, c) xs))
All-OfEdge s c r xs =
    All-weaken _ (OfEdge s c r) _ (λ o h. ground arith)
      (All-of_key related _ r _ (All-of_key group_key (λ _. Unit {0}) (s, c) xs (All-trivial xs)))

edge_of-permᴰ :
    (policy : Policy) {xs ys : List RelationshipObservation}
    → Permᴰ xs ys
    → (e : Edge) → edge_of policy xs e ≡ edge_of policy ys e
edge_of-permᴰ policy {xs} {ys} p (s, c, r) =
    let q = select-permᴰ (λ o. group_key o == (s, c)) p in
    edge_record-permᴰ s c r (cardinality_for c policy) _ _ (select-permᴰ (λ o. related o == r) q)
      (All-OfEdge s c r xs) (conflict-permᴰ (cardinality_for c policy) q)

-- The records of all edges, by the preprocessed observations.
abbrev records : Policy → List RelationshipObservation → List CanonicalRelationship
records policy xs = map (edge_of policy xs) (sort triple_le (edges xs))

records-permᴰ :
    (policy : Policy) {xs ys : List RelationshipObservation}
    → Permᴰ xs ys
    → records policy xs ≡ records policy ys
records-permᴰ policy {xs} {ys} p =
    ap (λ f. map f (sort triple_le (edges xs))) (fun_ext (edge_of-permᴰ policy p))
    ∙ ap (map (edge_of policy ys)) (
        sort_distinct (edges xs) (edges ys) (edges-IsDistinct xs) (edges-IsDistinct ys)
          (λ e. elem-edges e xs ∙ elem-map-permᴰ edge_key e p ∙ sym (elem-edges e ys)))

-- Whether an endpoint resolves does not depend on the order of the identities.
is_resolvable-permᴰ :
    {ids jds : List CanonicalIdentity} → Permᴰ ids jds → is_resolvable ids ≡ is_resolvable jds
is_resolvable-permᴰ p = fun_ext (λ o.
    ap₂ (λ a b. a && b && not (o.subject == o.related_subject))
      (elem-map-permᴰ (λ i. i.subject) o.subject p)
      (elem-map-permᴰ (λ i. i.subject) o.related_subject p))

preprocess-identities :
    (os : List Observation) {ids jds : List CanonicalIdentity}
    → Permᴰ ids jds
    → preprocess os ids ≡ preprocess os jds
unfolding preprocess
preprocess-identities os q =
    ap (λ f. select f (relationship_observations os)) (is_resolvable-permᴰ q)

preprocess-permᴰ :
    {os ps : List Observation} (ids : List CanonicalIdentity)
    → Permᴰ os ps
    → Permᴰ (preprocess os ids) (preprocess ps ids)
unfolding preprocess
preprocess-permᴰ ids p = select-permᴰ (is_resolvable ids) (filter_map-permᴰ as_relationship p)

resolve-permᴰ :
    (policy : Policy) {os ps : List Observation} {ids jds : List CanonicalIdentity}
    → Permᴰ os ps
    → Permᴰ ids jds
    → resolve policy os ids ≡ resolve policy ps jds
resolve-permᴰ policy {os} {ps} {ids} {jds} p q =
    resolve-edges policy os ids
    ∙ ap ok (
        ap (records policy) (preprocess-identities os q)
        ∙ records-permᴰ policy (preprocess-permᴰ jds p))
    ∙ sym (resolve-edges policy ps jds)

relationships-set : IsSet (Result (List CanonicalRelationship))
relationships-set = hlevel ℕ_discrete

-- Relationship resolution returns the same result for every order of the same observations and
-- of the same identities.
pub resolve_relationships-perm :
    (policy : Policy) (os ps : List Observation) (ids jds : List CanonicalIdentity)
    → Perm os ps
    → Perm ids jds
    → resolve policy os ids ≡ resolve policy ps jds
resolve_relationships-perm policy os ps ids jds p q =
    ∥∥₁_elim p (relationships-set _ _)
      (λ r. ∥∥₁_elim q (relationships-set _ _) (resolve-permᴰ policy r))
