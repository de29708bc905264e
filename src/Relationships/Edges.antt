-- ===== src/Relationships/Edges.antt =====
-- The records that `resolve` builds, and the three checks of their constructor.
use network_mapper.Prelude.{
  ℕ, ◌<◌, ◌≡◌, refl, sym, ◌∙◌, Bool, false, not, ◌&&◌, List, [], ◌∷◌, map, any, length, concat, All,
  All-weaken, arith,
}
use network_mapper.Prelude.Text.{Text}
use network_mapper.Prelude.Ord.{nat_ord, list_ord, triple_ord}
use network_mapper.Prelude.Eq.{nat_eq, list_eq, pair_eq, beq_of_eq}
use network_mapper.Prelude.Sort.{sort_by, All-sort, insert, sort}
use network_mapper.Prelude.Group.{group, IsFilled, group-nonempty, group-keyed}
use network_mapper.Prelude.Reorder.{All-trivial}
use network_mapper.Observations.{RelationshipObservation, Observation}
use network_mapper.Identity.{CanonicalIdentity}
use network_mapper.Relationships.{
  Cardinality, Policy, cardinality_for, CanonicalRelationship, ok, is_empty, is_single,
  is_conflicting, is_foreign, construct, edge_state, edge_record, resolve_edges, group_conflict,
  resolve_group, resolve_groups, preprocess, group_key, relationship_key, resolve,
}

-- An observation of one edge.
abbrev pub OfEdge : Text → Text → Text → RelationshipObservation → Type 0
OfEdge s c r o = (o.subject ≡ s) × (o.category ≡ c) × (o.related_subject ≡ r)

not_foreign :
    (s c r : Text) (rec : CanonicalRelationship) (os : List RelationshipObservation)
    → rec.subject ≡ s
    → rec.category ≡ c
    → rec.related_subject ≡ r
    → All (OfEdge s c r) os
    → any (is_foreign rec) os ≡ false
not_foreign s c r rec [] p q t a = refl
not_foreign s c r rec (o ∷ os) p q t a = ground (
  arith,
  not_foreign s c r rec os p q t a.1,
  beq_of_eq o.subject rec.subject (a.0.0 ∙ sym p),
  beq_of_eq o.category rec.category (a.0.1 ∙ sym q),
  beq_of_eq o.related_subject rec.related_subject (a.0.2 ∙ sym t),
)

insert-filled :
    (le : RelationshipObservation → RelationshipObservation → Bool) (o : RelationshipObservation)
    (os : List RelationshipObservation)
    → is_empty (insert le o os) ≡ false
unfolding insert
insert-filled le o [] = refl
insert-filled le o (p ∷ os) = ground arith

sort-filled :
    (le : RelationshipObservation → RelationshipObservation → Bool)
    (os : List RelationshipObservation)
    → 0 < length os
    → is_empty (sort le os) ≡ false
unfolding sort insert
sort-filled le [] h = absurd (omega arith)
sort-filled le (o ∷ os) h = insert-filled le o (sort le os)

construct_lem :
    (r : CanonicalRelationship)
    → (is_conflicting r.state && not (is_single r.cardinality)) ≡ false
    → is_empty r.observations ≡ false
    → any (is_foreign r) r.observations ≡ false
    → construct r ≡ ok r
unfolding construct
construct_lem r h k l = rw h (rw k (rw l))

-- The resolver marks a conflict in a single-valued category only.
conflict-single :
    (k : Cardinality) (n m : ℕ)
    → (is_conflicting (edge_state (group_conflict k n) m) && not (is_single k)) ≡ false
conflict-single k n m = ground arith

-- A record of a group's edge passes the checks.
construct-edge_record :
    (s c r : Text) (k : Cardinality) (n : ℕ) (os : List RelationshipObservation)
    → 0 < length os
    → All (OfEdge s c r) os
    → construct (edge_record s c k (group_conflict k n) r os)
      ≡ ok (edge_record s c k (group_conflict k n) r os)
unfolding construct
construct-edge_record s c r k n os h a =
    construct_lem (edge_record s c k (group_conflict k n) r os) (conflict-single k n _)
      (sort-filled _ os h)
      (not_foreign s c r (edge_record s c k (group_conflict k n) r os) _ refl refl refl
        (All-sort _ (OfEdge s c r) os a))

-- The records of a group, with no check.
abbrev pub group_records :
    Policy → Text → Text → List RelationshipObservation → List CanonicalRelationship
group_records policy s c os =
    let k = cardinality_for c policy in
    let edges = group (λ (o : RelationshipObservation). o.related_subject) os in
    map (λ p. edge_record s c k (group_conflict k (length edges)) p.0 p.1) edges

resolve_edges-ok :
    (s c : Text) (k : Cardinality) (n : ℕ) (edges : List (Text × List RelationshipObservation))
    → All IsFilled edges
    → All (λ p. All (OfEdge s c p.0) p.1) edges
    → resolve_edges s c k (group_conflict k n) edges
      ≡ ok (map (λ p. edge_record s c k (group_conflict k n) p.0 p.1) edges)
unfolding resolve_edges
resolve_edges-ok s c k n [] f a = refl
resolve_edges-ok s c k n ((r, os) ∷ edges) f a =
    rw (construct-edge_record s c r k n os f.0 a.0) (rw (resolve_edges-ok s c k n edges f.1 a.1))

resolve_group-ok :
    (policy : Policy) (s c : Text) (os : List RelationshipObservation)
    → All (λ o. (o.subject ≡ s) × (o.category ≡ c)) os
    → resolve_group policy s c os ≡ ok (group_records policy s c os)
unfolding resolve_group
resolve_group-ok policy s c os a =
    resolve_edges-ok s c (cardinality_for c policy) _ _
      (group-nonempty (λ (o : RelationshipObservation). o.related_subject) os)
      (All-weaken _ (λ p. All (OfEdge s c p.0) p.1) _
        (λ p. All-weaken _ (OfEdge s c p.0) p.1 (λ o h. (h.0.0, h.0.1, h.1)))
        (group-keyed (λ (o : RelationshipObservation). o.related_subject) _ os a))

-- The records of all groups.
abbrev pub all_records :
    Policy → List ((Text × Text) × List RelationshipObservation) → List CanonicalRelationship
all_records policy groups = concat (map (λ p. group_records policy p.0.0 p.0.1 p.1) groups)

resolve_groups-ok :
    (policy : Policy) (groups : List ((Text × Text) × List RelationshipObservation))
    → All (λ p. All (λ o. group_key o ≡ p.0) p.1) groups
    → resolve_groups policy groups ≡ ok (all_records policy groups)
unfolding resolve_groups
resolve_groups-ok policy [] a = refl
resolve_groups-ok policy (((s, c), os) ∷ groups) a =
    rw
      (resolve_group-ok policy s c os
        (All-weaken _ (λ o. (o.subject ≡ s) × (o.category ≡ c)) os (λ o h. ground arith) a.0))
      (rw (resolve_groups-ok policy groups a.1))

-- Relationship resolution never raises. It returns the records of all edges, sorted.
pub resolve-ok :
    (policy : Policy) (os : List Observation) (ids : List CanonicalIdentity)
    → resolve policy os ids
      ≡ ok (sort_by relationship_key (all_records policy (group group_key (preprocess os ids))))
unfolding resolve
resolve-ok policy os ids = rw (
    resolve_groups-ok policy (group group_key (preprocess os ids)) (
      All-weaken _ (λ p. All (λ o. group_key o ≡ p.0) p.1) _
        (λ p. All-weaken _ (λ o. group_key o ≡ p.0) p.1 (λ o h. h.1))
        (group-keyed group_key (λ _. Unit {0}) (preprocess os ids) (All-trivial _))))
