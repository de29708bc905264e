-- ===== src/Presentation/Edges.antt =====
-- networkmapper/reporting/canonical_presentation.py: the edges of the grouped relationships.
use mathlib.Core.List.{Perm}
use network_mapper.Prelude.{
  ◌≡◌, refl, sym, ap, ap₂, subst, ◌∙◌, inl, inr, true, some, List, [], ◌∷◌, ◌++◌, map, arith, All,
  Option-cases, concat, some_injective,
}
use network_mapper.Graph.{NetworkGraph}
use network_mapper.Prelude.Decimal.{int_eq}
use network_mapper.Prelude.Eq.{beq_refl, elem, eq_of_beq, list_eq, nat_eq, option_eq, pair_eq}
use network_mapper.Prelude.Group.{group, group-keyed}
use network_mapper.Prelude.Partition.{group-perm}
use network_mapper.Prelude.Reorder.{All-trivial}
use network_mapper.Prelude.Sets.{elem-to_set, to_set}
use network_mapper.Prelude.Split.{traverse}
use network_mapper.Prelude.Text.{Text}
use network_mapper.Presentation.{
  RelationshipPresentation, cardinality_eq, edge_group, present_group, present_relationship_group,
  present_relationships, related_entry, with_cardinalities,
}
use network_mapper.Relationships.{CanonicalRelationship, Cardinality}
use network_mapper.Snmp.Rows.{rem_key_eq}

-- The edges that a group presents.
abbrev pub edges_of : RelationshipPresentation → List CanonicalRelationship
edges_of p =
    map
      (λ r. record {
        subject = p.subject;
        category = p.category;
        related_subject = r.related_subject;
        cardinality = p.cardinality;
        state = r.state;
        observations = r.observations;
      })
      p.related

-- The edges of one group, with one cardinality.
abbrev pub AreOf : Text → Text → Cardinality → List CanonicalRelationship → Type 0
AreOf subject category cardinality edges =
    All (λ e. (e.subject ≡ subject) × (e.category ≡ category) × (e.cardinality ≡ cardinality)) edges

related-edges :
    (graph : NetworkGraph) (subject category : Text) (cardinality : Cardinality)
    (edges : List CanonicalRelationship)
    → AreOf subject category cardinality edges
    → map
        (λ r. record {
          subject = subject;
          category = category;
          related_subject = r.related_subject;
          cardinality = cardinality;
          state = r.state;
          observations = r.observations;
        })
        (map (related_entry graph) edges)
      ≡ edges
related-edges graph subject category cardinality [] h = refl
related-edges graph subject category cardinality (e ∷ edges) h =
    ap₂ (λ x xs. x ∷ xs)
      (ap₂
        (λ s (k : Text × Cardinality). record {
          subject = s;
          category = k.0;
          related_subject = e.related_subject;
          cardinality = k.1;
          state = e.state;
          observations = e.observations;
        })
        (sym h.0.0) (ap₂ (λ c d. (c, d)) (sym h.0.1) (sym h.0.2)))
      (related-edges graph subject category cardinality edges h.1)

-- The one cardinality of a set is that of each of the edges.
of_sole :
    (cardinality : Cardinality) (edges : List CanonicalRelationship)
    → ((c : Cardinality) → elem c (map (λ e. e.cardinality) edges) ≡ true → c ≡ cardinality)
    → All (λ e. e.cardinality ≡ cardinality) edges
of_sole cardinality [] h = tt
of_sole cardinality (e ∷ edges) h = (
  h e.cardinality (ground (arith, beq_refl e.cardinality)),
  of_sole cardinality edges (λ c k. h c (ground (arith, k))),
)

-- The edges of a group have its key.
abbrev pub AreKeyed : Text → Text → List CanonicalRelationship → Type 0
AreKeyed subject category edges = All (λ e. Unit {0} × (edge_group e ≡ (subject, category))) edges

with_key :
    (subject category : Text) (cardinality : Cardinality) (edges : List CanonicalRelationship)
    → AreKeyed subject category edges
    → All (λ e. e.cardinality ≡ cardinality) edges
    → AreOf subject category cardinality edges
with_key subject category cardinality [] k h = tt
with_key subject category cardinality (e ∷ edges) k h = (
  (ap (λ p. p.0) k.0.1, ap (λ p. p.1) k.0.1, h.0),
  with_key subject category cardinality edges k.1 h.1,
)

with_cardinalities-edges :
    (graph : NetworkGraph) (subject category : Text) (edges : List CanonicalRelationship)
    (cardinalities : List Cardinality) (p : RelationshipPresentation)
    → ((c : Cardinality) → elem c (map (λ e. e.cardinality) edges) ≡ elem c cardinalities)
    → AreKeyed subject category edges
    → with_cardinalities graph subject category edges cardinalities ≡ some p
    → edges_of p ≡ edges
with_cardinalities-edges graph subject category edges [] p same keyed h = absurd (ground arith)
with_cardinalities-edges graph subject category edges (c ∷ d ∷ more) p same keyed h =
    absurd (ground arith)
with_cardinalities-edges graph subject category edges (c ∷ []) p same keyed h =
    ap edges_of (sym (some_injective h))
    ∙ related-edges graph subject category c edges (
        with_key subject category c edges keyed
          (of_sole c edges (λ d k. sym (eq_of_beq c d (ground (arith, same d, k))))))

present_group-edges :
    (graph : NetworkGraph) (g : (Text × Text) × List CanonicalRelationship)
    (p : RelationshipPresentation)
    → AreKeyed g.0.0 g.0.1 g.1
    → present_group graph g ≡ some p
    → edges_of p ≡ g.1
unfolding present_group present_relationship_group
present_group-edges graph ((subject, category), edges) p keyed h =
    with_cardinalities-edges graph subject category edges (to_set (map (λ e. e.cardinality) edges))
      p (λ c. sym (elem-to_set c (map (λ e. e.cardinality) edges))) keyed h

-- The groups presented have the edges of the groups given.
groups-edges :
    (graph : NetworkGraph) (groups : List ((Text × Text) × List CanonicalRelationship))
    (ps : List RelationshipPresentation)
    → All (λ g. AreKeyed g.0.0 g.0.1 g.1) groups
    → traverse (present_group graph) groups ≡ some ps
    → concat (map edges_of ps) ≡ concat (map (λ g. g.1) groups)
groups-edges graph [] ps k h = ap (λ qs. concat (map edges_of qs)) (sym (some_injective h))
groups-edges graph (g ∷ groups) ps k h = elim (Option-cases (present_group graph g)) [
  | inl e ↦ absurd (ground arith)
  | inr (p, e) ↦ elim (Option-cases (traverse (present_group graph) groups)) [
    | inl f ↦ absurd (ground arith)
    | inr (qs, f) ↦
        ap (λ rs. concat (map edges_of rs))
          (sym (some_injective {x = p ∷ qs} {y = ps} (ground arith)))
        ∙ ap₂ (λ xs ys. xs ++ ys) (present_group-edges graph g p k.0 e)
            (groups-edges graph groups qs k.1 f)
  ]
]

-- When relationships are presented, the edges of the groups presented are the relationships given, each
-- as often as given, with its own state, cardinality and observations.
pub present_relationships-edges :
    (graph : NetworkGraph) (relationships : List CanonicalRelationship)
    (ps : List RelationshipPresentation)
    → present_relationships graph relationships ≡ some ps
    → Perm (concat (map edges_of ps)) relationships
unfolding present_relationships
present_relationships-edges graph relationships ps h =
    subst (λ es. Perm es relationships)
      (sym (
        groups-edges graph (group edge_group relationships) ps
          (group-keyed edge_group (λ e. Unit {0}) relationships (All-trivial relationships)) h))
      (group-perm edge_group relationships)
