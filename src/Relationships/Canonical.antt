-- ===== src/Relationships/Canonical.antt =====
-- The resolver's output in closed form: the record of each distinct edge, in the order of the
-- edges. Each record is a function of the edge and of the preprocessed observations.
use mathlib.Core.List.{map-append}
use network_mapper.Prelude.{
  ◌≡◌, refl, sym, ap, ◌∙◌, List, [], ◌∷◌, ◌++◌, map, length, concat, map-map,
}
use mathlib.Core.Path.{fun_ext}
use network_mapper.Prelude.Text.{Text}
use network_mapper.Prelude.Ord.{nat_ord, list_ord, triple_ord, triple_eq, triple_le}
use network_mapper.Prelude.Eq.{nat_eq, list_eq, pair_eq}
use network_mapper.Prelude.Sort.{sort_by, sort, sort_by-map}
use network_mapper.Prelude.Group.{group, of_key, group_keys, group-entries, length-group}
use network_mapper.Observations.{RelationshipObservation, Observation}
use network_mapper.Identity.{CanonicalIdentity}
use network_mapper.Relationships.{
  Policy, cardinality_for, CanonicalRelationship, ok, edge_record, group_conflict, preprocess,
  group_key, relationship_key, resolve,
}
use network_mapper.Relationships.Edges.{group_records, all_records, resolve-ok}

abbrev pub Edge : Type 0
Edge = Text × Text × Text

abbrev pub related : RelationshipObservation → Text
related o = o.related_subject

-- The observations of one `(subject, category)`.
abbrev pub of_group : Text × Text → List RelationshipObservation → List RelationshipObservation
of_group k xs = of_key group_key k xs

-- The record of an edge.
abbrev pub edge_of : Policy → List RelationshipObservation → Edge → CanonicalRelationship
edge_of policy xs (s, c, r) =
    let k = cardinality_for c policy in
    let ys = of_group (s, c) xs in
    edge_record s c k (group_conflict k (length (group_keys related ys))) r (of_key related r ys)

unfoldable pub group_edges : List RelationshipObservation → Text × Text → List Edge
group_edges xs k = map (λ r. (k.0, k.1, r)) (group_keys related (of_group k xs))

-- The edges in the order in which the resolver meets them.
unfoldable pub edges : List RelationshipObservation → List Edge
unfolding group_edges
edges xs = concat (map (group_edges xs) (group_keys group_key xs))

group_records-edges :
    (policy : Policy) (xs : List RelationshipObservation) (k : Text × Text)
    → group_records policy k.0 k.1 (of_group k xs) ≡ map (edge_of policy xs) (group_edges xs k)
unfolding group_edges
group_records-edges policy xs k =
    let ys = of_group k xs in
    let c = cardinality_for k.1 policy in
    ap (λ n. map (λ p. edge_record k.0 k.1 c (group_conflict c n) p.0 p.1) (group related ys))
      (length-group related ys)
    ∙ ap (map _) (group-entries related ys)
    ∙ map-map _ _ (group_keys related ys)
    ∙ sym (map-map (edge_of policy xs) (λ r. (k.0, k.1, r)) (group_keys related ys))

map-concat {ℓ κ} :
    {A : Type ℓ} {B : Type κ} (f : A → B) (xss : List (List A))
    → map f (concat xss) ≡ concat (map (map f) xss)
map-concat f [] = refl
map-concat f (xs ∷ xss) =
    map-append f xs (concat xss) ∙ ap (λ ys. map f xs ++ ys) (map-concat f xss)

all_records-edges :
    (policy : Policy) (xs : List RelationshipObservation)
    → all_records policy (group group_key xs) ≡ map (edge_of policy xs) (edges xs)
unfolding edges
all_records-edges policy xs =
    ap (all_records policy) (group-entries group_key xs)
    ∙ ap concat (map-map _ _ (group_keys group_key xs))
    ∙ ap (λ f. concat (map f (group_keys group_key xs))) (fun_ext (group_records-edges policy xs))
    ∙ ap concat (sym (map-map (map (edge_of policy xs)) (group_edges xs) (group_keys group_key xs)))
    ∙ sym (map-concat (edge_of policy xs) (map (group_edges xs) (group_keys group_key xs)))

-- The resolver returns the record of each edge, in the order of the edges.
pub resolve-edges :
    (policy : Policy) (os : List Observation) (ids : List CanonicalIdentity)
    → resolve policy os ids
      ≡ ok (map (edge_of policy (preprocess os ids)) (sort triple_le (edges (preprocess os ids))))
resolve-edges policy os ids =
    resolve-ok policy os ids
    ∙ ap ok (
        ap (sort_by relationship_key) (all_records-edges policy (preprocess os ids))
        ∙ sort_by-map relationship_key (edge_of policy (preprocess os ids)) (λ e. refl)
            (edges (preprocess os ids)))
