-- ===== src/Relationships/Evidence.antt =====
-- The edges and the observations of the records that relationship resolution returns.
use mathlib.Core.List.{Perm, map-append, append_assoc}
use mathlib.Core.List.Perm
use network_mapper.Prelude.{
  ◌≡◌, refl, sym, ap, ◌∙◌, subst, List, [], ◌∷◌, ◌++◌, map, concat, map-map,
}
use network_mapper.Prelude.Text.{Text}
use network_mapper.Prelude.Ord.{nat_ord, list_ord, triple_ord, triple_eq, triple_le}
use network_mapper.Prelude.Eq.{nat_eq, list_eq, pair_eq, elem}
use network_mapper.Prelude.Sort.{sort, sort-perm, sort_by-IsSorted, IsSorted}
use network_mapper.Prelude.Group.{group, IsDistinct}
use network_mapper.Prelude.Reorder.{elem-sort, sort-IsDistinct}
use network_mapper.Prelude.Partition.{concat-perm, concat-map-perm, group-perm}
use network_mapper.Observations.{RelationshipObservation, Observation}
use network_mapper.Identity.{CanonicalIdentity}
use network_mapper.Relationships.{
  Policy, CanonicalRelationship, ok, preprocess, group_key, relationship_key, resolve,
}
use network_mapper.Relationships.Edges.{group_records, all_records, resolve-ok}
use network_mapper.Relationships.Canonical.{Edge, related, edge_of, edges, resolve-edges}
use network_mapper.Relationships.Keys.{edge_key, edges-IsDistinct, elem-edges}

module _ {ℓ κ} {A : Type ℓ} {B : Type κ} (kept : B → List A) where
  concat-append : (xss yss : List (List A)) → concat (xss ++ yss) ≡ concat xss ++ concat yss
  concat-append [] yss = refl
  concat-append (xs ∷ xss) yss =
      ap (λ zs. xs ++ zs) (concat-append xss yss) ∙ sym (append_assoc xs (concat xss) (concat yss))

  concat-map-concat {μ} :
      {C : Type μ} (g : C → List B) (ps : List C)
      → concat (map kept (concat (map g ps))) ≡ concat (map (λ p. concat (map kept (g p))) ps)
  concat-map-concat g [] = refl
  concat-map-concat g (p ∷ ps) =
      ap concat (map-append kept (g p) (concat (map g ps)))
      ∙ concat-append (map kept (g p)) (map kept (concat (map g ps)))
      ∙ ap (λ zs. concat (map kept (g p)) ++ zs) (concat-map-concat g ps)

abbrev pub retained : CanonicalRelationship → List RelationshipObservation
retained r = r.observations

group_records-perm :
    (policy : Policy) (s c : Text) (os : List RelationshipObservation)
    → Perm (concat (map retained (group_records policy s c os))) os
group_records-perm policy s c os =
    Perm.trans
      (rw (map-map retained _ (group related os))
        (concat-map-perm _ (λ p. p.1) (group related os) (λ p. sort-perm _ p.1)))
      (group-perm related os)

all_records-perm :
    (policy : Policy) (xs : List RelationshipObservation)
    → Perm (concat (map retained (all_records policy (group group_key xs)))) xs
all_records-perm policy xs =
    rw (concat-map-concat retained (λ p. group_records policy p.0.0 p.0.1 p.1) (group group_key xs))
      (Perm.trans
        (concat-map-perm _ (λ p. p.1) (group group_key xs)
          (λ p. group_records-perm policy p.0.0 p.0.1 p.1))
        (group-perm group_key xs))

pub ok-injective : {A : Type 0} (a b : A) → ok a ≡ ok b → a ≡ b
ok-injective a b h = cc

-- When a run returns records, they retain the observations that pass the preprocessing, each as often
-- as it was given: none is dropped, merged or invented.
pub resolve_relationships-retains :
    (policy : Policy) (os : List Observation) (ids : List CanonicalIdentity)
    (rs : List CanonicalRelationship)
    → resolve policy os ids ≡ ok rs
    → Perm (concat (map retained rs)) (preprocess os ids)
resolve_relationships-retains policy os ids rs h =
    subst (λ zs. Perm (concat (map retained zs)) (preprocess os ids))
      (ok-injective _ rs (sym (resolve-ok policy os ids) ∙ h))
      (Perm.trans (concat-perm retained (sort-perm _ _))
        (all_records-perm policy (preprocess os ids)))

map-key-edge_of :
    (policy : Policy) (xs : List RelationshipObservation) (es : List Edge)
    → map relationship_key (map (edge_of policy xs) es) ≡ es
map-key-edge_of policy xs [] = refl
map-key-edge_of policy xs (e ∷ es) = ap (λ fs. e ∷ fs) (map-key-edge_of policy xs es)

-- When a run returns records, there is one for each edge that a preprocessed observation claims, and
-- for no other, and they ascend by subject, category and related subject.
pub resolve_relationships-keys :
    (policy : Policy) (os : List Observation) (ids : List CanonicalIdentity)
    (rs : List CanonicalRelationship)
    → resolve policy os ids ≡ ok rs
    → IsSorted triple_le (map relationship_key rs)
      × IsDistinct (map relationship_key rs)
      × ((e : Edge) → elem e (map relationship_key rs) ≡ elem e (map edge_key (preprocess os ids)))
resolve_relationships-keys policy os ids rs h =
    let xs = preprocess os ids in
    let keys : map relationship_key rs ≡ sort triple_le (edges xs) =
      sym (ap (map relationship_key) (ok-injective _ rs (sym (resolve-edges policy os ids) ∙ h)))
      ∙ map-key-edge_of policy xs (sort triple_le (edges xs)) in
    rw keys (
      sort_by-IsSorted (λ e. e) (edges xs),
      sort-IsDistinct triple_le (edges xs) (edges-IsDistinct xs),
      λ e. elem-sort triple_le e (edges xs) ∙ elem-edges e xs,
    )
