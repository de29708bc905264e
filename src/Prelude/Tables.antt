-- ===== src/Prelude/Tables.antt =====
-- A table made from groups: one record for each key, sorted by the key. The result is determined
-- by the keys and by each key's elements, whatever the order of the list.
use mathlib.Core.Path.{◌≡◌, sym, ◌∙◌, ap, fun_ext}
use mathlib.Core.List.{List, map, Perm, Permᴰ}
use mathlib.Core.List.Perm
use network_mapper.Prelude.Lists.{concat, map-map, map-id}
use network_mapper.Prelude.Eq.{elem}
use network_mapper.Prelude.Ord.{Ord}
use network_mapper.Prelude.Sort.{sort, sort_by, sort_by-map, sort-perm, sort_by-IsSorted, IsSorted}
use network_mapper.Prelude.Group.{
  group, IsDistinct, of_key, group-entries, group_keys, elem-group_keys, group_keys-IsDistinct,
}
use network_mapper.Prelude.Reorder.{sort_distinct, elem-map-permᴰ, elem-sort, sort-IsDistinct}
use network_mapper.Prelude.Partition.{concat-perm, concat-map-perm, group-perm}

module _ {ℓ} {A K R : Type ℓ} ⦃o : Ord K⦄ (key : A → K) (out : R → K) (make : K → List A → R)
    (made : (k : K) (xs : List A) → out (make k xs) ≡ k) where
  -- `sorted((make(k, ys) for k, ys in groups.items()), key=out)`
  abbrev pub table : List A → List R
  table xs = sort_by out (map (λ p. make p.0 p.1) (group ⦃e = o.eq⦄ key xs))

  abbrev pub sorted_keys : List A → List K
  sorted_keys xs = sort o.le (group_keys ⦃e = o.eq⦄ key xs)

  -- The table is the record of each distinct key, in the order of the keys.
  pub table-sorted_keys :
      (xs : List A) → table xs ≡ map (λ k. make k (of_key ⦃e = o.eq⦄ key k xs)) (sorted_keys xs)
  table-sorted_keys xs =
      ap (λ d. sort_by out (map (λ p. make p.0 p.1) d)) (group-entries ⦃e = o.eq⦄ key xs)
      ∙ ap (sort_by out) (map-map _ _ (group_keys ⦃e = o.eq⦄ key xs))
      ∙ sort_by-map out _ (λ k. made k _) (group_keys ⦃e = o.eq⦄ key xs)

  pub table-permᴰ :
      {xs ys : List A}
      → Permᴰ xs ys
      → ((k : K) → make k (of_key ⦃e = o.eq⦄ key k xs) ≡ make k (of_key ⦃e = o.eq⦄ key k ys))
      → table xs ≡ table ys
  table-permᴰ {xs} {ys} p same =
      table-sorted_keys xs
      ∙ ap (λ f. map f (sorted_keys xs)) (fun_ext same)
      ∙ ap (map (λ k. make k (of_key ⦃e = o.eq⦄ key k ys))) (
          sort_distinct (group_keys ⦃e = o.eq⦄ key xs) (group_keys ⦃e = o.eq⦄ key ys)
            (group_keys-IsDistinct ⦃e = o.eq⦄ key xs) (group_keys-IsDistinct ⦃e = o.eq⦄ key ys)
            (λ k.
              elem-group_keys ⦃e = o.eq⦄ key k xs
              ∙ elem-map-permᴰ ⦃e = o.eq⦄ key k p
              ∙ sym (elem-group_keys ⦃e = o.eq⦄ key k ys)))
      ∙ sym (table-sorted_keys ys)

  columns : (xs : List A) → map out (table xs) ≡ sorted_keys xs
  columns xs =
      ap (map out) (table-sorted_keys xs)
      ∙ map-map out _ (sorted_keys xs)
      ∙ ap (λ f. map f (sorted_keys xs)) (fun_ext (λ k. made k _))
      ∙ map-id (sorted_keys xs)

  -- The keys of the table's records are the keys of the list, each once, ascending.
  pub table-keys :
      (xs : List A)
      → IsSorted o.le (map out (table xs))
        × IsDistinct ⦃e = o.eq⦄ (map out (table xs))
        × ((k : K) → elem ⦃e = o.eq⦄ k (map out (table xs)) ≡ elem ⦃e = o.eq⦄ k (map key xs))
  table-keys xs = rw (columns xs) (
    sort_by-IsSorted (λ k. k) (group_keys ⦃e = o.eq⦄ key xs),
    sort-IsDistinct ⦃e = o.eq⦄ o.le (group_keys ⦃e = o.eq⦄ key xs)
        (group_keys-IsDistinct ⦃e = o.eq⦄ key xs),
    λ k.
        elem-sort ⦃e = o.eq⦄ o.le k (group_keys ⦃e = o.eq⦄ key xs)
        ∙ elem-group_keys ⦃e = o.eq⦄ key k xs,
  )

  -- If each record keeps the elements it is made from, the table keeps the whole list.
  pub table-perm :
      (kept : R → List A)
      → ((k : K) (ys : List A) → Perm (kept (make k ys)) ys)
      → (xs : List A) → Perm (concat (map kept (table xs))) xs
  table-perm kept keeps xs = Perm.trans (concat-perm kept (sort-perm _ _)) (
      Perm.trans
        (rw (map-map kept (λ p. make p.0 p.1) (group ⦃e = o.eq⦄ key xs)) (
          concat-map-perm (λ p. kept (make p.0 p.1)) (λ p. p.1) (group ⦃e = o.eq⦄ key xs)
            (λ p. keeps p.0 p.1)))
        (group-perm ⦃e = o.eq⦄ key xs))
