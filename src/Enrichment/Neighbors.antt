-- ===== src/Enrichment/Neighbors.antt =====
-- networkmapper/discovery/lldp_neighbor_provider.py: the neighbors that a row resolves to.
use network_mapper.Prelude.{
  ◌≡◌, refl, sym, ap, subst, ◌∙◌, ◌↔◌, ◌⊎◌, inl, inr, true, List, [], ◌∷◌, map, arith, All,
  Bool-cases, length,
}
use network_mapper.Enrichment.Addresses.{is_ipv4_address}
use network_mapper.Enrichment.Fdb.{sole_subject}
use network_mapper.Enrichment.Gate.{elem_self}
use network_mapper.Enrichment.Lldp.{
  by_addresses, by_chassis, chassis_address, resolve_related_subjects,
}
use network_mapper.Enrichment.Resolution.{
  IsSoleClaimant, claimant-sole_subject, sole_subject-claimant,
}
use network_mapper.MacIndex.{build_mac_index}
use network_mapper.Observations.{Observation}
use network_mapper.Prelude.Decimal.{int_eq, ℤ}
use network_mapper.Prelude.Eq.{beq_refl, elem, eq_of_beq, list_eq, nat_eq, option_eq, pair_eq, ◌==◌}
use network_mapper.Prelude.Ord.{list_ord, nat_ord}
use network_mapper.Prelude.Sets.{lookup}
use network_mapper.Prelude.Text.{Text, codes}
use network_mapper.Presentation.{cardinality_eq}
use network_mapper.Snmp.Results.{SnmpLldpNeighborEntry}
use network_mapper.Snmp.Rows.{rem_key_eq}

-- How a row may give a related subject: as one of its management addresses, or, when it has none, as
-- a chassis ID that is an IPv4 address, or as the sole claimant of a chassis ID that is a hardware address.
abbrev pub IsResolution : List Observation → SnmpLldpNeighborEntry → Text × Text → Type 0
IsResolution received entry (s, method) =
    ((method ≡ codes "lldp-management-address") × (elem s entry.management_addresses ≡ true))
    ⊎ ((entry.management_addresses ≡ [])
        × (((method ≡ codes "lldp-chassis-network-address")
              × (entry.chassis_id_subtype ≡ ℤ.pos 5)
              × (s ≡ entry.chassis_id)
              × (is_ipv4_address s ≡ true))
            ⊎ ((method ≡ codes "lldp-chassis-mac")
                × (entry.chassis_id_subtype ≡ ℤ.pos 4)
                × IsSoleClaimant received entry.chassis_id s)))

module _ (received : List Observation) (entry : SnmpLldpNeighborEntry) where
  managed :
      (addresses : List Text)
      → All (λ a. elem a entry.management_addresses ≡ true) addresses
      → All
          (IsResolution received entry)
          (map (λ a. (a, codes "lldp-management-address")) addresses)
  managed [] h = tt
  managed (a ∷ addresses) h = (inl (refl, h.0), managed addresses h.1)

  by_mac :
      (subjects : List Text)
      → entry.management_addresses ≡ []
      → entry.chassis_id_subtype ≡ ℤ.pos 4
      → All (IsSoleClaimant received entry.chassis_id) subjects
      → All (IsResolution received entry) (map (λ s. (s, codes "lldp-chassis-mac")) subjects)
  by_mac [] none_managed sub h = tt
  by_mac (s ∷ subjects) none_managed sub h =
      (inr (none_managed, inr (refl, sub, h.0)), by_mac subjects none_managed sub h.1)

  by_address :
      entry.management_addresses ≡ []
      → entry.chassis_id_subtype ≡ ℤ.pos 5
      → All (IsResolution received entry) (chassis_address entry.chassis_id)
  by_address none_managed sub = elim (Bool-cases (is_ipv4_address entry.chassis_id)) [
    | inl h ↦ rw h (inr (none_managed, inl (refl, sub, refl, h)), tt)
    | inr h ↦ rw h tt
  ]

  by_chassis-IsResolution :
      entry.management_addresses ≡ []
      → All
          (IsResolution received entry)
          (by_chassis (build_mac_index received) entry.chassis_id_subtype entry.chassis_id)
  by_chassis-IsResolution none_managed =
      let sub = entry.chassis_id_subtype in
      let found = lookup entry.chassis_id (build_mac_index received) in
      elim (Bool-cases (sub == ℤ.pos 5)) [
        | inl h ↦ rw h (by_address none_managed (eq_of_beq sub (ℤ.pos 5) h))
        | inr h ↦ rw h (elim (Bool-cases (sub == ℤ.pos 4)) [
          | inl k ↦ rw k (
              by_mac (sole_subject found) none_managed (eq_of_beq sub (ℤ.pos 4) k)
                (sole_subject-claimant received entry.chassis_id found refl))
          | inr k ↦ rw k tt
        ])
      ]

by_addresses-IsResolution :
    (received : List Observation) (entry : SnmpLldpNeighborEntry) (addresses : List Text)
    → entry.management_addresses ≡ addresses
    → All (IsResolution received entry) (by_addresses addresses (build_mac_index received) entry)
by_addresses-IsResolution received entry [] e = by_chassis-IsResolution received entry e
by_addresses-IsResolution received entry (a ∷ more) e = managed received entry (a ∷ more) (
    subst (λ addresses. All (λ s. elem s addresses ≡ true) (a ∷ more)) (sym e)
      (elem_self (a ∷ more)))

-- What is in a list has the property of all its elements.
All-elem :
    (P : Text × Text → Type 0) (xs : List (Text × Text)) (r : Text × Text)
    → All P xs
    → elem r xs ≡ true
    → P r
All-elem P [] r a h = absurd (ground arith)
All-elem P (x ∷ xs) r a h = elim (Bool-cases (x == r)) [
  | inl e ↦ subst P (eq_of_beq x r e) a.0
  | inr e ↦ All-elem P xs r a.1 (ground arith)
]

elem-tagged :
    (s method : Text) (xs : List Text)
    → elem s xs ≡ true
    → elem {A = Text × Text} (s, method) (map (λ x. (x, method)) xs) ≡ true
elem-tagged s method [] h = h
elem-tagged s method (x ∷ xs) h = ground (arith, elem-tagged s method xs, beq_refl method)

module _ (received : List Observation) (s chassis_id : Text) (subtype : ℤ) where
  by_chassis-address :
      subtype ≡ ℤ.pos 5
      → s ≡ chassis_id
      → is_ipv4_address s ≡ true
      → elem {A = Text × Text}
          (s, codes "lldp-chassis-network-address")
          (by_chassis (build_mac_index received) subtype chassis_id)
        ≡ true
  by_chassis-address sub e h = rw sub (
      rw (← e) (rw h (ground (arith, beq_refl s, beq_refl (codes "lldp-chassis-network-address")))))

  by_chassis-claimant :
      subtype ≡ ℤ.pos 4
      → IsSoleClaimant received chassis_id s
      → elem {A = Text × Text}
          (s, codes "lldp-chassis-mac")
          (by_chassis (build_mac_index received) subtype chassis_id)
        ≡ true
  by_chassis-claimant sub sole = rw sub (
      rw (claimant-sole_subject received chassis_id s sole)
        (ground (arith, beq_refl s, beq_refl (codes "lldp-chassis-mac"))))

by_addresses_complete :
    (received : List Observation) (entry : SnmpLldpNeighborEntry) (addresses : List Text)
    (r : Text × Text)
    → entry.management_addresses ≡ addresses
    → IsResolution received entry r
    → elem r (by_addresses addresses (build_mac_index received) entry) ≡ true
by_addresses_complete received entry [] (s, method) e (inl (m, h)) =
    absurd (ground (arith, ap (elem s) e))
by_addresses_complete received entry [] (s, method) e (inr (none_managed, inl (m, sub, id, h))) =
    rw m (by_chassis-address received s entry.chassis_id entry.chassis_id_subtype sub id h)
by_addresses_complete received entry [] (s, method) e (inr (none_managed, inr (m, sub, sole))) =
    rw m (by_chassis-claimant received s entry.chassis_id entry.chassis_id_subtype sub sole)
by_addresses_complete received entry (a ∷ more) (s, method) e (inl (m, h)) =
    subst
      (λ k.
        elem {A = Text × Text} (s, k) (map (λ x. (x, codes "lldp-management-address")) (a ∷ more))
        ≡ true)
      (sym m) (elem-tagged s (codes "lldp-management-address") (a ∷ more) (ap (elem s) (sym e) ∙ h))
by_addresses_complete received entry (a ∷ more) (s, method) e (inr (none_managed, h)) =
    absurd (ground (arith, ap length e, ap length none_managed))

-- A row resolves to a neighbor, with a collection method, exactly if this is one of its management
-- addresses, or, when it has none, its chassis ID when this is of the subtype of a network address and
-- an IPv4 address, or the subject that the received observations alone report with the chassis ID
-- when this is of the subtype of a hardware address; and the method says which of the three it is.
pub resolve_related_subjects-IsResolution :
    (received : List Observation) (entry : SnmpLldpNeighborEntry) (r : Text × Text)
    → (elem r (resolve_related_subjects (build_mac_index received) entry) ≡ true)
      ↔ IsResolution received entry r
unfolding resolve_related_subjects
resolve_related_subjects-IsResolution received entry r = (
  All-elem (IsResolution received entry) _ r
      (by_addresses-IsResolution received entry entry.management_addresses refl),
  by_addresses_complete received entry entry.management_addresses r refl,
)
