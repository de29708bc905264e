-- ===== src/Enrichment/Gate.antt =====
-- The gate on identity evidence in networkmapper/discovery/arp_neighbor_provider.py and
-- lldp_neighbor_provider.py: about which hosts the collected observations are.
use network_mapper.Prelude.{
  ◌≡◌, refl, sym, subst, inl, inr, Bool, true, false, ◌&&◌, Option, List, [], ◌∷◌, map, arith, All,
  All-append, All-map, Bool-cases, concat, if◌then◌else◌,
}
use network_mapper.Devices.{Device}
use network_mapper.Enrichment.{Client, Collection, enrich, query_host}
use network_mapper.Enrichment.Arp.{
  arp_collection, arp_identities, arp_neighbor, arp_relationships, enrich_arp,
}
use network_mapper.Enrichment.Lldp.{
  connected_to, enrich_lldp, lldp_collection, lldp_observations, lldp_pair, named,
  resolve_related_subjects,
}
use network_mapper.Enrichment.Loop.{contribution, enrich-account, responds}
use network_mapper.MacIndex.{build_mac_index, mac_address_property}
use network_mapper.Observations.{Observation}
use network_mapper.Prelude.Decimal.{int_eq}
use network_mapper.Prelude.Eq.{beq_refl, elem, list_eq, nat_eq, option_eq, pair_eq}
use network_mapper.Prelude.Text.{Text, codes}
use network_mapper.Snmp.Results.{SnmpArpTableEntry, SnmpLldpNeighborEntry}
use network_mapper.Snmp.Rows.{rem_key_eq}

-- An identity observation has one property name, about one of the addresses; a relationship observation
-- has one category and one of the addresses as its subject.
abbrev pub IsGated : List Text → Text → Text → Observation → Type 0
IsGated ips property_name category (Observation.identity o) =
    (elem o.subject ips ≡ true) × (o.property_name ≡ property_name)
IsGated ips property_name category (Observation.relationship o) =
    (elem o.subject ips ≡ true) × (o.category ≡ category)

All-concat {ℓ} :
    {A B : Type 0} (P : B → Type ℓ) (f : A → List B) (xs : List A)
    → ((x : A) → All P (f x))
    → All P (concat (map f xs))
All-concat P f [] h = tt
All-concat P f (x ∷ xs) h = All-append P (f x) (concat (map f xs)) (h x) (All-concat P f xs h)

-- The same, for the elements of a list.
All-concat-elem {ℓ} :
    {B : Type 0} (P : B → Type ℓ) (f : Text → List B) (all xs : List Text)
    → ((x : Text) → elem x all ≡ true → All P (f x))
    → All (λ x. elem x all ≡ true) xs
    → All P (concat (map f xs))
All-concat-elem P f all [] h p = tt
All-concat-elem P f all (x ∷ xs) h p =
    All-append P (f x) (concat (map f xs)) (h x p.0) (All-concat-elem P f all xs h p.1)

elem_later :
    (y : Text) (xs ys : List Text)
    → All (λ x. elem x xs ≡ true) ys
    → All (λ x. elem x (y ∷ xs) ≡ true) ys
elem_later y xs [] p = tt
elem_later y xs (x ∷ ys) p = (ground (arith, p.0), elem_later y xs ys p.1)

pub elem_self : (xs : List Text) → All (λ x. elem x xs ≡ true) xs
elem_self [] = tt
elem_self (x ∷ xs) = (ground (arith, beq_refl x), elem_later x xs xs (elem_self xs))

when_responding {ℓ} :
    {A : Type 0} (P : A → Type ℓ) (b : Bool) (xs : List A) → All P xs → All P (if b then xs else [])
when_responding P true xs h = h
when_responding P false xs h = tt

-- What every host contributes when it is one of the discovered, the whole run has.
pub enrich-each {ℓ} :
    {Entry : Type 0} (provider : Collection Entry) (P : Observation → Type ℓ) (ips : List Text)
    → ((ip : Text)
        → elem ip ips ≡ true
        → All P (provider.collect ip (query_host provider.client ip).entries))
    → All P (enrich provider ips).observations
enrich-each provider P ips h = subst (All P) (sym (enrich-account provider ips).0) (
    All-concat-elem P (contribution provider) ips ips
      (λ ip here. when_responding P (responds provider ip) _ (h ip here)) (elem_self ips))

module _ (run_id observed_at : Text) where
  arp_identities-IsGated :
      (ips : List Text) (entries : List SnmpArpTableEntry)
      → All
          (IsGated ips mac_address_property arp_neighbor)
          (arp_identities run_id observed_at ips entries)
  unfolding arp_identities
  arp_identities-IsGated ips [] = tt
  arp_identities-IsGated ips (entry ∷ entries) =
      let rest = arp_identities-IsGated ips entries in
      elim (Bool-cases (elem entry.ip_address ips)) [
        | inl h ↦ rw h ((h, refl), rest)
        | inr h ↦ rw h rest
      ]

  arp_collection-IsGated :
      (client : Client SnmpArpTableEntry) (ips : List Text) (ip : Text)
      → elem ip ips ≡ true
      → (entries : List SnmpArpTableEntry)
      → All
          (IsGated ips mac_address_property arp_neighbor)
          ((arp_collection run_id observed_at client ips).collect ip entries)
  unfolding arp_collection arp_relationships
  arp_collection-IsGated client ips ip here entries =
      All-append (IsGated ips mac_address_property arp_neighbor)
        (arp_relationships run_id observed_at ip entries)
        (arp_identities run_id observed_at ips entries)
        (All-map (IsGated ips mac_address_property arp_neighbor) _ entries (λ entry. (here, refl)))
        (arp_identities-IsGated ips entries)

  lldp_pair-IsGated :
      (ips : List Text) (ip : Text)
      → elem ip ips ≡ true
      → (sys_name : Option Text) (pair : Text × Text)
      → All
          (IsGated ips (codes "hostname") connected_to)
          (lldp_pair run_id observed_at ips ip sys_name pair)
  unfolding lldp_pair
  lldp_pair-IsGated ips ip here sys_name (s, method) =
      elim (Bool-cases (named sys_name && elem s ips)) [
        | inl h ↦ rw h ((here, refl), ((ground (arith, h), refl), tt))
        | inr h ↦ rw h ((here, refl), tt)
      ]

  lldp_collection-IsGated :
      (client : Client SnmpLldpNeighborEntry) (received : List Observation) (ips : List Text)
      (ip : Text)
      → elem ip ips ≡ true
      → (entries : List SnmpLldpNeighborEntry)
      → All
          (IsGated ips (codes "hostname") connected_to)
          ((lldp_collection run_id observed_at client received ips).collect ip entries)
  unfolding lldp_collection lldp_observations
  lldp_collection-IsGated client received ips ip here entries =
      let P = IsGated ips (codes "hostname") connected_to in
      All-concat P _ entries (λ entry.
        All-concat P _ (resolve_related_subjects (build_mac_index received) entry)
          (lldp_pair-IsGated ips ip here entry.sys_name))

  -- Whatever the queried devices report, and whatever fails, every identity observation of the ARP and
  -- the LLDP provider is about an address of a device that was already discovered and claims only its
  -- hardware address, and its host name, respectively; every relationship observation has the
  -- address of such a device as its subject and the provider's own category.
  pub enrich-gate :
      (arp : Client SnmpArpTableEntry) (lldp : Client SnmpLldpNeighborEntry)
      (received : List Observation) (devices : List Device)
      → All
          (IsGated (map (λ d. d.ip_address) devices) mac_address_property arp_neighbor)
          (enrich_arp run_id observed_at arp devices).observations
        × All
            (IsGated (map (λ d. d.ip_address) devices) (codes "hostname") connected_to)
            (enrich_lldp run_id observed_at lldp received devices).observations
  unfolding enrich_arp enrich_lldp
  enrich-gate arp lldp received devices =
      let ips = map (λ (d : Device). d.ip_address) devices in
      (
        enrich-each (arp_collection run_id observed_at arp ips)
            (IsGated ips mac_address_property arp_neighbor) ips
            (λ ip here. arp_collection-IsGated arp ips ip here (query_host arp ip).entries),
        enrich-each (lldp_collection run_id observed_at lldp received ips)
            (IsGated ips (codes "hostname") connected_to) ips
            (λ ip here.
              lldp_collection-IsGated lldp received ips ip here (query_host lldp ip).entries),
      )
