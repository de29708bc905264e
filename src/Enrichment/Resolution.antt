-- ===== src/Enrichment/Resolution.antt =====
-- The resolution of hardware addresses in networkmapper/discovery/bridge_fdb_provider.py and
-- lldp_neighbor_provider.py, by the index of the received observations.
use network_mapper.Prelude.{
  ◌≡◌, refl, sym, ap, ◌∙◌, inl, inr, Bool, true, ◌&&◌, Option, none, some, List, [], ◌∷◌, map,
  arith, All, All-append, All-weaken, Bool-cases, any,
}
use network_mapper.Devices.{Device}
use network_mapper.Enrichment.{Client, query_host}
use network_mapper.Enrichment.Fdb.{
  enrich_fdb, fdb_collection, fdb_observations, fdb_relationships, sole_subject,
}
use network_mapper.Enrichment.Gate.{enrich-each}
use network_mapper.MacIndex.{
  build_mac_index, build_mac_index-IsDistinct, build_mac_index-exact, claims, subjects_of,
}
use network_mapper.Observations.{Observation, identity_observations}
use network_mapper.Prelude.Decimal.{int_eq}
use network_mapper.Prelude.Eq.{
  beq_of_eq, beq_refl, elem, eq_of_beq, list_eq, nat_eq, option_eq, pair_eq, ◌==◌,
}
use network_mapper.Prelude.Group.{IsDistinct}
use network_mapper.Prelude.Ord.{list_ord, nat_ord}
use network_mapper.Prelude.Sets.{lookup}
use network_mapper.Prelude.Text.{Text, codes}
use network_mapper.Presentation.{cardinality_eq}
use network_mapper.Snmp.Results.{SnmpBridgeFdbEntry}
use network_mapper.Snmp.Rows.{rem_key_eq}

-- One subject alone is reported with the hardware address.
abbrev pub IsSoleClaimant : List Observation → Text → Text → Type 0
IsSoleClaimant received mac s =
    (any (claims mac s) (identity_observations received) ≡ true)
    × ((t : Text) → any (claims mac t) (identity_observations received) ≡ true → t ≡ s)

sole_of_lookup :
    (received : List Observation) (mac s : Text)
    → lookup mac (build_mac_index received) ≡ some (s ∷ [])
    → IsSoleClaimant received mac s
sole_of_lookup received mac s h =
    let exact = (build_mac_index-exact received mac).0 in
    let found = λ (t : Text). sym (exact t) ∙ ap (λ r. elem t (subjects_of r)) h in
    (found s ∙ ground (arith, beq_refl s), λ t k. sym (eq_of_beq s t (ground (arith, found t, k))))

pub sole_subject-claimant :
    (received : List Observation) (mac : Text) (found : Option (List Text))
    → lookup mac (build_mac_index received) ≡ found
    → All (IsSoleClaimant received mac) (sole_subject found)
sole_subject-claimant received mac none h = tt
sole_subject-claimant received mac (some []) h = tt
sole_subject-claimant received mac (some (s ∷ [])) h = (sole_of_lookup received mac s h, tt)
sole_subject-claimant received mac (some (s ∷ t ∷ more)) h = tt

sole_of_members :
    (found : Option (List Text)) (s : Text)
    → IsDistinct (subjects_of found)
    → elem s (subjects_of found) ≡ true
    → ((t : Text) → elem t (subjects_of found) ≡ true → t ≡ s)
    → sole_subject found ≡ s ∷ []
sole_of_members none s d h only = absurd (ground arith)
sole_of_members (some []) s d h only = absurd (ground arith)
sole_of_members (some (x ∷ [])) s d h only = ap (λ y. y ∷ []) (only x (ground (arith, beq_refl x)))
sole_of_members (some (x ∷ y ∷ more)) s d h only =
    let same : y ≡ x =
      only y (ground (arith, beq_refl y)) ∙ sym (only x (ground (arith, beq_refl x))) in
    absurd (ground (arith, beq_of_eq y x same, d.0))

-- A sole claimant is found.
pub claimant-sole_subject :
    (received : List Observation) (mac s : Text)
    → IsSoleClaimant received mac s
    → sole_subject (lookup mac (build_mac_index received)) ≡ s ∷ []
claimant-sole_subject received mac s h =
    let exact = (build_mac_index-exact received mac).0 in
    sole_of_members (lookup mac (build_mac_index received)) s
      (build_mac_index-IsDistinct received mac) (exact s ∙ h.0) (λ t k. h.1 t (sym (exact t) ∙ k))

abbrev pub learned : Text → SnmpBridgeFdbEntry → Bool
learned mac entry = entry.mac_address == mac && entry.status == some (codes "learned")

-- An observation of the bridge: no identity, and a relationship with the sole claimant of a hardware
-- address that the bridge has learned.
abbrev pub IsLearned : List Observation → Text → List SnmpBridgeFdbEntry → Observation → Type 0
IsLearned received ip entries (Observation.identity o) = ⊥
IsLearned received ip entries (Observation.relationship o) =
    (mac : Text) × (any (learned mac) entries ≡ true)
    × IsSoleClaimant received mac o.related_subject
    × (o.subject ≡ ip)

IsLearned-later :
    (received : List Observation) (ip : Text) (entry : SnmpBridgeFdbEntry)
    (entries : List SnmpBridgeFdbEntry) (o : Observation)
    → IsLearned received ip entries o
    → IsLearned received ip (entry ∷ entries) o
IsLearned-later received ip entry entries (Observation.identity o) h = h
IsLearned-later received ip entry entries (Observation.relationship o) (mac, here, sole, e) =
    (mac, ground (arith, here), sole, e)

-- The same, with the table that the client returns for the subject.
abbrev pub IsBridged :
    Client SnmpBridgeFdbEntry → List Observation → List Text → Observation → Type 0
IsBridged client received ips (Observation.identity o) = ⊥
IsBridged client received ips (Observation.relationship o) =
    (elem o.subject ips ≡ true)
    × ((mac : Text) × (any (learned mac) (query_host client o.subject).entries ≡ true)
        × IsSoleClaimant received mac o.related_subject)

on_bridge :
    (client : Client SnmpBridgeFdbEntry) (received : List Observation) (ips : List Text) (ip : Text)
    → elem ip ips ≡ true
    → (o : Observation) → IsLearned received ip (query_host client ip).entries o
    → IsBridged client received ips o
on_bridge client received ips ip here (Observation.identity o) h = h
on_bridge client received ips ip here (Observation.relationship o) (mac, k, sole, e) = (
  ap (λ s. elem s ips) e ∙ here,
  (mac, ap (λ s. any (learned mac) (query_host client s).entries) e ∙ k, sole),
)

module _ (run_id observed_at : Text) where
  fdb_relationships-IsLearned :
      (received : List Observation) (ip : Text) (entry : SnmpBridgeFdbEntry)
      (entries : List SnmpBridgeFdbEntry) (subjects : List Text)
      → entry.status == some (codes "learned") ≡ true
      → All (IsSoleClaimant received entry.mac_address) subjects
      → All
          (IsLearned received ip (entry ∷ entries))
          (fdb_relationships run_id observed_at ip subjects)
  fdb_relationships-IsLearned received ip entry entries [] h p = tt
  fdb_relationships-IsLearned received ip entry entries (s ∷ subjects) h p = (
    (entry.mac_address, ground (arith, h, beq_refl entry.mac_address), p.0, refl),
    fdb_relationships-IsLearned received ip entry entries subjects h p.1,
  )

  fdb_observations-IsLearned :
      (received : List Observation) (ip : Text) (entries : List SnmpBridgeFdbEntry)
      → All
          (IsLearned received ip entries)
          (fdb_observations run_id observed_at (build_mac_index received) ip entries)
  unfolding fdb_observations
  fdb_observations-IsLearned received ip [] = tt
  fdb_observations-IsLearned received ip (entry ∷ entries) =
      let P = IsLearned received ip (entry ∷ entries) in
      let rest =
        All-weaken (IsLearned received ip entries) P
          (fdb_observations run_id observed_at (build_mac_index received) ip entries)
          (IsLearned-later received ip entry entries)
          (fdb_observations-IsLearned received ip entries) in
      let found = lookup entry.mac_address (build_mac_index received) in
      elim (Bool-cases (entry.status == some (codes "learned"))) [
        | inl h ↦ rw h (
            All-append P (fdb_relationships run_id observed_at ip (sole_subject found))
              (fdb_observations run_id observed_at (build_mac_index received) ip entries)
              (fdb_relationships-IsLearned received ip entry entries (sole_subject found) h
                (sole_subject-claimant received entry.mac_address found refl))
              rest)
        | inr h ↦ rw h rest
      ]

  -- The forwarding tables give no identity evidence, and each of their relationships is about the
  -- address of a discovered device, whose table has a row with the status "learned" for a hardware
  -- address that the received observations report for the related subject and for no other.
  pub enrich_fdb-sole :
      (client : Client SnmpBridgeFdbEntry) (received : List Observation) (devices : List Device)
      → All
          (IsBridged client received (map (λ d. d.ip_address) devices))
          (enrich_fdb run_id observed_at client received devices).observations
  unfolding enrich_fdb fdb_collection
  enrich_fdb-sole client received devices =
      let ips = map (λ (d : Device). d.ip_address) devices in
      enrich-each (fdb_collection run_id observed_at client received)
        (IsBridged client received ips) ips
        (λ ip here.
          All-weaken (IsLearned received ip (query_host client ip).entries)
            (IsBridged client received ips)
            (fdb_observations run_id observed_at (build_mac_index received) ip
              (query_host client ip).entries)
            (on_bridge client received ips ip here)
            (fdb_observations-IsLearned received ip (query_host client ip).entries))
