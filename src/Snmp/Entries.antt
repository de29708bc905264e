-- ===== src/Snmp/Entries.antt =====
-- networkmapper/discovery/snmp_client.py: the keys of the entries of a result.
use network_mapper.Prelude.{
  ℕ, ◌≡◌, refl, sym, ap, subst, Bool, true, false, Option, none, some, List, [], ◌∷◌, ◌++◌, map,
}
use network_mapper.Prelude.Decimal.{int_eq, ℤ}
use network_mapper.Prelude.Dict.{assign, assign-IsDistinct, keys_of}
use network_mapper.Prelude.Eq.{Eq, list_eq, nat_eq, option_eq, pair_eq}
use network_mapper.Prelude.Group.{IsDistinct, keys}
use network_mapper.Prelude.Text.{Text}
use network_mapper.Snmp.BestEffort.{arp_query, fdb_query}
use network_mapper.Snmp.Client.{
  Agent, arp_entry, fdb_entry, get_arp_table, get_bridge_fdb, outcome, query_arp_table,
  query_bridge_fdb,
}
use network_mapper.Snmp.Results.{
  SnmpArpTableEntry, SnmpBridgeFdbEntry, arp_phys_address_oid, arp_type_oid, fdb_port_oid,
  fdb_status_oid,
}
use network_mapper.Snmp.Rows.{parse_bridge_fdb_row, parse_ipv4_arp_row, rem_key_eq}
use network_mapper.Snmp.Values.{Reading}
use network_mapper.Snmp.Walks.{
  Walked, assign_all, dictionary, for_each, walk, walk_bridge_fdb_column, walk_column, ◌>>=◌,
}

assign_all-IsDistinct :
    {V K : Type 0} ⦃e : Eq K⦄ (d rows : List (K × V))
    → IsDistinct (keys_of d)
    → IsDistinct (keys_of (assign_all d rows))
unfolding assign_all
assign_all-IsDistinct d [] h = h
assign_all-IsDistinct d ((key, value) ∷ rows) h =
    assign_all-IsDistinct (assign key value d) rows (assign-IsDistinct key value d h)

-- The property of what a walk that completes gives.
abbrev pub WhenComplete {ℓ} : {A : Type ℓ} → (A → Type 0) → Walked A → Type 0
WhenComplete P (Walked.complete a) = P a
WhenComplete P Walked.walk_failed = Unit
WhenComplete P Walked.raised = Unit

dictionary-IsDistinct :
    {V K : Type 0} ⦃e : Eq K⦄ (rows : Walked (List (K × V)))
    → WhenComplete (λ d. IsDistinct (keys_of d)) (rows >>= dictionary)
dictionary-IsDistinct (Walked.complete rows) = assign_all-IsDistinct [] rows tt
dictionary-IsDistinct Walked.walk_failed = tt
dictionary-IsDistinct Walked.raised = tt

abbrev pub arp_key : SnmpArpTableEntry → ℤ × Text
arp_key entry = (entry.interface_index, entry.ip_address)

abbrev pub fdb_key : SnmpBridgeFdbEntry → Text
fdb_key entry = entry.mac_address

module _ {V : Type 0} (reading : Reading V) where
  with_key :
      (types : List ((ℤ × Text) × V)) (key : ℤ × Text) (value : V) (macs : List ((ℤ × Text) × V))
      (found : Option (List ℕ)) (more : Walked (List SnmpArpTableEntry))
      → reading.bytes value ≡ found
      → WhenComplete (λ ys. map arp_key ys ≡ keys_of macs) more
      → WhenComplete
          (λ ys. map arp_key ys ≡ key ∷ keys_of macs)
          (arp_entry reading types (key, value) >>= λ ys. more >>= λ zs. Walked.complete (ys ++ zs))
  unfolding arp_entry
  with_key types key value macs none more e h = rw e tt
  with_key types key value macs (some mac) (Walked.complete ys) e h = rw e (ap (λ ks. key ∷ ks) h)
  with_key types key value macs (some mac) Walked.walk_failed e h = rw e tt
  with_key types key value macs (some mac) Walked.raised e h = rw e tt

  for_each-keys :
      (types macs : List ((ℤ × Text) × V))
      → WhenComplete (λ ys. map arp_key ys ≡ keys_of macs) (for_each (arp_entry reading types) macs)
  unfolding for_each
  for_each-keys types [] = refl
  for_each-keys types ((key, value) ∷ macs) =
      with_key types key value macs (reading.bytes value) (for_each (arp_entry reading types) macs)
        refl (for_each-keys types macs)

  outcome-arp :
      (keys : List (ℤ × Text)) (found : Walked (List SnmpArpTableEntry))
      → IsDistinct keys
      → WhenComplete (λ ys. map arp_key ys ≡ keys) found
      → IsDistinct (map arp_key (outcome found).entries)
  outcome-arp keys (Walked.complete ys) d h = subst IsDistinct (sym h) d
  outcome-arp keys Walked.walk_failed d h = tt
  outcome-arp keys Walked.raised d h = tt

  arp-IsDistinct :
      (transport : Bool) (macs types : Walked (List ((ℤ × Text) × V)))
      → WhenComplete (λ d. IsDistinct (keys_of d)) macs
      → IsDistinct (map arp_key (outcome (arp_query reading transport macs types)).entries)
  unfolding arp_query
  arp-IsDistinct false macs types d = tt
  arp-IsDistinct true Walked.walk_failed types d = tt
  arp-IsDistinct true Walked.raised types d = tt
  arp-IsDistinct true (Walked.complete macs) Walked.raised d = tt
  arp-IsDistinct true (Walked.complete macs) Walked.walk_failed d =
      outcome-arp (keys_of macs) (for_each (arp_entry reading []) macs) d (for_each-keys [] macs)
  arp-IsDistinct true (Walked.complete macs) (Walked.complete types) d =
      outcome-arp (keys_of macs) (for_each (arp_entry reading types) macs) d
        (for_each-keys types macs)

  fdb_rows-keys :
      (statuses ports : List (Text × V))
      → map fdb_key (map (fdb_entry reading statuses) ports) ≡ keys_of ports
  unfolding fdb_entry
  fdb_rows-keys statuses [] = refl
  fdb_rows-keys statuses ((mac, port) ∷ ports) = ap (λ ks. mac ∷ ks) (fdb_rows-keys statuses ports)

  fdb-IsDistinct :
      (transport : Bool) (ports statuses : Walked (List (Text × V)))
      → WhenComplete (λ d. IsDistinct (keys_of d)) ports
      → IsDistinct (map fdb_key (outcome (fdb_query reading transport ports statuses)).entries)
  unfolding fdb_query
  fdb-IsDistinct false ports statuses d = tt
  fdb-IsDistinct true Walked.walk_failed statuses d = tt
  fdb-IsDistinct true Walked.raised statuses d = tt
  fdb-IsDistinct true (Walked.complete ports) Walked.raised d = tt
  fdb-IsDistinct true (Walked.complete ports) Walked.walk_failed d =
      subst IsDistinct (sym (fdb_rows-keys [] ports)) d
  fdb-IsDistinct true (Walked.complete ports) (Walked.complete statuses) d =
      subst IsDistinct (sym (fdb_rows-keys statuses ports)) d

  -- Whatever a device answers, with repeated rows, errors and exceptions, the entries of an ARP table
  -- have different pairs of an interface and an address, and the entries of a forwarding table have
  -- different hardware addresses.
  pub entries-IsDistinct :
      (agent : Agent V)
      → IsDistinct (map arp_key (get_arp_table reading agent).entries)
        × IsDistinct (map fdb_key (get_bridge_fdb reading agent).entries)
  unfolding get_arp_table query_arp_table get_bridge_fdb query_bridge_fdb arp_query fdb_query
      walk_column walk_bridge_fdb_column
  entries-IsDistinct agent =
      let arp =
        λ (oid : Text). walk reading (λ name. parse_ipv4_arp_row name oid) (agent.column oid) in
      let fdb =
        λ (oid : Text). walk reading (λ name. parse_bridge_fdb_row name oid) (agent.column oid) in
      (
        arp-IsDistinct agent.has_transport (arp arp_phys_address_oid >>= dictionary)
            (arp arp_type_oid >>= dictionary) (dictionary-IsDistinct (arp arp_phys_address_oid)),
        fdb-IsDistinct agent.has_transport (fdb fdb_port_oid >>= dictionary)
            (fdb fdb_status_oid >>= dictionary) (dictionary-IsDistinct (fdb fdb_port_oid)),
      )
