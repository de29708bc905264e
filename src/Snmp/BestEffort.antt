-- ===== src/Snmp/BestEffort.antt =====
-- networkmapper/discovery/snmp_client.py: the columns of the ARP and of the forwarding table that are
-- walked with best effort.
use mathlib.Core.List.{map-append}
use network_mapper.Prelude.{
  ◌≡◌, refl, sym, ap, ap₂, ◌∙◌, inl, inr, Bool, true, false, ◌&&◌, some, List, [], ◌∷◌, ◌++◌, map,
  arith, Option-cases, if◌then◌else◌,
}
use network_mapper.Prelude.Decimal.{int_eq, ℤ}
use network_mapper.Prelude.Eq.{list_eq, nat_eq, option_eq, pair_eq}
use network_mapper.Prelude.Text.{Text}
use network_mapper.Presentation.{cardinality_eq}
use network_mapper.Snmp.Client.{
  Agent, arp_entry, create_transport, fdb_entry, get_arp_table, get_bridge_fdb, outcome,
  query_arp_table, query_bridge_fdb,
}
use network_mapper.Snmp.Results.{
  SnmpArpTableEntry, SnmpBridgeFdbEntry, SnmpLldpNeighborEntry, SnmpResult, arp_phys_address_oid,
  arp_type_oid, failed_with, fdb_port_oid, fdb_status_oid, malformed,
}
use network_mapper.Snmp.Rows.{rem_key_eq}
use network_mapper.Snmp.Values.{Reading, as_int}
use network_mapper.Snmp.Walks.{
  Response, Walked, best_effort, for_each, walk_bridge_fdb_column, walk_column, ◌>>=◌,
}

abbrev pub is_raised {ℓ} : {A : Type ℓ} → Walked A → Bool
is_raised (Walked.raised) = true
is_raised _ = false

abbrev pub is_complete {ℓ} : {A : Type ℓ} → Walked A → Bool
is_complete (Walked.complete a) = true
is_complete _ = false

module _ {ℓ κ} {B : Type ℓ} {C : Type κ} (g : B → C) where
  abbrev pub walked_map : Walked (List B) → Walked (List C)
  walked_map (Walked.complete ys) = Walked.complete (map g ys)
  walked_map Walked.walk_failed = Walked.walk_failed
  walked_map Walked.raised = Walked.raised

module _ {ℓ κ} {B : Type ℓ} {C : Type κ} (g : B → C) where
  join_rows :
      (w v : Walked (List B))
      → walked_map g (w >>= λ ys. v >>= λ more. Walked.complete (ys ++ more))
        ≡ (walked_map g w >>= λ ys. walked_map g v >>= λ more. Walked.complete (ys ++ more))
  join_rows (Walked.complete ys) (Walked.complete more) = ap Walked.complete (map-append g ys more)
  join_rows (Walked.complete ys) Walked.walk_failed = refl
  join_rows (Walked.complete ys) Walked.raised = refl
  join_rows Walked.walk_failed v = refl
  join_rows Walked.raised v = refl

module _ {ℓ κ μ} {A : Type ℓ} {B : Type κ} {C : Type μ} (g : B → C) where
  -- Two loops agree on what is read of their entries when their bodies do.
  for_each-agree :
      (f f' : A → Walked (List B))
      → ((x : A) → walked_map g (f x) ≡ walked_map g (f' x))
      → (xs : List A) → walked_map g (for_each f xs) ≡ walked_map g (for_each f' xs)
  unfolding for_each
  for_each-agree f f' h [] = refl
  for_each-agree f f' h (x ∷ xs) =
      join_rows g (f x) (for_each f xs)
      ∙ ap₂ (λ w v. w >>= λ ys. v >>= λ more. Walked.complete (ys ++ more)) (h x)
          (for_each-agree f f' h xs)
      ∙ sym (join_rows g (f' x) (for_each f' xs))

-- What is read of the entries of a result.
abbrev pub result_map : {B C : Type 0} → (B → C) → SnmpResult B → SnmpResult C
result_map g result = record {
  responded = result.responded;
  entries = map g result.entries;
  failure_reason = result.failure_reason;
}

abbrev pub unless_malformed : {B : Type 0} → Bool → SnmpResult B → SnmpResult B
unless_malformed b result = if b then failed_with malformed else result

outcome-walked_map :
    {B C : Type 0} (g : B → C) (w : Walked (List B))
    → result_map g (outcome w) ≡ outcome (walked_map g w)
outcome-walked_map g (Walked.complete ys) = refl
outcome-walked_map g Walked.walk_failed = refl
outcome-walked_map g Walked.raised = refl

-- A best-effort walk that does not raise completes with some dictionary.
quiet-best_effort {ℓ} :
    {A : Type ℓ} (w : Walked (List A))
    → is_raised w ≡ false
    → (d : List A) × (best_effort w ≡ Walked.complete d)
quiet-best_effort (Walked.complete d) h = (d, refl)
quiet-best_effort Walked.walk_failed h = ([], refl)
quiet-best_effort Walked.raised h = absurd (ground arith)

-- The fields of an entry that the required columns give.
abbrev pub arp_fields : SnmpArpTableEntry → ℤ × Text × Text
arp_fields entry = (entry.interface_index, entry.ip_address, entry.mac_address)

abbrev pub fdb_fields : SnmpBridgeFdbEntry → Text × ℤ
fdb_fields entry = (entry.mac_address, entry.port)

abbrev pub lldp_fields : SnmpLldpNeighborEntry → ℤ × ℤ × ℤ × Text
lldp_fields entry =
    (entry.local_port_num, entry.rem_index, entry.chassis_id_subtype, entry.chassis_id)

module _ {V : Type 0} (reading : Reading V) where
  arp_entry-agree :
      (types types' : List ((ℤ × Text) × V)) (row : (ℤ × Text) × V)
      → walked_map arp_fields (arp_entry reading types row)
        ≡ walked_map arp_fields (arp_entry reading types' row)
  unfolding arp_entry
  arp_entry-agree types types' (key, value) = elim (Option-cases (reading.bytes value)) [
    | inl e ↦ rw e refl
    | inr (mac, e) ↦ rw e refl
  ]

  -- The ARP query on what its two walks give.
  unfoldable pub arp_query :
      Bool
      → Walked (List ((ℤ × Text) × V))
      → Walked (List ((ℤ × Text) × V))
      → Walked (List SnmpArpTableEntry)
  unfolding for_each arp_entry
  arp_query transport macs types = do
    _ ← create_transport transport
    mac_by_key ← macs
    type_by_key ← best_effort types
    for_each (arp_entry reading type_by_key) mac_by_key

  arp_query-agree :
      (transport : Bool) (macs types types' : Walked (List ((ℤ × Text) × V)))
      → is_raised types ≡ false
      → is_raised types' ≡ false
      → walked_map arp_fields (arp_query transport macs types)
        ≡ walked_map arp_fields (arp_query transport macs types')
  unfolding arp_query
  arp_query-agree false macs types types' q q' = refl
  arp_query-agree true Walked.walk_failed types types' q q' = refl
  arp_query-agree true Walked.raised types types' q q' = refl
  arp_query-agree true (Walked.complete macs) types types' q q' =
      let (d, e) = quiet-best_effort types q in
      let (d', e') = quiet-best_effort types' q' in
      rw e (
        rw e' (
          for_each-agree arp_fields (arp_entry reading d) (arp_entry reading d')
            (arp_entry-agree d d') macs))

  -- A walk of the types that raises makes the query fail when the required walk was complete.
  arp_query-outcome :
      (transport : Bool) (macs types types' : Walked (List ((ℤ × Text) × V)))
      → is_raised types' ≡ false
      → outcome (walked_map arp_fields (arp_query transport macs types)) ≡ (
          if is_raised types && is_complete macs
          then failed_with malformed
          else outcome (walked_map arp_fields (arp_query transport macs types')))
  unfolding arp_query
  arp_query-outcome transport macs (Walked.complete d) types' q' =
      ap outcome (arp_query-agree transport macs (Walked.complete d) types' refl q')
  arp_query-outcome transport macs Walked.walk_failed types' q' =
      ap outcome (arp_query-agree transport macs Walked.walk_failed types' refl q')
  arp_query-outcome true (Walked.complete macs) Walked.raised types' q' = refl
  arp_query-outcome true Walked.walk_failed Walked.raised types' q' = refl
  arp_query-outcome true Walked.raised Walked.raised types' q' = refl
  arp_query-outcome false (Walked.complete macs) Walked.raised types' q' = refl
  arp_query-outcome false Walked.walk_failed Walked.raised types' q' = refl
  arp_query-outcome false Walked.raised Walked.raised types' q' = refl

  fdb_rows-agree :
      (statuses statuses' : List (Text × V)) (ports : List (Text × V))
      → map fdb_fields (map (fdb_entry reading statuses) ports)
        ≡ map fdb_fields (map (fdb_entry reading statuses') ports)
  unfolding fdb_entry
  fdb_rows-agree statuses statuses' [] = refl
  fdb_rows-agree statuses statuses' ((mac, port) ∷ ports) =
      ap (λ rows. (mac, as_int reading (some port)) ∷ rows)
        (fdb_rows-agree statuses statuses' ports)

  unfoldable pub fdb_query :
      Bool → Walked (List (Text × V)) → Walked (List (Text × V)) → Walked (List SnmpBridgeFdbEntry)
  unfolding fdb_entry
  fdb_query transport ports statuses = do
    _ ← create_transport transport
    port_by_mac ← ports
    status_by_mac ← best_effort statuses
    Walked.complete (map (fdb_entry reading status_by_mac) port_by_mac)

  fdb_query-agree :
      (transport : Bool) (ports statuses statuses' : Walked (List (Text × V)))
      → is_raised statuses ≡ false
      → is_raised statuses' ≡ false
      → walked_map fdb_fields (fdb_query transport ports statuses)
        ≡ walked_map fdb_fields (fdb_query transport ports statuses')
  unfolding fdb_query
  fdb_query-agree false ports statuses statuses' q q' = refl
  fdb_query-agree true Walked.walk_failed statuses statuses' q q' = refl
  fdb_query-agree true Walked.raised statuses statuses' q q' = refl
  fdb_query-agree true (Walked.complete ports) statuses statuses' q q' =
      let (d, e) = quiet-best_effort statuses q in
      let (d', e') = quiet-best_effort statuses' q' in
      rw e (rw e' (ap Walked.complete (fdb_rows-agree d d' ports)))

  fdb_query-outcome :
      (transport : Bool) (ports statuses statuses' : Walked (List (Text × V)))
      → is_raised statuses' ≡ false
      → outcome (walked_map fdb_fields (fdb_query transport ports statuses)) ≡ (
          if is_raised statuses && is_complete ports
          then failed_with malformed
          else outcome (walked_map fdb_fields (fdb_query transport ports statuses')))
  unfolding fdb_query
  fdb_query-outcome transport ports (Walked.complete d) statuses' q' =
      ap outcome (fdb_query-agree transport ports (Walked.complete d) statuses' refl q')
  fdb_query-outcome transport ports Walked.walk_failed statuses' q' =
      ap outcome (fdb_query-agree transport ports Walked.walk_failed statuses' refl q')
  fdb_query-outcome true (Walked.complete ports) Walked.raised statuses' q' = refl
  fdb_query-outcome true Walked.walk_failed Walked.raised statuses' q' = refl
  fdb_query-outcome true Walked.raised Walked.raised statuses' q' = refl
  fdb_query-outcome false (Walked.complete ports) Walked.raised statuses' q' = refl
  fdb_query-outcome false Walked.walk_failed Walked.raised statuses' q' = refl
  fdb_query-outcome false Walked.raised Walked.raised statuses' q' = refl

  -- The walks of the four columns.
  abbrev pub arp_walk : Agent V → Walked (List ((ℤ × Text) × V))
  arp_walk agent = walk_column reading arp_phys_address_oid (agent.column arp_phys_address_oid)

  abbrev pub type_walk : Agent V → Walked (List ((ℤ × Text) × V))
  type_walk agent = walk_column reading arp_type_oid (agent.column arp_type_oid)

  abbrev pub port_walk : Agent V → Walked (List (Text × V))
  port_walk agent = walk_bridge_fdb_column reading fdb_port_oid (agent.column fdb_port_oid)

  abbrev pub status_walk : Agent V → Walked (List (Text × V))
  status_walk agent = walk_bridge_fdb_column reading fdb_status_oid (agent.column fdb_status_oid)

  -- Take an agent, and a second one with the same transport and the same required column of the ARP table and of the forwarding
  -- table, on which the walks of the types and of the statuses do not raise. Whatever the walk of
  -- the types yields on the first agent, the required fields of its ARP table, and the reason of a
  -- failure, are those of the second agent, unless that walk raises after a complete walk of
  -- the hardware addresses: then the table is a malformed response without entries. It is the
  -- same for the walk of the statuses and the forwarding table.
  pub query-best_effort :
      (agent agent' : Agent V)
      → agent.has_transport ≡ agent'.has_transport
      → agent.column arp_phys_address_oid ≡ agent'.column arp_phys_address_oid
      → agent.column fdb_port_oid ≡ agent'.column fdb_port_oid
      → is_raised (type_walk agent') ≡ false
      → is_raised (status_walk agent') ≡ false
      → (result_map arp_fields (get_arp_table reading agent) ≡ (
          if is_raised (type_walk agent) && is_complete (arp_walk agent)
          then failed_with malformed
          else result_map arp_fields (get_arp_table reading agent')))
        × (result_map fdb_fields (get_bridge_fdb reading agent) ≡ (
            if is_raised (status_walk agent) && is_complete (port_walk agent)
            then failed_with malformed
            else result_map fdb_fields (get_bridge_fdb reading agent')))
  unfolding get_arp_table query_arp_table get_bridge_fdb query_bridge_fdb arp_query fdb_query
  query-best_effort agent agent' t a f qa qf =
      let arp = λ (b : Bool) (c : List (Response V)).
        walked_map arp_fields
          (arp_query b (walk_column reading arp_phys_address_oid c) (type_walk agent')) in
      let fdb = λ (b : Bool) (c : List (Response V)).
        walked_map fdb_fields
          (fdb_query b (walk_bridge_fdb_column reading fdb_port_oid c) (status_walk agent')) in
      (
        outcome-walked_map arp_fields (query_arp_table reading agent)
            ∙ arp_query-outcome agent.has_transport (arp_walk agent) (type_walk agent)
                (type_walk agent') qa
            ∙ ap (unless_malformed (is_raised (type_walk agent) && is_complete (arp_walk agent))) (
                ap outcome (ap₂ arp t a)
                ∙ sym (outcome-walked_map arp_fields (query_arp_table reading agent'))),
        outcome-walked_map fdb_fields (query_bridge_fdb reading agent)
            ∙ fdb_query-outcome agent.has_transport (port_walk agent) (status_walk agent)
                (status_walk agent') qf
            ∙ ap (unless_malformed (is_raised (status_walk agent) && is_complete (port_walk agent)))
                (ap outcome (ap₂ fdb t f)
                  ∙ sym (outcome-walked_map fdb_fields (query_bridge_fdb reading agent'))),
      )
