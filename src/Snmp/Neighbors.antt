-- ===== src/Snmp/Neighbors.antt =====
-- networkmapper/discovery/snmp_client.py: `_get_lldp_neighbors` and `get_lldp_neighbors`.
use network_mapper.Prelude.{Option, none, some, List, [], ◌∷◌}
use network_mapper.Prelude.Decimal.{int_eq, ℤ}
use network_mapper.Prelude.Eq.{list_eq, nat_eq, option_eq, pair_eq}
use network_mapper.Prelude.Sets.{lookup}
use network_mapper.Prelude.Text.{Text, codes}
use network_mapper.Snmp.Client.{Agent, create_transport, outcome}
use network_mapper.Snmp.Results.{SnmpLldpNeighborEntry, SnmpResult, lldp_man_addr_oid, lldp_rem_oid}
use network_mapper.Snmp.Rows.{RemKey, rem_key_eq}
use network_mapper.Snmp.Values.{Reading, as_int, as_optional_text, format_lldp_chassis_id}
use network_mapper.Snmp.Walks.{
  Walked, best_effort, for_each, or_raise, walk_lldp_column, walk_lldp_man_addr_table, ◌>>=◌,
}

-- The dictionaries of the columns that are not required.
pub record LldpColumns (V : Type 0) : Type 0 where
  pub port_id_subtype : List (RemKey × V)
  pub port_id : List (RemKey × V)
  pub port_desc : List (RemKey × V)
  pub sys_name : List (RemKey × V)
  pub sys_desc : List (RemKey × V)
  pub sys_cap_supported : List (RemKey × V)
  pub sys_cap_enabled : List (RemKey × V)
  pub management_addresses : List (RemKey × List Text)

abbrev pub items_or_empty : Option (List Text) → List Text
items_or_empty none = []
items_or_empty (some addresses) = addresses

module _ {V : Type 0} (reading : Reading V) where
  abbrev pub lldp_column : Agent V → Text → Walked (List (RemKey × V))
  lldp_column agent last =
      let oid = lldp_rem_oid last in walk_lldp_column reading oid (agent.column oid)

  -- The walks of `_get_lldp_neighbors` after the two that are required.
  unfoldable pub lldp_columns : Agent V → Walked (LldpColumns V)
  unfolding walk_lldp_column walk_lldp_man_addr_table
  lldp_columns agent = do
    a ← best_effort (lldp_column agent (codes "6"))
    b ← best_effort (lldp_column agent (codes "7"))
    c ← best_effort (lldp_column agent (codes "8"))
    d ← best_effort (lldp_column agent (codes "9"))
    e ← best_effort (lldp_column agent (codes "10"))
    f ← best_effort (lldp_column agent (codes "11"))
    g ← best_effort (lldp_column agent (codes "12"))
    h ← walk_lldp_man_addr_table reading (agent.column lldp_man_addr_oid)
    Walked.complete (record {
      port_id_subtype = a;
      port_id = b;
      port_desc = c;
      sys_name = d;
      sys_desc = e;
      sys_cap_supported = f;
      sys_cap_enabled = g;
      management_addresses = h;
    })

  -- The entry of a row with the chassis ID `chassis_id`.
  abbrev pub neighbor : LldpColumns V → RemKey → ℤ → Text → SnmpLldpNeighborEntry
  neighbor columns key subtype chassis_id = record {
    local_port_num = key.1;
    rem_index = key.2;
    chassis_id_subtype = subtype;
    chassis_id = chassis_id;
    port_id_subtype = as_int reading (lookup key columns.port_id_subtype);
    port_id = as_optional_text reading (lookup key columns.port_id);
    port_desc = as_optional_text reading (lookup key columns.port_desc);
    sys_name = as_optional_text reading (lookup key columns.sys_name);
    sys_desc = as_optional_text reading (lookup key columns.sys_desc);
    sys_cap_supported = as_optional_text reading (lookup key columns.sys_cap_supported);
    sys_cap_enabled = as_optional_text reading (lookup key columns.sys_cap_enabled);
    management_addresses = items_or_empty (lookup key columns.management_addresses);
  }

  abbrev pub neighbor_of : LldpColumns V → RemKey → ℤ → Option Text → List SnmpLldpNeighborEntry
  neighbor_of columns key subtype none = []
  neighbor_of columns key subtype (some chassis_id) = neighbor columns key subtype chassis_id ∷ []

  -- The body of the loop over `subtype_by_key`, after the look-up of the chassis ID.
  unfoldable pub lldp_row :
      LldpColumns V → RemKey → V → Option V → Walked (List SnmpLldpNeighborEntry)
  unfolding as_int as_optional_text format_lldp_chassis_id
  lldp_row columns key subtype_value none = Walked.complete []
  lldp_row columns key subtype_value (some chassis_value) = do
    raw ← or_raise (reading.bytes chassis_value)
    let subtype = as_int reading (some subtype_value)
    Walked.complete (neighbor_of columns key subtype (format_lldp_chassis_id subtype raw))

  -- `_get_lldp_neighbors`
  unfoldable pub query_lldp_neighbors : Agent V → Walked (List SnmpLldpNeighborEntry)
  unfolding lldp_columns lldp_row walk_lldp_column for_each
  query_lldp_neighbors agent = do
    _ ← create_transport agent.has_transport
    subtype_by_key ← lldp_column agent (codes "4")
    chassis_id_by_key ← lldp_column agent (codes "5")
    columns ← lldp_columns agent
    for_each (λ row. lldp_row columns row.0 row.1 (lookup row.0 chassis_id_by_key)) subtype_by_key

  -- `get_lldp_neighbors`
  unfoldable pub get_lldp_neighbors : Agent V → SnmpResult SnmpLldpNeighborEntry
  unfolding query_lldp_neighbors
  get_lldp_neighbors agent = outcome (query_lldp_neighbors agent)
