-- ===== src/Snmp/Walks.antt =====
-- networkmapper/discovery/snmp_client.py: `_walk_column`, `_walk_lldp_column`,
-- `_walk_lldp_man_addr_table` and `_walk_bridge_fdb_column`. What pysnmp's `walk_cmd` yields is a
-- parameter: the responses in their order, of which the last may be an exception.
use network_mapper.Prelude.{Option, none, some, List, [], ◌∷◌, ◌++◌, map, if◌then◌else◌}
use network_mapper.Prelude.Decimal.{int_eq, ℤ}
use network_mapper.Prelude.Dict.{assign}
use network_mapper.Prelude.Eq.{Eq, list_eq, nat_eq, option_eq, pair_eq}
use network_mapper.Prelude.Group.{put}
use network_mapper.Prelude.Text.{Text}
use network_mapper.Snmp.Results.{lldp_man_addr_oid}
use network_mapper.Snmp.Rows.{
  RemKey, parse_bridge_fdb_row, parse_ipv4_arp_row, parse_lldp_man_addr_row, parse_lldp_rem_row,
  rem_key_eq,
}
use network_mapper.Snmp.Values.{Reading}

-- One item of the generator: an error, the pairs of an identifier and a value, or an exception.
pub data Response {ℓ} (V : Type ℓ) : Type ℓ where
  error : Response V
  var_binds : List (Text × V) → Response V
  exception : Response V

-- How a walk ends: with its dictionary, with an error, or with an exception.
pub data Walked {ℓ} (D : Type ℓ) : Type ℓ where
  complete : D → Walked D
  walk_failed : Walked D
  raised : Walked D

module _ {ℓ} {V D : Type ℓ} (reading : Reading V) (read : Text → Option D) where
  unfoldable pub read_rows : List (Text × V) → List (D × V)
  read_rows [] = []
  read_rows ((name, value) ∷ rows) =
      let rest = read_rows rows in
      if reading.is_unresolved value
      then rest
      else elim (read name) [ none ↦ rest | some found ↦ (found, value) ∷ rest ]

  -- The rows that the loop handles, up to the error or the exception that ends it.
  unfoldable pub walk : List (Response V) → Walked (List (D × V))
  unfolding read_rows
  walk [] = Walked.complete []
  walk (Response.error ∷ responses) = Walked.walk_failed
  walk (Response.exception ∷ responses) = Walked.raised
  walk (Response.var_binds rows ∷ responses) = elim (walk responses) [
    | Walked.complete found ↦ Walked.complete (read_rows rows ++ found)
    | Walked.walk_failed ↦ Walked.walk_failed
    | Walked.raised ↦ Walked.raised
  ]

-- `x ← …`: a failed walk that is required ends the query, as an exception does.
infixl 5 ◌>>=◌
abbrev pub ◌>>=◌ {ℓ κ} : {A : Type ℓ} {B : Type κ} → Walked A → (A → Walked B) → Walked B
Walked.complete a >>= f = f a
Walked.walk_failed >>= f = Walked.walk_failed
Walked.raised >>= f = Walked.raised

-- `… or {}`
abbrev pub best_effort {ℓ} : {A : Type ℓ} → Walked (List A) → Walked (List A)
best_effort (Walked.complete d) = Walked.complete d
best_effort Walked.walk_failed = Walked.complete []
best_effort Walked.raised = Walked.raised

-- A conversion that may raise.
abbrev pub or_raise {ℓ} : {A : Type ℓ} → Option A → Walked A
or_raise none = Walked.raised
or_raise (some a) = Walked.complete a

-- The comprehension over the items whose body may raise or pass an item over.
unfoldable pub for_each {ℓ κ} :
    {A : Type ℓ} {B : Type κ} → (A → Walked (List B)) → List A → Walked (List B)
for_each f [] = Walked.complete []
for_each f (x ∷ xs) = do ys ← f x; more ← for_each f xs; Walked.complete (ys ++ more)

-- `values_by_key[parsed] = value` for each row.
unfoldable pub assign_all : {V K : Type 0} ⦃e : Eq K⦄ → List (K × V) → List (K × V) → List (K × V)
assign_all d [] = d
assign_all d ((key, value) ∷ rows) = assign_all (assign key value d) rows

abbrev pub dictionary : {V K : Type 0} ⦃e : Eq K⦄ → List (K × V) → Walked (List (K × V))
dictionary rows = Walked.complete (assign_all [] rows)

-- `addresses_by_key.setdefault(key, []).append(address)` for each row.
unfoldable pub put_all :
    {K : Type 0} ⦃e : Eq K⦄ → List (K × List Text) → List (K × Text) → List (K × List Text)
unfolding put
put_all d [] = d
put_all d ((key, address) ∷ rows) = put_all (put key address d) rows

module _ {V : Type 0} (reading : Reading V) where
  -- `_walk_column`, on what the walk of the column yields.
  unfoldable pub walk_column : Text → List (Response V) → Walked (List ((ℤ × Text) × V))
  unfolding walk
  walk_column column_oid responses = do
    rows ← walk reading (λ name. parse_ipv4_arp_row name column_oid) responses
    dictionary rows

  -- `_walk_lldp_column`
  unfoldable pub walk_lldp_column : Text → List (Response V) → Walked (List (RemKey × V))
  unfolding walk
  walk_lldp_column column_oid responses = do
    rows ← walk reading (λ name. parse_lldp_rem_row name column_oid) responses
    dictionary rows

  -- `_walk_bridge_fdb_column`
  unfoldable pub walk_bridge_fdb_column : Text → List (Response V) → Walked (List (Text × V))
  unfolding walk
  walk_bridge_fdb_column column_oid responses = do
    rows ← walk reading (λ name. parse_bridge_fdb_row name column_oid) responses
    dictionary rows

  -- `_walk_lldp_man_addr_table`: the addresses of each key, in the order of the rows.
  unfoldable pub walk_lldp_man_addr_table : List (Response V) → Walked (List (RemKey × List Text))
  unfolding walk
  walk_lldp_man_addr_table responses = best_effort (do
    rows ← walk reading (λ name. parse_lldp_man_addr_row name lldp_man_addr_oid) responses
    Walked.complete (put_all [] (map (λ row. row.0) rows)))
