-- ===== src/Snmp.antt =====
-- networkmapper/discovery/snmp_client.py: the rows of the SNMP tables, the values of their columns,
-- the walks and the queries of a host.
pub mod Values
pub mod Rows
pub mod Results
pub mod Walks
pub mod Client
pub mod Neighbors
mod Octets
mod Texts
mod RoundTrip
mod BestEffort
mod Entries
mod Tests
