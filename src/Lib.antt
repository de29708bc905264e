-- ===== src/Lib.antt =====
-- NetworkMapper discovers the devices of a network, retains what its providers observed, resolves the
-- observations to canonical identities and relationships, and classifies the devices. This library
-- models the parts that decide: they are pure functions of their input, so each operation is a function
-- by clauses, and a raised error is a value.
--
-- The parts, the files that model them, and how they interact:
--
--   * Observations: networkmapper/observations/models.py and provenance.py. Providers report identity
--     observations (subject, property, value) and relationship observations (subject, category, related
--     subject), each with its provenance. The resolvers below read them and nothing else.
--   * Identity, with Identity/Order, Identity/Evidence and Identity/States:
--     networkmapper/identity/models.py and resolver.py. `resolve` groups the observations by subject
--     and by property, and gives each property and each subject a corroboration state.
--   * MacIndex: networkmapper/identity/mac_index.py, the index from a MAC to its subjects.
--   * Relationships, with its modules: networkmapper/relationships/categories.py, models.py and
--     resolver.py. `resolve` takes the policy, the observations and the identities that the identity
--     resolver returned. `construct` is the constructor of `CanonicalRelationship` with the
--     `ValueError`s that `__post_init__` raises as results.
--   * Devices: networkmapper/core/models.py and classification/rule_result.py.
--   * Classification: networkmapper/classification. Evidence is evidence_helpers.py; Hosts, Appliances,
--     Vendors and Printers are the fourteen rules of rules/; Classifier is device_classifier.py, with
--     `classify` returning the device and what `get_last_rule_results` returns after the call.
--   * Graph: networkmapper/core/network_graph.py, the devices by address.
--   * Comparison: networkmapper/comparison/project_comparator.py, the changes between two graphs.
--   * Engine: networkmapper/discovery/discovery_engine.py. `discover` runs the discovery providers, the
--     enrichment providers, and the classifier over the graph. A provider is what its calls return: a
--     discovery provider `none` when one raises, an enrichment provider a function on observations
--     and devices that gives the devices as it leaves them, what it publishes, and its observations,
--     `none` when one raises. The events, without their time and texts, are those that the enrichment
--     providers and the classification publish on the bus; those of the discovery providers are left out.
--   * Snmp: networkmapper/discovery/snmp_client.py. Values are the formats of a value, Rows the parsers of a
--     row's object identifier, Results the entries and constants, Walks the four column walks, Client
--     and Neighbors the four queries. An agent is what pysnmp and one device do in a query: whether
--     the transport can be created, the answer to the GET, and the responses of each walk, where
--     an exception is a response. A value is of any type with a `Reading`.
--   * Enrichment: networkmapper/discovery/arp_neighbor_provider.py (Arp), bridge_fdb_provider.py (Fdb),
--     lldp_neighbor_provider.py (Lldp) and snmp_provider.py (SystemGroup). The first three run the same
--     loop, `enrich`, over the addresses of the devices, with the `Collection` of the provider; they
--     never change a device; Discovery has them as providers of the Engine. A client is the result of its query for an address, `none` when it raises.
--   * Replay: networkmapper/observations/replay_format.py. Json is the tree of a document, Writer
--     `serialize_observations`, Reader `parse_observations` with its errors as values, Timestamps
--     the texts that `datetime.isoformat` returns.
--   * Project: networkmapper/project/models.py and serializer.py. Saving is the payload of `save`, Loading what
--     `load` makes of a payload; one whose values have other types than the classes declare, or whose
--     dates are no texts of a `datetime`, is refused, where Python stores what it reads.
--   * Presentation: networkmapper/reporting/canonical_presentation.py, the view of the resolved identities
--     and relationships that the exporters render; the graph only adds the devices.
--   * Diagnostics: networkmapper/discovery/run_diagnostics.py (`diagnose_host`) and
--     reporting/discovery_summary.py, what a run found on each host and its counts.
--   * Runtime: networkmapper/runtime/events.py and telemetry.py, the bus and the recorder of the phases.
--   * Prelude: lists, dictionaries, sorting, grouping, texts and their lemmas. Samples: test data.
--
-- Conventions. A text is the list of its code points; `lower` and `upper` change ASCII letters only,
-- so host names and vendors with other letters are compared as they are. A `dict` is the list of its
-- items in insertion order, a `set` the list of its distinct members in insertion order, which is read
-- by its length and its members only. `sorted` is a stable insertion sort by a key with a total
-- order. A `datetime` is its ISO text. The reason of a rule is the list of the pieces of its f-string,
-- with `repr` of a value as a piece of its own; pieces that stand next to each other are not joined.
-- Every loop of the source runs over a finite list and is a structural recursion. The one fuel is that of
-- `str(n)`, whose recursion on n / 10 has n + 1 steps, which is enough as n / 10 is below n. A number
-- that is read as a decimal has ASCII digits; `int` also reads other digits, which do not occur in
-- the object identifiers that pysnmp prints.
--
-- Not modelled: the nmap provider, the knowledge base, the text of json documents, files, the rendering of runtime
-- events, the other reports, exporters, benchmarks and the command line: they stand at the border to sockets, files
-- and terminals, or wait for a later module.
pub mod Prelude
mod Samples
pub mod Observations
pub mod Identity
pub mod MacIndex
pub mod Relationships
pub mod Devices
pub mod Classification
pub mod Graph
pub mod Comparison
pub mod Engine
pub mod Snmp
pub mod Enrichment
pub mod Replay
pub mod Project
pub mod Presentation
pub mod Runtime
pub mod Diagnostics
