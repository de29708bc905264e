-- ===== src/Project/Loading.antt =====
-- networkmapper/project/serializer.py: `ProjectSerializer.load`, from the payload that `json.load` reads.
-- `none` is an exception, or a field whose value has not the type that its class declares: Python would
-- store such a value as it is.
use network_mapper.Prelude.{ℕ, Option, none, some, List, [], ◌∷◌, if◌then◌else◌}
use network_mapper.Devices.{Device, DeviceType, ServiceEvidence}
use network_mapper.Graph.{add_devices, empty_graph}
use network_mapper.Prelude.Decimal.{int_eq, ℤ}
use network_mapper.Prelude.Eq.{list_eq, nat_eq, option_eq, pair_eq}
use network_mapper.Prelude.Sets.{lookup}
use network_mapper.Prelude.Text.{Text, codes}
use network_mapper.Project.{Project}
use network_mapper.Replay.Json.{Fields, Items, Json, get}
use network_mapper.Replay.Timestamps.{is_canonical_timestamp}
use network_mapper.Snmp.Rows.{rem_key_eq}

infixl 5 ◌>>=◌
abbrev ◌>>=◌ {ℓ κ} : {A : Type ℓ} {B : Type κ} → Option A → (A → Option B) → Option B
none >>= f = none
some a >>= f = f a

abbrev pub as_text : Option Json → Option Text
as_text (some (Json.string s)) = some s
as_text _ = none

-- `payload.get(key)` of an optional string
unfoldable pub as_optional : Option Json → Option (Option Text)
as_optional none = some none
as_optional (some Json.null) = some none
as_optional (some (Json.string s)) = some (some s)
as_optional (some _) = none

abbrev pub as_port : Option Json → Option ℕ
as_port (some (Json.integer (ℤ.pos n))) = some n
as_port _ = none

abbrev pub as_fields : Option Json → Option Fields
as_fields (some (Json.object fs)) = some fs
as_fields _ = none

-- `payload.get(key, [])`
abbrev pub as_items : Option Json → Option Items
as_items none = some Items.no_items
as_items (some (Json.array xs)) = some xs
as_items (some _) = none

-- The comprehension over the items whose body may fail.
unfoldable pub each {ℓ} : {A : Type ℓ} → (Json → Option A) → Items → Option (List A)
each f Items.no_items = some []
each f (Items.item x xs) = do y ← f x; ys ← each f xs; some (y ∷ ys)

abbrev pub values_of_type : List (Text × DeviceType)
values_of_type =
    (codes "unknown", DeviceType.unknown)
    ∷ (codes "router", DeviceType.router)
    ∷ (codes "switch", DeviceType.switch)
    ∷ (codes "firewall", DeviceType.firewall)
    ∷ (codes "server", DeviceType.server)
    ∷ (codes "workstation", DeviceType.workstation)
    ∷ (codes "printer", DeviceType.printer)
    ∷ (codes "phone", DeviceType.phone)
    ∷ (codes "access_point", DeviceType.access_point)
    ∷ (codes "hypervisor", DeviceType.hypervisor)
    ∷ (codes "camera", DeviceType.camera)
    ∷ []

-- `DeviceType(payload.get("device_type", DeviceType.UNKNOWN.value))`
unfoldable pub as_type : Option Json → Option DeviceType
as_type none = some DeviceType.unknown
as_type (some (Json.string s)) = lookup s values_of_type
as_type (some _) = none

unfoldable pub load_service : Json → Option ServiceEvidence
unfolding get as_optional
load_service j = do
  fs ← as_fields (some j)
  port ← as_port (get (codes "port") fs)
  protocol ← as_text (get (codes "protocol") fs)
  service ← as_optional (get (codes "service") fs)
  product ← as_optional (get (codes "product") fs)
  version ← as_optional (get (codes "version") fs)
  http_title ← as_optional (get (codes "http_title") fs)
  tls_subject ← as_optional (get (codes "tls_subject") fs)
  tls_issuer ← as_optional (get (codes "tls_issuer") fs)
  http_auth_realm ← as_optional (get (codes "http_auth_realm") fs)
  some (record {
    port = port;
    protocol = protocol;
    service = service;
    product = product;
    version = version;
    http_title = http_title;
    tls_subject = tls_subject;
    tls_issuer = tls_issuer;
    http_auth_realm = http_auth_realm;
  })

unfoldable pub load_device : Json → Option Device
unfolding get each load_service as_type
load_device j = do
  fs ← as_fields (some j)
  ip_address ← as_text (get (codes "ip_address") fs)
  hostname ← as_optional (get (codes "hostname") fs)
  mac_address ← as_optional (get (codes "mac_address") fs)
  vendor ← as_optional (get (codes "vendor") fs)
  operating_system ← as_optional (get (codes "operating_system") fs)
  computer_name ← as_optional (get (codes "computer_name") fs)
  domain ← as_optional (get (codes "domain") fs)
  smb_signing ← as_optional (get (codes "smb_signing") fs)
  snmp_sys_descr ← as_optional (get (codes "snmp_sys_descr") fs)
  snmp_sys_object_id ← as_optional (get (codes "snmp_sys_object_id") fs)
  snmp_sys_uptime ← as_optional (get (codes "snmp_sys_uptime") fs)
  snmp_sys_contact ← as_optional (get (codes "snmp_sys_contact") fs)
  snmp_sys_location ← as_optional (get (codes "snmp_sys_location") fs)
  service_items ← as_items (get (codes "services") fs)
  services ← each load_service service_items
  device_type ← as_type (get (codes "device_type") fs)
  source_items ← as_items (get (codes "discovery_sources") fs)
  discovery_sources ← each (λ x. as_text (some x)) source_items
  some (record {
    ip_address = ip_address;
    hostname = hostname;
    mac_address = mac_address;
    vendor = vendor;
    operating_system = operating_system;
    computer_name = computer_name;
    domain = domain;
    smb_signing = smb_signing;
    snmp_sys_descr = snmp_sys_descr;
    snmp_sys_object_id = snmp_sys_object_id;
    snmp_sys_uptime = snmp_sys_uptime;
    snmp_sys_contact = snmp_sys_contact;
    snmp_sys_location = snmp_sys_location;
    services = services;
    device_type = device_type;
    discovery_sources = discovery_sources;
  })

-- `datetime.fromisoformat`; a text that is no `isoformat()` is outside the model.
abbrev pub as_date : Option Json → Option Text
as_date found = do s ← as_text found; if is_canonical_timestamp s then some s else none

-- `load` of the payload.
unfoldable pub load : Json → Option Project
unfolding get each load_device add_devices is_canonical_timestamp
load j = do
  fs ← as_fields (some j)
  customer_name ← as_text (get (codes "customer_name") fs)
  created_date ← as_date (get (codes "created_date") fs)
  modified_date ← as_date (get (codes "modified_date") fs)
  device_items ← as_items (get (codes "devices") fs)
  devices ← each load_device device_items
  some (record {
    customer_name = customer_name;
    created_date = created_date;
    modified_date = modified_date;
    network_graph = add_devices devices empty_graph;
  })
