-- ===== src/Project/Saving.antt =====
-- networkmapper/project/serializer.py: `ProjectSerializer.save`, up to the printing of the payload.
use network_mapper.Prelude.{Option, none, some, [], ◌∷◌, map}
use network_mapper.Devices.{Device, DeviceType, ServiceEvidence}
use network_mapper.Graph.{all_devices}
use network_mapper.Prelude.Decimal.{ℤ}
use network_mapper.Prelude.Text.{Text, codes}
use network_mapper.Project.{Project}
use network_mapper.Replay.Json.{Json, fields, items}

abbrev pub optional : Option Text → Json
optional none = Json.null
optional (some s) = Json.string s

-- `DeviceType.value`
abbrev pub type_value : DeviceType → Text
type_value DeviceType.unknown = codes "unknown"
type_value DeviceType.router = codes "router"
type_value DeviceType.switch = codes "switch"
type_value DeviceType.firewall = codes "firewall"
type_value DeviceType.server = codes "server"
type_value DeviceType.workstation = codes "workstation"
type_value DeviceType.printer = codes "printer"
type_value DeviceType.phone = codes "phone"
type_value DeviceType.access_point = codes "access_point"
type_value DeviceType.hypervisor = codes "hypervisor"
type_value DeviceType.camera = codes "camera"

abbrev pub service_payload : ServiceEvidence → Json
service_payload e = Json.object (
    fields (
      (codes "port", Json.integer (ℤ.pos e.port))
      ∷ (codes "protocol", Json.string e.protocol)
      ∷ (codes "service", optional e.service)
      ∷ (codes "product", optional e.product)
      ∷ (codes "version", optional e.version)
      ∷ (codes "http_title", optional e.http_title)
      ∷ (codes "tls_subject", optional e.tls_subject)
      ∷ (codes "tls_issuer", optional e.tls_issuer)
      ∷ (codes "http_auth_realm", optional e.http_auth_realm)
      ∷ []))

abbrev pub device_payload : Device → Json
device_payload d = Json.object (
    fields (
      (codes "ip_address", Json.string d.ip_address)
      ∷ (codes "hostname", optional d.hostname)
      ∷ (codes "mac_address", optional d.mac_address)
      ∷ (codes "vendor", optional d.vendor)
      ∷ (codes "operating_system", optional d.operating_system)
      ∷ (codes "computer_name", optional d.computer_name)
      ∷ (codes "domain", optional d.domain)
      ∷ (codes "smb_signing", optional d.smb_signing)
      ∷ (codes "snmp_sys_descr", optional d.snmp_sys_descr)
      ∷ (codes "snmp_sys_object_id", optional d.snmp_sys_object_id)
      ∷ (codes "snmp_sys_uptime", optional d.snmp_sys_uptime)
      ∷ (codes "snmp_sys_contact", optional d.snmp_sys_contact)
      ∷ (codes "snmp_sys_location", optional d.snmp_sys_location)
      ∷ (codes "services", Json.array (items (map service_payload d.services)))
      ∷ (codes "device_type", Json.string (type_value d.device_type))
      ∷ (codes "discovery_sources", Json.array (items (map Json.string d.discovery_sources)))
      ∷ []))

-- The payload that `save` dumps.
unfoldable pub save : Project → Json
unfolding all_devices
save project = Json.object (
    fields (
      (codes "customer_name", Json.string project.customer_name)
      ∷ (codes "created_date", Json.string project.created_date)
      ∷ (codes "modified_date", Json.string project.modified_date)
      ∷ (
        codes "devices",
        Json.array (items (map device_payload (all_devices project.network_graph))),
      )
      ∷ []))
