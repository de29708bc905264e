-- ===== src/Project/Services.antt =====
-- networkmapper/project/serializer.py: a device saved and loaded.
use network_mapper.Prelude.{◌≡◌, refl, Option, none, some, List, [], ◌∷◌, map}
use network_mapper.Devices.{Device, DeviceType, ServiceEvidence}
use network_mapper.Prelude.Eq.{list_beq}
use network_mapper.Prelude.Text.{Text}
use network_mapper.Project.Loading.{as_optional, as_text, as_type, each, load_device, load_service}
use network_mapper.Project.Saving.{device_payload, optional, service_payload, type_value}
use network_mapper.Replay.Json.{Json, items}

as_optional-optional : (o : Option Text) → as_optional (some (optional o)) ≡ some o
unfolding as_optional
as_optional-optional none = refl
as_optional-optional (some s) = refl

as_type-type_value : (t : DeviceType) → as_type (some (Json.string (type_value t))) ≡ some t
unfolding as_type list_beq
as_type-type_value DeviceType.unknown = refl
as_type-type_value DeviceType.router = refl
as_type-type_value DeviceType.switch = refl
as_type-type_value DeviceType.firewall = refl
as_type-type_value DeviceType.server = refl
as_type-type_value DeviceType.workstation = refl
as_type-type_value DeviceType.printer = refl
as_type-type_value DeviceType.phone = refl
as_type-type_value DeviceType.access_point = refl
as_type-type_value DeviceType.hypervisor = refl
as_type-type_value DeviceType.camera = refl

-- What each item loads to is what it was saved from.
pub each-map {ℓ} :
    {A : Type ℓ} (f : Json → Option A) (g : A → Json)
    → ((a : A) → f (g a) ≡ some a)
    → (xs : List A) → each f (items (map g xs)) ≡ some xs
unfolding each
each-map f g h [] = refl
each-map f g h (x ∷ xs) = rw (h x) (rw (each-map f g h xs) refl)

load_service-service_payload : (e : ServiceEvidence) → load_service (service_payload e) ≡ some e
unfolding load_service list_beq
load_service-service_payload e = rw (as_optional-optional e.service) (
    rw (as_optional-optional e.product) (
      rw (as_optional-optional e.version) (
        rw (as_optional-optional e.http_title) (
          rw (as_optional-optional e.tls_subject) (
            rw (as_optional-optional e.tls_issuer)
              (rw (as_optional-optional e.http_auth_realm) refl))))))

pub load_device-device_payload : (d : Device) → load_device (device_payload d) ≡ some d
unfolding load_device list_beq
load_device-device_payload d = rw (as_optional-optional d.hostname) (
    rw (as_optional-optional d.mac_address) (
      rw (as_optional-optional d.vendor) (
        rw (as_optional-optional d.operating_system) (
          rw (as_optional-optional d.computer_name) (
            rw (as_optional-optional d.domain) (
              rw (as_optional-optional d.smb_signing) (
                rw (as_optional-optional d.snmp_sys_descr) (
                  rw (as_optional-optional d.snmp_sys_object_id) (
                    rw (as_optional-optional d.snmp_sys_uptime) (
                      rw (as_optional-optional d.snmp_sys_contact) (
                        rw (as_optional-optional d.snmp_sys_location) (
                          rw
                            (each-map load_service service_payload load_service-service_payload
                              d.services)
                            (rw (as_type-type_value d.device_type) (
                              rw
                                (each-map (λ x. as_text (some x)) Json.string (λ t. refl)
                                  d.discovery_sources)
                                refl))))))))))))))
