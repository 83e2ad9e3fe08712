-- ===== src/Brokerage/Provision.antt =====
-- src/services/mqtt_brokerage/mosquitto_brokerage_service.rs: the broker's TLS certificate.
-- `show_ip` stands for the printing of an address, an unsigned number of 32 or 128 bits. The files
-- that are written come back with the result.
use place_net_hamlet.Common.{
  ℕ, ◌/◌, ◌^◌, List, [], ◌∷◌, ◌++◌, map, Option, none, some, Bool, ok, err, Text, utf8, ◌==◌,
  if◌then◌else◌,
}
use place_net_hamlet.Supervisor.{Reply}
use place_net_hamlet.Common.Disk.{Disk, Files, create_parent, write_then}
use place_net_hamlet.Config.Types.{MqttBrokerageConfig}
use place_net_hamlet.Ca.Operations.{Rcgen}
use place_net_hamlet.Ca.Service.{Call, CaService, ca_cert_pem, generate_broker_cert}

pub data IpAddr : Type 0 where
  v4 v6 : ℕ → IpAddr

-- `is_loopback`: 127.0.0.0/8, and ::1.
unfoldable pub is_loopback : IpAddr → Bool
is_loopback (v4 ip) = ip / 2 ^ 24 == 127
is_loopback (v6 ip) = ip == 1

-- An entry of `getifaddrs`: without an address, of a family that is left out, or with an address.
pub data Interface : Type 0 where
  no_address other_family : Interface
  inet : IpAddr → Interface

-- The loop over the entries.
unfoldable pub interface_ips : List Interface → List IpAddr
unfolding is_loopback
interface_ips [] = []
interface_ips (no_address ∷ is) = interface_ips is
interface_ips (other_family ∷ is) = interface_ips is
interface_ips (inet ip ∷ is) =
    let rest = interface_ips is in if is_loopback ip then rest else ip ∷ rest

abbrev pub localhost : IpAddr
localhost = v4 0x7f000001

-- `none` where `getifaddrs` fails.
unfoldable pub get_local_ips : Option (List Interface) → List IpAddr
unfolding interface_ips
get_local_ips none = localhost ∷ []
get_local_ips (some is) = interface_ips is ++ localhost ∷ []

unfoldable pub san_ips : (IpAddr → Text) → Option (List Interface) → MqttBrokerageConfig → List Text
unfolding get_local_ips
san_ips show_ip interfaces cfg = elim cfg.san_ips [
  | [] ↦ map show_ip (get_local_ips interfaces)
  | ip ∷ ips ↦ ip ∷ ips
]

unfoldable pub san_hostnames : MqttBrokerageConfig → List Text
san_hostnames cfg = utf8 "localhost" ∷ cfg.san_hostnames

module _ {K C Q : Type 0} (rcgen : Rcgen K C Q) (disk : Disk) (show_ip : IpAddr → Text) where
  -- The two files of the broker's identity.
  unfoldable pub write_identity : MqttBrokerageConfig → Text → Text → Files → Files × Reply
  unfolding write_then
  write_identity cfg cert_pem key_pem =
      write_then disk (utf8 "Failed to write broker cert: ") cfg.certfile cert_pem (
        write_then disk (utf8 "Failed to write broker key: ") cfg.keyfile key_pem
          (λ files. (files, ok tt)))

  -- What follows once the authority's certificate is written.
  unfoldable pub issue_identity :
      Call K → Option (List Interface) → CaService K C → MqttBrokerageConfig → Files → Files × Reply
  unfolding write_identity san_ips san_hostnames
  issue_identity c interfaces ca cfg files =
      elim (generate_broker_cert rcgen c (san_ips show_ip interfaces cfg) (san_hostnames cfg) ca) [
        | err e ↦ (files, err e)
        | ok identity ↦ write_identity cfg identity.0 identity.1 files
      ]

  unfoldable pub provision_mqtt_broker_cert :
      Call K → Option (List Interface) → CaService K C → MqttBrokerageConfig → Files → Files × Reply
  unfolding create_parent write_then issue_identity
  provision_mqtt_broker_cert c interfaces ca cfg files =
      elim (create_parent disk (utf8 "Failed to create broker cert dir: ") cfg.certfile) [
        | err e ↦ (files, err e)
        | ok _ ↦ elim (ca_cert_pem rcgen ca) [
          | err e ↦ (files, err e)
          | ok root ↦
              write_then disk (utf8 "Failed to write broker CA cert: ") cfg.cafile root
                (issue_identity c interfaces ca cfg) files
        ]
      ]
