-- ===== src/Examples/Devices.antt =====
-- The HTTP gateway (src/services/beacon_management) at concrete inputs.
use place_net_hamlet.Common.{
  ◌≡◌, refl, ◌⊎◌, ◌++◌, [], ◌∷◌, some, true, false, Result, ok, err, Text, text_eq, text_same, same,
  if◌then◌else◌, utf8, strip_prefix, starts_with, ends_with,
}
use place_net_hamlet.Config.Types.{HttpConfig}
use place_net_hamlet.Config.Env.{join}
use place_net_hamlet.MqttClient.{Broker}
use place_net_hamlet.Registry.{BeaconRegistry}
use place_net_hamlet.Gateway.Requests.{
  Request, Response, DeviceInfo, DeviceInitRequest, supported_version, header_init, header_register,
  header_health, header, json, init_request,
}
use place_net_hamlet.Gateway.Handlers.{
  World, TopicQueue, AppState, admit, init_body, handle_device_init,
}
use place_net_hamlet.Gateway.Dispatch.{contains_key, dispatch}
use place_net_hamlet.Gateway.Handshake.{with_ca_of, dispatch_changes}
use place_net_hamlet.Gateway.Admission.{admit_overwrites_ca}
use place_net_hamlet.Ca.Operations.{sign_request}
use place_net_hamlet.Ca.Service.{CaService, settle, sign_csr, ca_cert_pem, get_cert, is_revoked}
use place_net_hamlet.Gateway.Issuing.{with_ca, device_init_recorded}
use place_net_hamlet.Examples.Authority.{rcgen, call, ready}
use place_net_hamlet.Gateway.Service
use place_net_hamlet.Gateway.Service.{Host, GatewayService, initialize}
use place_net_hamlet.Gateway.Recovery.{tls_failure_blocks}

abbrev device : Text → DeviceInfo
device name = record {
  address = utf8 "10.0.0.7";
  mdns = record { hostname = name; port = 5353 };
  csr_pem = utf8 "csr";
}

-- Everything but the call of the authority succeeds here, and the device of every body calls itself `ca`.
abbrev outside : World (CaService Text Text)
outside = record {
  parse_device = λ bytes. ok (device (utf8 "ca"));
  parse_csr = λ bytes. ok (utf8 "csr");
  sign_csr = λ name csr ca. (ca, err (utf8 "no authority"));
  ca_cert_pem = λ ca. ok (utf8 "root");
  parent = λ path. some (utf8 "/etc/certs");
  write = λ path. ok tt;
}

-- With the authority everything succeeds.
abbrev pub world : World (CaService Text Text)
world = record outside {
  sign_csr = λ id csr ca. settle ca (sign_csr rcgen call id csr ca);
  ca_cert_pem = ca_cert_pem rcgen;
}

abbrev pub queue : TopicQueue
queue = record { capacity = 1; is_open = true; waiting = [] }

abbrev pub state : AppState (CaService Text Text)
state = record {
  ca = ready;
  brokerage_info = record { address = utf8 "localhost"; port = 8883; ca_cert_pem = utf8 "root" };
  brokerage = some (utf8 "/etc/certs/ca.crt");
  beacon_topic_tx = some queue;
  written = [];
}

abbrev pub request : Request
request = record {
  headers = (header_init, some supported_version) ∷ (utf8 "host", some (utf8 "hamlet:8080")) ∷ [];
  body = ok [];
}

abbrev bad_gateway : Request → Result Text Response
bad_gateway req = err (utf8 "connection refused")

dispatch_changes_example :
    let (s', resp) = dispatch world bad_gateway (utf8 "b1") request state in
    ((s' ≡ state)
      ⊎ ((contains_key header_health request ≡ false)
          × ((header header_init request ≡ some supported_version)
              ⊎ ((contains_key header_init request ≡ false)
                  × (contains_key header_register request ≡ true)))))
    × ((with_ca_of state s' ≡ state)
        ⊎ ((contains_key header_health request ≡ false)
            × (header header_init request ≡ some supported_version)
            × (resp.status ≡ 200)))
dispatch_changes_example = dispatch_changes world bad_gateway (utf8 "b1") request state

abbrev pub accepts : Broker
accepts command = ok tt

abbrev pub registry : BeaconRegistry
registry = record {
  records = [];
  known_gateways = [];
  broadcast_topics = [];
  sent = [];
  closed = [];
}

abbrev named_ca : DeviceInitRequest
named_ca = record {
  version = supported_version;
  broker_host = utf8 "hamlet";
  device = device (utf8 "ca");
}

admit_overwrites_ca_example :
    (admit world (utf8 "b1") named_ca state).0.written
    ≡ (utf8 "/etc/certs/ca.crt", utf8 "cert " ++ utf8 "csr") ∷ []
unfolding join utf8 strip_prefix starts_with ends_with sign_csr sign_request
admit_overwrites_ca_example =
    admit_overwrites_ca world (utf8 "b1") named_ca state (utf8 "/etc/certs/ca.crt")
      (utf8 "/etc/certs") (utf8 "cert " ++ utf8 "csr") refl refl refl refl refl refl

-- The port can be bound, but the TLS configuration cannot be built.
abbrev no_tls : Host
no_tls = record {
  bind = λ addr. ok tt;
  local_addr = ok (utf8 "0.0.0.0:8080");
  build_tls_config = err (utf8 "no key");
}

abbrev pub https : HttpConfig
https = record { host = utf8 "0.0.0.0"; port = 8080; tls_enabled = true; upstream_port = 3000 }

tls_failure_blocks_example :
    let (s', result) = Service.start no_tls (Service.new https) in
    let later : Host = record no_tls { build_tls_config = ok tt } in
    (result ≡ err (utf8 "no key"))
    × (s'.listening ≡ [])
    × ((Service.start later s').1 ≡ err (utf8 "GatewayService is already running"))
unfolding Service.new initialize
tls_failure_blocks_example =
    tls_failure_blocks no_tls (record no_tls { build_tls_config = ok tt }) (Service.new https)
      (utf8 "0.0.0.0:8080") (utf8 "no key") refl refl refl refl

abbrev pub parsed_ca : DeviceInitRequest
parsed_ca = record named_ca { broker_host = utf8 "hamlet" }

device_init_recorded_example :
    let (s', resp) = handle_device_init (with_ca rcgen call outside) (utf8 "b1") request state in
    let info = record state.brokerage_info { address = utf8 "hamlet" } in
    (cert_pem : Text) × (resp.body ≡ json (init_body cert_pem info (utf8 "b1")))
    × (get_cert rcgen call (utf8 "ca") s'.ca ≡ (
        if same (utf8 "ca") (utf8 "ca")
        then ok (some cert_pem)
        else get_cert rcgen call (utf8 "ca") ready))
    × (is_revoked rcgen call (utf8 "ca") s'.ca ≡ (
        if same (utf8 "ca") (utf8 "ca") then ok false else is_revoked rcgen call (utf8 "ca") ready))
unfolding handle_device_init with_ca init_request utf8 text_same sign_csr sign_request
device_init_recorded_example =
    device_init_recorded rcgen call call outside (utf8 "b1") request parsed_ca state (utf8 "ca")
      refl refl refl
