-- ===== src/Examples/Startup.antt =====
-- src/app.rs, `App::initialize`, and a device's handshake at concrete inputs.
use place_net_hamlet.Common.{
  ◌≡◌, refl, [], ◌∷◌, none, some, true, false, ok, err, Text, text_eq, text_same, text_same-ne,
  utf8,
}
use place_net_hamlet.Common.Map.{get}
use place_net_hamlet.Common.Disk.{Files}
use place_net_hamlet.Services.{mosquitto, mqtt_client, service_eq}
use place_net_hamlet.Supervisor.{unavailable, SupervisorCommand, serve_all}
use place_net_hamlet.Config.Types.{Config, mutual_tls, MqttClientConfig}
use place_net_hamlet.Capabilities
use place_net_hamlet.Capabilities.{detect_binary}
use place_net_hamlet.Ca.Operations.{
  expiry, load_or_generate_ca, generate_broker_identity, generate_node_identity,
}
use place_net_hamlet.Ca.Service.{CaService, ca_cert_pem, get_cert, is_revoked}
use place_net_hamlet.Ca.Service as CaModule
use place_net_hamlet.Brokerage.Service.{exited, still_running}
use place_net_hamlet.MqttClient.Options.{tls_mutual, base_options, build_mqtt_opts}
use place_net_hamlet.MqttClient.Provisioned.{on_disk}
use place_net_hamlet.App.Services.{Hosts, boxed}
use place_net_hamlet.App.Initialize.{Startup, App, broker_files, node_files, assemble, initialize}
use place_net_hamlet.App.Trust.{initialize_trust}
use place_net_hamlet.App.WithoutBroker.{initialize_without_broker}
use place_net_hamlet.Examples.Authority.{rcgen, call, no_tables, root}
use place_net_hamlet.Examples.Broker.{broker_config}

-- No binary is found.
abbrev bare : Capabilities.Host
bare = record { run = λ program args. err (utf8 "not found"); from_utf8_lossy = λ bytes. bytes }

abbrev hosts : Hosts
hosts = record {
  broker = record {
    exists = λ path. true;
    spawn = λ binary file. ok (some 77);
    wait = exited;
    try_wait = still_running;
  };
  sockets = record {
    bind = λ addr. ok tt;
    local_addr = ok (utf8 "0.0.0.0:8080");
    build_tls_config = ok tt;
  };
  tls = record { read = λ path. err (utf8 "missing"); certs = λ bytes. []; add = λ cert. ok tt };
}

abbrev startup : Startup Text
startup = record {
  commands = bare;
  tables = no_tables;
  opening = call;
  for_broker = call;
  for_node = call;
  interfaces = none;
  show_ip = λ ip. utf8 "127.0.0.1";
  config_files = record {
    parent = λ path. some (utf8 "/etc");
    create_dir_all = λ dir. ok tt;
    write = λ path text. ok tt;
  };
  disk = record {
    parent = λ path. some (utf8 "/");
    create_dir_all = λ dir. ok tt;
    write = λ path text. ok tt;
  };
  exists = λ path. false;
  bytes = λ text. text;
  hosts = hosts;
  connects = false;
  broker = λ command. ok tt;
}

abbrev client : MqttClientConfig
client = record {
  client_id = utf8 "hamlet";
  host = utf8 "localhost";
  port = 8883;
  tls_mode = mutual_tls;
  cafile = some (utf8 "/ca");
  certfile = some (utf8 "/cc");
  keyfile = some (utf8 "/ck");
  username = utf8 "placenet";
  password = utf8 "changeme";
}

abbrev config : Config
config = record {
  mqtt_brokerage = broker_config;
  mqtt_client = client;
  http = record { host = utf8 "0.0.0.0"; port = 8080; tls_enabled = true; upstream_port = 3000 };
  gateway_registration = record {
    server_url = utf8 "https://node";
    gateway_url = none;
    username = [];
    password = [];
    broker_cafile = none;
    broker_tls = true;
  };
  beacon_management = record {
    use_jitter = false;
    broadcast_interval = 60;
    key_rotation_interval = 3600;
    key_expiry = 7200;
  };
  config_dir = utf8 "/";
}

abbrev files : Files
files =
    (utf8 "/ck", utf8 "key")
    ∷ (utf8 "/cc", utf8 "signed key")
    ∷ (utf8 "/bk", utf8 "key")
    ∷ (utf8 "/bc", utf8 "signed key")
    ∷ (utf8 "/ca", utf8 "root key")
    ∷ []

abbrev authority : CaService Text Text
authority = record {
  state = some root;
  tables = record no_tables {
    ca_keys = some (record { cert_pem = utf8 "root key"; key_pem = utf8 "key" });
    node_identity = some (record {
      cert_pem = utf8 "signed key";
      key_pem = utf8 "key";
      issued_at = 1000;
      expires_at = expiry 1000;
    });
  };
}

abbrev app : App Text Text
app = assemble rcgen startup config (utf8 "root key") authority files

started : initialize rcgen startup config ≡ ok app
unfolding initialize broker_files node_files ca_cert_pem CaModule.register utf8 load_or_generate_ca
    CaModule.generate_broker_cert generate_broker_identity CaModule.ensure_node_identity
    generate_node_identity
started = refl

initialize_without_broker_example :
    let end = serve_all (boxed hosts) (SupervisorCommand.start mosquitto ∷ []) app.supervisor in
    (get mosquitto end.statuses ≡ some unavailable)
    × (get mqtt_client end.statuses ≡ some unavailable)
    × (app.sent ≡ [])
    × (app.gateway_state.brokerage ≡ none)
unfolding detect_binary
initialize_without_broker_example =
    initialize_without_broker rcgen startup config app hosts
      (SupervisorCommand.start mosquitto ∷ []) started refl

initialize_trust_example :
    (root_pem cert_pem key_pem : Text) × (ca_cert_pem rcgen app.ca ≡ ok root_pem)
    × (app.gateway_state.brokerage_info.ca_cert_pem ≡ root_pem)
    × (build_mqtt_opts (on_disk (λ text. text) app.files hosts.tls) client
        ≡ ok (record (base_options client) { transport = tls_mutual root_pem cert_pem key_pem }))
unfolding utf8 text_same
initialize_trust_example =
    initialize_trust rcgen startup config app (utf8 "/cc") (utf8 "/ck") refl refl refl refl refl
      (text_same-ne (utf8 "/cc") (utf8 "/ck") refl) (text_same-ne (utf8 "/ca") (utf8 "/cc") refl)
      (text_same-ne (utf8 "/ca") (utf8 "/ck") refl) (text_same-ne (utf8 "/ca") (utf8 "/bc") refl)
      (text_same-ne (utf8 "/ca") (utf8 "/bk") refl)
      (text_same-ne (utf8 "/ca") (utf8 "/etc/mosquitto.conf") refl) started
