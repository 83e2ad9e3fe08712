-- ===== src/App/Initialize.antt =====
-- src/app.rs: `App::initialize`, which opens the authority, provisions the certificates, registers the
-- services and starts them. `Startup` is what it takes from outside; an error of `initialize` is the
-- message with which the process exits. The channel `connected_rx` resolves or is dropped.
use place_net_hamlet.Common.{
  List, [], ◌∷◌, ◌++◌, Option, some, Bool, true, Result, ok, err, ◌>>=◌, Text, utf8, if◌then◌else◌,
}
use place_net_hamlet.Common.Disk.{Disk, Files}
use place_net_hamlet.Services.{gateway, mosquitto, mqtt_client, gateway_mqtt_client}
use place_net_hamlet.Supervisor
use place_net_hamlet.Supervisor.{Supervisor, SupervisorCommand, Reply}
use place_net_hamlet.Config.Types.{
  MqttTlsMode, mutual_tls, plain, server_only, Config, BeaconManagementConfig,
}
use place_net_hamlet.Config.Brokerage.{ConfigFiles, build_brokerage_info}
use place_net_hamlet.Capabilities
use place_net_hamlet.Capabilities.{ServiceCapabilities, is_available, detect_capabilities}
use place_net_hamlet.Ca.Tables.{Tables}
use place_net_hamlet.Ca.Operations.{Rcgen}
use place_net_hamlet.Ca.Service.{Call, CaService, ca_cert_pem}
use place_net_hamlet.Ca.Service as CaModule
use place_net_hamlet.Brokerage.Provision.{IpAddr, Interface, provision_mqtt_broker_cert}
use place_net_hamlet.Brokerage.Manager as BrokerManager
use place_net_hamlet.Brokerage.Manager.{Preparation, configured_files}
use place_net_hamlet.MqttClient.{MqttCommand, Broker}
use place_net_hamlet.MqttClient.Options.{Bytes}
use place_net_hamlet.MqttClient.Handle.{subscribe_all, required_subscriptions}
use place_net_hamlet.MqttClient.Manager as ClientManager
use place_net_hamlet.MqttClient.Manager.{provision_node_identity}
use place_net_hamlet.MqttClient.Provisioned.{on_disk}
use place_net_hamlet.GatewayMqtt.Manager as CloudManager
use place_net_hamlet.Gateway.Handlers.{AppState}
use place_net_hamlet.Gateway.Service as GatewayModule
use place_net_hamlet.KeyManagement.{BroadcastKeyManagement}
use place_net_hamlet.App.Services.{
  Hosts, BoxedService, broker_service, http_service, client_service, cloud_service, boxed,
}

pub record Startup (K : Type 0) : Type 0 where
  pub commands : Capabilities.Host
  pub tables : Tables
  -- The calls of the authority: its opening, the broker's certificate and the node's identity.
  pub opening : Call K
  pub for_broker : Call K
  pub for_node : Call K
  pub interfaces : Option (List Interface)
  pub show_ip : IpAddr → Text
  pub config_files : ConfigFiles
  pub disk : Disk
  pub exists : Text → Bool
  pub bytes : Text → Bytes
  pub hosts : Hosts
  pub connects : Bool
  pub broker : Broker

pub record App (K C : Type 0) : Type 0 where
  pub supervisor : Supervisor BoxedService
  pub ca : CaService K C
  pub files : Files
  pub prepared : Preparation
  -- What the handlers of the HTTP gateway share.
  pub gateway_state : AppState (CaService K C)
  -- The commands that the MQTT client was sent.
  pub sent : List MqttCommand
  pub server_url : Text
  pub own_gateway_url : Option Text
  pub beacon_config : BeaconManagementConfig
  pub broadcast_topics : List Text
  pub key_management : BroadcastKeyManagement

abbrev pub required_binaries : List Text
required_binaries = utf8 "mosquitto" ∷ utf8 "mosquitto_passwd" ∷ []

-- A reply with the files so far, where an error ends the process.
abbrev pub or_exit : {A : Type 0} → A × Reply → Result Text A
or_exit (a, ok _) = ok a
or_exit (a, err e) = err e

-- The services that are started, in this order.
unfoldable pub start_commands : Bool → Bool → List SupervisorCommand
start_commands broker_available cloud_available =
    (if broker_available
      then SupervisorCommand.start mosquitto ∷ SupervisorCommand.start mqtt_client ∷ []
      else [])
    ++ SupervisorCommand.start gateway
      ∷ (if cloud_available then SupervisorCommand.start gateway_mqtt_client ∷ [] else [])

-- The subscriptions, once the client is connected; their errors are logged.
unfoldable pub subscriptions : Bool → Bool → Broker → List MqttCommand
unfolding subscribe_all required_subscriptions
subscriptions broker_available connects broker =
    if broker_available
    then (if connects then (subscribe_all broker required_subscriptions).0 else [])
    else []

module _ {K C Q : Type 0} (rcgen : Rcgen K C Q) (st : Startup K) (config : Config) where
  -- The broker's certificate, where TLS is enabled: the files that are written.
  unfoldable pub broker_files : CaService K C → Result Text Files
  unfolding provision_mqtt_broker_cert
  broker_files ca =
      if config.mqtt_brokerage.tls_enabled
      then or_exit (
          provision_mqtt_broker_cert rcgen st.disk st.show_ip st.for_broker st.interfaces ca
            config.mqtt_brokerage [])
      else ok []

  -- The files once the broker is registered, which writes its configuration where it is available.
  unfoldable pub prepared_files : Files → Files
  unfolding configured_files
  prepared_files files =
      if is_available (utf8 "mosquitto") (detect_capabilities st.commands required_binaries)
      then configured_files st.config_files config.mqtt_brokerage files
      else files

  unfoldable pub node_files :
      MqttTlsMode → CaService K C → Files → Result Text (CaService K C × Files)
  unfolding provision_node_identity
  node_files mutual_tls ca files =
      let (ca', files', reply) =
        provision_node_identity rcgen st.disk st.for_node ca config.mqtt_client files in
      or_exit ((ca', files'), reply)
  node_files plain ca files = ok (ca, files)
  node_files server_only ca files = ok (ca, files)

  -- The supervisor with its services, whether the broker is there, its handle, what was prepared for
  -- it, and whether the cloud gateway is configured.
  unfoldable pub register_all :
      ServiceCapabilities → Supervisor BoxedService × Bool × Option Text × Preparation × Bool
  unfolding BrokerManager.register_onto ClientManager.register_onto CloudManager.register_onto
  register_all caps =
      let (s1, available, handle, prepared) =
        BrokerManager.register_onto broker_service st.commands st.config_files st.exists caps
          config.mqtt_brokerage Supervisor.new in
      let s2 = Supervisor.register gateway (http_service (GatewayModule.new config.http)) true s1 in
      let (s3, handles) =
        ClientManager.register_onto client_service config.mqtt_client available s2 in
      let (s4, cloud) = CloudManager.register_onto cloud_service config.gateway_registration s3 in
      (s4, available, handle, prepared, cloud)

  -- The supervisor after the services are started over the files on disk.
  unfoldable pub start_all : Files → Bool → Bool → Supervisor BoxedService → Supervisor BoxedService
  unfolding start_commands
  start_all files available cloud s =
      let hosts = record st.hosts { tls = on_disk st.bytes files st.hosts.tls } in
      Supervisor.serve_all (boxed hosts) (start_commands available cloud) s

  -- The services are started, and the application is put together; `pem` is the certificate that the
  -- authority was opened with.
  unfoldable pub assemble : Text → CaService K C → Files → App K C
  unfolding detect_capabilities register_all start_all subscriptions
  assemble pem ca files =
      let (s, available, handle, prepared, cloud) =
        register_all (detect_capabilities st.commands required_binaries) in
      record {
        supervisor = start_all files available cloud s;
        ca = ca;
        files = files;
        prepared = prepared;
        gateway_state = record {
          ca = ca;
          brokerage_info = build_brokerage_info config.mqtt_brokerage pem;
          brokerage = handle;
          beacon_topic_tx = some (record { capacity = 64; is_open = true; waiting = [] });
          written = [];
        };
        sent = subscriptions available st.connects st.broker;
        server_url = config.gateway_registration.server_url;
        own_gateway_url = config.gateway_registration.gateway_url;
        beacon_config = config.beacon_management;
        broadcast_topics = [];
        key_management = record {
          rotation_interval = config.beacon_management.key_rotation_interval;
          key_expiry = config.beacon_management.key_expiry;
        };
      }

  unfoldable pub initialize : Result Text (App K C)
  unfolding broker_files prepared_files node_files assemble
  initialize = do
    opened ← CaModule.register rcgen st.opening st.tables
    pem ← ca_cert_pem rcgen opened
    written ← broker_files opened
    node ← node_files config.mqtt_client.tls_mode opened (prepared_files written)
    ok (assemble pem node.0 node.1)
