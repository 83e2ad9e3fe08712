-- ===== src/Examples/Services.antt =====
-- src/services at concrete inputs: the three services that can be started once.
use place_net_hamlet.Common.{◌≡◌, refl, [], ◌∷◌, none, some, true, false, ok, err, utf8}
use place_net_hamlet.Common.Map.{get}
use place_net_hamlet.Services.{ServiceId, mqtt_client, gateway_mqtt_client, service_eq}
use place_net_hamlet.Supervisor.{
  stopped, Supervisor, SupervisorCommand, is_running_status, handle_start, serve_all,
}
use place_net_hamlet.Config.Types.{MqttClientConfig, mutual_tls, MqttTlsMode}
use place_net_hamlet.MqttClient.Options.{TlsFiles, build_mqtt_opts}
use place_net_hamlet.MqttClient.Service as Mqtt
use place_net_hamlet.MqttClient.Lifecycle.{failed_start_is_final}
use place_net_hamlet.GatewayMqtt.Protocol.{GatewayMqttConfig}
use place_net_hamlet.GatewayMqtt.Service as GatewayMqttClient
use place_net_hamlet.CloudGateway.Service as CloudClient

abbrev one : {S : Type 0} → ServiceId → S → Supervisor S
one id svc = record {
  services = (id, svc) ∷ [];
  statuses = (id, stopped) ∷ [];
  channel_buffer = 32;
}

abbrev pub gateway_config : GatewayMqttConfig
gateway_config = record {
  login_url = utf8 "https://gw.example.org";
  username = utf8 "node";
  password = utf8 "secret";
  broker_cafile = none;
  broker_tls = true;
}

abbrev gateway_mqtt : Supervisor GatewayMqttClient.GatewayMqttService
gateway_mqtt = one gateway_mqtt_client (GatewayMqttClient.new gateway_config)

abbrev websocket : CloudClient.CloudGatewayService
websocket = CloudClient.new (utf8 "http://node") (utf8 "https://gw.example.org")

-- No file can be read.
abbrev pub no_files : TlsFiles
no_files = record { read = λ path. err (utf8 "not found"); certs = λ pem. []; add = λ cert. ok tt }

-- Every file holds one byte.
abbrev all_files : TlsFiles
all_files = record { read = λ path. ok (1 ∷ []); certs = λ pem. ok pem ∷ []; add = λ cert. ok tt }

abbrev client_config : MqttTlsMode → MqttClientConfig
client_config mode = record {
  client_id = utf8 "hamlet";
  host = utf8 "localhost";
  port = 8883;
  tls_mode = mode;
  cafile = some (utf8 "ca.crt");
  certfile = some (utf8 "client.crt");
  keyfile = some (utf8 "client.key");
  username = utf8 "placenet";
  password = utf8 "changeme";
}

abbrev client : MqttTlsMode → Mqtt.MqttClientService
client mode = Mqtt.new (client_config mode) 0 1 2 3

failed_start_is_final_example :
    let s = one mqtt_client (client mutual_tls) in
    let up = (handle_start (Mqtt.service no_files) mqtt_client s).0 in
    let commands =
      SupervisorCommand.start mqtt_client ∷ SupervisorCommand.restart mqtt_client ∷ [] in
    is_running_status (get mqtt_client (serve_all (Mqtt.service all_files) commands up).statuses)
    ≡ false
unfolding get Mqtt.new Mqtt.start build_mqtt_opts utf8
failed_start_is_final_example =
    failed_start_is_final no_files mqtt_client (one mqtt_client (client mutual_tls))
      (client mutual_tls) (utf8 "Failed to read CA cert 'ca.crt': not found") all_files
      (SupervisorCommand.start mqtt_client ∷ SupervisorCommand.restart mqtt_client ∷ []) refl refl
      refl refl
