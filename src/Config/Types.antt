-- ===== src/Config/Types.antt =====
-- src/config.rs: the configuration's records. A path is its text, and an IP address the text that
-- stands for it.
use place_net_hamlet.Common.{ℕ, List, Option, Bool, Text}

pub data MqttTlsMode : Type 0 where
  plain server_only mutual_tls : MqttTlsMode

pub record MqttClientConfig : Type 0 where
  pub client_id : Text
  pub host : Text
  pub port : ℕ
  pub tls_mode : MqttTlsMode
  pub cafile : Option Text
  pub certfile : Option Text
  pub keyfile : Option Text
  pub username : Text
  pub password : Text

pub record MqttBrokerageConfig : Type 0 where
  pub port : ℕ
  pub client_id : Text
  pub config_file : Text
  pub password_file : Text
  pub username : Text
  pub password : Text
  pub tls_enabled : Bool
  pub mqtts_port : ℕ
  pub cafile : Text
  pub certfile : Text
  pub keyfile : Text
  pub san_ips : List Text
  pub san_hostnames : List Text

pub record HttpConfig : Type 0 where
  pub host : Text
  pub port : ℕ
  pub tls_enabled : Bool
  pub upstream_port : ℕ

pub record BeaconManagementConfig : Type 0 where
  pub use_jitter : Bool
  pub broadcast_interval : ℕ
  pub key_rotation_interval : ℕ
  pub key_expiry : ℕ

pub record GatewayRegistrationConfig : Type 0 where
  pub server_url : Text
  pub gateway_url : Option Text
  pub username : Text
  pub password : Text
  pub broker_cafile : Option Text
  pub broker_tls : Bool

pub record Config : Type 0 where
  pub mqtt_brokerage : MqttBrokerageConfig
  pub mqtt_client : MqttClientConfig
  pub http : HttpConfig
  pub gateway_registration : GatewayRegistrationConfig
  pub beacon_management : BeaconManagementConfig
  pub config_dir : Text
