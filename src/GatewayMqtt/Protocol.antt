-- ===== src/GatewayMqtt/Protocol.antt =====
-- src/services/gateway_mqtt/protocol.rs and the configuration of gateway_mqtt_service.rs.
use place_net_hamlet.Common.{ℕ, Text, Option, Bool}

pub record LoginRequest : Type 0 where
  pub username : Text
  pub password : Text

pub record BrokerInfo : Type 0 where
  pub host : Text
  pub port : ℕ

pub record DeviceTopics : Type 0 where
  pub cmds : Text
  pub connect : Text
  pub notify : Text

pub record LoginResponse : Type 0 where
  pub protocol_version : Text
  pub device_id : Text
  pub mqtt_username : Text
  pub mqtt_password : Text
  pub broker : BrokerInfo
  pub topics : DeviceTopics

pub data Envelope : Type 0 where
  alive : (device_id : Text) → Envelope

pub data LoginError : Type 0 where
  unauthorized : LoginError
  transient : Text → LoginError

pub record GatewayMqttConfig : Type 0 where
  pub login_url : Text
  pub username : Text
  pub password : Text
  pub broker_cafile : Option Text
  pub broker_tls : Bool
