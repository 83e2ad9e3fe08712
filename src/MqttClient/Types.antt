-- ===== src/MqttClient/Types.antt =====
-- src/services/mqtt_client/internals/types.rs, and the `QoS` of the MQTT library, of which the program
-- names the three variants.
use place_net_hamlet.Common.{ℕ, Text, List, Result}

pub data QoS : Type 0 where
  at_most_once at_least_once exactly_once : QoS

pub record MqttMessage : Type 0 where
  pub topic : Text
  pub payload : List ℕ

pub record TopicSubscription : Type 0 where
  pub topic : Text
  pub qos : QoS

-- A command, without the channel on which its reply returns.
pub data MqttCommand : Type 0 where
  subscribe : (topic : Text) → QoS → MqttCommand
  unsubscribe : (topic : Text) → MqttCommand
  publish : (topic : Text) → QoS → (payload : List ℕ) → MqttCommand

-- How the commands of an `MqttClientHandle` fare while one operation runs.
abbrev pub Broker : Type 0
Broker = MqttCommand → Result Text (Unit {0})
