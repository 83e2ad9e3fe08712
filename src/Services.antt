-- ===== src/Services.antt =====
-- src/services/mod.rs: the names of the managed services.
use place_net_hamlet.Common.{ℕ, ◌≡◌, ◌↔◌, Bool, true, Text, utf8, Eq, ◌==◌, arith}

pub data ServiceId : Type 0 where
  gateway mosquitto mqtt_client cloud_gateway gateway_mqtt_client : ServiceId

abbrev discriminant : ServiceId → ℕ
discriminant gateway = 0
discriminant mosquitto = 1
discriminant mqtt_client = 2
discriminant cloud_gateway = 3
discriminant gateway_mqtt_client = 4

abbrev service_same : ServiceId → ServiceId → Bool
service_same a b = discriminant a == discriminant b

pub service_same_iff : (a b : ServiceId) → (service_same a b ≡ true) ↔ (a ≡ b)
service_same_iff a b = ground arith

-- The derived `PartialEq`.
instance abbrev pub service_eq : Eq ServiceId
service_eq = record { same = service_same; same_iff = service_same_iff }

-- The derived `Debug`, as `{:?}` prints it.
unfoldable pub debug : ServiceId → Text
debug gateway = utf8 "Gateway"
debug mosquitto = utf8 "Mosquitto"
debug mqtt_client = utf8 "MqttClient"
debug cloud_gateway = utf8 "CloudGateway"
debug gateway_mqtt_client = utf8 "GatewayMqttClient"
