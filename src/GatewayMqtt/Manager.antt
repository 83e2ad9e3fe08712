-- ===== src/GatewayMqtt/Manager.antt =====
-- src/services/gateway_mqtt/manager.rs: `register_onto`.
use place_net_hamlet.Common.{none, some, Bool, true, ◌||◌, Text, is_empty, if◌then◌else◌}
use place_net_hamlet.Config.Types.{GatewayRegistrationConfig}
use place_net_hamlet.Services.{gateway_mqtt_client}
use place_net_hamlet.Supervisor.{Supervisor}
use place_net_hamlet.Supervisor
use place_net_hamlet.GatewayMqtt.Protocol.{GatewayMqttConfig}
use place_net_hamlet.GatewayMqtt.Service.{GatewayMqttService, new}

unfoldable pub gateway_mqtt_config : GatewayRegistrationConfig → Text → GatewayMqttConfig
gateway_mqtt_config cfg login_url = record {
  login_url = login_url;
  username = cfg.username;
  password = cfg.password;
  broker_cafile = cfg.broker_cafile;
  broker_tls = cfg.broker_tls;
}

-- The supervisor, and whether a handle was returned. `box` makes the service one of the supervisor's.
unfoldable pub register_onto :
    {S : Type 0}
    → (GatewayMqttService → S)
    → GatewayRegistrationConfig
    → Supervisor S
    → Supervisor S × Bool
unfolding gateway_mqtt_config
register_onto box cfg s = elim cfg.gateway_url [
  | none ↦ (s, Bool.false)
  | some url ↦ if is_empty cfg.username || is_empty cfg.password then (s, Bool.false) else (
    Supervisor.register gateway_mqtt_client (box (new (gateway_mqtt_config cfg url))) true s,
    true,
  )
]
