-- ===== src/GatewayMqtt/Service.antt =====
-- src/services/gateway_mqtt/gateway_mqtt_service.rs: the service and its `ManagedService` operations.
-- A channel end is the number of its channel; `spawned` holds the connection tasks that were started,
-- the last first, and `signalled` the channels on which a shutdown was sent.
use place_net_hamlet.Common.{
  ℕ, suc, List, [], ◌∷◌, Option, none, some, Bool, Result, ok, err, Text, utf8, is_some,
}
use place_net_hamlet.Supervisor.{ManagedService, Reply}
use place_net_hamlet.GatewayMqtt.Protocol.{GatewayMqttConfig}

pub record TaskEnds : Type 0 where
  pub outbound_rx : ℕ
  pub shutdown_rx : ℕ

pub record GatewayMqttService : Type 0 where
  pub config : GatewayMqttConfig
  pub outbound_rx : Option ℕ
  pub shutdown_tx : Option ℕ
  pub next_channel : ℕ
  pub spawned : List TaskEnds
  pub signalled : List ℕ

unfoldable pub new : GatewayMqttConfig → GatewayMqttService
new config = record {
  config = config;
  outbound_rx = some 0;
  shutdown_tx = none;
  next_channel = 1;
  spawned = [];
  signalled = [];
}

unfoldable pub start : GatewayMqttService → GatewayMqttService × Result Text ℕ
start s = elim s.outbound_rx [
  | none ↦ (s, err (utf8 "GatewayMqttService already started"))
  | some rx ↦
      let ends : TaskEnds = record { outbound_rx = rx; shutdown_rx = s.next_channel } in
      (
        record s {
          outbound_rx = none;
          shutdown_tx = some s.next_channel;
          next_channel = suc s.next_channel;
          spawned = ends ∷ s.spawned;
        },
        ok 0,
      )
]

unfoldable pub stop : GatewayMqttService → GatewayMqttService × Reply
stop s = elim s.shutdown_tx [
  | none ↦ (s, ok tt)
  | some tx ↦ (record s { shutdown_tx = none; signalled = tx ∷ s.signalled }, ok tt)
]

unfoldable pub is_running : GatewayMqttService → GatewayMqttService × Bool
is_running s = (s, is_some s.shutdown_tx)

abbrev pub service : ManagedService GatewayMqttService
service = record { start = start; stop = stop; is_running = is_running }
