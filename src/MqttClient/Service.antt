-- ===== src/MqttClient/Service.antt =====
-- src/services/mqtt_client/mqtt_client_service.rs: the service and its `ManagedService` operations.
-- A channel end is the number of its channel; `spawned` holds the pairs of tasks that were started,
-- the last first, and `signalled` the channels on which a shutdown was sent.
use place_net_hamlet.Common.{
  ℕ, suc, List, [], ◌∷◌, Option, none, some, Bool, Result, ok, err, Text, utf8, is_some,
  if◌then◌else◌,
}
use place_net_hamlet.Supervisor.{ManagedService, Reply}
use place_net_hamlet.Config.Types.{MqttClientConfig}
use place_net_hamlet.MqttClient.Options.{TlsFiles, MqttOptions, build_mqtt_opts}

-- The two tasks of one start, with the channel ends that they own.
pub record ClientTasks : Type 0 where
  pub options : MqttOptions
  pub out_rx : ℕ
  pub shutdown_rx : ℕ
  pub connected_tx : ℕ
  pub cmd_rx : ℕ
  pub cmd_shutdown_rx : ℕ

pub record MqttClientService : Type 0 where
  pub config : MqttClientConfig
  pub cmd_rx : Option ℕ
  pub shutdown_tx : Option ℕ
  pub cmd_shutdown_tx : Option ℕ
  pub out_rx : Option ℕ
  pub connected_tx : Option ℕ
  pub next_channel : ℕ
  pub spawned : List ClientTasks
  pub signalled : List ℕ

unfoldable pub new :
    MqttClientConfig → (cmd_rx out_rx connected_tx next_channel : ℕ) → MqttClientService
new config cmd_rx out_rx connected_tx next_channel = record {
  config = config;
  cmd_rx = some cmd_rx;
  shutdown_tx = none;
  cmd_shutdown_tx = none;
  out_rx = some out_rx;
  connected_tx = some connected_tx;
  next_channel = next_channel;
  spawned = [];
  signalled = [];
}

abbrev pub Channels : Type 0
Channels = ℕ × ℕ × ℕ

-- Each `take` empties its field, also where a later one fails.
unfoldable pub take_channels : MqttClientService → MqttClientService × Result Text Channels
take_channels s = elim s.cmd_rx [
  | none ↦ (s, err (utf8 "MqttClientService command receiver already consumed"))
  | some cmd_rx ↦
      let s1 = record s { cmd_rx = none } in
      elim s.out_rx [
        | none ↦ (s1, err (utf8 "MqttClientService outbound receiver already consumed"))
        | some out_rx ↦
            let s2 = record s1 { out_rx = none } in
            elim s.connected_tx [
              | none ↦ (s2, err (utf8 "MqttClientService connected sender already consumed"))
              | some connected_tx ↦
                  (record s2 { connected_tx = none }, ok (cmd_rx, out_rx, connected_tx))
            ]
      ]
]

-- What `start` does once it has the channels.
unfoldable pub launch : TlsFiles → Channels → MqttClientService → MqttClientService × Result Text ℕ
launch files (cmd_rx, out_rx, connected_tx) s = elim (build_mqtt_opts files s.config) [
  | err e ↦ (s, err e)
  | ok opts ↦
      let tasks : ClientTasks = record {
        options = opts;
        out_rx = out_rx;
        shutdown_rx = s.next_channel;
        connected_tx = connected_tx;
        cmd_rx = cmd_rx;
        cmd_shutdown_rx = suc s.next_channel;
      } in
      (
        record s {
          shutdown_tx = some s.next_channel;
          cmd_shutdown_tx = some (suc s.next_channel);
          next_channel = suc (suc s.next_channel);
          spawned = tasks ∷ s.spawned;
        },
        ok 0,
      )
]

unfoldable pub start : TlsFiles → MqttClientService → MqttClientService × Result Text ℕ
unfolding take_channels launch
start files s =
    if is_some s.shutdown_tx
    then (s, err (utf8 "MqttClientService is already running"))
    else (let (s', channels) = take_channels s in
        elim channels [ err e ↦ (s', err e) | ok chs ↦ launch files chs s' ])

unfoldable pub stop : MqttClientService → MqttClientService × Reply
stop s = elim s.shutdown_tx [
  | none ↦ (s, err (utf8 "MqttClientService is not running"))
  | some tx ↦
      let s1 = record s { shutdown_tx = none; signalled = tx ∷ s.signalled } in
      elim s.cmd_shutdown_tx [
        | none ↦ (s1, ok tt)
        | some cmd_tx ↦
            (record s1 { cmd_shutdown_tx = none; signalled = cmd_tx ∷ s1.signalled }, ok tt)
      ]
]

unfoldable pub is_running : MqttClientService → MqttClientService × Bool
is_running s = (s, is_some s.shutdown_tx)

abbrev pub service : TlsFiles → ManagedService MqttClientService
service files = record { start = start files; stop = stop; is_running = is_running }
