-- ===== src/Examples/Tasks.antt =====
-- The two connection tasks (src/services/cloud_gateway/cloud_gateway_service.rs and
-- src/services/gateway_mqtt/tasks.rs) at concrete inputs.
use place_net_hamlet.Common.{
  ok, ◌+◌, ◌≤◌, ◌≡◌, refl, ◌⊎◌, List, [], ◌∷◌, none, some, true, err, utf8, times, is_some,
}
use place_net_hamlet.CloudGateway.Messages.{ack}
use place_net_hamlet.CloudGateway.Task as Socket
use place_net_hamlet.CloudGateway.Task.{connect_failed, register_failed, registered, connected}
use place_net_hamlet.CloudGateway.Task.Laws.{register_failures_spin, shutdown_seen}
use place_net_hamlet.MqttClient.{subscribe, at_least_once}
use place_net_hamlet.MqttClient.Options.{build_mqtt_opts}
use place_net_hamlet.MqttClient.Tasks.{command}
use place_net_hamlet.GatewayMqtt.Protocol.{LoginResponse}
use place_net_hamlet.GatewayMqtt.Task.{
  in_session, building, login_ended, spawn, Task, Event, conn_error, conn_ack, refused, woke, build,
  run,
}
use place_net_hamlet.GatewayMqtt.Task.Laws.{setbacks, run_keeps_login, logins_bounded}
use place_net_hamlet.Examples.Services.{gateway_config, no_files}

abbrev socket : Socket.Task
socket = Socket.spawn (utf8 "http://node") (ack true none ∷ [])

register_failures_spin_example :
    (u : Socket.Task) × (Socket.run (times 100 (connected ∷ register_failed ∷ [])) socket ≡ some u)
    × (u.phase ≡ Socket.connecting)
    × (u.slept ≡ 0)
unfolding Socket.spawn
register_failures_spin_example = register_failures_spin 100 socket refl

abbrev registering : Socket.Task
registering = record {
  server_url = utf8 "http://node";
  phase = Socket.registering;
  delay = 2;
  outbound = [];
  sink = [];
  slept = 0;
}

shutdown_seen_example :
    (is_some (Socket.step Socket.shutdown registering) ≡ true)
    ⊎ (is_some (Socket.step Socket.shutdown (record registering { phase = Socket.connecting }))
        ≡ true)
unfolding Socket.step
shutdown_seen_example =
    shutdown_seen register_failed registering (record registering { phase = Socket.connecting })
      (λ e. cc) refl refl

abbrev credentials : LoginResponse
credentials = record {
  protocol_version = utf8 "1";
  device_id = utf8 "d7";
  mqtt_username = utf8 "d7";
  mqtt_password = utf8 "pw";
  broker = record { host = utf8 "mq.example.org"; port = 8883 };
  topics = record {
    cmds = utf8 "d/7/cmds";
    connect = utf8 "d/7/connect";
    notify = utf8 "d/7/notify";
  };
}

abbrev session : Task
session = record {
  config = gateway_config;
  phase = in_session credentials;
  delay = 8;
  cached = some credentials;
  outbound = [];
  calls = [];
  logins = 1;
  slept = 6;
}

-- The connection is lost and made again.
abbrev reconnection : List Event
reconnection = conn_error ∷ woke ∷ build no_files ∷ conn_ack (err (utf8 "no")) ∷ []

abbrev reconnected : Task
reconnected = record session {
  delay = 2;
  calls =
      command (subscribe (utf8 "d/7/connect") at_least_once)
      ∷ command (subscribe (utf8 "d/7/cmds") at_least_once)
      ∷ [];
  slept = 14;
}

run_keeps_login_example :
    (reconnected.cached ≡ some credentials) × (reconnected.logins ≡ session.logins)
unfolding run build_mqtt_opts
run_keeps_login_example =
    run_keeps_login reconnection session reconnected credentials (refl, (refl, (refl, (refl, tt))))
      refl refl refl

-- The broker refuses the first connection.
abbrev refusal : List Event
refusal =
    login_ended (ok credentials)
    ∷ build no_files
    ∷ refused 5
    ∷ woke
    ∷ login_ended (ok credentials)
    ∷ []

abbrev logged_in_again : Task
logged_in_again = record (spawn gateway_config []) {
  phase = building credentials;
  delay = 4;
  cached = some credentials;
  logins = 2;
  slept = 2;
}

logins_bounded_example : logged_in_again.logins ≤ 1 + setbacks refusal
unfolding run spawn build_mqtt_opts
logins_bounded_example = logins_bounded gateway_config [] refusal logged_in_again refl
