-- ===== src/GatewayMqtt/Task.antt =====
-- src/services/gateway_mqtt/tasks.rs: `spawn_connection_task` as a state machine. An event says which
-- arm of a `select!` was ready and how the calls in it ended; delays are seconds. `calls` holds the
-- calls of the MQTT client, the last first, `logins` how often a login was awaited to its end, and
-- `slept` the seconds slept.
pub mod Laws
use place_net_hamlet.Common.{
  ℕ, suc, ◌+◌, List, [], ◌∷◌, ◌++◌, Option, none, some, Bool, true, false, Result, ok, err, Text,
  if◌then◌else◌,
}
use place_net_hamlet.Common.Backoff.{initial_reconnect_delay, next_delay}
use place_net_hamlet.Config.Types.{MqttTlsMode, plain, server_only, MqttClientConfig}
use place_net_hamlet.MqttClient.{MqttMessage, MqttCommand, subscribe, publish, at_least_once}
use place_net_hamlet.MqttClient.Options.{TlsFiles, build_mqtt_opts}
use place_net_hamlet.MqttClient.Tasks.{ClientCall, command, disconnect}
use place_net_hamlet.GatewayMqtt.Protocol.{
  LoginResponse, LoginError, unauthorized, transient, Envelope, alive, GatewayMqttConfig,
}

-- Where the task waits; with credentials from the point where it has them.
pub data Phase : Type 0 where
  logging_in : Phase
  building in_session : LoginResponse → Phase
  backing_off stopped : Phase

pub record Task : Type 0 where
  pub config : GatewayMqttConfig
  pub phase : Phase
  pub delay : ℕ
  pub cached : Option LoginResponse
  pub outbound : List MqttMessage
  pub calls : List ClientCall
  pub logins : ℕ
  pub slept : ℕ

pub data Event : Type 0 where
  -- A handle put a message into the queue: it can as long as the task has not ended.
  enqueued : MqttMessage → Event
  shutdown : Event
  login_ended : Result LoginError LoginResponse → Event
  -- The options are built from the files as they are then.
  build : TlsFiles → Event
  outbound_taken : Event
  -- The broker's acknowledgement, and the alive envelope's bytes if it serialises.
  conn_ack : Result Text (List ℕ) → Event
  inbound : Event
  -- The broker refused the connection, with its code.
  refused : (code : ℕ) → Event
  conn_error : Event
  -- The sleep of the backoff ended.
  woke : Event

-- The head of the loop: cached credentials are used, or a login is awaited.
unfoldable pub reconnect : Task → Task
reconnect t = elim t.cached [
  | none ↦ record t { phase = logging_in }
  | some creds ↦ record t { phase = building creds }
]

unfoldable pub spawn : GatewayMqttConfig → List MqttMessage → Task
spawn config outbound = record {
  config = config;
  phase = logging_in;
  delay = initial_reconnect_delay;
  cached = none;
  outbound = outbound;
  calls = [];
  logins = 0;
  slept = 0;
}

unfoldable pub client_config : GatewayMqttConfig → LoginResponse → MqttClientConfig
client_config config creds = record {
  client_id = creds.device_id;
  host = creds.broker.host;
  port = creds.broker.port;
  tls_mode = if config.broker_tls then server_only else plain;
  cafile = config.broker_cafile;
  certfile = none;
  keyfile = none;
  username = creds.mqtt_username;
  password = creds.mqtt_password;
}

-- `on_connected`, the last call first.
unfoldable pub on_connected :
    LoginResponse → Result Text (List ℕ) → List ClientCall → List ClientCall
on_connected creds payload calls =
    let subscribed =
      command (subscribe creds.topics.connect at_least_once)
      ∷ command (subscribe creds.topics.cmds at_least_once)
      ∷ calls in
    elim payload [
      | ok bytes ↦ command (publish creds.topics.notify at_least_once bytes) ∷ subscribed
      | err e ↦ subscribed
    ]

-- What the end of a login leads to.
unfoldable pub logged_in : Result LoginError LoginResponse → Task → Task
logged_in (ok resp) t = record t {
  cached = some resp;
  phase = building resp;
  logins = suc t.logins;
}
logged_in (err unauthorized) t = record t { phase = backing_off; logins = suc t.logins }
logged_in (err (transient e)) t = record t { phase = backing_off; logins = suc t.logins }

-- What `build_mqtt_opts` leads to.
unfoldable pub built : {O : Type 0} → LoginResponse → Result Text O → Task → Task
built creds (ok opts) t = record t { phase = in_session creds }
built creds (err e) t = record t { phase = backing_off }

unfoldable pub take_outbound : List MqttMessage → Task → Option Task
take_outbound [] t = none
take_outbound (msg ∷ rest) t = some (record t {
  outbound = rest;
  calls = command (publish msg.topic at_least_once msg.payload) ∷ t.calls;
})

unfoldable pub enqueue : MqttMessage → Task → Task
enqueue msg t = record t { outbound = t.outbound ++ msg ∷ [] }

-- `none` where the event cannot occur in that phase.
unfoldable pub on : Phase → Event → Task → Option Task
unfolding reconnect client_config on_connected logged_in built take_outbound next_delay enqueue
on stopped e t = none
on phase (enqueued msg) t = some (enqueue msg t)
on logging_in shutdown t = some (record t { phase = stopped })
on logging_in (login_ended r) t = some (logged_in r t)
on (building creds) (build files) t =
    some (built creds (build_mqtt_opts files (client_config t.config creds)) t)
on (in_session creds) shutdown t = some (record t { phase = stopped; calls = disconnect ∷ t.calls })
on (in_session creds) outbound_taken t = take_outbound t.outbound t
on (in_session creds) (conn_ack payload) t =
    some (record t { delay = initial_reconnect_delay; calls = on_connected creds payload t.calls })
on (in_session creds) inbound t = some t
on (in_session creds) (refused code) t = some (record t { cached = none; phase = backing_off })
on (in_session creds) conn_error t = some (record t { phase = backing_off })
on backing_off shutdown t = some (record t { phase = stopped; delay = next_delay t.delay })
on backing_off woke t =
    some (reconnect (record t { slept = t.slept + t.delay; delay = next_delay t.delay }))
on _ _ t = none

unfoldable pub step : Event → Task → Option Task
unfolding on
step e t = on t.phase e t

unfoldable pub run : List Event → Task → Option Task
unfolding step
run [] t = some t
run (e ∷ es) t = elim (step e t) [ none ↦ none | some t' ↦ run es t' ]
