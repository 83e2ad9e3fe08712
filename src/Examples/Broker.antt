-- ===== src/Examples/Broker.antt =====
-- src/services/mqtt_brokerage at concrete inputs.
use place_net_hamlet.Common.{◌≡◌, refl, List, [], ◌∷◌, none, some, true, ok, utf8, inr}
use place_net_hamlet.Common.Map.{get}
use place_net_hamlet.Services.{mosquitto, service_eq}
use place_net_hamlet.Supervisor.{running, Supervisor, SupervisorCommand, handle_restart}
use place_net_hamlet.Supervisor.Held.{AllServices, Step, commanded, befallen, take_steps}
use place_net_hamlet.Config.Types.{MqttBrokerageConfig}
use place_net_hamlet.Brokerage.Service.{
  Host, exited, timed_out, still_running, MosquittoBrokerageService, spawned, end_by_itself,
  service,
}
use place_net_hamlet.Brokerage.Children.{alive, IsSupervised, take_steps-IsSupervised}
use place_net_hamlet.Brokerage.Lifecycle.{mosquitto_restarts}

abbrev pub broker_config : MqttBrokerageConfig
broker_config = record {
  port = 1883;
  client_id = utf8 "hamlet";
  config_file = utf8 "/etc/mosquitto.conf";
  password_file = utf8 "/etc/passwd";
  username = utf8 "placenet";
  password = utf8 "changeme";
  tls_enabled = true;
  mqtts_port = 8883;
  cafile = utf8 "/ca";
  certfile = utf8 "/bc";
  keyfile = utf8 "/bk";
  san_ips = [];
  san_hostnames = [];
}

-- The process has the PID 77 and does not heed a signal.
abbrev stubborn : Host
stubborn = record {
  exists = λ path. true;
  spawn = λ binary file. ok (some 77);
  wait = timed_out;
  try_wait = still_running;
}

abbrev up : MosquittoBrokerageService
up = record {
  binary_path = utf8 "/usr/sbin/mosquitto";
  password_binary = none;
  config = broker_config;
  child = some (record { number = 0; pid = some 42 });
  next_child = 1;
  events = spawned 0 ∷ [];
}

abbrev supervisor : Supervisor MosquittoBrokerageService
supervisor = record {
  services = (mosquitto, up) ∷ [];
  statuses = (mosquitto, running 42) ∷ [];
  channel_buffer = 32;
}

-- The process exits by itself before the restart, and its successor is stopped.
abbrev commands : List (Step Host)
commands =
    befallen mosquitto
    ∷ commanded stubborn (SupervisorCommand.restart mosquitto)
    ∷ commanded (record stubborn { wait = exited }) (SupervisorCommand.stop mosquitto)
    ∷ []

supervised : AllServices IsSupervised supervisor
unfolding alive
supervised = (inr refl, tt)

take_steps-IsSupervised_example :
    AllServices IsSupervised (take_steps service end_by_itself commands supervisor)
take_steps-IsSupervised_example = take_steps-IsSupervised commands supervisor supervised

mosquitto_restarts_example :
    let (s', reply) = handle_restart (service stubborn) mosquitto supervisor in
    (reply ≡ ok tt)
    × (get mosquitto s'.statuses ≡ some (running 77))
    × (svc' : MosquittoBrokerageService) × (get mosquitto s'.services ≡ some svc')
    × (alive svc'.events ≡ 1 ∷ [])
unfolding get alive
mosquitto_restarts_example =
    mosquitto_restarts stubborn mosquitto supervisor up (record { number = 0; pid = some 42 }) 77
      refl refl (inr refl) refl refl refl
