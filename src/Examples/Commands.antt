-- ===== src/Examples/Commands.antt =====
-- src/supervisor.rs at concrete inputs: a supervisor of the client of the cloud gateway, and of a
-- broker that is not installed.
use place_net_hamlet.Common.{
  ℕ, ◌≡◌, refl, List, [], ◌∷◌, some, true, false, Result, ok, err, Text, utf8,
}
use place_net_hamlet.Common.Map.{get}
use place_net_hamlet.Services.{mosquitto, gateway_mqtt_client, service_eq}
use place_net_hamlet.Supervisor.{
  ServiceStatus, unavailable, stopped, running, ManagedService, Supervisor, SupervisorCommand,
  handle_start, handle_stop, handle_restart, serve, serve_all, new, register,
}
use place_net_hamlet.Supervisor.Guards.{SameBut}
use place_net_hamlet.Supervisor.Transitions.{
  handle_start_calls, handle_stop_calls, handle_restart_calls,
}
use place_net_hamlet.Supervisor.Run.{
  IsWellFormed, new-IsWellFormed, register-IsWellFormed, serve_all-IsWellFormed,
}
use place_net_hamlet.Supervisor.Isolation.{serve-SameBut, serve_all-unavailable}

-- A service that starts once, and that can be stopped while it is busy.
data Worker : Type 0 where
  idle busy worn : Worker

abbrev start : Worker → Worker × Result Text ℕ
start idle = (busy, ok 7)
start w = (w, err (utf8 "spent"))

abbrev stop : Worker → Worker × Result Text (Unit {0})
stop busy = (worn, ok tt)
stop w = (w, err (utf8 "stuck"))

abbrev ops : ManagedService Worker
ops = record { start = start; stop = stop; is_running = λ n. (n, true) }

abbrev with_status : Worker → ServiceStatus → Supervisor Worker
with_status n status = record {
  services = (gateway_mqtt_client, n) ∷ (mosquitto, idle) ∷ [];
  statuses = (gateway_mqtt_client, status) ∷ (mosquitto, unavailable) ∷ [];
  channel_buffer = 32;
}

abbrev commands : List SupervisorCommand
commands =
    SupervisorCommand.start gateway_mqtt_client
    ∷ SupervisorCommand.start mosquitto
    ∷ SupervisorCommand.restart gateway_mqtt_client
    ∷ SupervisorCommand.stop mosquitto
    ∷ []

serve_all-IsWellFormed_example :
    IsWellFormed (serve_all ops commands (register mosquitto idle false new))
serve_all-IsWellFormed_example =
    serve_all-IsWellFormed ops commands (register mosquitto idle false new)
      (register-IsWellFormed mosquitto idle false new new-IsWellFormed)

handle_start_calls_example :
    let (s', reply) = handle_start ops gateway_mqtt_client (with_status idle stopped) in
    (reply ≡ ok tt)
    × (get gateway_mqtt_client s'.statuses ≡ some (running 7))
    × (get gateway_mqtt_client s'.services ≡ some busy)
    × SameBut gateway_mqtt_client (with_status idle stopped) s'
unfolding get
handle_start_calls_example =
    handle_start_calls ops gateway_mqtt_client (with_status idle stopped) idle refl refl

handle_stop_calls_example :
    let (s', reply) = handle_stop ops gateway_mqtt_client (with_status busy (running 7)) in
    (reply ≡ ok tt)
    × (get gateway_mqtt_client s'.statuses ≡ some stopped)
    × (get gateway_mqtt_client s'.services ≡ some worn)
    × SameBut gateway_mqtt_client (with_status busy (running 7)) s'
unfolding get place_net_hamlet.Supervisor.stop_guard
handle_stop_calls_example =
    handle_stop_calls ops gateway_mqtt_client (with_status busy (running 7)) busy refl refl

handle_restart_calls_example :
    let (s', reply) = handle_restart ops gateway_mqtt_client (with_status busy (running 7)) in
    (reply ≡ err (utf8 "spent"))
    × (get gateway_mqtt_client s'.statuses ≡ some (ServiceStatus.failed (utf8 "spent")))
    × (get gateway_mqtt_client s'.services ≡ some worn)
    × SameBut gateway_mqtt_client (with_status busy (running 7)) s'
unfolding get
handle_restart_calls_example =
    handle_restart_calls ops gateway_mqtt_client (with_status busy (running 7)) busy refl refl refl

serve-SameBut_example :
    let s' =
      (serve ops (SupervisorCommand.start gateway_mqtt_client) (with_status idle stopped)).0 in
    (get mosquitto s'.statuses ≡ get mosquitto (with_status idle stopped).statuses)
    × (get mosquitto s'.services ≡ get mosquitto (with_status idle stopped).services)
serve-SameBut_example =
    serve-SameBut ops (SupervisorCommand.start gateway_mqtt_client) (with_status idle stopped)
      mosquitto (λ e. cc)

serve_all-unavailable_example :
    let s' = serve_all ops commands (with_status idle stopped) in
    (get mosquitto s'.statuses ≡ some unavailable) × (get mosquitto s'.services ≡ some idle)
unfolding get
serve_all-unavailable_example =
    serve_all-unavailable ops mosquitto commands (with_status idle stopped) refl
