-- ===== src/Brokerage/Lifecycle.antt =====
-- src/services/mqtt_brokerage: the broker under the supervisor.
use place_net_hamlet.Common.{
  ℕ, ◌≡◌, refl, ap, ◌∙◌, List, [], ◌∷◌, none, some, Bool, true, false, ok, Text, utf8, text_eq,
  arith,
}
use place_net_hamlet.Common.Map.{get}
use place_net_hamlet.Config.Types.{MqttBrokerageConfig}
use place_net_hamlet.Config.Brokerage.{ConfigFiles}
use place_net_hamlet.Services.{ServiceId, service_eq, mosquitto}
use place_net_hamlet.Supervisor
use place_net_hamlet.Supervisor.{
  unavailable, running, ServiceStatus, Supervisor, SupervisorCommand, is_running_status,
  handle_restart,
}
use place_net_hamlet.Supervisor.Guards.{status_of, reply_of, get-insert_self}
use place_net_hamlet.Supervisor.Transitions.{handle_restart_calls}
use place_net_hamlet.Supervisor.Isolation.{serve_unavailable}
use place_net_hamlet.Supervisor.Held.{serve_each}
use place_net_hamlet.Capabilities.{
  is_available, detect_binary, detect_capabilities, detect_capabilities_lem,
}
use place_net_hamlet.Capabilities
use place_net_hamlet.Brokerage.Service.{
  Host, Child, MosquittoBrokerageService, new, adopt, start, stop, service,
}
use place_net_hamlet.Brokerage.Manager.{build, register_onto}
use place_net_hamlet.Brokerage.Children.{alive, IsSupervised, stopped_none_alive, started_alive}

module _ (host : Host) (s : MosquittoBrokerageService) where
  stop_succeeds : (c : Child) → s.child ≡ some c → (stop host s).1 ≡ ok tt
  unfolding stop
  stop_succeeds c h = rw (h)

  start_again :
      (c : Child) (pid : ℕ)
      → s.child ≡ some c
      → host.exists s.config.config_file ≡ true
      → host.spawn s.binary_path s.config.config_file ≡ ok (some pid)
      → let (s', result) = start host (stop host s).0 in
        (result ≡ ok pid) × (s'.child ≡ some (record { number = s.next_child; pid = some pid }))
  unfolding start stop adopt
  start_again c pid h e p = (ground arith, ground arith)

stopped_parts :
    (host : Host) (s : MosquittoBrokerageService) (c : Child)
    → s.child ≡ some c
    → let s' = (stop host s).0 in
      (s'.child ≡ none)
      × (s'.config ≡ s.config)
      × (s'.binary_path ≡ s.binary_path)
      × (s'.next_child ≡ s.next_child)
unfolding stop
stopped_parts host s c h = (ground arith, ground arith, ground arith, ground arith)

restarted_alive :
    (host : Host) (s : MosquittoBrokerageService) (c : Child) (pid : ℕ)
    → IsSupervised s
    → s.child ≡ some c
    → host.exists s.config.config_file ≡ true
    → host.spawn s.binary_path s.config.config_file ≡ ok (some pid)
    → alive (start host (stop host s).0).0.events ≡ s.next_child ∷ []
restarted_alive host s c pid supervised child file spawns =
    let (idle, config, binary, next) = stopped_parts host s c child in
    started_alive host (stop host s).0 pid (stopped_none_alive host s supervised) idle
      (ap (λ (f : MqttBrokerageConfig). host.exists f.config_file) config ∙ file)
      (ap (λ b. host.spawn b (stop host s).0.config.config_file) binary
        ∙ ap (λ (f : MqttBrokerageConfig). host.spawn s.binary_path f.config_file) config
        ∙ spawns)
    ∙ ap (λ n. n ∷ []) next

-- Restarting a running broker that holds a child process and has no other alive, whether or not
-- that one has exited by itself, where its configuration file is there and a new process is
-- spawned with a PID: the reply is a success, the status is running with that PID, and the new
-- child alone is alive, however the wait for the old one ends.
pub mosquitto_restarts :
    (host : Host) (id : ServiceId) (s : Supervisor MosquittoBrokerageService)
    (svc : MosquittoBrokerageService) (c : Child) (pid : ℕ)
    → is_running_status (get id s.statuses) ≡ true
    → get id s.services ≡ some svc
    → IsSupervised svc
    → svc.child ≡ some c
    → host.exists svc.config.config_file ≡ true
    → host.spawn svc.binary_path svc.config.config_file ≡ ok (some pid)
    → let (s', reply) = handle_restart (service host) id s in
      (reply ≡ ok tt)
      × (get id s'.statuses ≡ some (running pid))
      × (svc' : MosquittoBrokerageService) × (get id s'.services ≡ some svc')
      × (alive svc'.events ≡ svc.next_child ∷ [])
mosquitto_restarts host id s svc c pid up there supervised child file spawns =
    let calls =
      handle_restart_calls (service host) id s svc up there (stop_succeeds host svc c child) in
    let (result, child') = start_again host svc c pid child file spawns in
    (
      calls.0 ∙ ap reply_of result,
      calls.1 ∙ ap (λ r. some (status_of r)) result,
      (start host (stop host svc).0).0,
      calls.2,
      restarted_alive host svc c pid supervised child file spawns,
    )

-- Commands leave an unavailable service as it is.
unavailable_stays :
    (id : ServiceId) (cs : List (Host × SupervisorCommand))
    (s : Supervisor MosquittoBrokerageService)
    → get id s.statuses ≡ some unavailable
    → get id (serve_each service cs s).services ≡ get id s.services
unfolding serve_each
unavailable_stays id [] s u = refl
unavailable_stays id ((h, c) ∷ cs) s u =
    let (p, q) = serve_unavailable (service h) id c s u in
    unavailable_stays id cs (Supervisor.serve (service h) c s).0 (p ∙ u) ∙ q

registered_unavailable :
    (svc : MosquittoBrokerageService) (s : Supervisor MosquittoBrokerageService)
    → let s' = Supervisor.register mosquitto svc false s in
      (get mosquitto s'.statuses ≡ some unavailable) × (get mosquitto s'.services ≡ some svc)
unfolding Supervisor.register
registered_unavailable svc s =
    (get-insert_self mosquitto unavailable s.statuses, get-insert_self mosquitto svc s.services)

pub not_detected :
    (run : Capabilities.Host) (names : List Text)
    → detect_binary run (utf8 "mosquitto") ≡ none
    → is_available (utf8 "mosquitto") (detect_capabilities run names) ≡ false
not_detected run names gone =
    (detect_capabilities_lem run names (utf8 "mosquitto")).0 ∙ rw gone (ground arith)

-- Where Mosquitto is not detected, its registration gives no handle and prepares nothing, and
-- after any commands the service is as it was built, with no process spawned.
pub missing_broker_never_spawned :
    (cs : List (Host × SupervisorCommand)) (run : Capabilities.Host) (names : List Text)
    (files : ConfigFiles) (exists : Text → Bool) (cfg : MqttBrokerageConfig)
    (s : Supervisor MosquittoBrokerageService)
    → detect_binary run (utf8 "mosquitto") ≡ none
    → let caps = detect_capabilities run names in
      let (s', available, handle, prepared) =
        register_onto (λ svc. svc) run files exists caps cfg s in
      (available ≡ false)
      × (handle ≡ none)
      × (prepared ≡ record { configured = none; password = none; ran = [] })
      × (get mosquitto (serve_each service cs s').services ≡ some (build caps cfg))
      × ((build caps cfg).events ≡ [])
unfolding register_onto build new
missing_broker_never_spawned cs run names files exists cfg s gone =
    let caps = detect_capabilities run names in
    rw (not_detected run names gone) (
      refl,
      refl,
      refl,
      (let (status, there) = registered_unavailable (build caps cfg) s in
          unavailable_stays mosquitto cs _ status ∙ there),
      refl,
    )
