-- ===== src/Brokerage/Manager.antt =====
-- src/services/mqtt_brokerage/manager.rs: the registration of the broker. The lines that only log an
-- error or go on are left out; what was done for the broker comes back as `Preparation`.
use place_net_hamlet.Common.{
  [], ◌∷◌, ok, err, Option, none, some, Bool, List, Text, utf8, unwrap_or, if◌then◌else◌,
}
use place_net_hamlet.Config.Types.{MqttBrokerageConfig}
use place_net_hamlet.Config.Brokerage.{ConfigFiles, config_text, write_config}
use place_net_hamlet.Common.Disk.{Files}
use place_net_hamlet.Services.{mosquitto}
use place_net_hamlet.Supervisor.{Supervisor, Reply}
use place_net_hamlet.Supervisor
use place_net_hamlet.Capabilities.{Host, ServiceCapabilities, is_available, binary_path}
use place_net_hamlet.Brokerage.Service.{MosquittoBrokerageService, new}
use place_net_hamlet.Brokerage.Passwords.{Invocation, set_password}

-- The results of `write_config` and of `set_password`, `none` where they are not called, and the
-- commands that were run.
pub record Preparation : Type 0 where
  pub configured : Option Reply
  pub password : Option Reply
  pub ran : List Invocation

-- The service, with the path under which a binary was found.
unfoldable pub build : ServiceCapabilities → MqttBrokerageConfig → MosquittoBrokerageService
unfolding binary_path new
build caps cfg =
    new (unwrap_or (utf8 "mosquitto") (binary_path (utf8 "mosquitto") caps))
      (binary_path (utf8 "mosquitto_passwd") caps) cfg

unfoldable pub prepare :
    Host
    → ConfigFiles
    → (Text → Bool)
    → MqttBrokerageConfig
    → MosquittoBrokerageService
    → Preparation
unfolding write_config set_password
prepare host files exists cfg svc =
    let written : Option Reply = some (write_config files cfg) in
    if cfg.tls_enabled
    then record { configured = written; password = none; ran = [] }
    else (let (ran, reply) = set_password host exists cfg.username cfg.password svc in
        record { configured = written; password = some reply; ran = ran })

-- The files after `write_config` was called; where it fails, the error is only logged.
unfoldable pub configured_files : ConfigFiles → MqttBrokerageConfig → Files → Files
unfolding write_config config_text
configured_files files cfg written = elim (write_config files cfg) [
  | err e ↦ written
  | ok _ ↦ (cfg.config_file, config_text cfg) ∷ written
]

-- The supervisor, whether the broker is available, the handle (the path of the CA file) and what was
-- prepared. `box` makes the service one of the supervisor's.
unfoldable pub register_onto :
    {S : Type 0}
    → (MosquittoBrokerageService → S)
    → Host
    → ConfigFiles
    → (Text → Bool)
    → ServiceCapabilities
    → MqttBrokerageConfig
    → Supervisor S
    → Supervisor S × Bool × Option Text × Preparation
unfolding is_available build prepare
register_onto box host files exists caps cfg s =
    let available = is_available (utf8 "mosquitto") caps in
    let svc = build caps cfg in
    let handle = if available then some cfg.cafile else none in
    let nothing : Preparation = record { configured = none; password = none; ran = [] } in
    let prepared = if available then prepare host files exists cfg svc else nothing in
    (Supervisor.register mosquitto (box svc) available s, available, handle, prepared)
