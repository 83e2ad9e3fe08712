-- ===== src/App/Startup.antt =====
-- src/app.rs: what `App::initialize` leads to.
use place_net_hamlet.Common.{
  ◌≡◌, sym, ap, ◌∙◌, subst, List, Bool, true, ok, Text, text_eq, is_empty, ◌||◌, inl, inr,
  Bool-cases, Option-cases, bind_ok, ok-injective,
}
use place_net_hamlet.Common.Disk.{Files}
use place_net_hamlet.Services.{service_eq, gateway, mosquitto, mqtt_client, gateway_mqtt_client}
use place_net_hamlet.Supervisor.{Supervisor, SupervisorCommand, serve_all}
use place_net_hamlet.Supervisor.Run.{
  IsWellFormed, new-IsWellFormed, register-IsWellFormed, serve_all-IsWellFormed,
}
use place_net_hamlet.Config.Types.{
  Config, GatewayRegistrationConfig, MqttClientConfig, MqttBrokerageConfig,
}
use place_net_hamlet.Config.Brokerage.{ConfigFiles}
use place_net_hamlet.Capabilities.{Host, ServiceCapabilities, detect_capabilities}
use place_net_hamlet.Ca.Operations.{Rcgen}
use place_net_hamlet.Ca.Service.{CaService, ca_cert_pem}
use place_net_hamlet.Ca.Service as CaModule
use place_net_hamlet.Brokerage.Manager as BrokerManager
use place_net_hamlet.Brokerage.Manager.{Preparation}
use place_net_hamlet.MqttClient.Manager as ClientManager
use place_net_hamlet.GatewayMqtt.Service.{GatewayMqttService}
use place_net_hamlet.GatewayMqtt.Manager as CloudManager
use place_net_hamlet.App.Services.{
  Hosts, BoxedService, broker_service, client_service, cloud_service, boxed,
}
use place_net_hamlet.Brokerage.Service.{MosquittoBrokerageService}
use place_net_hamlet.MqttClient.Service.{MqttClientService}
use place_net_hamlet.App.Initialize.{
  Startup, App, required_binaries, broker_files, prepared_files, node_files, register_all,
  start_all, assemble, initialize, start_commands,
}

-- Registering the cloud gateway's client adds one service, or none.
cloud-IsWellFormed :
    {S : Type 0} (box : GatewayMqttService → S) (cfg : GatewayRegistrationConfig) (s : Supervisor S)
    → IsWellFormed s
    → IsWellFormed (CloudManager.register_onto box cfg s).0
unfolding CloudManager.register_onto
cloud-IsWellFormed box cfg s w = elim (Option-cases cfg.gateway_url) [
  | inl off ↦ rw (off, CloudManager.register_onto) w
  | inr (url, there) ↦ elim (Bool-cases (is_empty cfg.username || is_empty cfg.password)) [
    | inl h ↦ rw (there, CloudManager.register_onto) (rw (h, CloudManager.register_onto) w)
    | inr h ↦
        rw (there, CloudManager.register_onto)
          (rw (h, CloudManager.register_onto)
            (register-IsWellFormed gateway_mqtt_client _ true s w))
  ]
]

client-IsWellFormed :
    {S : Type 0} (box : MqttClientService → S) (cfg : MqttClientConfig) (available : Bool)
    (s : Supervisor S)
    → IsWellFormed s
    → IsWellFormed (ClientManager.register_onto box cfg available s).0
unfolding ClientManager.register_onto
client-IsWellFormed box cfg available s w = register-IsWellFormed mqtt_client _ available s w

broker-IsWellFormed :
    {S : Type 0} (box : MosquittoBrokerageService → S) (host : Host) (files : ConfigFiles)
    (exists : Text → Bool) (caps : ServiceCapabilities) (cfg : MqttBrokerageConfig)
    (s : Supervisor S)
    → IsWellFormed s
    → IsWellFormed (BrokerManager.register_onto box host files exists caps cfg s).0
unfolding BrokerManager.register_onto
broker-IsWellFormed box host files exists caps cfg s w = register-IsWellFormed mosquitto _ _ s w

module _ {K C Q : Type 0} (rcgen : Rcgen K C Q) (st : Startup K) (config : Config) where
  register_all-IsWellFormed :
      (caps : ServiceCapabilities) → IsWellFormed (register_all rcgen st config caps).0
  unfolding register_all
  register_all-IsWellFormed caps = cloud-IsWellFormed cloud_service config.gateway_registration _ (
      client-IsWellFormed client_service config.mqtt_client _ _ (
        register-IsWellFormed gateway _ true _ (
          broker-IsWellFormed broker_service st.commands st.config_files st.exists caps
            config.mqtt_brokerage _ new-IsWellFormed)))

  assembled :
      {app : App K C} (pem : Text) (node : CaService K C × Files)
      → assemble rcgen st config pem node.0 node.1 ≡ app
      → node ≡ (app.ca, app.files)
  unfolding assemble
  assembled pem node built = ap (λ (a : App K C). (a.ca, a.files)) built

  -- The parts of a start of the application that succeeds.
  pub initialized :
      (app : App K C)
      → initialize rcgen st config ≡ ok app
      → (opened : CaService K C) × (pem : Text) × (written : Files) × (ca_cert_pem rcgen opened
          ≡ ok pem)
        × (broker_files rcgen st config opened ≡ ok written)
        × (node_files rcgen st config config.mqtt_client.tls_mode opened
              (prepared_files rcgen st config written)
            ≡ ok (app.ca, app.files))
        × (app ≡ assemble rcgen st config pem app.ca app.files)
  unfolding initialize
  initialized app h =
      let (opened, h1, k1) = bind_ok (CaModule.register rcgen st.opening st.tables) _ app h in
      let (pem, h2, k2) = bind_ok (ca_cert_pem rcgen opened) _ app k1 in
      let (written, h3, k3) = bind_ok (broker_files rcgen st config opened) _ app k2 in
      let (node, h4, k4) =
        bind_ok
          (node_files rcgen st config config.mqtt_client.tls_mode opened
            (prepared_files rcgen st config written))
          _ app k3 in
      let built : assemble rcgen st config pem node.0 node.1 ≡ app = ok-injective k4 in
      let parts = assembled pem node built in
      (
        opened,
        pem,
        written,
        h2,
        h3,
        h4 ∙ ap ok parts,
        sym built ∙ ap (λ (p : CaService K C × Files). assemble rcgen st config pem p.0 p.1) parts,
      )

  start_all-IsWellFormed :
      (files : Files) (available cloud : Bool) (s : Supervisor BoxedService)
      → IsWellFormed s
      → IsWellFormed (start_all rcgen st config files available cloud s)
  unfolding start_all
  start_all-IsWellFormed files available cloud s w =
      serve_all-IsWellFormed _ (start_commands available cloud) s w

  assemble-IsWellFormed :
      (pem : Text) (ca : CaService K C) (files : Files)
      → IsWellFormed (assemble rcgen st config pem ca files).supervisor
  unfolding assemble
  assemble-IsWellFormed pem ca files =
      start_all-IsWellFormed files _ _ _
        (register_all-IsWellFormed (detect_capabilities st.commands required_binaries))

  -- After an initialization that succeeds and any later commands, the supervisor is well-formed.
  pub initialize-IsWellFormed :
      (app : App K C) (later : Hosts) (cs : List SupervisorCommand)
      → initialize rcgen st config ≡ ok app
      → IsWellFormed (serve_all (boxed later) cs app.supervisor)
  initialize-IsWellFormed app later cs h =
      let (opened, pem, written, h2, h3, h4, built) = initialized app h in
      serve_all-IsWellFormed (boxed later) cs app.supervisor (
        subst (λ (a : App K C). IsWellFormed a.supervisor) (sym built)
          (assemble-IsWellFormed pem app.ca app.files))
