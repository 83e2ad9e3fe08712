-- ===== src/App/WithoutBroker.antt =====
-- src/app.rs: `App::initialize` on a host without the Mosquitto binary.
use place_net_hamlet.Common.{
  ◌≡◌, ◌≢◌, refl, sym, ap, ◌∙◌, List, [], none, some, Bool, false, ok, Text, text_eq, utf8,
  is_empty, ◌||◌, inl, inr, Bool-cases, Option-cases,
}
use place_net_hamlet.Common.Map.{get, insert}
use place_net_hamlet.Common.Disk.{Files}
use place_net_hamlet.Services.{ServiceId, service_eq, mosquitto, mqtt_client, gateway_mqtt_client}
use place_net_hamlet.Supervisor
use place_net_hamlet.Supervisor.{Supervisor, SupervisorCommand, unavailable, register, serve_all}
use place_net_hamlet.Supervisor.Isolation.{serve_all-unavailable}
use place_net_hamlet.Supervisor.Guards.{get-insert_ne}
use place_net_hamlet.Brokerage.Lifecycle.{not_detected}
use place_net_hamlet.Config.Types.{Config, GatewayRegistrationConfig}
use place_net_hamlet.Capabilities.{
  ServiceCapabilities, is_available, detect_binary, detect_capabilities,
}
use place_net_hamlet.Ca.Operations.{Rcgen}
use place_net_hamlet.Ca.Service.{CaService}
use place_net_hamlet.Brokerage.Manager as BrokerManager
use place_net_hamlet.Brokerage.Manager.{Preparation}
use place_net_hamlet.MqttClient.Manager as ClientManager
use place_net_hamlet.GatewayMqtt.Service.{GatewayMqttService}
use place_net_hamlet.GatewayMqtt.Manager as CloudManager
use place_net_hamlet.App.Services.{Hosts, BoxedService, cloud_service, boxed}
use place_net_hamlet.App.Initialize.{
  Startup, App, required_binaries, register_all, start_all, assemble, initialize, start_commands,
  subscriptions,
}
use place_net_hamlet.App.Startup.{initialized}

-- The cloud gateway's client is registered under its own id.
cloud_others :
    {S : Type 0} (box : GatewayMqttService → S) (cfg : GatewayRegistrationConfig) (s : Supervisor S)
    (id : ServiceId)
    → id ≢ gateway_mqtt_client
    → get id (CloudManager.register_onto box cfg s).0.statuses ≡ get id s.statuses
unfolding CloudManager.register_onto register
cloud_others box cfg s id other = elim (Option-cases cfg.gateway_url) [
  | inl off ↦ rw (off, CloudManager.register_onto) refl
  | inr (url, there) ↦ elim (Bool-cases (is_empty cfg.username || is_empty cfg.password)) [
    | inl h ↦ rw (there, CloudManager.register_onto) (rw (h, CloudManager.register_onto) refl)
    | inr h ↦
        rw (there, CloudManager.register_onto)
          (rw (h, CloudManager.register_onto)
            (get-insert_ne gateway_mqtt_client id _ s.statuses (λ e. other (sym e))))
  ]
]

module _ {K C Q : Type 0} (rcgen : Rcgen K C Q) (st : Startup K) (config : Config) where
  registered_unavailable :
      (caps : ServiceCapabilities)
      → is_available (utf8 "mosquitto") caps ≡ false
      → let (s, available, handle, prepared, cloud) = register_all rcgen st config caps in
        (get mosquitto s.statuses ≡ some unavailable)
        × (get mqtt_client s.statuses ≡ some unavailable)
        × (available ≡ false)
        × (handle ≡ none)
  unfolding register_all BrokerManager.register_onto ClientManager.register_onto register get insert
      Supervisor.new
  registered_unavailable caps gone = (
    cloud_others cloud_service config.gateway_registration _ mosquitto (λ e. cc) ∙ rw gone refl,
    cloud_others cloud_service config.gateway_registration _ mqtt_client (λ e. cc) ∙ rw gone refl,
    gone,
    rw gone refl,
  )

  started_unavailable :
      (files : Files) (available cloud : Bool) (s : Supervisor BoxedService) (id : ServiceId)
      → get id s.statuses ≡ some unavailable
      → get id (start_all rcgen st config files available cloud s).statuses ≡ some unavailable
  unfolding start_all
  started_unavailable files available cloud s id u =
      (serve_all-unavailable _ id (start_commands available cloud) s u).0

  assembled_without :
      (pem : Text) (ca : CaService K C) (files : Files)
      → is_available (utf8 "mosquitto") (detect_capabilities st.commands required_binaries) ≡ false
      → let app = assemble rcgen st config pem ca files in
        (get mosquitto app.supervisor.statuses ≡ some unavailable)
        × (get mqtt_client app.supervisor.statuses ≡ some unavailable)
        × (app.sent ≡ [])
        × (app.gateway_state.brokerage ≡ none)
  unfolding assemble subscriptions
  assembled_without pem ca files gone =
      let (broker, client, off, handle) =
        registered_unavailable (detect_capabilities st.commands required_binaries) gone in
      (
        started_unavailable files _ _ _ mosquitto broker,
        started_unavailable files _ _ _ mqtt_client client,
        rw off refl,
        handle,
      )

  -- Where Mosquitto is not detected and the initialization succeeds, the broker and the MQTT
  -- client are unavailable after every sequence of later commands, the client was sent no
  -- subscription, and the HTTP gateway has no brokerage to record certificates with.
  pub initialize_without_broker :
      (app : App K C) (later : Hosts) (cs : List SupervisorCommand)
      → initialize rcgen st config ≡ ok app
      → detect_binary st.commands (utf8 "mosquitto") ≡ none
      → let end = serve_all (boxed later) cs app.supervisor in
        (get mosquitto end.statuses ≡ some unavailable)
        × (get mqtt_client end.statuses ≡ some unavailable)
        × (app.sent ≡ [])
        × (app.gateway_state.brokerage ≡ none)
  initialize_without_broker app later cs h gone =
      let (opened, pem, written, h2, h3, h4, built) = initialized rcgen st config app h in
      let missing = not_detected st.commands required_binaries gone in
      let (broker, client, sent, handle) = assembled_without pem app.ca app.files missing in
      let status = λ (id : ServiceId). ap (λ (a : App K C). get id a.supervisor.statuses) built in
      (
        (serve_all-unavailable (boxed later) mosquitto cs app.supervisor
            (status mosquitto ∙ broker)).0,
        (serve_all-unavailable (boxed later) mqtt_client cs app.supervisor
            (status mqtt_client ∙ client)).0,
        ap (λ (a : App K C). a.sent) built ∙ sent,
        ap (λ (a : App K C). a.gateway_state.brokerage) built ∙ handle,
      )
