-- ===== src/App/Trust.antt =====
-- src/app.rs: the certificates that `App::initialize` leaves to the node's own MQTT client.
use place_net_hamlet.Common.{
  ◌≡◌, ◌≢◌, refl, sym, ap, ◌∙◌, subst, [], ◌∷◌, some, true, ok, err, Text, text_eq, same_iff,
  same_self, arith, ok-injective,
}
use place_net_hamlet.Common.Map.{get}
use place_net_hamlet.Common.Disk.{Files}
use place_net_hamlet.Supervisor.{Reply}
use place_net_hamlet.Config.Types.{Config, mutual_tls}
use place_net_hamlet.Config.Brokerage.{build_brokerage_info}
use place_net_hamlet.Ca.Operations.{Rcgen}
use place_net_hamlet.Ca.Service.{CaService, ca_cert_pem}
use place_net_hamlet.Brokerage.Provision.{provision_mqtt_broker_cert}
use place_net_hamlet.Brokerage.Manager.{configured_files}
use place_net_hamlet.Brokerage.Certificate.{provision_writes}
use place_net_hamlet.MqttClient.Options.{tls_mutual, base_options, build_mqtt_opts}
use place_net_hamlet.MqttClient.Manager.{provision_at, provision_node_identity}
use place_net_hamlet.MqttClient.Provisioned.{on_disk, provisioned_opts}
use place_net_hamlet.App.Initialize.{
  Startup, App, or_exit, broker_files, prepared_files, node_files, assemble, initialize,
}
use place_net_hamlet.App.Startup.{initialized}

or_exit_ok : {A : Type 0} {a : A} (r : A × Reply) → or_exit r ≡ ok a → (r.1 ≡ ok tt) × (r.0 ≡ a)
or_exit_ok (x, ok u) h = (refl, ok-injective h)
or_exit_ok (x, err e) h = absurd (cc)

cafile_found :
    (cafile certfile keyfile root cert_pem key_pem : Text)
    → cafile ≢ certfile
    → cafile ≢ keyfile
    → get cafile ((keyfile, key_pem) ∷ (certfile, cert_pem) ∷ (cafile, root) ∷ []) ≡ some root
unfolding get
cafile_found cafile certfile keyfile root cert_pem key_pem a b =
    ground (arith, same_iff keyfile cafile, same_iff certfile cafile, same_self cafile)

module _ {K C Q : Type 0} (rcgen : Rcgen K C Q) (st : Startup K) (config : Config) where
  -- The broker's provisioning leaves the authority's certificate in its CA file.
  root_on_disk :
      (opened : CaService K C) (written : Files) (pem : Text)
      → config.mqtt_brokerage.tls_enabled ≡ true
      → config.mqtt_brokerage.cafile ≢ config.mqtt_brokerage.certfile
      → config.mqtt_brokerage.cafile ≢ config.mqtt_brokerage.keyfile
      → ca_cert_pem rcgen opened ≡ ok pem
      → broker_files rcgen st config opened ≡ ok written
      → get config.mqtt_brokerage.cafile written ≡ some pem
  unfolding broker_files
  root_on_disk opened written pem tls d1 d2 h =
      rw (tls, broker_files)
        (λ b.
          let r =
            provision_mqtt_broker_cert rcgen st.disk st.show_ip st.for_broker st.interfaces opened
              config.mqtt_brokerage [] in
          let (reply, files) = or_exit_ok r b in
          let (root, cert_pem, key_pem, root_of, made, end) =
            provision_writes rcgen st.disk st.show_ip st.for_broker st.interfaces opened
              config.mqtt_brokerage [] reply in
          let same_root : root ≡ pem = ok-injective (sym root_of ∙ h) in
          ap (get config.mqtt_brokerage.cafile) (sym files ∙ end)
          ∙ cafile_found config.mqtt_brokerage.cafile config.mqtt_brokerage.certfile
              config.mqtt_brokerage.keyfile root cert_pem key_pem d1 d2
          ∙ ap some same_root)

  -- The broker's configuration file hides no other.
  prepared_keeps :
      (path : Text) (files : Files)
      → path ≢ config.mqtt_brokerage.config_file
      → get path (prepared_files rcgen st config files) ≡ get path files
  unfolding prepared_files configured_files get
  prepared_keeps path files ne = ground (arith, same_iff config.mqtt_brokerage.config_file path)

  provision_keeps_state :
      (ca : CaService K C) (files : Files)
      → (provision_node_identity rcgen st.disk st.for_node ca config.mqtt_client files).0.state
        ≡ ca.state
  unfolding provision_node_identity provision_at
  provision_keeps_state ca files = ground arith

  ca_cert_pem-state :
      (ca ca' : CaService K C) → ca'.state ≡ ca.state → ca_cert_pem rcgen ca' ≡ ca_cert_pem rcgen ca
  unfolding ca_cert_pem
  ca_cert_pem-state ca ca' h = rw h

  -- Where the broker has TLS enabled, the node's client speaks mutual TLS with the broker's CA
  -- file, and the paths of the client's two files, of the broker's two and of its configuration
  -- file differ from that of the CA file, and the client's two from one another, different paths
  -- being different files: after an initialization that succeeds, the client's connection options
  -- are built from the files on disk without an error, with the authority's certificate as the
  -- one that it trusts, and devices are told of the same certificate.
  pub initialize_trust :
      (app : App K C) (certfile keyfile : Text)
      → let broker = config.mqtt_brokerage in
        let client = config.mqtt_client in
        broker.tls_enabled ≡ true
        → client.tls_mode ≡ mutual_tls
        → client.cafile ≡ some broker.cafile
        → client.certfile ≡ some certfile
        → client.keyfile ≡ some keyfile
        → certfile ≢ keyfile
        → broker.cafile ≢ certfile
        → broker.cafile ≢ keyfile
        → broker.cafile ≢ broker.certfile
        → broker.cafile ≢ broker.keyfile
        → broker.cafile ≢ broker.config_file
        → initialize rcgen st config ≡ ok app
        → (root cert_pem key_pem : Text) × (ca_cert_pem rcgen app.ca ≡ ok root)
          × (app.gateway_state.brokerage_info.ca_cert_pem ≡ root)
          × (build_mqtt_opts (on_disk st.bytes app.files st.hosts.tls) client
              ≡ ok (record (base_options client) {
                transport = tls_mutual (st.bytes root) (st.bytes cert_pem) (st.bytes key_pem);
              }))
  unfolding node_files assemble build_brokerage_info
  initialize_trust app certfile keyfile tls mode ca_of cert_of key_of d1 d2 d3 d4 d5 d6 h =
      let (opened, pem, written, h2, h3, h4, built) = initialized rcgen st config app h in
      let on_disk_then = prepared_files rcgen st config written in
      let there : get config.mqtt_brokerage.cafile on_disk_then ≡ some pem =
        prepared_keeps config.mqtt_brokerage.cafile written d6
        ∙ root_on_disk opened written pem tls d4 d5 h2 h3 in
      let r =
        provision_node_identity rcgen st.disk st.for_node opened config.mqtt_client on_disk_then in
      let node : or_exit ((r.0, r.1), r.2) ≡ ok (app.ca, app.files) =
        subst (λ m. node_files rcgen st config m opened on_disk_then ≡ ok (app.ca, app.files)) mode
          h4 in
      let (reply, parts) = or_exit_ok ((r.0, r.1), r.2) node in
      let (pair, made, opts) =
        provisioned_opts rcgen st.disk st.bytes st.hosts.tls st.for_node opened config.mqtt_client
          on_disk_then config.mqtt_brokerage.cafile certfile keyfile pem mode ca_of cert_of key_of
          d1 d2 d3 there reply in
      let same_ca : r.0 ≡ app.ca = ap (λ (p : CaService K C × Files). p.0) parts in
      let same_files : r.1 ≡ app.files = ap (λ (p : CaService K C × Files). p.1) parts in
      (
        pem,
        pair.0,
        pair.1,
        ap (ca_cert_pem rcgen) (sym same_ca)
            ∙ ca_cert_pem-state opened r.0 (provision_keeps_state opened on_disk_then)
            ∙ h2,
        ap (λ (a : App K C). a.gateway_state.brokerage_info.ca_cert_pem) built,
        subst
            (λ (f : Files).
              build_mqtt_opts (on_disk st.bytes f st.hosts.tls) config.mqtt_client
              ≡ ok (record (base_options config.mqtt_client) {
                transport = tls_mutual (st.bytes pem) (st.bytes pair.0) (st.bytes pair.1);
              }))
            same_files opts,
      )
