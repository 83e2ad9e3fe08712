-- ===== src/Brokerage/Certificate.antt =====
-- src/services/mqtt_brokerage/mosquitto_brokerage_service.rs: what the provisioning leaves on disk.
use place_net_hamlet.Common.{
  ◌≡◌, refl, ap, ◌∙◌, subst, List, ◌∷◌, Option, ok, Text, utf8, arith, inl, inr, Result-cases,
}
use place_net_hamlet.Common.Disk.{Disk, Files, create_parent, write_then, write_then_ok}
use place_net_hamlet.Supervisor.{Reply}
use place_net_hamlet.Config.Types.{MqttBrokerageConfig}
use place_net_hamlet.Ca.Operations.{Rcgen}
use place_net_hamlet.Ca.Service.{Call, CaService, ca_cert_pem, generate_broker_cert}
use place_net_hamlet.Brokerage.Provision.{
  IpAddr, Interface, san_ips, san_hostnames, write_identity, issue_identity,
  provision_mqtt_broker_cert,
}

module _ {K C Q : Type 0} (rcgen : Rcgen K C Q) (disk : Disk) (show_ip : IpAddr → Text) where
  identity_files :
      (cfg : MqttBrokerageConfig) (cert_pem key_pem : Text) (files : Files)
      → (write_identity rcgen disk show_ip cfg cert_pem key_pem files).1 ≡ ok tt
      → (write_identity rcgen disk show_ip cfg cert_pem key_pem files).0
        ≡ (cfg.keyfile, key_pem) ∷ (cfg.certfile, cert_pem) ∷ files
  unfolding write_identity write_then
  identity_files cfg cert_pem key_pem files h = ground arith

  issued_files :
      (c : Call K) (interfaces : Option (List Interface)) (ca : CaService K C)
      (cfg : MqttBrokerageConfig) (files : Files)
      → let (files', reply) = issue_identity rcgen disk show_ip c interfaces ca cfg files in
        reply ≡ ok tt
        → (cert_pem key_pem : Text) × (generate_broker_cert rcgen c
              (san_ips show_ip interfaces cfg)
              (san_hostnames cfg)
              ca
            ≡ ok (cert_pem, key_pem))
          × (files' ≡ (cfg.keyfile, key_pem) ∷ (cfg.certfile, cert_pem) ∷ files)
  unfolding issue_identity
  issued_files c interfaces ca cfg files =
      elim (Result-cases
        (generate_broker_cert rcgen c (san_ips show_ip interfaces cfg) (san_hostnames cfg) ca)) [
          | inr (e, h) ↦ rw (h, issue_identity) (λ reply. absurd (cc))
          | inl (identity, h) ↦
              rw (h, issue_identity)
                (λ reply. (
                  identity.0,
                  identity.1,
                  refl,
                  identity_files cfg identity.0 identity.1 files reply,
                ))
        ]

  -- What is written before the identity: the authority's certificate.
  provision_writes_root :
      (c : Call K) (interfaces : Option (List Interface)) (ca : CaService K C)
      (cfg : MqttBrokerageConfig) (files : Files)
      → (provision_mqtt_broker_cert rcgen disk show_ip c interfaces ca cfg files).1 ≡ ok tt
      → (root : Text) × (ca_cert_pem rcgen ca ≡ ok root)
        × (provision_mqtt_broker_cert rcgen disk show_ip c interfaces ca cfg files
            ≡ issue_identity rcgen disk show_ip c interfaces ca cfg ((cfg.cafile, root) ∷ files))
  unfolding provision_mqtt_broker_cert
  provision_writes_root c interfaces ca cfg files =
      elim (Result-cases
        (create_parent disk (utf8 "Failed to create broker cert dir: ") cfg.certfile)) [
          | inr (e, h) ↦ rw (h, provision_mqtt_broker_cert) (λ reply. absurd (cc))
          | inl (u, h) ↦ elim (Result-cases (ca_cert_pem rcgen ca)) [
            | inr (e, k) ↦
                rw (h, provision_mqtt_broker_cert)
                  (rw (k, provision_mqtt_broker_cert) (λ reply. absurd (cc)))
            | inl (root, k) ↦
                rw (h, provision_mqtt_broker_cert)
                  (rw (k, provision_mqtt_broker_cert)
                    (λ reply. (
                      root,
                      refl,
                      write_then_ok disk (utf8 "Failed to write broker CA cert: ") cfg.cafile root
                          (issue_identity rcgen disk show_ip c interfaces ca cfg) files reply,
                    )))
          ]
        ]

  -- A provisioning that succeeds has written the authority's certificate, and a certificate with
  -- its key that the authority issued for the broker's addresses and names.
  pub provision_writes :
      (c : Call K) (interfaces : Option (List Interface)) (ca : CaService K C)
      (cfg : MqttBrokerageConfig) (files : Files)
      → let (files', reply) =
          provision_mqtt_broker_cert rcgen disk show_ip c interfaces ca cfg files in
        reply ≡ ok tt
        → (root cert_pem key_pem : Text) × (ca_cert_pem rcgen ca ≡ ok root)
          × (generate_broker_cert rcgen c (san_ips show_ip interfaces cfg) (san_hostnames cfg) ca
              ≡ ok (cert_pem, key_pem))
          × (files'
              ≡ (cfg.keyfile, key_pem) ∷ (cfg.certfile, cert_pem) ∷ (cfg.cafile, root) ∷ files)
  provision_writes c interfaces ca cfg files reply =
      let (root, pem, whole) = provision_writes_root c interfaces ca cfg files reply in
      let (cert_pem, key_pem, made, end) =
        issued_files c interfaces ca cfg ((cfg.cafile, root) ∷ files)
          (subst (λ (r : Files × Reply). r.1 ≡ ok tt) whole reply) in
      (root, cert_pem, key_pem, pem, made, ap (λ (r : Files × Reply). r.0) whole ∙ end)
