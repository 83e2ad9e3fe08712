-- ===== src/MqttClient/Provisioned.antt =====
-- src/services/mqtt_client: the connection options over the files that were provisioned.
use place_net_hamlet.Common.{
  ◌≡◌, ◌≢◌, refl, ap, ◌∙◌, ◌∷◌, none, some, ok, Text, text_eq, same_iff, same_self, arith, inl, inr,
  Result-cases,
}
use place_net_hamlet.Common.Map.{get}
use place_net_hamlet.Common.Disk.{Disk, Files, write_then}
use place_net_hamlet.Config.Types.{MqttClientConfig, mutual_tls}
use place_net_hamlet.Ca.Operations.{Rcgen}
use place_net_hamlet.Ca.Service.{Call, CaService, settle, ensure_node_identity}
use place_net_hamlet.MqttClient.Options.{
  Bytes, TlsFiles, tls_mutual, build_by, build_mutual_tls, build_mqtt_opts, base_options,
}
use place_net_hamlet.MqttClient.Manager.{write_node_identity, provision_at, provision_node_identity}

-- The reading of what was written: `bytes` gives the bytes of a text.
abbrev pub on_disk : (Text → Bytes) → Files → TlsFiles → TlsFiles
on_disk bytes files tls = record tls {
  read = λ path. elim (get path files) [ none ↦ tls.read path | some text ↦ ok (bytes text) ];
}

module _ {K C Q : Type 0} (rcgen : Rcgen K C Q) (disk : Disk) where
  node_files :
      (certfile keyfile : Text) (pair : Text × Text) (files : Files)
      → (write_node_identity rcgen disk certfile keyfile pair files).1 ≡ ok tt
      → (write_node_identity rcgen disk certfile keyfile pair files).0
        ≡ (keyfile, pair.1) ∷ (certfile, pair.0) ∷ files
  unfolding write_node_identity write_then
  node_files certfile keyfile pair files h = ground arith

  provision_at_files :
      (c : Call K) (ca : CaService K C) (files : Files) (certfile keyfile : Text)
      → let (ca', files', reply) = provision_at rcgen disk c ca certfile keyfile files in
        reply ≡ ok tt
        → (pair : Text × Text) × ((settle ca (ensure_node_identity rcgen c ca)).1 ≡ ok pair)
          × (files' ≡ (keyfile, pair.1) ∷ (certfile, pair.0) ∷ files)
  unfolding provision_at
  provision_at_files c ca files certfile keyfile =
      elim (Result-cases (settle ca (ensure_node_identity rcgen c ca)).1) [
        | inr (e, h) ↦ rw (h, provision_at) (λ reply. absurd (cc))
        | inl (pair, h) ↦
            rw (h, provision_at)
              (λ reply. (pair, refl, node_files certfile keyfile pair files reply))
      ]

  provision_there :
      (c : Call K) (ca : CaService K C) (cfg : MqttClientConfig) (files : Files)
      (certfile keyfile : Text)
      → cfg.certfile ≡ some certfile
      → cfg.keyfile ≡ some keyfile
      → provision_node_identity rcgen disk c ca cfg files
        ≡ provision_at rcgen disk c ca certfile keyfile files
  unfolding provision_node_identity
  provision_there c ca cfg files certfile keyfile hc hk =
      rw (hc, provision_node_identity) (rw (hk, provision_node_identity))

mutual_opts :
    (tls : TlsFiles) (cfg : MqttClientConfig) (cafile certfile keyfile : Text) (ca cert key : Bytes)
    → cfg.tls_mode ≡ mutual_tls
    → cfg.cafile ≡ some cafile
    → cfg.certfile ≡ some certfile
    → cfg.keyfile ≡ some keyfile
    → tls.read cafile ≡ ok ca
    → tls.read certfile ≡ ok cert
    → tls.read keyfile ≡ ok key
    → build_mqtt_opts tls cfg
      ≡ ok (record (base_options cfg) { transport = tls_mutual ca cert key })
unfolding build_mqtt_opts build_by build_mutual_tls
mutual_opts tls cfg cafile certfile keyfile ca cert key m a b c p q r = ground arith

module _ (bytes : Text → Bytes) (tls : TlsFiles) (files : Files) where
  read_back :
      (path text : Text)
      → get path files ≡ some text
      → (on_disk bytes files tls).read path ≡ ok (bytes text)
  read_back path text h = rw (h, on_disk)

-- The two files of an identity are found, and hide no other.
identity_found :
    (cafile certfile keyfile cert_pem key_pem : Text) (files : Files)
    → certfile ≢ keyfile
    → cafile ≢ certfile
    → cafile ≢ keyfile
    → let files' = (keyfile, key_pem) ∷ (certfile, cert_pem) ∷ files in
      (get keyfile files' ≡ some key_pem)
      × (get certfile files' ≡ some cert_pem)
      × (get cafile files' ≡ get cafile files)
unfolding get
identity_found cafile certfile keyfile cert_pem key_pem files a b c = (
  ground (arith, same_self keyfile),
  ground (arith, same_self certfile, same_iff keyfile certfile),
  ground (arith, same_iff keyfile cafile, same_iff certfile cafile),
)

module _ {K C Q : Type 0} (rcgen : Rcgen K C Q) (disk : Disk) (bytes : Text → Bytes)
    (tls : TlsFiles) where
  -- After a provisioning that succeeds, the options of mutual TLS are built from the files it
  -- wrote and the CA file that was there, at three different paths.
  pub provisioned_opts :
      (c : Call K) (ca : CaService K C) (cfg : MqttClientConfig) (files : Files)
      (cafile certfile keyfile root : Text)
      → cfg.tls_mode ≡ mutual_tls
      → cfg.cafile ≡ some cafile
      → cfg.certfile ≡ some certfile
      → cfg.keyfile ≡ some keyfile
      → certfile ≢ keyfile
      → cafile ≢ certfile
      → cafile ≢ keyfile
      → get cafile files ≡ some root
      → let (ca', files', reply) = provision_node_identity rcgen disk c ca cfg files in
        reply ≡ ok tt
        → (pair : Text × Text) × ((settle ca (ensure_node_identity rcgen c ca)).1 ≡ ok pair)
          × (build_mqtt_opts (on_disk bytes files' tls) cfg
              ≡ ok (record (base_options cfg) {
                transport = tls_mutual (bytes root) (bytes pair.0) (bytes pair.1);
              }))
  provisioned_opts c ca cfg files cafile certfile keyfile root mode hca hcert hkey d1 d2 d3 there =
      rw (provision_there rcgen disk c ca cfg files certfile keyfile hcert hkey) (λ reply.
        let files' = (provision_at rcgen disk c ca certfile keyfile files).1 in
        let (pair, made, written) =
          provision_at_files rcgen disk c ca files certfile keyfile reply in
        let (key, cert, old) =
          identity_found cafile certfile keyfile pair.0 pair.1 files d1 d2 d3 in
        let at = λ (path : Text). ap (get path) written in
        (
          pair,
          made,
          mutual_opts (on_disk bytes files' tls) cfg cafile certfile keyfile (bytes root)
              (bytes pair.0) (bytes pair.1) mode hca hcert hkey
              (read_back bytes tls files' cafile root (at cafile ∙ old ∙ there))
              (read_back bytes tls files' certfile pair.0 (at certfile ∙ cert))
              (read_back bytes tls files' keyfile pair.1 (at keyfile ∙ key)),
        ))
