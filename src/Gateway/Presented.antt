-- ===== src/Gateway/Presented.antt =====
-- src/services/beacon_management/internals/tls.rs over src/infra/ca: the certificate that the HTTPS
-- gateway presents.
use place_net_hamlet.Common.{
  ◌≡◌, refl, List, ◌∷◌, some, ok, Result-cases, Option-cases, inl, inr, Text, arith,
}
use place_net_hamlet.Ca.Tables.{Tables, CaRow}
use place_net_hamlet.Ca.Operations.{
  Rcgen, CertificateParams, CaState, root_params, restore_ca, load_ca_from_db,
  generate_and_persist_ca, load_or_generate_ca,
}
use place_net_hamlet.Ca.Service.{Call, CaService, new, init, register, ca_cert_pem}
use place_net_hamlet.Gateway.Service.{Host, GatewayService, initialize, start, stop}
use place_net_hamlet.Gateway.Tls.{
  Rustls, collect, first, certificate_chain, private_key, build_tls_config, with_authority,
}
use place_net_hamlet.Gateway.Recovery.{stop_then_start}

module _ {K C Q F : Type 0} (rcgen : Rcgen K C Q) (tls : Rustls F) where
  -- What the documentation of rcgen and rustls says: the texts of a key and of a certificate that it
  -- signed itself can be parsed, and such a certificate can be served with its key.
  pub record ServesPem : Type 0 where
    pub self_signed :
        (p : CertificateParams) (k : K) (c : C)
        → rcgen.self_signed p k ≡ ok c
        → (chain keys : List Text) × (key : Text) × (config : F) × (collect
              (tls.certs (rcgen.pem c))
            ≡ ok chain)
          × (collect (tls.pkcs8_private_keys (rcgen.serialize_pem k)) ≡ ok (key ∷ keys))
          × (tls.with_single_cert chain key ≡ ok config)

  -- The certificate of an authority is signed with its own key.
  abbrev IsSelfSigned : CaState K C → Type 0
  IsSelfSigned ca = (p : CertificateParams) × (rcgen.self_signed p ca.key_pair ≡ ok ca.cert)

  restored-IsSelfSigned :
      (row : CaRow) (ca : CaState K C) → restore_ca rcgen row ≡ ok ca → IsSelfSigned ca
  unfolding restore_ca
  restored-IsSelfSigned row ca h = elim (Result-cases (rcgen.key_from_pem row.key_pem)) [
    | inr (e, bad) ↦ absurd (ground arith)
    | inl (k, read) ↦ elim (Result-cases (rcgen.from_ca_cert_pem row.cert_pem)) [
      | inr (e, bad) ↦ absurd (ground arith)
      | inl (p, parsed) ↦ (p, ground arith)
    ]
  ]

  generated-IsSelfSigned :
      (c : Call K) (t t' : Tables) (ca : CaState K C)
      → generate_and_persist_ca rcgen c.db c.generated t ≡ ok (ca, t')
      → IsSelfSigned ca
  unfolding generate_and_persist_ca
  generated-IsSelfSigned c t t' ca h = (root_params, ground arith)

  from_db-IsSelfSigned :
      (c : Call K) (t : Tables) (ca : CaState K C)
      → load_ca_from_db rcgen c.db t ≡ ok (some ca)
      → IsSelfSigned ca
  unfolding load_ca_from_db
  from_db-IsSelfSigned c t ca h = elim (Option-cases t.ca_keys) [
    | inl gone ↦ absurd (ground arith)
    | inr (row, there) ↦ restored-IsSelfSigned row ca (ground arith)
  ]

  loaded-IsSelfSigned :
      (c : Call K) (t t' : Tables) (ca : CaState K C)
      → load_or_generate_ca rcgen c.db c.generated t ≡ ok (ca, t')
      → IsSelfSigned ca
  unfolding load_or_generate_ca
  loaded-IsSelfSigned c t t' ca h = elim (Result-cases (load_ca_from_db rcgen c.db t)) [
    | inr (e, bad) ↦ absurd (ground arith)
    | inl (found, loaded) ↦ elim (Option-cases found) [
      | inl gone ↦ generated-IsSelfSigned c t t' ca (ground arith)
      | inr (state, there) ↦ from_db-IsSelfSigned c t ca (ground arith)
    ]
  ]

  registered :
      (c : Call K) (t : Tables) (ca : CaService K C)
      → register rcgen c t ≡ ok ca
      → (state : CaState K C) × (ca.state ≡ some state) × IsSelfSigned state
  unfolding register init new
  registered c t ca h = elim (Result-cases (load_or_generate_ca rcgen c.db c.generated t)) [
    | inr (e, p) ↦ absurd (ground (arith, p, h))
    | inl ((state, t'), p) ↦ (state, ground (arith, p, h), loaded-IsSelfSigned c t t' state p)
  ]

  built :
      (ca : CaService K C) (state : CaState K C) (chain keys : List Text) (key : Text) (config : F)
      → ca.state ≡ some state
      → collect (tls.certs (rcgen.pem state.cert)) ≡ ok chain
      → collect (tls.pkcs8_private_keys (rcgen.serialize_pem state.key_pair)) ≡ ok (key ∷ keys)
      → tls.with_single_cert chain key ≡ ok config
      → (build_tls_config rcgen tls ca ≡ ok config)
        × (ca_cert_pem rcgen ca ≡ ok (rcgen.pem state.cert))
  unfolding build_tls_config certificate_chain private_key first ca_cert_pem
  built ca state chain keys key config there certs parsed accepted =
      (rw there (rw certs (rw parsed (rw accepted refl))), rw there refl)

  -- Where the texts of a key and of a certificate that it signed itself can be parsed and served:
  -- over an authority that was opened without an error, generated or restored, a gateway whose
  -- listener can be bound starts after a stop, and the chain that it serves is the one in the
  -- authority's certificate as it is given to clients.
  pub gateway_presents_authority :
      (c : Call K) (t : Tables) (ca : CaService K C) (host : Host) (s : GatewayService)
      (addr : Text)
      → ServesPem
      → register rcgen c t ≡ ok ca
      → initialize host s.config ≡ ok addr
      → ((start (with_authority rcgen tls host ca) (stop s).0).1 ≡ ok 0)
        × (root key : Text) × (chain : List Text) × (config : F) × (build_tls_config rcgen tls ca
            ≡ ok config)
        × (tls.with_single_cert chain key ≡ ok config)
        × (ca_cert_pem rcgen ca ≡ ok root)
        × (collect (tls.certs root) ≡ ok chain)
  unfolding with_authority initialize
  gateway_presents_authority c t ca host s addr serves opened bound =
      let (state, there, own) = registered c t ca opened in
      let (chain, keys, key, config, certs, parsed, accepted) =
        serves.self_signed own.0 state.key_pair state.cert own.1 in
      let (config_built, root) = built ca state chain keys key config there certs parsed accepted in
      (
        stop_then_start (with_authority rcgen tls host ca) s addr bound (rw config_built refl),
        rcgen.pem state.cert,
        key,
        chain,
        config,
        config_built,
        accepted,
        root,
        certs,
      )
