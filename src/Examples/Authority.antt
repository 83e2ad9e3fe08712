-- ===== src/Examples/Authority.antt =====
-- src/infra/ca at concrete inputs.
use place_net_hamlet.Common.{
  ◌≡◌, refl, List, [], ◌∷◌, ◌++◌, none, some, true, ok, Text, text_eq, text_same, utf8,
}
use place_net_hamlet.Ca.Tables.{Tables}
use place_net_hamlet.Ca.Operations.{
  Rcgen, CaState, root_params, ca_cn, generate_node_identity, load_or_generate_ca,
}
use place_net_hamlet.Ca.Service.{
  Call, CaService, settle, new, init, is_revoked, ensure_node_identity,
}
use place_net_hamlet.Ca.Devices.{
  DeviceRequest, sign, revoke_cert, ask_revoked, look_up, serve_all, answer_all, directory,
}
use place_net_hamlet.Ca.Refinement.{serve_all_refines}
use place_net_hamlet.Ca.Revocation.{revoked_stays}
use place_net_hamlet.Ca.Identity.{Step, identity, restart, device, steps, node_identity_stable}
use place_net_hamlet.Ca.Authority.{ReadsBack, authority_stable}

-- Keys and certificates are their own texts, and everything succeeds.
abbrev pub rcgen : Rcgen Text Text Text
rcgen = record {
  key_from_pem = λ pem. ok pem;
  serialize_pem = λ key. key;
  from_ca_cert_pem = λ pem. ok root_params;
  self_signed = λ params key. ok (utf8 "root " ++ key);
  signed_by = λ params key issuer issuer_key. ok (utf8 "signed " ++ key);
  csr_from_pem = λ pem. ok pem;
  csr_signed_by = λ csr issuer issuer_key. ok (utf8 "cert " ++ csr);
  pem = λ cert. cert;
  ia5_string = λ s. some s;
}

abbrev pub call : Call Text
call = record {
  db = record { migrate = ok tt; query = ok tt; execute = ok tt; constraint = utf8 "UNIQUE" };
  generated = ok (utf8 "key");
  clock = some 1000;
}

abbrev pub no_tables : Tables
no_tables = record { ca_keys = none; device_certs = []; node_identity = none }

abbrev pub root : CaState Text Text
root = record { subject_cn = ca_cn; cert = utf8 "root key"; key_pair = utf8 "key" }

abbrev pub ready : CaService Text Text
ready = record { state = some root; tables = no_tables }

abbrev requests : List (Call Text × DeviceRequest)
requests =
    (call, sign (utf8 "b") (utf8 "csr"))
    ∷ (call, revoke_cert (utf8 "b"))
    ∷ (call, ask_revoked (utf8 "b"))
    ∷ (call, look_up (utf8 "c"))
    ∷ []

serve_all_refines_example :
    let (s', answers) = serve_all rcgen requests ready in
    let (d', expected) = answer_all rcgen (some root) requests (directory []) in
    (answers ≡ expected) × (directory s'.tables.device_certs ≡ d')
serve_all_refines_example = serve_all_refines rcgen requests ready

-- The table holds a revoked certificate of `b`.
abbrev revoked : CaService Text Text
revoked = record ready {
  tables = record no_tables {
    device_certs =
        record {
          device_id = utf8 "b";
          cert_pem = utf8 "old";
          issued_at = 1;
          expires_at = 2;
          revoked = 1;
        }
        ∷ [];
  };
}

abbrev others : List (Call Text × DeviceRequest)
others = (call, sign (utf8 "c") (utf8 "csr")) ∷ (call, revoke_cert (utf8 "b")) ∷ []

revoked_stays_example :
    is_revoked rcgen call (utf8 "b") (serve_all rcgen others revoked).0 ≡ ok true
unfolding is_revoked utf8 text_same
revoked_stays_example =
    revoked_stays rcgen (utf8 "b") revoked others call call refl (refl, (refl, tt)) refl

abbrev life : List (Call Text × Step)
life =
    (call, device (sign (utf8 "b") (utf8 "csr")))
    ∷ (record call { generated = ok (utf8 "other") }, restart)
    ∷ (call, identity)
    ∷ []

node_identity_stable_example :
    let s' = (settle ready (ensure_node_identity rcgen call ready)).0 in
    (settle (steps rcgen life s') (ensure_node_identity rcgen call (steps rcgen life s'))).1
    ≡ ok (utf8 "signed " ++ utf8 "key", utf8 "key")
unfolding ensure_node_identity generate_node_identity
node_identity_stable_example =
    node_identity_stable rcgen call call life ready (utf8 "signed " ++ utf8 "key", utf8 "key") refl
      refl

reads_back : ReadsBack rcgen
reads_back = record {
  key = λ k. refl;
  cert = λ p k c h. (root_params, utf8 "root " ++ k, refl, refl);
}

authority_stable_example :
    let end = (steps rcgen life (init rcgen call (new no_tables)).0).tables in
    (ca' : CaState Text Text) × (init rcgen call (new end)
      ≡ (record { state = some ca'; tables = end }, ok tt))
    × (ca'.key_pair ≡ utf8 "key")
unfolding init new utf8 load_or_generate_ca
authority_stable_example =
    authority_stable rcgen call call life no_tables root reads_back refl refl refl refl
