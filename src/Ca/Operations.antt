-- ===== src/Ca/Operations.antt =====
-- src/infra/ca/operations.rs: the making and the signing of certificates. `Rcgen` stands for the
-- library rcgen over its key pairs, certificates and signing requests, with the texts of its errors;
-- `generated` is the outcome of making a new key pair, and `now` the time in seconds.
use place_net_hamlet.Common.{
  ℕ, ◌*◌, List, [], ◌∷◌, ◌++◌, map, Option, none, some, Bool, true, false, Result, ok, ◌>>=◌,
  map_err, Text, utf8,
}
use place_net_hamlet.Common.Word.{add64}
use place_net_hamlet.Ca.Tables.{CaRow, Tables, Database, insert_one}

pub data KeyUsage : Type 0 where
  key_cert_sign crl_sign : KeyUsage

pub data ExtendedKeyUsage : Type 0 where
  client_auth server_auth : ExtendedKeyUsage

pub data SanType : Type 0 where
  ip_address : Text → SanType
  dns_name : Text → SanType

-- The fields of `CertificateParams` that the code sets.
pub record CertificateParams : Type 0 where
  pub is_ca : Bool
  pub key_usages : List KeyUsage
  pub common_name : Text
  pub organization_name : Text
  pub extended_key_usages : List ExtendedKeyUsage
  pub subject_alt_names : List SanType

pub record Rcgen (K C Q : Type 0) : Type 0 where
  pub key_from_pem : Text → Result Text K
  pub serialize_pem : K → Text
  pub from_ca_cert_pem : Text → Result Text CertificateParams
  pub self_signed : CertificateParams → K → Result Text C
  -- The subject's parameters and key, and the issuer's certificate and key.
  pub signed_by : CertificateParams → K → C → K → Result Text C
  pub csr_from_pem : Text → Result Text Q
  pub csr_signed_by : Q → C → K → Result Text C
  pub pem : C → Text
  -- `Ia5String::try_from`.
  pub ia5_string : Text → Option Text

pub record CaState (K C : Type 0) : Type 0 where
  pub subject_cn : Text
  pub cert : C
  pub key_pair : K

abbrev pub ca_cn : Text
ca_cn = utf8 "PlaceNet Root CA"

-- The default parameters with the distinguished name that each of the functions sets.
abbrev named : Text → CertificateParams
named common_name = record {
  is_ca = false;
  key_usages = [];
  common_name = common_name;
  organization_name = utf8 "PlaceNet";
  extended_key_usages = [];
  subject_alt_names = [];
}

abbrev pub root_params : CertificateParams
root_params = record (named ca_cn) { is_ca = true; key_usages = key_cert_sign ∷ crl_sign ∷ [] }

abbrev pub node_params : CertificateParams
node_params = record (named (utf8 "hamlet")) { extended_key_usages = client_auth ∷ [] }

-- A year after `now`; both are 64-bit integers.
unfoldable pub expiry : ℕ → ℕ
expiry now = add64 now (365 * 24 * 60 * 60)

module _ {K C Q : Type 0} (rcgen : Rcgen K C Q) where
  unfoldable pub restore_ca : CaRow → Result Text (CaState K C)
  restore_ca row = do
    key_pair ←
        map_err (λ e. utf8 "Failed to parse CA private key: " ++ e) (rcgen.key_from_pem row.key_pem)
    params ←
        map_err (λ e. utf8 "Failed to parse CA certificate: " ++ e)
          (rcgen.from_ca_cert_pem row.cert_pem)
    cert ←
        map_err (λ e. utf8 "Failed to reconstruct CA cert: " ++ e)
          (rcgen.self_signed params key_pair)
    ok (record { subject_cn = ca_cn; cert = cert; key_pair = key_pair })

  unfoldable pub load_ca_from_db : Database → Tables → Result Text (Option (CaState K C))
  unfolding restore_ca
  load_ca_from_db db t = do
    _ ← map_err (λ e. utf8 "Failed to query CA from database: " ++ e) db.query
    elim t.ca_keys [ none ↦ ok none | some row ↦ do state ← restore_ca row; ok (some state) ]

  -- The new authority, with the tables that hold it.
  unfoldable pub generate_and_persist_ca :
      Database → Result Text K → Tables → Result Text (CaState K C × Tables)
  unfolding insert_one
  generate_and_persist_ca db generated t = do
    key_pair ← map_err (λ e. utf8 "Failed to generate CA key pair: " ++ e) generated
    cert ←
        map_err (λ e. utf8 "Failed to self-sign CA certificate: " ++ e)
          (rcgen.self_signed root_params key_pair)
    ca_keys ←
        map_err (λ e. utf8 "Failed to persist CA to database: " ++ e)
          (insert_one db
            (record { cert_pem = rcgen.pem cert; key_pem = rcgen.serialize_pem key_pair })
            t.ca_keys)
    ok (
      record { subject_cn = ca_cn; cert = cert; key_pair = key_pair },
      record t { ca_keys = ca_keys },
    )

  unfoldable pub load_or_generate_ca :
      Database → Result Text K → Tables → Result Text (CaState K C × Tables)
  unfolding load_ca_from_db generate_and_persist_ca
  load_or_generate_ca db generated t = do
    found ← load_ca_from_db db t
    elim found [ some state ↦ ok (state, t) | none ↦ generate_and_persist_ca db generated t ]

  -- The certificate, the key, and the times of issue and expiry.
  unfoldable pub generate_node_identity :
      Result Text K → ℕ → CaState K C → Result Text (Text × Text × ℕ × ℕ)
  unfolding expiry
  generate_node_identity generated now ca = do
    key_pair ← map_err (λ e. utf8 "Failed to generate node identity key pair: " ++ e) generated
    cert ←
        map_err (λ e. utf8 "Failed to sign node identity certificate: " ++ e)
          (rcgen.signed_by node_params key_pair ca.cert ca.key_pair)
    ok (rcgen.pem cert, rcgen.serialize_pem key_pair, now, expiry now)

  -- The host names that are IA5 strings; the others are left out.
  unfoldable pub dns_names : List Text → List SanType
  dns_names [] = []
  dns_names (name ∷ names) = elim (rcgen.ia5_string name) [
    | some s ↦ dns_name s ∷ dns_names names
    | none ↦ dns_names names
  ]

  unfoldable pub broker_params : List Text → List Text → CertificateParams
  unfolding dns_names
  broker_params san_ips san_hostnames = record (named (utf8 "placenet-broker")) {
    extended_key_usages = server_auth ∷ [];
    subject_alt_names = map ip_address san_ips ++ dns_names san_hostnames;
  }

  unfoldable pub generate_broker_identity :
      Result Text K → CaState K C → List Text → List Text → Result Text (Text × Text)
  unfolding broker_params
  generate_broker_identity generated ca san_ips san_hostnames = do
    key_pair ← map_err (λ e. utf8 "Failed to generate broker key pair: " ++ e) generated
    cert ←
        map_err (λ e. utf8 "Failed to sign broker certificate: " ++ e)
          (rcgen.signed_by (broker_params san_ips san_hostnames) key_pair ca.cert ca.key_pair)
    ok (rcgen.pem cert, rcgen.serialize_pem key_pair)

  -- The certificate, and the times of issue and expiry.
  unfoldable pub sign_request : ℕ → CaState K C → Text → Result Text (Text × ℕ × ℕ)
  unfolding expiry
  sign_request now ca csr_pem = do
    csr ← map_err (λ e. utf8 "Invalid CSR: " ++ e) (rcgen.csr_from_pem csr_pem)
    signed ←
        map_err (λ e. utf8 "Failed to sign CSR: " ++ e)
          (rcgen.csr_signed_by csr ca.cert ca.key_pair)
    ok (rcgen.pem signed, now, expiry now)
