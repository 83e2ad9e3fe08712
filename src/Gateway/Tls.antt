-- ===== src/Gateway/Tls.antt =====
-- src/services/beacon_management/internals/tls.rs: the server's TLS configuration. `Rustls` stands for
-- rustls and rustls_pemfile: what a PEM text holds, item by item, and the configuration for a
-- certificate chain and a key, which may be refused.
use place_net_hamlet.Common.{
  List, [], ◌∷◌, ◌++◌, Option, none, some, Result, ok, ok_or, ◌>>=◌, map_err, Text, utf8,
}
use place_net_hamlet.Ca.Operations.{Rcgen}
use place_net_hamlet.Ca.Service.{CaService, not_initialised}
use place_net_hamlet.Gateway.Service.{Host}

pub record Rustls (F : Type 0) : Type 0 where
  pub certs : Text → List (Result Text Text)
  pub pkcs8_private_keys : Text → List (Result Text Text)
  pub with_single_cert : List Text → Text → Result Text F

-- `collect::<Result<Vec<_>, _>>()`: the first error ends it.
unfoldable pub collect : {A : Type 0} → List (Result Text A) → Result Text (List A)
collect [] = ok []
collect (r ∷ rs) = do x ← r; xs ← collect rs; ok (x ∷ xs)

unfoldable pub first : {A : Type 0} → List A → Option A
first [] = none
first (x ∷ xs) = some x

module _ {K C Q F : Type 0} (rcgen : Rcgen K C Q) (tls : Rustls F) where
  unfoldable pub certificate_chain : Text → Result Text (List Text)
  unfolding collect
  certificate_chain cert_pem =
      map_err (λ e. utf8 "Failed to parse CA cert PEM: " ++ e) (collect (tls.certs cert_pem))

  unfoldable pub private_key : Text → Result Text Text
  unfolding collect first
  private_key key_pem = do
    keys ←
        map_err (λ e. utf8 "Failed to parse CA private key PEM: " ++ e)
          (collect (tls.pkcs8_private_keys key_pem))
    ok_or (utf8 "No PKCS8 private key found in CA PEM") (first keys)

  unfoldable pub build_tls_config : CaService K C → Result Text F
  unfolding certificate_chain private_key
  build_tls_config ca = do
    state ← ok_or not_initialised ca.state
    cert_chain ← certificate_chain (rcgen.pem state.cert)
    key ← private_key (rcgen.serialize_pem state.key_pair)
    map_err (λ e. utf8 "Failed to build TLS server config: " ++ e)
        (tls.with_single_cert cert_chain key)

  -- The sockets of a host, with the configuration that is built from the authority.
  unfoldable pub with_authority : Host → CaService K C → Host
  unfolding build_tls_config
  with_authority host ca = record host { build_tls_config = (do _ ← build_tls_config ca; ok tt) }
