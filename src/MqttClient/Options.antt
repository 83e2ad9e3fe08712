-- ===== src/MqttClient/Options.antt =====
-- src/services/mqtt_client/mqtt_client_service.rs: `build_mqtt_opts` and `build_server_tls`. A
-- certificate is the list of its bytes. `TlsFiles` stands for the file system, the PEM parser and the
-- certificate store, each with the text of its error.
use place_net_hamlet.Common.{
  ℕ, List, [], ◌∷◌, ◌++◌, Option, none, some, Result, ok, ok_or, ◌>>=◌, map_err, Text, utf8,
}
use place_net_hamlet.Config.Types.{MqttTlsMode, plain, server_only, mutual_tls, MqttClientConfig}

abbrev pub Bytes : Type 0
Bytes = List ℕ

pub record TlsFiles : Type 0 where
  pub read : Text → Result Text Bytes
  pub certs : Bytes → List (Result Text Bytes)
  pub add : Bytes → Result Text (Unit {0})

pub data Roots : Type 0 where
  pinned : List Bytes → Roots
  webpki : Roots

pub data Transport : Type 0 where
  tcp : Transport
  tls_server : Roots → Transport
  tls_mutual : (ca cert key : Bytes) → Transport

pub record MqttOptions : Type 0 where
  pub client_id : Text
  pub host : Text
  pub port : ℕ
  pub keep_alive : ℕ
  pub credentials : Option (Text × Text)
  pub transport : Transport

-- The loop that adds the certificates of the file.
unfoldable pub add_certs :
    (Bytes → Result Text (Unit {0})) → List (Result Text Bytes) → Result Text (List Bytes)
add_certs add [] = ok []
add_certs add (c ∷ cs) = do
  cert ← map_err (λ e. utf8 "Failed to parse gateway CA: " ++ e) c
  _ ← map_err (λ e. utf8 "Failed to add gateway CA: " ++ e) (add cert)
  rest ← add_certs add cs
  ok (cert ∷ rest)

unfoldable pub build_server_tls : TlsFiles → Option Text → Result Text Transport
unfolding add_certs
build_server_tls files none = ok (tls_server webpki)
build_server_tls files (some cafile) = do
  pem ←
      map_err (λ e. utf8 "Failed to read gateway CA '" ++ cafile ++ utf8 "': " ++ e)
        (files.read cafile)
  roots ← add_certs files.add (files.certs pem)
  ok (tls_server (pinned roots))

abbrev read_as : Text → TlsFiles → Text → Result Text Bytes
read_as what files path =
    map_err (λ e. utf8 "Failed to read " ++ what ++ utf8 " '" ++ path ++ utf8 "': " ++ e)
      (files.read path)

unfoldable pub build_mutual_tls : TlsFiles → MqttClientConfig → Result Text Transport
build_mutual_tls files config = do
  cafile ← ok_or (utf8 "Mutual TLS requires a CA file") config.cafile
  certfile ← ok_or (utf8 "Mutual TLS requires a client cert") config.certfile
  keyfile ← ok_or (utf8 "Mutual TLS requires a client key") config.keyfile
  ca ← read_as (utf8 "CA cert") files cafile
  cert ← read_as (utf8 "client cert") files certfile
  key ← read_as (utf8 "client key") files keyfile
  ok (tls_mutual ca cert key)

-- The options before the `match` on the TLS mode.
abbrev pub base_options : MqttClientConfig → MqttOptions
base_options config = record {
  client_id = config.client_id;
  host = config.host;
  port = config.port;
  keep_alive = 30;
  credentials = none;
  transport = tcp;
}

unfoldable pub build_by : MqttTlsMode → TlsFiles → MqttClientConfig → Result Text MqttOptions
unfolding build_server_tls build_mutual_tls
build_by plain files config =
    ok (record (base_options config) { credentials = some (config.username, config.password) })
build_by server_only files config = do
  tls ← build_server_tls files config.cafile
  ok (record (base_options config) {
    transport = tls;
    credentials = some (config.username, config.password);
  })
build_by mutual_tls files config = do
  tls ← build_mutual_tls files config
  ok (record (base_options config) { transport = tls })

unfoldable pub build_mqtt_opts : TlsFiles → MqttClientConfig → Result Text MqttOptions
unfolding build_by
build_mqtt_opts files config = build_by config.tls_mode files config
