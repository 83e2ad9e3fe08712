-- ===== src/GatewayMqtt/Login.antt =====
-- src/services/gateway_mqtt/login.rs: the URL parser and the login request. `Network` stands for the
-- sockets, TLS, HTTP and JSON that a login meets.
pub mod GatewayUrl
use place_net_hamlet.Common.{
  ℕ, ◌+◌, List, [], ◌∷◌, ◌++◌, Option, none, some, Bool, true, false, Result, ok, err, ◌>>=◌,
  map_err, Text, utf8, String, show_uint, trim_end_matches, ◌==◌, leb, ◌&&◌, if◌then◌else◌,
}
use place_net_hamlet.GatewayMqtt.Protocol.{
  LoginRequest, LoginResponse, LoginError, unauthorized, transient,
}
use GatewayUrl.{Url, parse}

abbrev Bytes : Type 0
Bytes = List ℕ

pub record Network : Type 0 where
  pub serialise : LoginRequest → Result Text Bytes
  pub connect : Text → ℕ → Result Text (Unit {0})
  pub tls_connector : Option Text → Result Text (Unit {0})
  pub server_name : Text → Result Text (Unit {0})
  pub tls_handshake : Text → Result Text (Unit {0})
  -- The exchange on the stream: host, path and body; the status of the answer, and its body.
  pub http_handshake : Result Text (Unit {0})
  pub build_request : Text → Text → Bytes → Result Text (Unit {0})
  pub status_of : Text → Text → Bytes → Result Text ℕ
  pub body_of : Text → Text → Bytes → Result Text Bytes
  pub parse_response : Bytes → Result Text LoginResponse
  -- `Display` of a status, and `String::from_utf8_lossy`.
  pub show_status : ℕ → Text
  pub from_utf8_lossy : Bytes → Text

-- `StatusCode::is_success`.
abbrev pub is_success : ℕ → Bool
is_success status = leb 200 status && leb status 299

-- What `send_request` makes of the answer.
unfoldable pub read_response : Network → ℕ → Bytes → Result LoginError LoginResponse
read_response net status bytes =
    if status == 401
    then err unauthorized
    else if is_success status
    then map_err (λ e. transient (utf8 "parse login response: " ++ e)) (net.parse_response bytes)
    else err (
        transient (
          utf8 "login returned "
          ++ net.show_status status
          ++ utf8 ": "
          ++ net.from_utf8_lossy bytes))

-- An error of the library, behind the words that say where it arose.
abbrev failing {ℓ} : {A : Type ℓ} → String → Result Text A → Result LoginError A
failing what r = map_err (λ e. transient (utf8 what ++ e)) r

unfoldable pub send_request : Network → Text → Text → Bytes → Result LoginError LoginResponse
unfolding read_response
send_request net host path body = do
  _ ← failing "http handshake: " net.http_handshake
  _ ← failing "build request: " (net.build_request host path body)
  status ← failing "send request: " (net.status_of host path body)
  bytes ← failing "read body: " (net.body_of host path body)
  read_response net status bytes

-- The TLS handshake of an `https` URL.
unfoldable pub secure : Network → Bool → Text → Option Text → Result LoginError (Unit {0})
secure net false host cafile = ok tt
secure net true host cafile = do
  _ ← map_err transient (net.tls_connector cafile)
  _ ← map_err (λ e. transient (utf8 "invalid server name: " ++ e)) (net.server_name host)
  map_err (λ e. transient (utf8 "tls handshake: " ++ e)) (net.tls_handshake host)

unfoldable pub login_path : Text → Text
unfolding trim_end_matches
login_path path = trim_end_matches b'/' path ++ utf8 "/api/login"

abbrev connect_error : Url → Text → Text
connect_error url e =
    utf8 "connect " ++ url.host ++ utf8 ":" ++ show_uint url.port ++ utf8 ": " ++ e

unfoldable pub login : Network → Text → LoginRequest → Option Text → Result LoginError LoginResponse
unfolding login_path secure send_request
login net base_url req cafile = do
  url ← map_err transient (parse base_url)
  body ← map_err (λ e. transient (utf8 "serialise login: " ++ e)) (net.serialise req)
  _ ← map_err (λ e. transient (connect_error url e)) (net.connect url.host url.port)
  _ ← secure net url.tls url.host cafile
  send_request net url.host (login_path url.path) body
