-- ===== src/Gateway/Requests.antt =====
-- src/services/beacon_management/internals/requests.rs, response.rs and types.rs. A header's value is
-- `none` where it is not visible ASCII text, and a body is an error where it cannot be read within
-- the limit. The parsers of JSON bodies are parameters.
use place_net_hamlet.Common.{
  ℕ, List, Option, none, some, Result, ok, err, ◌>>=◌, map_err, Text, text_eq, utf8, text_same,
  starts_with, rsplit_once, if◌then◌else◌,
}
use place_net_hamlet.Common.Json.{Json}
use place_net_hamlet.Common.Map.{get}

abbrev pub Bytes : Type 0
Bytes = List ℕ

pub record Request : Type 0 where
  pub headers : List (Text × Option Text)
  pub body : Result Text Bytes

pub data Body : Type 0 where
  text : Text → Body
  json : Json → Body
  -- A body that the upstream server sent.
  upstream : Bytes → Body

pub record Response : Type 0 where
  pub status : ℕ
  pub body : Body

unfoldable pub text_response : ℕ → Text → Response
text_response status msg = record { status = status; body = text msg }

unfoldable pub json_response : ℕ → Json → Response
json_response status body = record { status = status; body = json body }

abbrev pub supported_version : Text
supported_version = utf8 "0.0.1"

abbrev pub header_init : Text
header_init = utf8 "x-placenet-init"

abbrev pub header_register : Text
header_register = utf8 "x-placenet-register"

abbrev pub header_health : Text
header_health = utf8 "x-placenet-health"

pub record MdnsConfig : Type 0 where
  pub hostname : Text
  pub port : ℕ

pub record DeviceInfo : Type 0 where
  pub address : Text
  pub mdns : MdnsConfig
  pub csr_pem : Text

pub record DeviceInitRequest : Type 0 where
  pub version : Text
  pub broker_host : Text
  pub device : DeviceInfo

pub record DeviceRegisterRequest : Type 0 where
  pub csr_pem : Text

-- `headers().get(name).and_then(|v| v.to_str().ok())`, for the first value of the header.
unfoldable pub header : Text → Request → Option Text
unfolding get
header name req = elim (get name req.headers) [ none ↦ none | some v ↦ v ]

-- The host without its port; an address in brackets is left as it is.
unfoldable pub strip_port : Text → Text
unfolding rsplit_once starts_with utf8
strip_port h = elim (rsplit_once b':' h) [
  | none ↦ h
  | some (before, after) ↦ if starts_with (utf8 "[") h then h else before
]

unfoldable pub broker_host_of : Request → Text
unfolding header strip_port
broker_host_of req = elim (header (utf8 "host") req) [
  | none ↦ utf8 "localhost"
  | some h ↦ strip_port h
]

unfoldable pub check_version : Option Text → Result Response Text
unfolding text_same text_response
check_version none = err (text_response 400 (utf8 "Invalid X-PlaceNet-Init header"))
check_version (some v) =
    if text_same v supported_version
    then ok v
    else err (text_response 400 (utf8 "Unsupported version"))

unfoldable pub read_body : Request → Result Response Bytes
unfolding text_response
read_body req = map_err (λ e. text_response 400 (utf8 "Failed to read request body")) req.body

unfoldable pub parse_body {ℓ} : {A : Type ℓ} → (Bytes → Result Text A) → Bytes → Result Response A
unfolding text_response
parse_body parse bytes = map_err (λ e. text_response 422 (utf8 "Invalid JSON body")) (parse bytes)

-- `DeviceInitRequest::process_request`.
unfoldable pub init_request :
    (Bytes → Result Text DeviceInfo) → Request → Result Response DeviceInitRequest
unfolding header check_version broker_host_of read_body parse_body
init_request parse req = do
  version ← check_version (header header_init req)
  bytes ← read_body req
  device ← parse_body parse bytes
  ok (record { version = version; broker_host = broker_host_of req; device = device })

-- `DeviceRegisterRequest::process_request`; the parser gives the field `csr_pem`.
unfoldable pub register_request :
    (Bytes → Result Text Text) → Request → Result Response DeviceRegisterRequest
unfolding read_body parse_body
register_request parse req = do
  bytes ← read_body req
  csr_pem ← parse_body parse bytes
  ok (record { csr_pem = csr_pem })
