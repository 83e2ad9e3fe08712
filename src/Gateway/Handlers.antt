-- ===== src/Gateway/Handlers.antt =====
-- src/services/beacon_management/internals/handlers.rs, and `register_cert_identity` of
-- src/services/mqtt_brokerage/mosquitto_brokerage_service.rs. `A` is the certificate authority with all
-- that it persists, and `World` its two calls, the file system and the parsers; an identifier is the text
-- of a fresh UUID.
use place_net_hamlet.Common.{
  ℕ, List, [], ◌∷◌, ◌++◌, Option, none, some, Bool, ◌&&◌, Result, ok, err, ok_or, ◌>>=◌, map_err,
  Text, utf8, show_uint, ltb, length, if◌then◌else◌,
}
use place_net_hamlet.Common.Json.{Json, string, number, object, end, field}
use place_net_hamlet.Config.Env.{join}
use place_net_hamlet.Config.Brokerage.{MqttBrokerageInfo}
use place_net_hamlet.Registry.{listen, broadcast, TopicChannel}
use place_net_hamlet.Gateway.Requests.{
  Bytes, Request, Response, text_response, json_response, DeviceInfo, DeviceInitRequest,
  init_request, register_request,
}

pub record World (A : Type 0) : Type 0 where
  pub parse_device : Bytes → Result Text DeviceInfo
  pub parse_csr : Bytes → Result Text Text
  -- The authority after the call, and the certificate.
  pub sign_csr : Text → Text → A → A × Result Text Text
  pub ca_cert_pem : A → Result Text Text
  -- `Path::parent`, and whether a file can be written.
  pub parent : Text → Option Text
  pub write : Text → Result Text (Unit {0})

-- The bounded channel to the message loop; `try_send` fails where it is full or closed.
pub record TopicQueue : Type 0 where
  pub capacity : ℕ
  pub is_open : Bool
  pub waiting : List TopicChannel

unfoldable pub try_send : TopicChannel → TopicQueue → TopicQueue
try_send c q =
    if q.is_open && ltb (length q.waiting) q.capacity
    then record q { waiting = q.waiting ++ c ∷ [] }
    else q

-- The state that handlers share, with the certificate files that were written, the last first. A
-- brokerage handle is the path of the broker's CA file; the upstream port, which no handler reads, is
-- where requests are forwarded.
pub record AppState (A : Type 0) : Type 0 where
  pub ca : A
  pub brokerage_info : MqttBrokerageInfo
  pub brokerage : Option Text
  pub beacon_topic_tx : Option TopicQueue
  pub written : List (Text × Text)

unfoldable pub handle_health : Response
unfolding text_response
handle_health = text_response 200 (utf8 "OK")

unfoldable pub cert_path : {A : Type 0} → World A → Text → Text → Result Text Text
unfolding join
cert_path w cafile hostname = do
  certs_dir ← ok_or (utf8 "cafile has no parent directory") (w.parent cafile)
  ok (join certs_dir (hostname ++ utf8 ".crt"))

-- The file that `register_cert_identity` writes.
unfoldable pub register_cert_identity :
    {A : Type 0} → World A → Text → Text → Text → Result Text (Text × Text)
unfolding cert_path
register_cert_identity w cafile hostname cert_pem = do
  path ← cert_path w cafile hostname
  _ ← map_err (λ e. utf8 "Failed to write device cert '" ++ path ++ utf8 "': " ++ e) (w.write path)
  ok (path, cert_pem)

-- The files after a device's identity was registered, where there is a brokerage.
unfoldable pub register_identity :
    {A : Type 0}
    → World A
    → Option Text
    → Text
    → Text
    → List (Text × Text)
    → Result Text (List (Text × Text))
unfolding register_cert_identity
register_identity w none hostname cert_pem files = ok files
register_identity w (some cafile) hostname cert_pem files = do
  file ← register_cert_identity w cafile hostname cert_pem
  ok (file ∷ files)

unfoldable pub receive_topic : Text → Text
receive_topic id = id ++ utf8 "/rec"

unfoldable pub broadcast_topic : Text → Text
broadcast_topic id = id ++ utf8 "/cast"

unfoldable pub listen_channel : Text → TopicChannel
unfolding receive_topic
listen_channel id = record {
  beacon_id = id;
  topic = record { topic = receive_topic id; qos = 1 };
  topic_type = listen;
}

unfoldable pub broadcast_channel : Text → TopicChannel
unfolding broadcast_topic
broadcast_channel id = record {
  beacon_id = id;
  topic = record { topic = broadcast_topic id; qos = 1 };
  topic_type = broadcast;
}

unfoldable pub announce : Text → Option TopicQueue → Option TopicQueue
unfolding listen_channel broadcast_channel try_send
announce id none = none
announce id (some q) = some (try_send (broadcast_channel id) (try_send (listen_channel id) q))

abbrev info_json : MqttBrokerageInfo → Json
info_json i = object (
    field (utf8 "address") (string i.address) (
      field (utf8 "port") (number (show_uint i.port))
        (field (utf8 "ca_cert_pem") (string i.ca_cert_pem) end)))

unfoldable pub init_body : Text → MqttBrokerageInfo → Text → Json
unfolding show_uint
init_body cert_pem info id = object (
    field (utf8 "cert_pem") (string cert_pem)
      (field (utf8 "brokerage") (info_json info) (field (utf8 "beacon_id") (string id) end)))

-- What follows the request's validation.
unfoldable pub admit :
    {A : Type 0} → World A → Text → DeviceInitRequest → AppState A → AppState A × Response
unfolding register_identity announce init_body text_response json_response
admit w id request s =
    let (ca, signed) = w.sign_csr request.device.mdns.hostname request.device.csr_pem s.ca in
    let s' = record s { ca = ca } in
    elim signed [
      | err e ↦ (s', text_response 500 (utf8 "Failed to sign device certificate"))
      | ok cert_pem ↦
          elim (register_identity w s.brokerage request.device.mdns.hostname cert_pem s.written) [
            | err e ↦ (s', text_response 500 (utf8 "Failed to register device MQTT identity"))
            | ok files ↦
                let info = record s.brokerage_info { address = request.broker_host } in
                (
                  record s' { beacon_topic_tx = announce id s.beacon_topic_tx; written = files },
                  json_response 200 (init_body cert_pem info id),
                )
          ]
    ]

unfoldable pub handle_device_init :
    {A : Type 0} → World A → Text → Request → AppState A → AppState A × Response
unfolding init_request admit
handle_device_init w id req s = elim (init_request w.parse_device req) [
  | err r ↦ (s, r)
  | ok request ↦ admit w id request s
]

unfoldable pub register_body : Text → Text → Text → Json
register_body id cert_pem ca_cert_pem = object (
    field (utf8 "client_id") (string id) (
      field (utf8 "cert_pem") (string cert_pem)
        (field (utf8 "ca_cert_pem") (string ca_cert_pem) end)))

-- The answer of a registration, from the certificate and that of the authority.
unfoldable pub client_response : Text → Result Text Text → Result Text Text → Response
unfolding register_body text_response json_response
client_response id (err e) root = text_response 500 (utf8 "Failed to sign client certificate")
client_response id (ok cert_pem) (err e) =
    text_response 500 (utf8 "Failed to retrieve CA certificate")
client_response id (ok cert_pem) (ok root) = json_response 201 (register_body id cert_pem root)

unfoldable pub handle_client_register :
    {A : Type 0} → World A → Text → Request → AppState A → AppState A × Response
unfolding register_request client_response
handle_client_register w id req s = elim (register_request w.parse_csr req) [
  | err r ↦ (s, r)
  | ok request ↦
      let (ca, signed) = w.sign_csr id request.csr_pem s.ca in
      (record s { ca = ca }, client_response id signed (w.ca_cert_pem ca))
]
