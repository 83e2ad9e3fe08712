-- ===== src/Config/Env.antt =====
-- src/config.rs: the `from_env` functions. `parse_ip` is the standard library's parser of IP
-- addresses, which gives an address in its canonical spelling.
use place_net_hamlet.Common.{
  ℕ, List, [], ◌∷◌, ◌++◌, map, Option, none, some, Bool, true, not, ◌&&◌, ◌||◌, Text, utf8,
  is_empty, unwrap_or, starts_with, ends_with, split, trim, eq_ignore_ascii_case, parse_uint,
  text_same, if◌then◌else◌, retain,
}
use place_net_hamlet.Config.Types.{
  plain, mutual_tls, MqttClientConfig, MqttBrokerageConfig, HttpConfig, BeaconManagementConfig,
  GatewayRegistrationConfig, Config,
}

abbrev pub Env : Type 0
Env = Text → Option Text

-- `std::env::var(key).unwrap_or_else(|_| default)`.
abbrev pub var_or : Env → Text → Text → Text
var_or env key default = unwrap_or default (env key)

abbrev u16_max : ℕ
u16_max = 65535

abbrev u32_max : ℕ
u32_max = 4294967295

-- `.parse().unwrap_or(default)` at `u16` and `u32`.
abbrev pub u16_or : ℕ → Text → ℕ
u16_or default s = unwrap_or default (parse_uint u16_max s)

abbrev u32_or : ℕ → Text → ℕ
u32_or default s = unwrap_or default (parse_uint u32_max s)

-- `.trim().eq_ignore_ascii_case("true")`.
unfoldable pub is_true : Text → Bool
is_true s = eq_ignore_ascii_case (trim s) (utf8 "true")

-- `Path::join`.
unfoldable pub join : Text → Text → Text
join dir path =
    if starts_with (utf8 "/") path
    then path
    else if is_empty dir || ends_with (utf8 "/") dir
    then dir ++ path
    else dir ++ utf8 "/" ++ path

-- The `MQTT_TLS_ENABLED` flag, where each of the two configurations has a default of its own.
unfoldable pub tls_flag : Env → Text → Bool
unfolding is_true
tls_flag env default = is_true (var_or env (utf8 "MQTT_TLS_ENABLED") default)

unfoldable pub mqtt_port : Env → ℕ
mqtt_port env = u16_or 1883 (var_or env (utf8 "MQTT_PORT") (utf8 "1883"))

unfoldable pub mqtts_port : Env → ℕ
mqtts_port env = u16_or 8883 (var_or env (utf8 "MQTTS_PORT") (utf8 "8883"))

unfoldable pub mqtt_client_from_env : Env → Text → MqttClientConfig
unfolding tls_flag mqtt_port mqtts_port join
mqtt_client_from_env env config_dir =
    let mutual_on = tls_flag env (utf8 "false") in
    record {
      client_id = var_or env (utf8 "MQTT_CLIENT_ID") (utf8 "hamlet");
      host = utf8 "localhost";
      port = if mutual_on then mqtts_port env else mqtt_port env;
      tls_mode = if mutual_on then mutual_tls else plain;
      cafile = some (join config_dir (var_or env (utf8 "MQTT_CAFILE") (utf8 "certs/ca.crt")));
      certfile =
          some
            (join config_dir (var_or env (utf8 "MQTT_CLIENT_CERTFILE") (utf8 "certs/client.crt")));
      keyfile =
          some
            (join config_dir (var_or env (utf8 "MQTT_CLIENT_KEYFILE") (utf8 "certs/client.key")));
      username = var_or env (utf8 "MQTT_USERNAME") (utf8 "placenet");
      password = var_or env (utf8 "MQTT_PASSWORD") (utf8 "changeme");
    }

-- `filter_map` of the entries that parse.
unfoldable pub parse_ips : (Text → Option Text) → List Text → List Text
parse_ips parse_ip [] = []
parse_ips parse_ip (s ∷ ss) = elim (parse_ip (trim s)) [
  | none ↦ parse_ips parse_ip ss
  | some ip ↦ ip ∷ parse_ips parse_ip ss
]

unfoldable pub san_hostnames_of : Text → List Text
unfolding split trim retain
san_hostnames_of names =
    retain (λ s. not (is_empty s) && not (text_same s (utf8 "localhost")))
      (map trim (split b',' names))

unfoldable pub mqtt_brokerage_from_env : (Text → Option Text) → Env → Text → MqttBrokerageConfig
unfolding tls_flag mqtt_port mqtts_port join parse_ips san_hostnames_of
mqtt_brokerage_from_env parse_ip env config_dir = record {
  port = mqtt_port env;
  client_id = var_or env (utf8 "MQTT_CLIENT_ID") (utf8 "hamlet");
  config_file = join config_dir (utf8 "mosquitto.conf");
  password_file = join config_dir (utf8 "passwd");
  username = var_or env (utf8 "MQTT_USERNAME") (utf8 "placenet");
  password = var_or env (utf8 "MQTT_PASSWORD") (utf8 "changeme");
  tls_enabled = tls_flag env (utf8 "true");
  mqtts_port = mqtts_port env;
  cafile = join config_dir (var_or env (utf8 "MQTT_CAFILE") (utf8 "certs/ca.crt"));
  certfile = join config_dir (var_or env (utf8 "MQTT_CERTFILE") (utf8 "certs/broker.crt"));
  keyfile = join config_dir (var_or env (utf8 "MQTT_KEYFILE") (utf8 "certs/broker.key"));
  san_ips = parse_ips parse_ip (split b',' (var_or env (utf8 "BROKER_SAN_IPS") []));
  san_hostnames = san_hostnames_of (var_or env (utf8 "BROKER_SAN_HOSTNAMES") []);
}

unfoldable pub http_from_env : Env → HttpConfig
unfolding is_true
http_from_env env = record {
  host = var_or env (utf8 "HTTP_HOST") (utf8 "0.0.0.0");
  port = u16_or 8080 (var_or env (utf8 "HTTP_PORT") (utf8 "8080"));
  tls_enabled = is_true (var_or env (utf8 "HTTP_TLS_ENABLED") (utf8 "true"));
  upstream_port = u16_or 3000 (var_or env (utf8 "HTTP_UPSTREAM_PORT") (utf8 "3000"));
}

unfoldable pub beacon_management_from_env : Env → BeaconManagementConfig
unfolding is_true
beacon_management_from_env env = record {
  use_jitter = is_true (var_or env (utf8 "USE_NETWORK_JITTER") (utf8 "false"));
  broadcast_interval = u16_or 60 (trim (var_or env (utf8 "BROADCAST_INTERVAL") (utf8 "60")));
  key_rotation_interval =
      u32_or 3600 (trim (var_or env (utf8 "KEY_ROTATION_INTERVAL") (utf8 "3600")));
  key_expiry = u32_or 7200 (trim (var_or env (utf8 "KEY_EXPIRY") (utf8 "7200")));
}

unfoldable pub gateway_registration_from_env : Env → GatewayRegistrationConfig
unfolding is_true
gateway_registration_from_env env = record {
  server_url = var_or env (utf8 "PLACENET_SERVER_URL") (utf8 "http://localhost:8080");
  gateway_url = env (utf8 "PLACENET_GATEWAY_URL");
  username = var_or env (utf8 "PLACENET_GATEWAY_USERNAME") [];
  password = var_or env (utf8 "PLACENET_GATEWAY_PASSWORD") [];
  broker_cafile = env (utf8 "PLACENET_GATEWAY_MQTT_CAFILE");
  broker_tls = elim (env (utf8 "PLACENET_GATEWAY_MQTT_TLS")) [ none ↦ true | some v ↦ is_true v ];
}

-- `current_dir` is the process's working directory.
unfoldable pub config_from_env : (Text → Option Text) → Text → Env → Config
unfolding join mqtt_client_from_env mqtt_brokerage_from_env http_from_env beacon_management_from_env
    gateway_registration_from_env
config_from_env parse_ip current_dir env =
    let raw = var_or env (utf8 "PLACENET_CONFIG_DIR") (utf8 "config") in
    let config_dir = if starts_with (utf8 "/") raw then raw else join current_dir raw in
    record {
      mqtt_brokerage = mqtt_brokerage_from_env parse_ip env config_dir;
      mqtt_client = mqtt_client_from_env env config_dir;
      http = http_from_env env;
      gateway_registration = gateway_registration_from_env env;
      beacon_management = beacon_management_from_env env;
      config_dir = config_dir;
    }
