-- ===== src/Config/Agreement.antt =====
-- src/config.rs: whether the MQTT client and the broker of one node agree.
use place_net_hamlet.Common.{
  ℕ, ◌≤◌, ◌≡◌, refl, ap, Option, none, some, true, false, Text, utf8, unwrap_or,
  eq_ignore_ascii_case, show_uint, if◌then◌else◌, arith,
}
use place_net_hamlet.Common.Decimal.{parse_uint-show_uint}
use place_net_hamlet.Config.Types.{plain, mutual_tls}
use place_net_hamlet.Config.Env.{
  Env, is_true, tls_flag, mqtt_port, mqtts_port, mqtt_client_from_env, mqtt_brokerage_from_env,
}
use place_net_hamlet.Config.Brokerage.{build_brokerage_info}

-- Where `MQTT_TLS_ENABLED` is set, whatever it says, the client speaks mutual TLS exactly if the
-- broker has TLS enabled, and the client's port is the one that devices are told of.
pub set_flag_agrees :
    (parse_ip : Text → Option Text) (env : Env) (config_dir pem flag : Text)
    → env (utf8 "MQTT_TLS_ENABLED") ≡ some flag
    → let client = mqtt_client_from_env env config_dir in
      let broker = mqtt_brokerage_from_env parse_ip env config_dir in
      (client.tls_mode ≡ (if broker.tls_enabled then mutual_tls else plain))
      × (client.port ≡ (build_brokerage_info broker pem).port)
unfolding mqtt_client_from_env mqtt_brokerage_from_env build_brokerage_info tls_flag
set_flag_agrees parse_ip env config_dir pem flag h = rw h (refl, refl)

-- Where `MQTT_TLS_ENABLED` is not set, the client speaks plain MQTT to the plain port, while the
-- broker has TLS enabled and devices are told of the TLS port.
pub unset_flag_disagrees :
    (parse_ip : Text → Option Text) (env : Env) (config_dir pem : Text)
    → env (utf8 "MQTT_TLS_ENABLED") ≡ none
    → let client = mqtt_client_from_env env config_dir in
      let broker = mqtt_brokerage_from_env parse_ip env config_dir in
      (client.tls_mode ≡ plain)
      × (client.port ≡ mqtt_port env)
      × (broker.tls_enabled ≡ true)
      × ((build_brokerage_info broker pem).port ≡ mqtts_port env)
unfolding mqtt_client_from_env mqtt_brokerage_from_env build_brokerage_info tls_flag is_true utf8
    eq_ignore_ascii_case
unset_flag_disagrees parse_ip env config_dir pem h = rw h (refl, refl, refl, refl)

-- Where `MQTT_PORT` holds the decimal digits of a number up to 65535, and the client's TLS is
-- off, that number is the broker's plain port and the client's port.
pub port_roundtrip :
    (parse_ip : Text → Option Text) (env : Env) (config_dir : Text) (port : ℕ)
    → port ≤ 65535
    → env (utf8 "MQTT_PORT") ≡ some (show_uint port)
    → tls_flag env (utf8 "false") ≡ false
    → ((mqtt_brokerage_from_env parse_ip env config_dir).port ≡ port)
      × ((mqtt_client_from_env env config_dir).port ≡ port)
unfolding mqtt_brokerage_from_env mqtt_client_from_env mqtt_port
port_roundtrip parse_ip env config_dir port h k off =
    let p = ap (unwrap_or 1883) (parse_uint-show_uint 65535 port h (omega arith)) in
    rw off (rw k (p, p))
