-- ===== src/Examples/Settings.antt =====
-- src/config.rs at concrete inputs.
use place_net_hamlet.Common.{
  ◌≡◌, refl, Option, none, some, true, Text, utf8, text_same, if◌then◌else◌,
}
use place_net_hamlet.Config.Types.{plain}
use place_net_hamlet.Config.Env.{
  Env, mqtt_port, mqtts_port, mqtt_client_from_env, mqtt_brokerage_from_env,
}
use place_net_hamlet.Config.Brokerage.{build_brokerage_info}
use place_net_hamlet.Config.Agreement.{unset_flag_disagrees}

abbrev no_ip : Text → Option Text
no_ip s = none

abbrev set : Text → Text → Env
set key value k = if text_same k key then some value else none

abbrev empty : Env
empty k = none

unset_flag_disagrees_example :
    let client = mqtt_client_from_env empty (utf8 "/etc") in
    let broker = mqtt_brokerage_from_env no_ip empty (utf8 "/etc") in
    (client.tls_mode ≡ plain)
    × (client.port ≡ mqtt_port empty)
    × (broker.tls_enabled ≡ true)
    × ((build_brokerage_info broker (utf8 "pem")).port ≡ mqtts_port empty)
unset_flag_disagrees_example = unset_flag_disagrees no_ip empty (utf8 "/etc") (utf8 "pem") refl
