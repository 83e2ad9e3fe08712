-- ===== src/Config/Brokerage.antt =====
-- src/config.rs: `write_config`, and the broker's details that a device is given
-- (src/services/beacon_management/manager.rs).
use place_net_hamlet.Common.{
  ℕ, ◌++◌, Option, Result, ok_or, ◌>>=◌, map_err, Text, utf8, show_uint, if◌then◌else◌,
}
use place_net_hamlet.Config.Types.{MqttBrokerageConfig}

-- The file system as `write_config` uses it: `Path::parent`, and the outcomes of the two calls.
pub record ConfigFiles : Type 0 where
  pub parent : Text → Option Text
  pub create_dir_all : Text → Result Text (Unit {0})
  pub write : Text → Text → Result Text (Unit {0})

-- A line of the file and its end.
abbrev line : Text → Text
line s = s ++ utf8 "\n"

abbrev tls_section : MqttBrokerageConfig → Text
tls_section c =
    line (utf8 "listener " ++ show_uint c.mqtts_port)
    ++ line (utf8 "protocol mqtt")
    ++ line (utf8 "cafile " ++ c.cafile)
    ++ line (utf8 "certfile " ++ c.certfile)
    ++ line (utf8 "keyfile " ++ c.keyfile)
    ++ line (utf8 "tls_version tlsv1.2")
    ++ line (utf8 "require_certificate true")
    ++ line (utf8 "use_identity_as_username true")

abbrev plain_section : MqttBrokerageConfig → Text
plain_section c =
    line (utf8 "listener " ++ show_uint c.port)
    ++ line (utf8 "allow_anonymous false")
    ++ line (utf8 "password_file " ++ c.password_file)

-- The text that `write_config` writes.
unfoldable pub config_text : MqttBrokerageConfig → Text
config_text c =
    line (utf8 "# Auto-generated by hamlet")
    ++ line (utf8 "persistence false")
    ++ line (line (utf8 "log_dest stderr"))
    ++ (if c.tls_enabled then tls_section c else plain_section c)

unfoldable pub write_config : ConfigFiles → MqttBrokerageConfig → Result Text (Unit {0})
unfolding config_text
write_config files c = do
  dir ← ok_or (utf8 "config_file has no parent directory") (files.parent c.config_file)
  _ ← map_err (λ e. utf8 "Failed to create config dir: " ++ e) (files.create_dir_all dir)
  map_err (λ e. utf8 "Failed to write mosquitto.conf: " ++ e)
      (files.write c.config_file (config_text c))

pub record MqttBrokerageInfo : Type 0 where
  pub address : Text
  pub port : ℕ
  pub ca_cert_pem : Text

unfoldable pub build_brokerage_info : MqttBrokerageConfig → Text → MqttBrokerageInfo
build_brokerage_info c ca_cert_pem = record {
  address = utf8 "localhost";
  port = if c.tls_enabled then c.mqtts_port else c.port;
  ca_cert_pem = ca_cert_pem;
}
