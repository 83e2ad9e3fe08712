-- ===== src/App/BroadcastLoop.antt =====
-- src/app.rs: `run_broadcast_loop`, a cycle at a time. Sleeps and ticks only delay it and are left out.
use place_net_hamlet.Common.{ℕ, List, [], map, ok, err, Text, utf8}
use place_net_hamlet.Common.Json.{Json, string, object, end, field}
use place_net_hamlet.MqttClient.{MqttCommand, publish, at_least_once}
use place_net_hamlet.KeyManagement.{
  BroadcastKeyManagement, Database, Table, get_or_rotate_key, sweep_expired, ota_fields,
}
use place_net_hamlet.KeyManagement.Hex.{Bytes}

-- What one cycle meets: the times of its calls, the random bytes, and how the database fares.
pub record Cycle : Type 0 where
  pub queried_at : ℕ
  pub rotated_at : ℕ
  pub swept_at : ℕ
  pub signed_at : ℕ
  pub key_id : Bytes
  pub key_material : Bytes
  pub database : Database

-- `hmac` is HMAC-SHA256, and `to_string` the printer of `serde_json`, with the bytes of its text.
module _ (hmac : Bytes → Bytes → Bytes) (to_string : Json → Bytes) where
  unfoldable pub payload : Text → Text × Text → Bytes
  payload server_url (kid, tok) = to_string (
      object (
        field (utf8 "url") (string server_url)
          (field (utf8 "kid") (string kid) (field (utf8 "tok") (string tok) end))))

  abbrev broadcast : List Text → Bytes → List MqttCommand
  broadcast topics bytes = map (λ topic. publish topic at_least_once bytes) topics

  -- The table after the cycle, and the messages that it hands to the MQTT client, in order; a publish
  -- that fails is only logged.
  unfoldable pub cycle :
      BroadcastKeyManagement → Text → List Text → Cycle → Table → Table × List MqttCommand
  unfolding get_or_rotate_key sweep_expired payload
  cycle m server_url topics c table =
      let (table', result) =
        get_or_rotate_key m c.database c.queried_at c.rotated_at c.key_id c.key_material table in
      elim result [
        | err e ↦ (table', [])
        | ok key ↦ (
          (sweep_expired c.database c.swept_at table').0,
          broadcast topics (payload server_url (ota_fields hmac m c.signed_at key)),
        )
      ]
