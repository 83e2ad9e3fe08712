-- ===== src/App/Broadcasts.antt =====
-- src/app.rs: `run_broadcast_loop` over its cycles, each with the topics that the shared list holds.
use place_net_hamlet.Common.{◌≤◌, List, [], ◌∷◌, Text, inl, inr, Result-cases}
use place_net_hamlet.Common.Json.{Json}
use place_net_hamlet.MqttClient.{MqttCommand}
use place_net_hamlet.KeyManagement.{BroadcastKeyManagement, Table, get_or_rotate_key}
use place_net_hamlet.KeyManagement.Hex.{Bytes}
use place_net_hamlet.KeyManagement.Rotation.{
  active_count, get_or_rotate_key-active_count, sweep_expired-active_count,
}
use place_net_hamlet.App.BroadcastLoop.{Cycle, cycle}

module _ (hmac : Bytes → Bytes → Bytes) (to_string : Json → Bytes) (m : BroadcastKeyManagement)
    (server_url : Text) where
  -- The table after the cycles, and the messages of each.
  unfoldable pub cycles : List (List Text × Cycle) → Table → Table × List (List MqttCommand)
  unfolding cycle
  cycles [] table = (table, [])
  cycles ((topics, c) ∷ cs) table =
      let (table', sent) = cycle hmac to_string m server_url topics c table in
      let (last, more) = cycles cs table' in (last, sent ∷ more)

  cycle-active_count :
      (topics : List Text) (c : Cycle) (table : Table)
      → active_count table ≤ 1
      → active_count (cycle hmac to_string m server_url topics c table).0 ≤ 1
  unfolding cycle
  cycle-active_count topics c table h =
      let asked =
        get_or_rotate_key m c.database c.queried_at c.rotated_at c.key_id c.key_material table in
      let one =
        get_or_rotate_key-active_count m c.database c.queried_at c.rotated_at c.key_id
          c.key_material table h in
      elim (Result-cases asked.1) [
        | inl (key, p) ↦
            rw (p, cycle) (sweep_expired-active_count c.database c.swept_at asked.0 one)
        | inr (e, p) ↦ rw (p, cycle) one
      ]

  -- However the statements fare, a table with at most one active key has at most one after every
  -- sequence of cycles of the broadcast loop.
  pub cycles-active_count :
      (cs : List (List Text × Cycle)) (table : Table)
      → active_count table ≤ 1
      → active_count (cycles cs table).0 ≤ 1
  unfolding cycles
  cycles-active_count [] table h = h
  cycles-active_count ((topics, c) ∷ cs) table h =
      cycles-active_count cs (cycle hmac to_string m server_url topics c table).0
        (cycle-active_count topics c table h)
