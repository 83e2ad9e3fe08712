-- ===== src/Examples/Onboarding.antt =====
-- A device's way from its handshake to a broadcast (src/app.rs) at a concrete input.
use place_net_hamlet.Common.{
  any, ◌≡◌, refl, [], ◌∷◌, ◌++◌, some, err, utf8, Text, text_eq, text_same, arith,
}
use mathlib.Core.List.{Mem}
use place_net_hamlet.Common.Word.{lt_i64, add64}
use place_net_hamlet.Common.Map.{get}
use place_net_hamlet.MqttClient.{MqttCommand, publish, at_least_once}
use place_net_hamlet.KeyManagement.{
  BroadcastKey, get_or_rotate_key, rotate_key, fresh_key, insert_row, has_id, is_current,
  ota_fields,
}
use place_net_hamlet.Ca.Service.{CaService, sign_csr}
use place_net_hamlet.Ca.Operations.{sign_request}
use place_net_hamlet.Gateway.Requests.{init_request}
use place_net_hamlet.Gateway.Handlers.{
  TopicQueue, AppState, receive_topic, broadcast_topic, listen_channel, broadcast_channel,
  handle_device_init,
}
use place_net_hamlet.App.MessageLoop.{Node, Event, rounds}
use place_net_hamlet.App.BroadcastLoop.{payload, cycle}
use place_net_hamlet.App.Onboarding.{device_hears_broadcast}
use place_net_hamlet.Examples.Devices.{world, state, queue, request, parsed_ca, accepts, registry}
use place_net_hamlet.Examples.Keys.{manager, row, at_5000, new_id, material}

abbrev roomy : TopicQueue
roomy = record queue { capacity = 64 }

abbrev waiting_for : AppState (CaService Text Text)
waiting_for = record state { beacon_topic_tx = some roomy }

abbrev node : Node
node = record {
  server_url = utf8 "https://hamlet";
  registry = registry;
  connections = [];
  next_channel = 0;
}

abbrev key : BroadcastKey
key = fresh_key manager 5001 new_id material

device_hears_broadcast_example :
    let b = utf8 "b1" in
    let n' =
      rounds
        (λ bytes. err [])
        (λ bytes. [])
        (Event.channel 1 accepts (listen_channel b)
          ∷ Event.channel 2 accepts (broadcast_channel b)
          ∷ [])
        node in
    ((handle_device_init world b request waiting_for).0.beacon_topic_tx
      ≡ some (record roomy { waiting = [] ++ listen_channel b ∷ broadcast_channel b ∷ [] }))
    × (n'.registry.sent ≡ MqttCommand.subscribe (receive_topic b) at_least_once ∷ [])
    × Mem
        (publish (broadcast_topic b) at_least_once (
          payload
            (λ k message. k)
            (λ body. [])
            (utf8 "u")
            (ota_fields (λ k message. k) manager 5003 key)))
        (cycle
          (λ k message. k)
          (λ body. [])
          manager
          (utf8 "u")
          n'.registry.broadcast_topics
          at_5000
          (row ∷ [])).1
unfolding sign_csr sign_request handle_device_init init_request utf8 text_same get get_or_rotate_key
    rotate_key lt_i64 add64 is_current insert_row has_id any
device_hears_broadcast_example =
    device_hears_broadcast (λ k message. k) (λ body. []) manager (utf8 "u") (λ bytes. err [])
      (λ bytes. []) world (utf8 "b1") request parsed_ca waiting_for roomy 1 2 accepts node at_5000
      (row ∷ []) key refl refl refl refl (omega arith) refl refl refl
