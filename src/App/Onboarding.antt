-- ===== src/App/Onboarding.antt =====
-- src/app.rs: from a device's first handshake (src/services/beacon_management/internals) to the
-- broadcasts that reach it. The message loop takes the two channels of the handshake out of the queue.
use place_net_hamlet.Common.{
  ℕ, ◌+◌, ◌≤◌, ◌≡◌, sym, subst, ap, ◌∙◌, List, [], ◌∷◌, ◌++◌, some, none, true, Bool-cases, Result,
  ok, is_ok, Text, text_eq, same, same_iff, contains, length, inl, inr, arith,
}
use mathlib.Core.List.{Mem, mem-map_of_mem, mem-cons_self, mem-cons_of_mem}
use place_net_hamlet.Common.Map.{get}
use place_net_hamlet.Common.Json.{Json}
use place_net_hamlet.MqttClient.{MqttCommand, publish, at_least_once, Broker}
use place_net_hamlet.KeyManagement.{
  BroadcastKeyManagement, BroadcastKey, Table, get_or_rotate_key, ota_fields,
}
use place_net_hamlet.KeyManagement.Hex.{Bytes}
use place_net_hamlet.Gateway.Requests.{Request, DeviceInitRequest, init_request}
use place_net_hamlet.Gateway.Handlers.{
  World, TopicQueue, AppState, receive_topic, broadcast_topic, listen_channel, broadcast_channel,
  announce, admit, handle_device_init,
}
use place_net_hamlet.Gateway.Queue.{announce_both}
use place_net_hamlet.Gateway.Admission.{handshake_registers}
use place_net_hamlet.App.MessageLoop.{Node, Event, rounds, round}
use place_net_hamlet.App.BroadcastLoop.{Cycle, payload, cycle}

admitted_announces :
    {A : Type 0} (w : World A) (id : Text) (request : DeviceInitRequest) (s : AppState A)
    → (admit w id request s).1.status ≡ 200
    → (admit w id request s).0.beacon_topic_tx ≡ announce id s.beacon_topic_tx
unfolding admit
admitted_announces w id request s h = ground arith

handshake_queues :
    {A : Type 0} (w : World A) (id : Text) (req : Request) (request : DeviceInitRequest)
    (s : AppState A) (q : TopicQueue)
    → init_request w.parse_device req ≡ ok request
    → (handle_device_init w id req s).1.status ≡ 200
    → s.beacon_topic_tx ≡ some q
    → q.is_open ≡ true
    → length q.waiting + 2 ≤ q.capacity
    → (handle_device_init w id req s).0.beacon_topic_tx
      ≡ some (record q { waiting = q.waiting ++ listen_channel id ∷ broadcast_channel id ∷ [] })
unfolding handle_device_init
handshake_queues w id req request s q parsed =
    rw (parsed, handle_device_init)
      (λ status there o room.
        admitted_announces w id request s status
        ∙ ap (announce id) there
        ∙ announce_both id q o room)

contains-Mem : (t : Text) (ts : List Text) → contains t ts ≡ true → Mem t ts
unfolding contains
contains-Mem t [] h = absurd (cc)
contains-Mem t (u ∷ ts) h = elim (Bool-cases (same u t)) [
  | inl hit ↦ subst (λ x. Mem t (x ∷ ts)) (sym ((same_iff u t).0 hit)) mem-cons_self
  | inr miss ↦ mem-cons_of_mem u (contains-Mem t ts (ground arith))
]

module _ (hmac : Bytes → Bytes → Bytes) (to_string : Json → Bytes) (m : BroadcastKeyManagement)
    (server_url : Text) where
  -- A cycle that has a key publishes on every topic of the list.
  cycle_reaches :
      (topics : List Text) (c : Cycle) (table : Table) (key : BroadcastKey) (t : Text)
      → (get_or_rotate_key m c.database c.queried_at c.rotated_at c.key_id c.key_material table).1
        ≡ ok key
      → contains t topics ≡ true
      → Mem
          (publish t at_least_once
            (payload hmac to_string server_url (ota_fields hmac m c.signed_at key)))
          (cycle hmac to_string m server_url topics c table).1
  unfolding cycle
  cycle_reaches topics c table key t h there =
      rw (h, cycle) (mem-map_of_mem _ (contains-Mem t topics there))

  -- Where a device's handshake has a request that can be read and is answered with 200, and the
  -- open queue to the message loop has room for two: its listen and broadcast channels are put at
  -- the end of the queue; a message loop without a record of the device that takes the two in
  -- turn, with a broker that accepts the subscription, sends that subscription and no other
  -- command, and every broadcast cycle over the list of topics that is then there and that has a
  -- key publishes the node's URL with the token of the key on the device's broadcast topic.
  pub device_hears_broadcast :
      {A : Type 0} (parse : List ℕ → Result Text Json) (lossy : List ℕ → Text) (w : World A)
      (id : Text) (req : Request) (request : DeviceInitRequest) (s : AppState A) (q : TopicQueue)
      (now later : ℕ) (broker : Broker) (n : Node) (c : Cycle) (table : Table) (key : BroadcastKey)
      → init_request w.parse_device req ≡ ok request
      → (handle_device_init w id req s).1.status ≡ 200
      → s.beacon_topic_tx ≡ some q
      → q.is_open ≡ true
      → length q.waiting + 2 ≤ q.capacity
      → get id n.registry.records ≡ none
      → is_ok (broker (MqttCommand.subscribe (receive_topic id) at_least_once)) ≡ true
      → (get_or_rotate_key m c.database c.queried_at c.rotated_at c.key_id c.key_material table).1
        ≡ ok key
      → let taken = listen_channel id ∷ broadcast_channel id ∷ [] in
        let n' =
          rounds parse lossy
            (Event.channel now broker (listen_channel id)
              ∷ Event.channel later broker (broadcast_channel id)
              ∷ [])
            n in
        ((handle_device_init w id req s).0.beacon_topic_tx
          ≡ some (record q { waiting = q.waiting ++ taken }))
        × (n'.registry.sent
            ≡ MqttCommand.subscribe (receive_topic id) at_least_once ∷ n.registry.sent)
        × Mem
            (publish
              (broadcast_topic id)
              at_least_once
              (payload hmac to_string server_url (ota_fields hmac m c.signed_at key)))
            (cycle hmac to_string m server_url n'.registry.broadcast_topics c table).1
  unfolding rounds round
  device_hears_broadcast parse lossy w id req request s q now later broker n c table key parsed
        status there o room new accepted has_key =
      let (found, sent, listed) = handshake_registers now later broker id n.registry new accepted in
      (
        handshake_queues w id req request s q parsed status there o room,
        sent,
        cycle_reaches _ c table key (broadcast_topic id) has_key listed,
      )
