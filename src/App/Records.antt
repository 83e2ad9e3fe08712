-- ===== src/App/Records.antt =====
-- src/app.rs: the records of beacons over the rounds of the message loop.
use place_net_hamlet.Common.{
  ℕ, List, [], ◌∷◌, Option, none, some, Result, Text, text_eq, Bool-cases, Option-cases, inl, inr,
}
use place_net_hamlet.Common.Json.{Json}
use place_net_hamlet.Common.Map.{UniqueKeys}
use place_net_hamlet.MqttClient.{MqttMessage}
use place_net_hamlet.Registry.{BeaconRegistry, is_gateway_known, insert_gateway}
use place_net_hamlet.Registry.Records.{
  register_channel-UniqueKeys, check_timeouts-UniqueKeys, check_timeouts_cut-UniqueKeys,
  update_last_seen-UniqueKeys, associate_gateway-UniqueKeys,
}
use place_net_hamlet.App.MessageLoop.{
  Node, Event, channel, swept, sweep_dropped, message, beacon_of, refresh, payload_of, advertised,
  connect, keep_sender, handle_gateway, handle_message, round, rounds,
}

abbrev Unique : BeaconRegistry → Type 0
Unique r = UniqueKeys r.records

keep_sender-Unique :
    (o : Option Text) (url : Text) (tx : ℕ) (r : BeaconRegistry)
    → Unique r
    → Unique (keep_sender o url tx r)
unfolding keep_sender
keep_sender-Unique none url tx r u = u
keep_sender-Unique (some id) url tx r u = associate_gateway-UniqueKeys id url tx r u

handle_gateway-Unique :
    (topic url : Text) (payload : Json) (n : Node)
    → Unique n.registry
    → Unique (handle_gateway topic url payload n).registry
unfolding handle_gateway connect insert_gateway
handle_gateway-Unique topic url payload n u = elim (Bool-cases (is_gateway_known url n.registry)) [
  | inl known ↦ rw known u
  | inr new ↦ rw new (keep_sender-Unique (beacon_of topic) url n.next_channel _ u)
]

refresh-Unique :
    (now : ℕ) (topic : Text) (r : BeaconRegistry) → Unique r → Unique (refresh now topic r)
unfolding refresh
refresh-Unique now topic r u = elim (Option-cases (beacon_of topic)) [
  | inl none_named ↦ rw (none_named, refresh) u
  | inr (id, named) ↦ rw (named, refresh) (update_last_seen-UniqueKeys now id r u)
]

module _ (parse : List ℕ → Result Text Json) (lossy : List ℕ → Text) where
  handle_message-Unique :
      (now : ℕ) (msg : MqttMessage) (n : Node)
      → Unique n.registry
      → Unique (handle_message parse lossy now msg n).registry
  unfolding handle_message
  handle_message-Unique now msg n u =
      elim (Option-cases (advertised (payload_of parse lossy msg.payload))) [
        | inl nothing ↦ rw (nothing, handle_message) (refresh-Unique now msg.topic n.registry u)
        | inr (url, found) ↦
            rw (found, handle_message)
              (handle_gateway-Unique msg.topic url (payload_of parse lossy msg.payload)
                (record n { registry = refresh now msg.topic n.registry })
                (refresh-Unique now msg.topic n.registry u))
      ]

  round-Unique :
      (e : Event) (n : Node) → Unique n.registry → Unique (round parse lossy e n).registry
  unfolding round
  round-Unique (channel now broker c) n u = register_channel-UniqueKeys now broker c n.registry u
  round-Unique (swept now) n u = check_timeouts-UniqueKeys now n.registry u
  round-Unique (sweep_dropped now wait done) n u =
      check_timeouts_cut-UniqueKeys now wait done n.registry u
  round-Unique (message now msg) n u = handle_message-Unique now msg n u

  -- Where no beacon has two records, none has after any sequence of rounds of the message loop.
  pub rounds-UniqueKeys :
      (es : List Event) (n : Node)
      → UniqueKeys n.registry.records
      → UniqueKeys (rounds parse lossy es n).registry.records
  unfolding rounds
  rounds-UniqueKeys [] n u = u
  rounds-UniqueKeys (e ∷ es) n u = rounds-UniqueKeys es (round parse lossy e n) (round-Unique e n u)
