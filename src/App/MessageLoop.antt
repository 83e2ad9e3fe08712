-- ===== src/App/MessageLoop.antt =====
-- src/app.rs: `run_beacon_message_loop`, a round of its `select!` at a time. `parse` and `lossy` stand
-- for `serde_json::from_slice` and `String::from_utf8_lossy`. A connection to a gateway is the
-- outbound queue and the ends that its task was given (src/services/cloud_gateway,
-- `connect_to_gateway`); it is told to close once its channel is in the registry's `closed`.
use place_net_hamlet.Common.{
  ℕ, suc, List, [], ◌∷◌, Option, none, some, Result, ok, err, Text, utf8, strip_suffix,
  if◌then◌else◌,
}
use place_net_hamlet.Common.Json.{Json, string, as_object, as_str, get_field}
use place_net_hamlet.MqttClient.{MqttMessage, Broker}
use place_net_hamlet.CloudGateway.Url.{compute_ws_url}
use place_net_hamlet.CloudGateway.Messages.{GatewayMessage, beacon_registration}
use place_net_hamlet.Registry.Interrupted.{Wait, check_timeouts_cut}
use place_net_hamlet.Registry.{
  TopicChannel, BeaconRegistry, register_channel, check_timeouts, update_last_seen,
  is_gateway_known, insert_gateway, associate_gateway,
}

pub record Connection : Type 0 where
  pub server_url : Text
  pub ws_url : Text
  pub outbound : List GatewayMessage
  pub channel : ℕ

pub record Node : Type 0 where
  pub server_url : Text
  pub registry : BeaconRegistry
  pub connections : List Connection
  pub next_channel : ℕ

-- What a round of the loop meets. A sweep that is dropped where it waits comes before the arm that
-- was ready instead.
pub data Event : Type 0 where
  channel : (now : ℕ) → Broker → TopicChannel → Event
  swept : (now : ℕ) → Event
  sweep_dropped : (now : ℕ) → Wait → (done : ℕ) → Event
  message : (now : ℕ) → MqttMessage → Event

-- `strip_suffix("/rec")`.
unfoldable pub beacon_of : Text → Option Text
unfolding strip_suffix utf8
beacon_of topic = strip_suffix (utf8 "/rec") topic

unfoldable pub refresh : ℕ → Text → BeaconRegistry → BeaconRegistry
unfolding update_last_seen beacon_of
refresh now topic r = elim (beacon_of topic) [ none ↦ r | some id ↦ update_last_seen now id r ]

module _ (parse : List ℕ → Result Text Json) (lossy : List ℕ → Text) where
  unfoldable pub payload_of : List ℕ → Json
  payload_of bytes = elim (parse bytes) [ ok json ↦ json | err e ↦ string (lossy bytes) ]

-- `as_object().get("gateway_url").as_str()`.
abbrev bind {ℓ κ} : {A : Type ℓ} {B : Type κ} → Option A → (A → Option B) → Option B
bind none f = none
bind (some a) f = f a

unfoldable pub advertised : Json → Option Text
unfolding get_field
advertised payload =
    bind (as_object payload) (λ obj. bind (get_field (utf8 "gateway_url") obj) as_str)

-- `connect_to_gateway`, and the payload that is queued at once.
unfoldable pub connect : Text → Json → Node → Node
connect url payload n =
    let connection : Connection = record {
      server_url = n.server_url;
      ws_url = compute_ws_url url;
      outbound = beacon_registration n.server_url payload ∷ [];
      channel = n.next_channel;
    } in
    record n { connections = connection ∷ n.connections; next_channel = suc n.next_channel }

-- Where the shutdown sender of the connection goes: to the beacon's record, or out of scope.
unfoldable pub keep_sender : Option Text → Text → ℕ → BeaconRegistry → BeaconRegistry
unfolding associate_gateway
keep_sender none url tx r = record r { closed = tx ∷ r.closed }
keep_sender (some id) url tx r = associate_gateway id url tx r

unfoldable pub handle_gateway : Text → Text → Json → Node → Node
unfolding is_gateway_known insert_gateway connect keep_sender beacon_of
handle_gateway topic url payload n =
    if is_gateway_known url n.registry
    then n
    else (let n' = connect url payload (record n { registry = insert_gateway url n.registry }) in
        record n' { registry = keep_sender (beacon_of topic) url n.next_channel n'.registry })

module _ (parse : List ℕ → Result Text Json) (lossy : List ℕ → Text) where
  unfoldable pub handle_message : ℕ → MqttMessage → Node → Node
  unfolding refresh payload_of advertised handle_gateway
  handle_message now msg n =
      let n' = record n { registry = refresh now msg.topic n.registry } in
      let payload = payload_of parse lossy msg.payload in
      elim (advertised payload) [ none ↦ n' | some url ↦ handle_gateway msg.topic url payload n' ]

  unfoldable pub round : Event → Node → Node
  unfolding handle_message register_channel check_timeouts check_timeouts_cut
  round (channel now broker c) n = record n { registry = register_channel now broker c n.registry }
  round (swept now) n = record n { registry = check_timeouts now n.registry }
  round (sweep_dropped now wait done) n = record n {
    registry = check_timeouts_cut now wait done n.registry;
  }
  round (message now msg) n = handle_message now msg n

  unfoldable pub rounds : List Event → Node → Node
  unfolding round
  rounds [] n = n
  rounds (e ∷ es) n = rounds es (round e n)
