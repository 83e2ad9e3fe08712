-- ===== src/CloudGateway/Task.antt =====
-- src/services/cloud_gateway/cloud_gateway_service.rs: `spawn_connection_task` as a state machine. An
-- event says which arm of a `select!` was ready, or how a call ended that the task waits for; delays
-- are seconds. `sink` holds the frames that were sent, the last first, and `slept` the seconds slept.
-- Frames are kept as messages: `serde_json` is outside the model, and an event says where it fails.
pub mod Laws
use place_net_hamlet.Common.{
  ℕ, suc, ◌+◌, ◌≡◌, List, [], ◌∷◌, ◌++◌, Option, none, some, Bool, true, false, Text,
}
use place_net_hamlet.Common.Backoff.{initial_reconnect_delay, next_delay}
use place_net_hamlet.CloudGateway.Messages.{GatewayMessage}

-- Where the task waits.
pub data Phase : Type 0 where
  connecting registering in_session sleeping stopped : Phase

-- A frame of the WebSocket.
pub data Frame : Type 0 where
  text : GatewayMessage → Frame
  pong : Frame
  close : Frame

pub record Task : Type 0 where
  pub server_url : Text
  pub phase : Phase
  pub delay : ℕ
  pub outbound : List GatewayMessage
  pub sink : List Frame
  pub slept : ℕ

pub data Event : Type 0 where
  -- A handle put a message into the queue: it can as long as the task has not ended.
  enqueued : GatewayMessage → Event
  -- The shutdown sender fired or was dropped, and its arm was taken.
  shutdown : Event
  connected connect_failed : Event
  -- The `Register` frame was sent, or could not be sent or serialised.
  registered register_failed : Event
  -- The sleep of the backoff ended.
  woke : Event
  -- A message was taken from the queue and sent; it was lost as the sink failed; it was dropped as it
  -- could not be serialised.
  outbound_sent outbound_failed outbound_dropped : Event
  inbound_text inbound_ping inbound_other : Event
  -- The peer closed the connection, or it failed.
  inbound_closed : Event

unfoldable pub spawn : Text → List GatewayMessage → Task
spawn server_url outbound = record {
  server_url = server_url;
  phase = connecting;
  delay = initial_reconnect_delay;
  outbound = outbound;
  sink = [];
  slept = 0;
}

-- `outbound_rx.recv()` is ready only where a message waits.
abbrev with_message :
    List GatewayMessage → (GatewayMessage → List GatewayMessage → Task) → Option Task
with_message [] use_it = none
with_message (m ∷ ms) use_it = some (use_it m ms)

unfoldable pub enqueue : GatewayMessage → Task → Task
enqueue m t = record t { outbound = t.outbound ++ m ∷ [] }

-- `none` where the event cannot occur in that phase.
unfoldable pub on : Phase → Event → Task → Option Task
unfolding next_delay enqueue
on stopped e t = none
on phase (enqueued m) t = some (enqueue m t)
on connecting shutdown t = some (record t { phase = stopped })
on connecting connected t = some (record t { phase = registering; delay = initial_reconnect_delay })
on connecting connect_failed t = some (record t { phase = sleeping })
on registering registered t =
    some
      (record t { phase = in_session; sink = text (GatewayMessage.register t.server_url) ∷ t.sink })
on registering register_failed t = some (record t { phase = connecting })
on sleeping woke t =
    some (record t { phase = connecting; slept = t.slept + t.delay; delay = next_delay t.delay })
on in_session shutdown t = some (record t { phase = stopped; sink = close ∷ t.sink })
on in_session outbound_sent t =
    with_message t.outbound λ m ms. record t { outbound = ms; sink = text m ∷ t.sink }
on in_session outbound_failed t =
    with_message t.outbound λ m ms. record t { outbound = ms; phase = sleeping }
on in_session outbound_dropped t = with_message t.outbound λ m ms. record t { outbound = ms }
on in_session inbound_text t = some t
on in_session inbound_ping t = some (record t { sink = pong ∷ t.sink })
on in_session inbound_other t = some t
on in_session inbound_closed t = some (record t { phase = sleeping })
on _ _ t = none

unfoldable pub step : Event → Task → Option Task
unfolding on
step e t = on t.phase e t

unfoldable pub run : List Event → Task → Option Task
unfolding step
run [] t = some t
run (e ∷ es) t = elim (step e t) [ none ↦ none | some t' ↦ run es t' ]
