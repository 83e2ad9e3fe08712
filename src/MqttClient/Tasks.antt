-- ===== src/MqttClient/Tasks.antt =====
-- src/services/mqtt_client/tasks.rs: the event loop task and the command task as step functions. An
-- event says which arm of the `select!` was taken and how the calls in it ended.
use place_net_hamlet.Common.{
  ℕ, ◌+◌, List, [], ◌∷◌, ◌++◌, Option, none, some, Bool, false, Result, map_err, Text, utf8,
  if◌then◌else◌,
}
use place_net_hamlet.MqttClient.Types.{
  at_least_once, MqttMessage, MqttCommand, subscribe, unsubscribe, publish,
}

-- A call of the MQTT library's client.
pub data ClientCall : Type 0 where
  command : MqttCommand → ClientCall
  disconnect : ClientCall

pub record EventLoop : Type 0 where
  pub running : Bool
  -- The message channels: what waits to be published, and what was forwarded, the last first.
  pub out_rx : List MqttMessage
  pub forwarded : List MqttMessage
  pub connected_tx : Option ℕ
  -- The channels on which readiness was signalled, and the client calls that were made.
  pub ready : List ℕ
  pub calls : List ClientCall
  pub slept : ℕ

pub data LoopEvent : Type 0 where
  shutdown : LoopEvent
  outbound : LoopEvent
  -- A publish packet, and whether the inbound queue took its message.
  incoming_publish : MqttMessage → (accepted : Bool) → LoopEvent
  conn_ack : LoopEvent
  incoming_other : LoopEvent
  poll_error : LoopEvent

unfoldable pub loop_step : LoopEvent → EventLoop → EventLoop
loop_step shutdown t = record t { running = false; calls = disconnect ∷ t.calls }
loop_step outbound t = elim t.out_rx [
  | [] ↦ t
  | msg ∷ rest ↦ record t {
    out_rx = rest;
    calls = command (publish msg.topic at_least_once msg.payload) ∷ t.calls;
  }
]
loop_step (incoming_publish msg accepted) t =
    if accepted then record t { forwarded = msg ∷ t.forwarded } else t
loop_step conn_ack t = elim t.connected_tx [
  | none ↦ t
  | some tx ↦ record t { connected_tx = none; ready = tx ∷ t.ready }
]
loop_step incoming_other t = t
loop_step poll_error t = record t { slept = t.slept + 5 }

-- The loop over the events, until the shutdown.
unfoldable pub run_loop : List LoopEvent → EventLoop → EventLoop
unfolding loop_step
run_loop [] t = t
run_loop (e ∷ es) t = let rest = run_loop es (loop_step e t) in if t.running then rest else t

pub record CommandTask : Type 0 where
  pub running : Bool
  pub calls : List MqttCommand
  pub replies : List (Result Text (Unit {0}))

-- The shutdown, the end of the channel, or a command with the outcome of its client call.
pub data CommandEvent : Type 0 where
  shutdown closed : CommandEvent
  received : MqttCommand → Result Text (Unit {0}) → CommandEvent

unfoldable pub failure_prefix : MqttCommand → Text
failure_prefix (subscribe topic qos) = utf8 "subscribe failed: "
failure_prefix (unsubscribe topic) = utf8 "unsubscribe failed: "
failure_prefix (publish topic qos payload) = utf8 "publish failed: "

unfoldable pub command_step : CommandEvent → CommandTask → CommandTask
unfolding failure_prefix
command_step shutdown t = record t { running = false }
command_step closed t = record t { running = false }
command_step (received c outcome) t = record t {
  calls = c ∷ t.calls;
  replies = map_err (λ e. failure_prefix c ++ e) outcome ∷ t.replies;
}

unfoldable pub run_commands : List CommandEvent → CommandTask → CommandTask
unfolding command_step
run_commands [] t = t
run_commands (e ∷ es) t =
    let rest = run_commands es (command_step e t) in if t.running then rest else t
