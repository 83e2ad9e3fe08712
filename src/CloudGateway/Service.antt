-- ===== src/CloudGateway/Service.antt =====
-- src/services/cloud_gateway/cloud_gateway_service.rs: the service and its `ManagedService` operations.
-- A channel end is the number of its channel. `Host` is what the service meets outside: the next
-- channel number, the connection tasks that were spawned, the last first, and the shutdown signals.
use place_net_hamlet.Common.{
  ℕ, suc, List, [], ◌∷◌, Option, none, some, Bool, Result, ok, err, Text, utf8, is_some,
}
use place_net_hamlet.Supervisor.{ManagedService, Reply}
use place_net_hamlet.CloudGateway.Url.{compute_ws_url}

pub record ConnectionTask : Type 0 where
  pub server_url : Text
  pub ws_url : Text
  pub outbound_rx : ℕ
  pub shutdown_rx : ℕ

pub record CloudGatewayService : Type 0 where
  pub server_url : Text
  pub gateway_url : Text
  pub outbound_rx : Option ℕ
  pub shutdown_tx : Option ℕ
  pub next_channel : ℕ
  pub spawned : List ConnectionTask
  pub signalled : List ℕ

unfoldable pub new : Text → Text → CloudGatewayService
new server_url gateway_url = record {
  server_url = server_url;
  gateway_url = gateway_url;
  outbound_rx = some 0;
  shutdown_tx = none;
  next_channel = 1;
  spawned = [];
  signalled = [];
}

unfoldable pub start : CloudGatewayService → CloudGatewayService × Result Text ℕ
start s = elim s.outbound_rx [
  | none ↦ (s, err (utf8 "CloudGatewayService already started"))
  | some rx ↦
      let task : ConnectionTask = record {
        server_url = s.server_url;
        ws_url = compute_ws_url s.gateway_url;
        outbound_rx = rx;
        shutdown_rx = s.next_channel;
      } in
      (
        record s {
          outbound_rx = none;
          shutdown_tx = some s.next_channel;
          next_channel = suc s.next_channel;
          spawned = task ∷ s.spawned;
        },
        ok 0,
      )
]

unfoldable pub stop : CloudGatewayService → CloudGatewayService × Reply
stop s = elim s.shutdown_tx [
  | none ↦ (s, ok tt)
  | some tx ↦ (record s { shutdown_tx = none; signalled = tx ∷ s.signalled }, ok tt)
]

unfoldable pub is_running : CloudGatewayService → CloudGatewayService × Bool
is_running s = (s, is_some s.shutdown_tx)

abbrev pub service : ManagedService CloudGatewayService
service = record { start = start; stop = stop; is_running = is_running }
