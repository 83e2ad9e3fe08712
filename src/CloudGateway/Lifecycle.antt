-- ===== src/CloudGateway/Lifecycle.antt =====
-- src/services/cloud_gateway/cloud_gateway_service.rs: starts, stops and restarts of the service.
use place_net_hamlet.Common.{ℕ, ◌≡◌, ap, ◌∙◌, none, some, true, ok, err, arith, Text, utf8}
use place_net_hamlet.Common.Map.{get}
use place_net_hamlet.Services.{ServiceId, service_eq}
use place_net_hamlet.Supervisor.{
  failed, running, Supervisor, is_running_status, handle_start, handle_restart,
}
use place_net_hamlet.Supervisor.Guards.{can_start, status_of, reply_of}
use place_net_hamlet.Supervisor.Transitions.{handle_start_calls}
use place_net_hamlet.Supervisor.OneShot.{OneShot, restart_fails}
use place_net_hamlet.CloudGateway.Service.{CloudGatewayService, start, stop, service}

abbrev pub already_started : Text
already_started = utf8 "CloudGatewayService already started"

-- The queue's receiver has gone to a task.
abbrev pub Spent : CloudGatewayService → Type 0
Spent s = s.outbound_rx ≡ none

start_takes : (s : CloudGatewayService) → Spent (start s).0
unfolding start
start_takes s = ground arith

stop_keeps : (s : CloudGatewayService) → (stop s).0.outbound_rx ≡ s.outbound_rx
unfolding stop
stop_keeps s = ground arith

stop_succeeds : (s : CloudGatewayService) → (stop s).1 ≡ ok tt
unfolding stop
stop_succeeds s = ground arith

start_again : (s : CloudGatewayService) → Spent s → (start s).1 ≡ err already_started
unfolding start
start_again s h = ground arith

starts : (s : CloudGatewayService) (rx : ℕ) → s.outbound_rx ≡ some rx → (start s).1 ≡ ok 0
unfolding start
starts s rx h = ground arith

pub one_shot : OneShot service Spent (λ s. already_started)
one_shot = record {
  start_fails = start_again;
  start_keeps = λ s h. start_takes s;
  stop_keeps = λ s h. stop_keeps s ∙ h;
}

-- Where the supervisor may start a WebSocket gateway service that holds its queue, that start
-- succeeds, and a restart after it replies that the service was already started and leaves it
-- failed.
pub cloud_gateway_restart_fails :
    (id : ServiceId) (s : Supervisor CloudGatewayService) (svc : CloudGatewayService) (rx : ℕ)
    → can_start (get id s.statuses) ≡ true
    → get id s.services ≡ some svc
    → svc.outbound_rx ≡ some rx
    → let (up, reply) = handle_start service id s in
      let (after, reply') = handle_restart service id up in
      (reply ≡ ok tt)
      × (get id up.statuses ≡ some (running 0))
      × (reply' ≡ err already_started)
      × (get id after.statuses ≡ some (failed already_started))
cloud_gateway_restart_fails id s svc rx can there rx_there =
    let c = handle_start_calls service id s svc can there in
    let p = starts svc rx rx_there in
    let up = c.1 ∙ ap (λ r. some (status_of r)) p in
    let f =
      restart_fails service Spent (λ s. already_started) one_shot id (handle_start service id s).0
        (start svc).0 (ap is_running_status up) c.2 (start_takes svc)
        (stop_succeeds (start svc).0) in
    (c.0 ∙ ap reply_of p, up, f.0, f.1)
