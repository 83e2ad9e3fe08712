-- ===== src/Gateway/Recovery.antt =====
-- src/services/beacon_management/gateway_service.rs: the service over starts and stops.
use place_net_hamlet.Common.{
  ℕ, ◌≡◌, refl, ap, ◌∙◌, none, true, Result, ok, err, is_ok, is_some, Text, utf8, arith,
}
use place_net_hamlet.Gateway.Service.{
  Host, GatewayService, initialize, spawn_accept_loop, start, stop,
}

spawn_ok :
    (host : Host) (addr : Text) (s : GatewayService)
    → is_ok host.build_tls_config ≡ true
    → (spawn_accept_loop host addr s).1 ≡ ok 0
unfolding spawn_accept_loop
spawn_ok host addr s tls = ground arith

start-eq-spawn_accept_loop :
    (host : Host) (s : GatewayService) (addr : Text)
    → s.shutdown_tx ≡ none
    → initialize host s.config ≡ ok addr
    → start host s ≡ spawn_accept_loop host addr s
unfolding start
start-eq-spawn_accept_loop host s addr idle bound = rw (ap is_some idle, start) (rw (bound, start))

stop_idle : (s : GatewayService) → (stop s).0.shutdown_tx ≡ none
unfolding stop
stop_idle s = ground arith

stop_config : (s : GatewayService) → (stop s).0.config ≡ s.config
unfolding stop
stop_config s = ground arith

-- Unlike the clients, the gateway can be started again after a stop: a start whose listener is bound
-- and whose TLS configuration can be built succeeds, whatever happened before, once it is stopped.
pub stop_then_start :
    (host : Host) (s : GatewayService) (addr : Text)
    → initialize host s.config ≡ ok addr
    → is_ok host.build_tls_config ≡ true
    → (start host (stop s).0).1 ≡ ok 0
stop_then_start host s addr bound tls =
    let bound' : initialize host (stop s).0.config ≡ ok addr =
      ap (initialize host) (stop_config s) ∙ bound in
    ap (λ (p : GatewayService × Result Text ℕ). p.1)
      (start-eq-spawn_accept_loop host (stop s).0 addr (stop_idle s) bound')
    ∙ spawn_ok host addr (stop s).0 tls

spawn_bad :
    (host : Host) (addr reason : Text) (s : GatewayService)
    → s.config.tls_enabled ≡ true
    → host.build_tls_config ≡ err reason
    → ((spawn_accept_loop host addr s).1 ≡ err reason)
      × ((spawn_accept_loop host addr s).0.listening ≡ s.listening)
      × (is_some (spawn_accept_loop host addr s).0.shutdown_tx ≡ true)
unfolding spawn_accept_loop
spawn_bad host addr reason s on bad = rw on (rw bad (refl, refl, refl))

start_running :
    (host : Host) (s : GatewayService)
    → is_some s.shutdown_tx ≡ true
    → (start host s).1 ≡ err (utf8 "GatewayService is already running")
unfolding start
start_running host s h = rw (h, start)

-- Where an idle gateway with TLS has bound its listener and the TLS configuration cannot be
-- built, its start fails with that error and spawns no accept loop, and the next start is refused
-- as already running.
pub tls_failure_blocks :
    (host later : Host) (s : GatewayService) (addr reason : Text)
    → s.shutdown_tx ≡ none
    → s.config.tls_enabled ≡ true
    → initialize host s.config ≡ ok addr
    → host.build_tls_config ≡ err reason
    → let (s', result) = start host s in
      (result ≡ err reason)
      × (s'.listening ≡ s.listening)
      × ((start later s').1 ≡ err (utf8 "GatewayService is already running"))
tls_failure_blocks host later s addr reason idle on bound bad =
    let (result, loops, set) = spawn_bad host addr reason s on bad in
    rw (start-eq-spawn_accept_loop host s addr idle bound)
      (result, loops, start_running later (spawn_accept_loop host addr s).0 set)
