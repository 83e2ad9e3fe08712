-- ===== src/Examples/Listeners.antt =====
-- The accept loops of the HTTP gateway and its TLS (src/services/beacon_management) at concrete inputs.
use place_net_hamlet.Common.{
  ℕ, ◌≡◌, refl, List, [], ◌∷◌, some, true, false, any, ok, err, Text, utf8, inr, ltb, arith,
}
use place_net_hamlet.Services.{gateway}
use place_net_hamlet.Supervisor.{running, Supervisor, SupervisorCommand}
use place_net_hamlet.Supervisor.Held.{AllServices, serve_each}
use place_net_hamlet.Ca.Service.{CaService, new, init, register, ca_cert_pem}
use place_net_hamlet.Ca.Operations.{load_or_generate_ca}
use place_net_hamlet.Gateway.Dispatch.{dispatch}
use place_net_hamlet.Gateway.Service.{Host, GatewayService, initialize, start, stop, service}
use place_net_hamlet.Gateway.Service
use place_net_hamlet.Gateway.Tls.{Rustls, collect, build_tls_config, with_authority}
use place_net_hamlet.Gateway.Connections.{
  Upstream, try_forward, Event, accepted, shutdown, handshake_ended, requested, spawn_accept, among,
  step, run,
}
use place_net_hamlet.Gateway.Secured.{grants, answered, tls_required}
use place_net_hamlet.Gateway.Ended.{shutdown_ends_accepting}
use place_net_hamlet.Gateway.Listening.{
  running_loops, loops_below, all_below, IsListening, serve_each-IsListening,
}
use place_net_hamlet.Gateway.Presented.{ServesPem, gateway_presents_authority}
use place_net_hamlet.Examples.Authority.{rcgen, call, no_tables}
use place_net_hamlet.Examples.Devices.{world, state, request, https}

abbrev upstream : Upstream
upstream = record {
  connect = λ port. err (utf8 "connection refused");
  handshake = ok tt;
  send_request = λ req. err (utf8 "closed");
}

-- The handshake of the first connection fails, that of the second succeeds; both ask.
abbrev events : List (Event (CaService Text Text))
events =
    accepted
    ∷ accepted
    ∷ handshake_ended 0 (err (utf8 "bad certificate"))
    ∷ handshake_ended 1 (ok tt)
    ∷ requested 0 world upstream (utf8 "b0") request
    ∷ requested 1 world upstream (utf8 "b1") request
    ∷ []

tls_required_example : answered 0 (run events (spawn_accept true 3000 state)).answers ≡ false
unfolding grants any
tls_required_example = tls_required 0 3000 events state refl

shutdown_ends_accepting_example :
    let t = run events (spawn_accept true 3000 state) in
    let t' = run (accepted ∷ []) (step shutdown t) in
    (t'.spawned ≡ t.spawned)
    × (among 1 t'.established ≡ true
        → (step (requested 1 world upstream (utf8 "b2") request) t').answers
          ≡ (
            1,
            (dispatch world (try_forward upstream t'.upstream_port) (utf8 "b2") request t'.state).1,
          )
            ∷ t'.answers)
shutdown_ends_accepting_example =
    shutdown_ends_accepting (accepted ∷ []) (run events (spawn_accept true 3000 state)) 1 world
      upstream (utf8 "b2") request

abbrev sockets : Host
sockets = record {
  bind = λ addr. ok tt;
  local_addr = ok (utf8 "0.0.0.0:8080");
  build_tls_config = ok tt;
}

-- The gateway was started once, and the supervisor holds it as running.
abbrev listening : GatewayService
listening = record (Service.new https) {
  shutdown_tx = some 0;
  next_channel = 1;
  listening = record { local_addr = utf8 "0.0.0.0:8080"; tls = true; shutdown_rx = 0 } ∷ [];
}

abbrev supervisor : Supervisor GatewayService
supervisor = record {
  services = (gateway, listening) ∷ [];
  statuses = (gateway, running 0) ∷ [];
  channel_buffer = 32;
}

below_one : (n : ℕ) → some 0 ≡ some n → ltb n 1 ≡ true
below_one n h = ground arith

listening-IsListening : IsListening listening
unfolding Service.new running_loops loops_below all_below
listening-IsListening = record {
  loops = refl;
  sent = refl;
  held = below_one;
  one = inr (0, refl, refl);
}

abbrev commands : List (Host × SupervisorCommand)
commands =
    (sockets, SupervisorCommand.restart gateway) ∷ (sockets, SupervisorCommand.stop gateway) ∷ []

serve_each-IsListening_example : AllServices IsListening (serve_each service commands supervisor)
serve_each-IsListening_example =
    serve_each-IsListening commands supervisor (listening-IsListening, tt)

-- Every text holds itself, and is a key too.
abbrev rustls : Rustls Text
rustls = record {
  certs = λ pem. ok pem ∷ [];
  pkcs8_private_keys = λ pem. ok pem ∷ [];
  with_single_cert = λ chain key. ok key;
}

serves : ServesPem rcgen rustls
unfolding collect
serves = record { self_signed = λ p k c h. (c ∷ [], [], k, k, refl, refl, refl) }

gateway_presents_authority_example :
    let ca = (init rcgen call (new no_tables)).0 in
    let s = Service.new https in
    ((start (with_authority rcgen rustls sockets ca) (stop s).0).1 ≡ ok 0)
    × (root key : Text) × (chain : List Text) × (config : Text) × (build_tls_config rcgen rustls ca
        ≡ ok config)
    × (rustls.with_single_cert chain key ≡ ok config)
    × (ca_cert_pem rcgen ca ≡ ok root)
    × (collect (rustls.certs root) ≡ ok chain)
unfolding register init new load_or_generate_ca initialize Service.new
gateway_presents_authority_example =
    gateway_presents_authority rcgen rustls call no_tables (init rcgen call (new no_tables)).0
      sockets (Service.new https) (utf8 "0.0.0.0:8080") serves refl refl
