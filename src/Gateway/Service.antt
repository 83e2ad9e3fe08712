-- ===== src/Gateway/Service.antt =====
-- src/services/beacon_management/gateway_service.rs: the service and its `ManagedService` operations.
-- A channel end is the number of its channel; `listening` holds the accept loops that were spawned,
-- the last first, and `signalled` the channels on which a shutdown was sent.
-- `Host` stands for the sockets and the TLS configuration.
use place_net_hamlet.Common.{
  ℕ, suc, List, [], ◌∷◌, ◌++◌, Option, none, some, Bool, true, false, Result, ok, err, map_err,
  ◌>>=◌, Text, utf8, show_uint, is_some, if◌then◌else◌,
}
use place_net_hamlet.Config.Types.{HttpConfig}
use place_net_hamlet.Supervisor.{ManagedService, Reply}

pub record Host : Type 0 where
  pub bind : Text → Result Text (Unit {0})
  pub local_addr : Result Text Text
  pub build_tls_config : Result Text (Unit {0})

pub record AcceptLoop : Type 0 where
  pub local_addr : Text
  pub tls : Bool
  pub shutdown_rx : ℕ

pub record GatewayService : Type 0 where
  pub config : HttpConfig
  pub shutdown_tx : Option ℕ
  pub next_channel : ℕ
  pub listening : List AcceptLoop
  pub signalled : List ℕ

unfoldable pub new : HttpConfig → GatewayService
new config = record {
  config = config;
  shutdown_tx = none;
  next_channel = 0;
  listening = [];
  signalled = [];
}

abbrev address : HttpConfig → Text
address c = c.host ++ utf8 ":" ++ show_uint c.port

-- `initialize`, up to the new channel: the local address.
unfoldable pub initialize : Host → HttpConfig → Result Text Text
unfolding show_uint
initialize host c = do
  _ ←
      map_err (λ e. utf8 "Failed to bind listener on " ++ address c ++ utf8 ": " ++ e)
        (host.bind (address c))
  map_err (λ e. utf8 "Failed to get local address: " ++ e) host.local_addr

-- What `start` does once the listener is bound; an error of the TLS configuration drops the listener.
unfoldable pub spawn_accept_loop : Host → Text → GatewayService → GatewayService × Result Text ℕ
spawn_accept_loop host local_addr s =
    let rx = s.next_channel in
    let s' = record s { shutdown_tx = some rx; next_channel = suc rx } in
    let accept = λ (tls : Bool). record s' {
      listening = record { local_addr = local_addr; tls = tls; shutdown_rx = rx } ∷ s.listening;
    } in
    if s.config.tls_enabled
    then elim host.build_tls_config [ err e ↦ (s', err e) | ok _ ↦ (accept true, ok 0) ]
    else (accept false, ok 0)

unfoldable pub start : Host → GatewayService → GatewayService × Result Text ℕ
unfolding initialize spawn_accept_loop
start host s =
    if is_some s.shutdown_tx
    then (s, err (utf8 "GatewayService is already running"))
    else elim (initialize host s.config) [
      | err e ↦ (s, err e)
      | ok local_addr ↦ spawn_accept_loop host local_addr s
    ]

unfoldable pub stop : GatewayService → GatewayService × Reply
stop s = elim s.shutdown_tx [
  | none ↦ (s, err (utf8 "GatewayService is not running"))
  | some tx ↦ (record s { shutdown_tx = none; signalled = tx ∷ s.signalled }, ok tt)
]

unfoldable pub is_running : GatewayService → GatewayService × Bool
is_running s = (s, is_some s.shutdown_tx)

abbrev pub service : Host → ManagedService GatewayService
service host = record { start = start host; stop = stop; is_running = is_running }
