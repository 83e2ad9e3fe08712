-- ===== src/App/Services.antt =====
-- src/app.rs: the services that the application registers, as the one type of a boxed service, with
-- the operations that the supervisor calls on it. `Hosts` says how their calls of the host fare.
use place_net_hamlet.Common.{ℕ, Bool, Result, Text}
use place_net_hamlet.Supervisor.{ManagedService, Reply}
use place_net_hamlet.Brokerage.Service.{MosquittoBrokerageService}
use place_net_hamlet.Brokerage.Service
use place_net_hamlet.Gateway.Service.{GatewayService}
use place_net_hamlet.Gateway.Service as GatewayModule
use place_net_hamlet.GatewayMqtt.Service.{GatewayMqttService}
use place_net_hamlet.GatewayMqtt.Service as CloudModule
use place_net_hamlet.MqttClient.Options.{TlsFiles}
use place_net_hamlet.MqttClient.Service.{MqttClientService}
use place_net_hamlet.MqttClient.Service as ClientModule

pub record Hosts : Type 0 where
  pub broker : Service.Host
  pub sockets : GatewayModule.Host
  pub tls : TlsFiles

pub data BoxedService : Type 0 where
  broker_service : MosquittoBrokerageService → BoxedService
  http_service : GatewayService → BoxedService
  client_service : MqttClientService → BoxedService
  cloud_service : GatewayMqttService → BoxedService

unfoldable pub start : Hosts → BoxedService → BoxedService × Result Text ℕ
unfolding Service.start GatewayModule.start ClientModule.start CloudModule.start
start h (broker_service s) = let (s', r) = Service.start h.broker s in (broker_service s', r)
start h (http_service s) = let (s', r) = GatewayModule.start h.sockets s in (http_service s', r)
start h (client_service s) = let (s', r) = ClientModule.start h.tls s in (client_service s', r)
start h (cloud_service s) = let (s', r) = CloudModule.start s in (cloud_service s', r)

unfoldable pub stop : Hosts → BoxedService → BoxedService × Reply
unfolding Service.stop GatewayModule.stop ClientModule.stop CloudModule.stop
stop h (broker_service s) = let (s', r) = Service.stop h.broker s in (broker_service s', r)
stop h (http_service s) = let (s', r) = GatewayModule.stop s in (http_service s', r)
stop h (client_service s) = let (s', r) = ClientModule.stop s in (client_service s', r)
stop h (cloud_service s) = let (s', r) = CloudModule.stop s in (cloud_service s', r)

unfoldable pub is_running : Hosts → BoxedService → BoxedService × Bool
unfolding Service.is_running GatewayModule.is_running ClientModule.is_running CloudModule.is_running
is_running h (broker_service s) =
    let (s', r) = Service.is_running h.broker s in (broker_service s', r)
is_running h (http_service s) = let (s', r) = GatewayModule.is_running s in (http_service s', r)
is_running h (client_service s) = let (s', r) = ClientModule.is_running s in (client_service s', r)
is_running h (cloud_service s) = let (s', r) = CloudModule.is_running s in (cloud_service s', r)

abbrev pub boxed : Hosts → ManagedService BoxedService
boxed h = record { start = start h; stop = stop h; is_running = is_running h }
