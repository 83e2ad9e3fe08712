-- ===== src/CloudGateway/Messages.antt =====
-- src/services/cloud_gateway/messages.rs: the frames of the WebSocket connection.
use place_net_hamlet.Common.{Text, Bool, Option}
use place_net_hamlet.Common.Json.{Json}

pub data GatewayMessage : Type 0 where
  register : (server_url : Text) → GatewayMessage
  connect : (target : Text) → GatewayMessage
  connect_request : (from : Text) → GatewayMessage
  beacon_registration : (server_url : Text) → (payload : Json) → GatewayMessage
  relay : (from to : Text) → (payload : Json) → GatewayMessage
  ack : (ok : Bool) → (message : Option Text) → GatewayMessage
