-- ===== src/CloudGateway/Manager.antt =====
-- src/services/cloud_gateway/manager.rs: `register_onto`.
use place_net_hamlet.Common.{Option, none, some, Bool, true, false, Text}
use place_net_hamlet.Services.{cloud_gateway}
use place_net_hamlet.Supervisor.{Supervisor}
use place_net_hamlet.Supervisor
use place_net_hamlet.CloudGateway.Service.{CloudGatewayService, new}

-- The supervisor, and whether a handle was returned. `box` makes the service one of the supervisor's.
unfoldable pub register_onto :
    {S : Type 0}
    → (CloudGatewayService → S)
    → Text
    → Option Text
    → Supervisor S
    → Supervisor S × Bool
register_onto box server_url none s = (s, false)
register_onto box server_url (some url) s =
    (Supervisor.register cloud_gateway (box (new server_url url)) true s, true)
