-- ===== src/MqttClient/Manager.antt =====
-- src/services/mqtt_client/manager.rs: the registration of the client, and the files of the node's own
-- identity. A channel is a number; that of the inbound messages, which the service hands on to its
-- task, has none.
use place_net_hamlet.Common.{ℕ, none, some, Bool, ok, err, Text, utf8}
use place_net_hamlet.Common.Disk.{Disk, Files, create_parent, write_then}
use place_net_hamlet.Config.Types.{MqttClientConfig}
use place_net_hamlet.Services.{mqtt_client}
use place_net_hamlet.Supervisor.{Supervisor, Reply}
use place_net_hamlet.Supervisor
use place_net_hamlet.Ca.Operations.{Rcgen}
use place_net_hamlet.Ca.Service.{Call, CaService, settle, ensure_node_identity}
use place_net_hamlet.MqttClient.Service.{MqttClientService, new}

pub record MqttManagerHandles : Type 0 where
  pub handle : ℕ
  pub outbound_tx : ℕ
  pub connected_rx : ℕ

-- `box` makes the service one of the supervisor's.
unfoldable pub register_onto :
    {S : Type 0}
    → (MqttClientService → S)
    → MqttClientConfig
    → Bool
    → Supervisor S
    → Supervisor S × MqttManagerHandles
unfolding new
register_onto box config available s = (
  Supervisor.register mqtt_client (box (new config 0 1 2 3)) available s,
  record { handle = 0; outbound_tx = 1; connected_rx = 2 },
)

module _ {K C Q : Type 0} (rcgen : Rcgen K C Q) (disk : Disk) where
  -- The two files of the node's identity.
  unfoldable pub write_node_identity : Text → Text → Text × Text → Files → Files × Reply
  unfolding create_parent write_then
  write_node_identity certfile keyfile (cert_pem, key_pem) files =
      elim (create_parent disk (utf8 "Failed to create cert dir: ") certfile) [
        | err e ↦ (files, err e)
        | ok _ ↦
            write_then disk (utf8 "Failed to write node cert: ") certfile cert_pem
              (write_then disk (utf8 "Failed to write node key: ") keyfile key_pem
                (λ files'. (files', ok tt)))
              files
      ]

  -- What follows once both paths are there: the authority, the files and the reply.
  unfoldable pub provision_at :
      Call K → CaService K C → Text → Text → Files → CaService K C × Files × Reply
  unfolding write_node_identity
  provision_at c ca certfile keyfile files =
      let (ca', made) = settle ca (ensure_node_identity rcgen c ca) in
      elim made [
        | err e ↦ (ca', files, err e)
        | ok pair ↦
            let (files', reply) = write_node_identity certfile keyfile pair files in
            (ca', files', reply)
      ]

  unfoldable pub provision_node_identity :
      Call K → CaService K C → MqttClientConfig → Files → CaService K C × Files × Reply
  unfolding provision_at
  provision_node_identity c ca cfg files = elim cfg.certfile [
    | none ↦ (ca, files, err (utf8 "provision_node_identity requires a client cert path"))
    | some certfile ↦ elim cfg.keyfile [
      | none ↦ (ca, files, err (utf8 "provision_node_identity requires a client key path"))
      | some keyfile ↦ provision_at c ca certfile keyfile files
    ]
  ]
