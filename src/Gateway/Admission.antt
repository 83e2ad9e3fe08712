-- ===== src/Gateway/Admission.antt =====
-- src/services/beacon_management/internals/handlers.rs: what an admitted device leads to, in the
-- registry (src/services/beacon_management/registry.rs) and in the broker's certificate directory.
use place_net_hamlet.Common.{
  ℕ, ◌≡◌, refl, sym, ap, ◌∙◌, List, [], ◌∷◌, ◌++◌, none, some, true, ok, is_ok, Text, text_eq,
  same_self, utf8, arith, contains, contains-append, is_some,
}
use place_net_hamlet.Common.Map.{get, insert, modify, get-insert, get-modify}
use place_net_hamlet.Config.Env.{join}
use place_net_hamlet.MqttClient.{MqttCommand, at_least_once, Broker}
use place_net_hamlet.Registry.{
  BeaconRecord, BeaconRegistry, register_channel, register_listen, register_broadcast, ensure,
  qos_from_u8,
}
use place_net_hamlet.Gateway.Requests.{DeviceInitRequest}
use place_net_hamlet.Gateway.Handlers.{
  World, AppState, cert_path, register_cert_identity, register_identity, receive_topic,
  broadcast_topic, listen_channel, broadcast_channel, admit,
}

-- The record of a beacon that was seen at `now` and has only listened.
abbrev listening : ℕ → Text → BeaconRecord
listening now id = record {
  listen_topic = receive_topic id;
  broadcast_topic = [];
  last_seen = now;
  gateway_url = none;
  gateway_shutdown_tx = none;
}

ensure_new :
    (now : ℕ) (id : Text) (r : BeaconRegistry)
    → get id r.records ≡ none
    → ensure now id r
      ≡ record r { records = insert id (record (listening now id) { listen_topic = [] }) r.records }
unfolding ensure
ensure_new now id r new = rw (ap is_some new, ensure)

listen_accepted :
    (broker : Broker) (id : Text) (r : BeaconRegistry)
    → is_ok (broker (MqttCommand.subscribe (receive_topic id) at_least_once)) ≡ true
    → register_listen broker (listen_channel id) r ≡ record r {
      records = modify id (λ b. record b { listen_topic = receive_topic id }) r.records;
      sent = MqttCommand.subscribe (receive_topic id) at_least_once ∷ r.sent;
    }
unfolding register_listen listen_channel qos_from_u8
listen_accepted broker id r accepted = rw (accepted, register_listen)

registered_listen :
    (now : ℕ) (broker : Broker) (id : Text) (r : BeaconRegistry)
    → get id r.records ≡ none
    → is_ok (broker (MqttCommand.subscribe (receive_topic id) at_least_once)) ≡ true
    → register_channel now broker (listen_channel id) r ≡ record r {
      records =
          modify id
            (λ b. record b { listen_topic = receive_topic id })
            (insert id (record (listening now id) { listen_topic = [] }) r.records);
      sent = MqttCommand.subscribe (receive_topic id) at_least_once ∷ r.sent;
    }
unfolding register_channel listen_channel
registered_listen now broker id r new accepted =
    ap (register_listen broker (listen_channel id)) (ensure_new now id r new)
    ∙ listen_accepted broker id _ accepted

after_listen :
    (now : ℕ) (broker : Broker) (id : Text) (r : BeaconRegistry)
    → get id r.records ≡ none
    → is_ok (broker (MqttCommand.subscribe (receive_topic id) at_least_once)) ≡ true
    → let r' = register_channel now broker (listen_channel id) r in
      (get id r'.records ≡ some (listening now id))
      × (r'.broadcast_topics ≡ r.broadcast_topics)
      × (r'.sent ≡ MqttCommand.subscribe (receive_topic id) at_least_once ∷ r.sent)
after_listen now broker id r new accepted = rw (registered_listen now broker id r new accepted) (
  get-modify id id _ _
      ∙ rw (same_self id) (rw (get-insert id id _ r.records) (rw (same_self id) refl)),
  refl,
  refl,
)

ensure_there :
    (now : ℕ) (id : Text) (r : BeaconRegistry) (b : BeaconRecord)
    → get id r.records ≡ some b
    → ensure now id r ≡ r
unfolding ensure
ensure_there now id r b there = rw (ap is_some there, ensure)

after_broadcast :
    (now : ℕ) (broker : Broker) (id : Text) (r : BeaconRegistry) (b : BeaconRecord)
    → get id r.records ≡ some b
    → let r' = register_channel now broker (broadcast_channel id) r in
      (get id r'.records ≡ some (record b { broadcast_topic = broadcast_topic id }))
      × (r'.sent ≡ r.sent)
      × (contains (broadcast_topic id) r'.broadcast_topics ≡ true)
unfolding register_channel broadcast_channel register_broadcast contains
after_broadcast now broker id r b there = rw (ensure_there now id r b there) (
  get-modify id id _ _ ∙ rw (same_self id) (rw there refl),
  refl,
  contains-append (broadcast_topic id) r.broadcast_topics (broadcast_topic id ∷ [])
      ∙ ground (arith, same_self (broadcast_topic id)),
)

-- Where an id has no record and the broker accepts the subscription to its receive topic, the
-- registry that has handled the listen channel and then the broadcast channel of a handshake
-- holds a record with both topics, has sent that subscription and no other command, and has the
-- broadcast topic in the list of the broadcast loop.
pub handshake_registers :
    (now later : ℕ) (broker : Broker) (id : Text) (r : BeaconRegistry)
    → get id r.records ≡ none
    → is_ok (broker (MqttCommand.subscribe (receive_topic id) at_least_once)) ≡ true
    → let r' =
        register_channel later broker
          (broadcast_channel id)
          (register_channel now broker (listen_channel id) r) in
      (get id r'.records
        ≡ some (record (listening now id) { broadcast_topic = broadcast_topic id }))
      × (r'.sent ≡ MqttCommand.subscribe (receive_topic id) at_least_once ∷ r.sent)
      × (contains (broadcast_topic id) r'.broadcast_topics ≡ true)
handshake_registers now later broker id r new accepted =
    let (found, topics, sent) = after_listen now broker id r new accepted in
    let (found', sent', listed) =
      after_broadcast later broker id (register_channel now broker (listen_channel id) r)
        (listening now id) found in
    (found', sent' ∙ sent, listed)

identity_written :
    {A : Type 0} (w : World A) (cafile dir hostname cert_pem : Text) (files : List (Text × Text))
    → w.parent cafile ≡ some dir
    → w.write (join dir (hostname ++ utf8 ".crt")) ≡ ok tt
    → register_identity w (some cafile) hostname cert_pem files
      ≡ ok ((join dir (hostname ++ utf8 ".crt"), cert_pem) ∷ files)
unfolding register_identity register_cert_identity cert_path
identity_written w cafile dir hostname cert_pem files p q = rw p (rw q)

ca_file : utf8 "ca" ++ utf8 ".crt" ≡ utf8 "ca.crt"
unfolding utf8
ca_file = refl

-- Where a device calls itself `ca`, its certificate is signed, and the broker's CA file is
-- `ca.crt` in its directory and can be written, the device's certificate is written over that
-- file.
pub admit_overwrites_ca :
    {A : Type 0} (w : World A) (id : Text) (request : DeviceInitRequest) (s : AppState A)
    (cafile dir cert_pem : Text)
    → request.device.mdns.hostname ≡ utf8 "ca"
    → s.brokerage ≡ some cafile
    → w.parent cafile ≡ some dir
    → cafile ≡ join dir (utf8 "ca.crt")
    → (w.sign_csr (utf8 "ca") request.device.csr_pem s.ca).1 ≡ ok cert_pem
    → w.write cafile ≡ ok tt
    → (admit w id request s).0.written ≡ (cafile, cert_pem) ∷ s.written
unfolding admit
admit_overwrites_ca w id request s cafile dir cert_pem host broker dir_of default signs writes =
    let named : join dir (utf8 "ca" ++ utf8 ".crt") ≡ cafile =
      ap (join dir) ca_file ∙ sym default in
    let signs' : (w.sign_csr request.device.mdns.hostname request.device.csr_pem s.ca).1
        ≡ ok cert_pem =
      ap (λ h. (w.sign_csr h request.device.csr_pem s.ca).1) host ∙ signs in
    let files : register_identity w s.brokerage request.device.mdns.hostname cert_pem s.written
        ≡ ok ((cafile, cert_pem) ∷ s.written) =
      ap (λ h. register_identity w s.brokerage h cert_pem s.written) host
      ∙ ap (λ b. register_identity w b (utf8 "ca") cert_pem s.written) broker
      ∙ identity_written w cafile dir (utf8 "ca") cert_pem s.written dir_of (rw named writes)
      ∙ ap (λ path. ok ((path, cert_pem) ∷ s.written)) named in
    rw (signs', admit) (rw (files, admit))
