-- ===== src/Registry.antt =====
-- src/services/beacon_management/registry.rs: the beacons that have registered, their MQTT topics and
-- the gateways that they advertise.
-- An `Instant` is its number of nanoseconds, and a oneshot sender is the number of its channel. Two
-- fields stand for what the outside sees: `sent` holds the commands that were handed to the handle of
-- the MQTT client, the last first, whether or not its channel took them, and `closed` the channels whose
-- sender was dropped. `broadcast_topics` is the list that the broadcast loop shares. Log lines are left
-- out.
pub mod Interrupted
pub mod Sweep
pub mod Orphan
pub mod OrphanSweep
pub mod Records
use place_net_hamlet.Common.{
  ℕ, zero, suc, ◌-◌, ◌*◌, ◌^◌, List, [], ◌∷◌, ◌++◌, Option, none, some, Bool, true, false, not,
  ◌&&◌, Text, utf8, text_eq, text_same, ltb, ◌==◌, if◌then◌else◌, is_empty, is_ok, is_some,
  contains, retain,
}
use place_net_hamlet.Common.Map.{get, insert, remove, modify, keys_where}
use place_net_hamlet.MqttClient.{
  QoS, at_most_once, at_least_once, exactly_once, MqttCommand, Broker,
}

-- src/services/beacon_management/manager.rs and internals/types.rs.
pub data TopicType : Type 0 where
  listen broadcast hybrid : TopicType

pub record MqttTopicConfig : Type 0 where
  pub topic : Text
  pub qos : ℕ

pub record TopicChannel : Type 0 where
  pub beacon_id : Text
  pub topic : MqttTopicConfig
  pub topic_type : TopicType

abbrev pub beacon_timeout : ℕ
beacon_timeout = 120 * 10 ^ 9

pub record BeaconRecord : Type 0 where
  pub listen_topic : Text
  pub broadcast_topic : Text
  pub last_seen : ℕ
  pub gateway_url : Option Text
  pub gateway_shutdown_tx : Option ℕ

pub record BeaconRegistry : Type 0 where
  pub records : List (Text × BeaconRecord)
  pub known_gateways : List Text
  pub broadcast_topics : List Text
  pub sent : List MqttCommand
  pub closed : List ℕ

-- `HashSet::insert` and `HashSet::remove`.
unfoldable pub set_insert : Text → List Text → List Text
set_insert url urls = if contains url urls then urls else url ∷ urls

unfoldable pub set_remove : Text → List Text → List Text
unfolding retain
set_remove url urls = retain (λ u. not (text_same u url)) urls

-- The registry of a process that has registered no beacon.
unfoldable pub new : Option Text → BeaconRegistry
unfolding set_insert
new own_gateway_url = record {
  records = [];
  known_gateways = elim own_gateway_url [ none ↦ [] | some url ↦ set_insert url [] ];
  broadcast_topics = [];
  sent = [];
  closed = [];
}

unfoldable pub qos_from_u8 : ℕ → QoS
qos_from_u8 qos =
    if qos == 0 then at_most_once else if qos == 2 then exactly_once else at_least_once

abbrev fresh_record : ℕ → BeaconRecord
fresh_record now = record {
  listen_topic = [];
  broadcast_topic = [];
  last_seen = now;
  gateway_url = none;
  gateway_shutdown_tx = none;
}

-- `entry(id).or_insert_with(..)`.
unfoldable pub ensure : ℕ → Text → BeaconRegistry → BeaconRegistry
ensure now id r =
    if is_some (get id r.records)
    then r
    else record r { records = insert id (fresh_record now) r.records }

abbrev change : Text → (BeaconRecord → BeaconRecord) → BeaconRegistry → BeaconRegistry
change id f r = record r { records = modify id f r.records }

abbrev send : MqttCommand → BeaconRegistry → BeaconRegistry
send command r = record r { sent = command ∷ r.sent }

-- The three arms of `register_channel`.
unfoldable pub register_listen : Broker → TopicChannel → BeaconRegistry → BeaconRegistry
unfolding qos_from_u8
register_listen broker channel r =
    let topic = channel.topic.topic in
    let command = MqttCommand.subscribe topic (qos_from_u8 channel.topic.qos) in
    let r' = send command r in
    if is_ok (broker command)
    then change channel.beacon_id (λ b. record b { listen_topic = topic }) r'
    else r'

unfoldable pub register_broadcast : TopicChannel → BeaconRegistry → BeaconRegistry
register_broadcast channel r =
    let topic = channel.topic.topic in
    change channel.beacon_id (λ b. record b { broadcast_topic = topic })
      (record r { broadcast_topics = r.broadcast_topics ++ topic ∷ [] })

unfoldable pub register_hybrid : Broker → TopicChannel → BeaconRegistry → BeaconRegistry
unfolding qos_from_u8
register_hybrid broker channel r =
    let topic = channel.topic.topic in
    let command = MqttCommand.subscribe topic (qos_from_u8 channel.topic.qos) in
    let r' = send command r in
    if is_ok (broker command)
    then change channel.beacon_id (λ b. record b { listen_topic = topic; broadcast_topic = topic })
        (record r' { broadcast_topics = r'.broadcast_topics ++ topic ∷ [] })
    else r'

unfoldable pub register_by : TopicType → Broker → TopicChannel → BeaconRegistry → BeaconRegistry
unfolding register_listen register_broadcast register_hybrid
register_by listen broker channel r = register_listen broker channel r
register_by broadcast broker channel r = register_broadcast channel r
register_by hybrid broker channel r = register_hybrid broker channel r

unfoldable pub register_channel : ℕ → Broker → TopicChannel → BeaconRegistry → BeaconRegistry
unfolding ensure register_by
register_channel now broker channel r =
    register_by channel.topic_type broker channel (ensure now channel.beacon_id r)

-- `duration_since` is zero where the record was seen after `now`.
unfoldable pub is_stale : ℕ → BeaconRecord → Bool
is_stale now b = ltb beacon_timeout (now - b.last_seen)

unfoldable pub stale : ℕ → BeaconRegistry → List Text
unfolding is_stale keys_where
stale now r = keys_where (is_stale now) r.records

-- The body of the sweep for a record that was taken out of `records`, a function for each step.
unfoldable pub unsubscribe : BeaconRecord → BeaconRegistry → BeaconRegistry
unsubscribe b r =
    if is_empty b.listen_topic then r else send (MqttCommand.unsubscribe b.listen_topic) r

unfoldable pub forget_topic : BeaconRecord → BeaconRegistry → BeaconRegistry
unfolding set_remove
forget_topic b r =
    if is_empty b.broadcast_topic
    then r
    else record r { broadcast_topics = set_remove b.broadcast_topic r.broadcast_topics }

unfoldable pub evict_gateway : BeaconRecord → BeaconRegistry → BeaconRegistry
unfolding set_remove
evict_gateway b r = elim b.gateway_url [
  | none ↦ r
  | some url ↦ record r { known_gateways = set_remove url r.known_gateways }
]

-- The record goes out of scope.
unfoldable pub drop_record : BeaconRecord → BeaconRegistry → BeaconRegistry
drop_record b r = elim b.gateway_shutdown_tx [
  | none ↦ r
  | some tx ↦ record r { closed = tx ∷ r.closed }
]

unfoldable pub clean_up : BeaconRecord → BeaconRegistry → BeaconRegistry
unfolding unsubscribe forget_topic evict_gateway drop_record
clean_up b r = drop_record b (evict_gateway b (forget_topic b (unsubscribe b r)))

unfoldable pub deregister : Text → BeaconRegistry → BeaconRegistry
unfolding clean_up
deregister id r = elim (get id r.records) [
  | none ↦ r
  | some b ↦ clean_up b (record r { records = remove id r.records })
]

unfoldable pub sweep : List Text → BeaconRegistry → BeaconRegistry
unfolding deregister
sweep [] r = r
sweep (id ∷ ids) r = sweep ids (deregister id r)

-- `check_timeouts`, from the tick at `now` to its end.
unfoldable pub check_timeouts : ℕ → BeaconRegistry → BeaconRegistry
unfolding sweep stale
check_timeouts now r = sweep (stale now r) r

unfoldable pub update_last_seen : ℕ → Text → BeaconRegistry → BeaconRegistry
update_last_seen now id r = change id (λ b. record b { last_seen = now }) r

unfoldable pub is_gateway_known : Text → BeaconRegistry → Bool
is_gateway_known url r = contains url r.known_gateways

unfoldable pub insert_gateway : Text → BeaconRegistry → BeaconRegistry
unfolding set_insert
insert_gateway url r = record r { known_gateways = set_insert url r.known_gateways }

-- The sender that the record held goes out of scope, or the new one where there is no record.
abbrev displaced : ℕ → Option BeaconRecord → List ℕ
displaced tx none = tx ∷ []
displaced tx (some b) = elim b.gateway_shutdown_tx [ none ↦ [] | some old ↦ old ∷ [] ]

unfoldable pub associate_gateway : Text → Text → ℕ → BeaconRegistry → BeaconRegistry
associate_gateway id url tx r = record r {
  records =
      modify id (λ b. record b { gateway_url = some url; gateway_shutdown_tx = some tx }) r.records;
  closed = displaced tx (get id r.records) ++ r.closed;
}
