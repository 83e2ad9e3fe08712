-- ===== src/Registry/Records.antt =====
-- src/services/beacon_management/registry.rs: the map of records, over each operation.
use place_net_hamlet.Common.{
  ℕ, zero, suc, List, [], ◌∷◌, Text, text_eq, is_some, is_ok, Bool-cases, Option-cases, inl, inr,
}
use place_net_hamlet.Common.Map.{
  get, UniqueKeys, insert-UniqueKeys, remove-UniqueKeys, modify-UniqueKeys,
}
use place_net_hamlet.MqttClient.{MqttCommand, Broker}
use place_net_hamlet.Registry.Interrupted.{
  Wait, waits, deregister_cut, sweep_cut, check_timeouts_cut,
}
use place_net_hamlet.Registry.{
  BeaconRegistry, TopicType, listen, broadcast, hybrid, TopicChannel, qos_from_u8, stale, ensure,
  register_listen, register_broadcast, register_hybrid, register_by, register_channel, deregister,
  sweep, check_timeouts, update_last_seen, associate_gateway,
}
use place_net_hamlet.Registry.Sweep.{clean_up_records}
use place_net_hamlet.Registry.OrphanSweep.{abandon-eq}

abbrev Unique : BeaconRegistry → Type 0
Unique r = UniqueKeys r.records

ensure-Unique : (now : ℕ) (id : Text) (r : BeaconRegistry) → Unique r → Unique (ensure now id r)
unfolding ensure
ensure-Unique now id r u = elim (Bool-cases (is_some (get id r.records))) [
  | inl there ↦ rw there u
  | inr new ↦ rw new (insert-UniqueKeys id _ r.records u)
]

register_by-Unique :
    (k : TopicType) (broker : Broker) (c : TopicChannel) (r : BeaconRegistry)
    → Unique r
    → Unique (register_by k broker c r)
unfolding register_by register_listen register_broadcast register_hybrid
register_by-Unique broadcast broker c r u = modify-UniqueKeys c.beacon_id _ r.records u
register_by-Unique listen broker c r u =
    elim (Bool-cases
      (is_ok (broker (MqttCommand.subscribe c.topic.topic (qos_from_u8 c.topic.qos))))) [
        | inl good ↦ rw good (modify-UniqueKeys c.beacon_id _ r.records u)
        | inr bad ↦ rw bad u
      ]
register_by-Unique hybrid broker c r u =
    elim (Bool-cases
      (is_ok (broker (MqttCommand.subscribe c.topic.topic (qos_from_u8 c.topic.qos))))) [
        | inl good ↦ rw good (modify-UniqueKeys c.beacon_id _ r.records u)
        | inr bad ↦ rw bad u
      ]

pub register_channel-UniqueKeys :
    (now : ℕ) (broker : Broker) (c : TopicChannel) (r : BeaconRegistry)
    → UniqueKeys r.records
    → UniqueKeys (register_channel now broker c r).records
unfolding register_channel
register_channel-UniqueKeys now broker c r u =
    register_by-Unique c.topic_type broker c (ensure now c.beacon_id r)
      (ensure-Unique now c.beacon_id r u)

deregister-Unique : (id : Text) (r : BeaconRegistry) → Unique r → Unique (deregister id r)
unfolding deregister
deregister-Unique id r u = elim (Option-cases (get id r.records)) [
  | inl gone ↦ rw (gone, deregister) u
  | inr (b, found) ↦
      rw (found, deregister) (rw (clean_up_records b _) (remove-UniqueKeys id r.records u))
]

sweep-Unique : (ids : List Text) (r : BeaconRegistry) → Unique r → Unique (sweep ids r)
unfolding sweep
sweep-Unique [] r u = u
sweep-Unique (id ∷ ids) r u = sweep-Unique ids (deregister id r) (deregister-Unique id r u)

pub check_timeouts-UniqueKeys :
    (now : ℕ) (r : BeaconRegistry)
    → UniqueKeys r.records
    → UniqueKeys (check_timeouts now r).records
unfolding check_timeouts
check_timeouts-UniqueKeys now r u = sweep-Unique (stale now r) r u

deregister_cut-Unique : (id : Text) (r : BeaconRegistry) → Unique r → Unique (deregister_cut id r)
unfolding deregister_cut
deregister_cut-Unique id r u = elim (Option-cases (get id r.records)) [
  | inl gone ↦ rw (gone, deregister_cut) u
  | inr (b, found) ↦
      rw (found, deregister_cut) (rw (abandon-eq b _) (remove-UniqueKeys id r.records u))
]

sweep_cut-Unique :
    (wait : Wait) (done : ℕ) (ids : List Text) (r : BeaconRegistry)
    → Unique r
    → Unique (sweep_cut wait done ids r)
unfolding sweep_cut
sweep_cut-Unique wait done [] r u = u
sweep_cut-Unique wait zero (id ∷ ids) r u = elim (Bool-cases (waits wait (get id r.records))) [
  | inl stops ↦ rw stops (deregister_cut-Unique id r u)
  | inr goes_on ↦ rw goes_on (sweep-Unique ids (deregister id r) (deregister-Unique id r u))
]
sweep_cut-Unique wait (suc done) (id ∷ ids) r u =
    sweep_cut-Unique wait done ids (deregister id r) (deregister-Unique id r u)

pub check_timeouts_cut-UniqueKeys :
    (now : ℕ) (wait : Wait) (done : ℕ) (r : BeaconRegistry)
    → UniqueKeys r.records
    → UniqueKeys (check_timeouts_cut now wait done r).records
unfolding check_timeouts_cut
check_timeouts_cut-UniqueKeys now wait done r u = sweep_cut-Unique wait done (stale now r) r u

pub update_last_seen-UniqueKeys :
    (now : ℕ) (id : Text) (r : BeaconRegistry)
    → UniqueKeys r.records
    → UniqueKeys (update_last_seen now id r).records
unfolding update_last_seen
update_last_seen-UniqueKeys now id r u = modify-UniqueKeys id _ r.records u

pub associate_gateway-UniqueKeys :
    (id url : Text) (tx : ℕ) (r : BeaconRegistry)
    → UniqueKeys r.records
    → UniqueKeys (associate_gateway id url tx r).records
unfolding associate_gateway
associate_gateway-UniqueKeys id url tx r u = modify-UniqueKeys id _ r.records u
