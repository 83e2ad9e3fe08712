-- ===== src/Registry/Orphan.antt =====
-- src/services/beacon_management/registry.rs: a gateway that is known and that no record holds, and
-- the operations that register beacons.
use place_net_hamlet.Common.{
  ℕ, ◌≡◌, refl, sym, ap, ◌∙◌, List, Option, none, some, Bool, true, false, Text, text_eq, text_same,
  arith, is_some, contains, Bool-cases, Option-cases, inl, inr, is_ok,
}
use place_net_hamlet.Common.Map.{get, modify, get-insert, get-modify}
use place_net_hamlet.MqttClient.{MqttCommand, Broker}
use place_net_hamlet.Registry.{
  BeaconRecord, BeaconRegistry, TopicType, listen, broadcast, hybrid, TopicChannel, qos_from_u8,
  ensure, register_listen, register_broadcast, register_hybrid, register_by, register_channel,
}

-- Whether a record, if there is one, holds the gateway.
abbrev pub holds : Text → Option Text → Bool
holds url none = false
holds url (some u) = text_same u url

abbrev pub owns : Text → Option BeaconRecord → Bool
owns url none = false
owns url (some b) = holds url b.gateway_url

pub record IsOrphan (url : Text) (r : BeaconRegistry) : Type 0 where
  pub known : contains url r.known_gateways ≡ true
  pub unowned : (id : Text) → owns url (get id r.records) ≡ false

module _ (url : Text) where
  -- A change of a record that leaves its gateway alone.
  pub owns-modify :
      (id j : Text) (f : BeaconRecord → BeaconRecord) (m : List (Text × BeaconRecord))
      → ((b : BeaconRecord) → (f b).gateway_url ≡ b.gateway_url)
      → ((k : Text) → owns url (get k m) ≡ false)
      → owns url (get j (modify id f m)) ≡ false
  owns-modify id j f m keeps un = elim (Bool-cases (text_same id j)) [
    | inr miss ↦ rw (get-modify id j f m) (rw miss (un j))
    | inl hit ↦ rw (get-modify id j f m) (
        rw hit (elim (Option-cases (get id m)) [
          | inl gone ↦ rw gone
          | inr (b, found) ↦ rw found (ap (holds url) (keeps b) ∙ sym (ap (owns url) found) ∙ un id)
        ]))
  ]

  owns-ensure :
      (now : ℕ) (id j : Text) (r : BeaconRegistry)
      → ((k : Text) → owns url (get k r.records) ≡ false)
      → owns url (get j (ensure now id r).records) ≡ false
  unfolding ensure
  owns-ensure now id j r un = elim (Bool-cases (is_some (get id r.records))) [
    | inl there ↦ rw there (un j)
    | inr new ↦ rw new (
        rw (get-insert id j _ r.records)
          (elim (Bool-cases (text_same id j)) [ inl hit ↦ rw hit | inr miss ↦ rw miss (un j) ]))
  ]

  ensure-IsOrphan :
      (now : ℕ) (id : Text) (r : BeaconRegistry) → IsOrphan url r → IsOrphan url (ensure now id r)
  ensure-IsOrphan now id r o = record {
    known = rw (ensure_known now id r) o.known;
    unowned = λ j. owns-ensure now id j r o.unowned;
  }
    where
      ensure_known :
          (n : ℕ) (i : Text) (q : BeaconRegistry) → (ensure n i q).known_gateways ≡ q.known_gateways
      ensure_known n i q = unfold ensure in ground arith

  listen-IsOrphan :
      (broker : Broker) (c : TopicChannel) (r : BeaconRegistry)
      → IsOrphan url r
      → IsOrphan url (register_listen broker c r)
  unfolding register_listen
  listen-IsOrphan broker c r o =
      elim (Bool-cases
        (is_ok (broker (MqttCommand.subscribe c.topic.topic (qos_from_u8 c.topic.qos))))) [
          | inl good ↦ rw good (record {
            known = o.known;
            unowned = λ j. owns-modify c.beacon_id j _ r.records (λ b. refl) o.unowned;
          })
          | inr bad ↦ rw bad (record { known = o.known; unowned = o.unowned })
        ]

  hybrid-IsOrphan :
      (broker : Broker) (c : TopicChannel) (r : BeaconRegistry)
      → IsOrphan url r
      → IsOrphan url (register_hybrid broker c r)
  unfolding register_hybrid
  hybrid-IsOrphan broker c r o =
      elim (Bool-cases
        (is_ok (broker (MqttCommand.subscribe c.topic.topic (qos_from_u8 c.topic.qos))))) [
          | inl good ↦ rw good (record {
            known = o.known;
            unowned = λ j. owns-modify c.beacon_id j _ r.records (λ b. refl) o.unowned;
          })
          | inr bad ↦ rw bad (record { known = o.known; unowned = o.unowned })
        ]

  register_by-IsOrphan :
      (k : TopicType) (broker : Broker) (c : TopicChannel) (r : BeaconRegistry)
      → IsOrphan url r
      → IsOrphan url (register_by k broker c r)
  unfolding register_by
  register_by-IsOrphan listen broker c r o = listen-IsOrphan broker c r o
  register_by-IsOrphan hybrid broker c r o = hybrid-IsOrphan broker c r o
  register_by-IsOrphan broadcast broker c r o =
      unfold register_broadcast in
      record {
        known = o.known;
        unowned = λ j. owns-modify c.beacon_id j _ r.records (λ b. refl) o.unowned;
      }

  pub register_channel-IsOrphan :
      (now : ℕ) (broker : Broker) (c : TopicChannel) (r : BeaconRegistry)
      → IsOrphan url r
      → IsOrphan url (register_channel now broker c r)
  unfolding register_channel
  register_channel-IsOrphan now broker c r o =
      register_by-IsOrphan c.topic_type broker c (ensure now c.beacon_id r)
        (ensure-IsOrphan now c.beacon_id r o)
