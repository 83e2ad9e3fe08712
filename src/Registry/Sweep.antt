-- ===== src/Registry/Sweep.antt =====
-- src/services/beacon_management/registry.rs: what a sweep that is not disturbed does.
use place_net_hamlet.Common.{
  ℕ, ◌≡◌, refl, ap, ◌∙◌, List, [], ◌∷◌, Option, none, some, Bool, true, false, not, Text, text_eq,
  text_same, text_same_iff, same_self, arith, if◌then◌else◌, is_empty, contains, contains-retain,
  Bool-cases, Option-cases, inl, inr,
}
use mathlib.Core.List.{Mem, mem-cons_self, mem-cons_of_mem}
use place_net_hamlet.MqttClient.{MqttCommand}
use place_net_hamlet.Common.Map.{get, remove, get-remove, UniqueKeys, contains-keys_where, passes}
use place_net_hamlet.Registry.{
  BeaconRecord, BeaconRegistry, is_stale, stale, set_remove, clean_up, deregister, sweep,
  check_timeouts,
}

-- The fields of the registry that a clean-up leaves alone or changes, whatever the record holds.
pub clean_up_records : (b : BeaconRecord) (r : BeaconRegistry) → (clean_up b r).records ≡ r.records
unfolding clean_up
clean_up_records b r = ground arith

get-deregister :
    (id j : Text) (r : BeaconRegistry)
    → get j (deregister id r).records ≡ (if text_same id j then none else get j r.records)
unfolding deregister
get-deregister id j r = elim (Option-cases (get id r.records)) [
  | inl gone ↦
      rw (gone, deregister)
        (elim (Bool-cases (text_same id j)) [
          | inl e ↦ rw e (rw (← (text_same_iff id j).0 e) gone)
          | inr e ↦ rw e
        ])
  | inr (b, found) ↦ rw (found, deregister) (rw (clean_up_records b _) (get-remove id j r.records))
]

get-sweep :
    (ids : List Text) (j : Text) (r : BeaconRegistry)
    → get j (sweep ids r).records ≡ (if contains j ids then none else get j r.records)
unfolding sweep contains
get-sweep [] j r = refl
get-sweep (id ∷ ids) j r = get-sweep ids j (deregister id r) ∙ ground (arith, get-deregister id j r)

-- Where no beacon has two records, a sweep removes the record of each beacon that was silent for
-- longer than the timeout, and every other record is as it was.
pub check_timeouts_records :
    (now : ℕ) (r : BeaconRegistry) (id : Text)
    → UniqueKeys r.records
    → get id (check_timeouts now r).records
      ≡ (if passes (is_stale now) (get id r.records) then none else get id r.records)
unfolding check_timeouts stale
check_timeouts_records now r id u =
    get-sweep (stale now r) id r
    ∙ ap (λ b. if b then none else get id r.records)
        (contains-keys_where (is_stale now) id r.records u)

-- The lists that a clean-up leaves.
abbrev pub topics_after : BeaconRecord → List Text → List Text
topics_after b ts = if is_empty b.broadcast_topic then ts else set_remove b.broadcast_topic ts

abbrev pub gateways_after : Option Text → List Text → List Text
gateways_after none us = us
gateways_after (some url) us = set_remove url us

abbrev pub closed_after : Option ℕ → List ℕ → List ℕ
closed_after none cs = cs
closed_after (some tx) cs = tx ∷ cs

pub clean_up_topics :
    (b : BeaconRecord) (r : BeaconRegistry)
    → (clean_up b r).broadcast_topics ≡ topics_after b r.broadcast_topics
unfolding clean_up
clean_up_topics b r = ground arith

pub clean_up_gateways :
    (b : BeaconRecord) (r : BeaconRegistry)
    → (clean_up b r).known_gateways ≡ gateways_after b.gateway_url r.known_gateways
unfolding clean_up
clean_up_gateways b r = ground arith

pub clean_up_closed :
    (b : BeaconRecord) (r : BeaconRegistry)
    → (clean_up b r).closed ≡ closed_after b.gateway_shutdown_tx r.closed
unfolding clean_up
clean_up_closed b r = ground arith

pub contains-set_remove :
    (url u : Text) (us : List Text)
    → contains u (set_remove url us) ≡ (if text_same u url then false else contains u us)
unfolding set_remove
contains-set_remove url u us = contains-retain (λ v. not (text_same v url)) u us ∙ ground arith

clean_up_sent :
    (b : BeaconRecord) (r : BeaconRegistry)
    → (clean_up b r).sent ≡ (
        if is_empty b.listen_topic then r.sent else MqttCommand.unsubscribe b.listen_topic ∷ r.sent)
unfolding clean_up
clean_up_sent b r = ground arith

-- All that a deregistered beacon held is given back.
pub record IsReleased (b : BeaconRecord) (r : BeaconRegistry) : Type 0 where
  pub unsubscribed :
      is_empty b.listen_topic ≡ false → Mem (MqttCommand.unsubscribe b.listen_topic) r.sent
  pub topic_gone :
      is_empty b.broadcast_topic ≡ false → contains b.broadcast_topic r.broadcast_topics ≡ false
  pub gateway_gone : (url : Text) → b.gateway_url ≡ some url → contains url r.known_gateways ≡ false
  pub connection_closed : (tx : ℕ) → b.gateway_shutdown_tx ≡ some tx → Mem tx r.closed

clean_up-IsReleased : (b : BeaconRecord) (r : BeaconRegistry) → IsReleased b (clean_up b r)
clean_up-IsReleased b r = record {
  unsubscribed = λ h. rw (clean_up_sent b r, h) mem-cons_self;
  topic_gone = λ h.
      rw (clean_up_topics b r, h)
        (contains-set_remove b.broadcast_topic b.broadcast_topic r.broadcast_topics
          ∙ rw (same_self b.broadcast_topic));
  gateway_gone = λ url h.
      rw (clean_up_gateways b r, h)
        (contains-set_remove url url r.known_gateways ∙ rw (same_self url));
  connection_closed = λ tx h. rw (clean_up_closed b r, h) mem-cons_self;
}

still_gone :
    (b : BeaconRecord) (t : Text) (ts : List Text)
    → contains t ts ≡ false
    → contains t (topics_after b ts) ≡ false
still_gone b t ts h = ground (arith, contains-set_remove b.broadcast_topic t ts)

still_unknown :
    (o : Option Text) (u : Text) (us : List Text)
    → contains u us ≡ false
    → contains u (gateways_after o us) ≡ false
still_unknown none u us h = h
still_unknown (some url) u us h = ground (arith, contains-set_remove url u us)

still_closed : (o : Option ℕ) (tx : ℕ) (cs : List ℕ) → Mem tx cs → Mem tx (closed_after o cs)
still_closed none tx cs m = m
still_closed (some t) tx cs m = mem-cons_of_mem t m

still_sent :
    (e : Bool) (c d : MqttCommand) (cs : List MqttCommand)
    → Mem c cs
    → Mem c (if e then cs else d ∷ cs)
still_sent true c d cs m = m
still_sent false c d cs m = mem-cons_of_mem d m

module _ (b : BeaconRecord) where
  clean_up_keeps :
      (a : BeaconRecord) (r : BeaconRegistry) → IsReleased b r → IsReleased b (clean_up a r)
  clean_up_keeps a r i = record {
    unsubscribed = λ h.
        rw (clean_up_sent a r) (still_sent (is_empty a.listen_topic) _ _ r.sent (i.unsubscribed h));
    topic_gone = λ h.
        rw (clean_up_topics a r)
          (still_gone a b.broadcast_topic r.broadcast_topics (i.topic_gone h));
    gateway_gone = λ url h.
        rw (clean_up_gateways a r)
          (still_unknown a.gateway_url url r.known_gateways (i.gateway_gone url h));
    connection_closed = λ tx h.
        rw (clean_up_closed a r)
          (still_closed a.gateway_shutdown_tx tx r.closed (i.connection_closed tx h));
  }

  deregister_keeps :
      (id : Text) (r : BeaconRegistry) → IsReleased b r → IsReleased b (deregister id r)
  unfolding deregister
  deregister_keeps id r i = elim (Option-cases (get id r.records)) [
    | inl gone ↦ rw (gone, deregister) i
    | inr (a, found) ↦
        rw (found, deregister)
          (clean_up_keeps a (record r { records = remove id r.records })
            (record {
              unsubscribed = i.unsubscribed;
              topic_gone = i.topic_gone;
              gateway_gone = i.gateway_gone;
              connection_closed = i.connection_closed;
            }))
  ]

  sweep_keeps : (ids : List Text) (r : BeaconRegistry) → IsReleased b r → IsReleased b (sweep ids r)
  unfolding sweep
  sweep_keeps [] r i = i
  sweep_keeps (id ∷ ids) r i = sweep_keeps ids (deregister id r) (deregister_keeps id r i)

  deregister-IsReleased :
      (id : Text) (r : BeaconRegistry) → get id r.records ≡ some b → IsReleased b (deregister id r)
  unfolding deregister
  deregister-IsReleased id r found = rw (found, deregister) (clean_up-IsReleased b _)

  sweep-IsReleased :
      (ids : List Text) (id : Text) (r : BeaconRegistry)
      → contains id ids ≡ true
      → get id r.records ≡ some b
      → IsReleased b (sweep ids r)
  unfolding sweep contains
  sweep-IsReleased [] id r h found = cc
  sweep-IsReleased (j ∷ ids) id r h found = elim (Bool-cases (text_same j id)) [
    | inl e ↦
        sweep_keeps ids (deregister j r)
          (deregister-IsReleased j r (rw ((text_same_iff j id).0 e) found))
    | inr e ↦
        sweep-IsReleased ids id (deregister j r) (ground arith)
          (get-deregister j id r ∙ ground arith)
  ]

-- Where no beacon has two records, the sweep gives back what a beacon's record holds that was
-- silent for longer than the timeout: the topic that it listens on is unsubscribed, its broadcast
-- topic leaves the shared list, its gateway is no longer known, and the connection to that
-- gateway is told to close.
pub check_timeouts-IsReleased :
    (now : ℕ) (r : BeaconRegistry) (id : Text) (b : BeaconRecord)
    → UniqueKeys r.records
    → get id r.records ≡ some b
    → is_stale now b ≡ true
    → IsReleased b (check_timeouts now r)
unfolding check_timeouts stale
check_timeouts-IsReleased now r id b u found old =
    sweep-IsReleased b (stale now r) id r
      (contains-keys_where (is_stale now) id r.records u ∙ ap (passes (is_stale now)) found ∙ old)
      found
