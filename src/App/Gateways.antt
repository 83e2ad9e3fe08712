-- ===== src/App/Gateways.antt =====
-- src/app.rs: gateways that can never be connected to again.
use place_net_hamlet.Common.{
  ℕ, ◌≡◌, List, [], ◌∷◌, Option, none, some, true, false, Result, Text, text_eq, text_same,
  text_same_iff, arith, contains, Bool-cases, Option-cases, inl, inr, ◌≢◌,
}
use place_net_hamlet.Common.Json.{Json}
use place_net_hamlet.Common.Map.{get, get-modify}
use mathlib.Core.List.{Mem, mem-cons_self}
use place_net_hamlet.MqttClient.{MqttMessage}
use place_net_hamlet.Registry.{BeaconRegistry, is_gateway_known, insert_gateway, associate_gateway}
use place_net_hamlet.Registry.Orphan.{owns, IsOrphan, register_channel-IsOrphan}
use place_net_hamlet.Registry.OrphanSweep.{
  check_timeouts-IsOrphan, check_timeouts_cut-IsOrphan, update_last_seen-IsOrphan,
}
use place_net_hamlet.App.MessageLoop.{
  Node, Event, channel, swept, sweep_dropped, message, beacon_of, refresh, payload_of, advertised,
  connect, keep_sender, handle_gateway, handle_message, round, rounds,
}

contains-head : (url : Text) (us : List Text) → contains url (url ∷ us) ≡ true
unfolding contains
contains-head url us = ground (arith, text_same_iff url url)

module _ (url : Text) where
  -- Another gateway that is associated leaves this one as it is.
  keep_sender-IsOrphan :
      (o : Option Text) (u : Text) (tx : ℕ) (r : BeaconRegistry)
      → u ≢ url
      → IsOrphan url r
      → IsOrphan url (keep_sender o u tx r)
  unfolding keep_sender
  keep_sender-IsOrphan none u tx r ne i = record { known = i.known; unowned = i.unowned }
  keep_sender-IsOrphan (some id) u tx r ne i =
      unfold associate_gateway in
      record {
        known = i.known;
        unowned = λ j. rw (get-modify id j _ r.records) (elim (Bool-cases (text_same id j)) [
          | inr miss ↦ rw miss (i.unowned j)
          | inl hit ↦ rw hit (elim (Option-cases (get id r.records)) [
            | inl gone ↦ rw gone
            | inr (b, found) ↦ rw found (ground (arith, text_same_iff u url))
          ])
        ]);
      }

  insert-IsOrphan :
      (u : Text) (r : BeaconRegistry)
      → IsOrphan url r
      → IsOrphan url (record r { known_gateways = u ∷ r.known_gateways })
  unfolding contains
  insert-IsOrphan u r i = record { known = ground (arith, i.known); unowned = i.unowned }

  handle_gateway-IsOrphan :
      (topic u : Text) (payload : Json) (n : Node)
      → IsOrphan url n.registry
      → IsOrphan url (handle_gateway topic u payload n).registry
  unfolding handle_gateway is_gateway_known connect
  handle_gateway-IsOrphan topic u payload n i =
      elim (Bool-cases (contains u n.registry.known_gateways)) [
        | inl there ↦ rw there i
        | inr new ↦ rw new (
            keep_sender-IsOrphan (beacon_of topic) u n.next_channel
              (record n.registry { known_gateways = u ∷ n.registry.known_gateways })
              (λ e. other _ e new i.known) (insert-IsOrphan u n.registry i))
      ]
    where
      other :
          {v w : Text} (us : List Text) → v ≡ w → contains v us ≡ false → contains w us ≡ true → ⊥
      other us e a b = cc

  refresh-IsOrphan :
      (now : ℕ) (topic : Text) (r : BeaconRegistry)
      → IsOrphan url r
      → IsOrphan url (refresh now topic r)
  unfolding refresh
  refresh-IsOrphan now topic r i = elim (Option-cases (beacon_of topic)) [
    | inl gone ↦ rw (gone, refresh) i
    | inr (id, found) ↦ rw (found, refresh) (update_last_seen-IsOrphan url now id r i)
  ]

  module _ (parse : List ℕ → Result Text Json) (lossy : List ℕ → Text) where
    handle_message-IsOrphan :
        (now : ℕ) (msg : MqttMessage) (n : Node)
        → IsOrphan url n.registry
        → IsOrphan url (handle_message parse lossy now msg n).registry
    unfolding handle_message
    handle_message-IsOrphan now msg n i =
        elim (Option-cases (advertised (payload_of parse lossy msg.payload))) [
          | inl nothing ↦ rw (nothing, handle_message) (refresh-IsOrphan now msg.topic n.registry i)
          | inr (u, found) ↦
              rw (found, handle_message)
                (handle_gateway-IsOrphan msg.topic u (payload_of parse lossy msg.payload)
                  (record n { registry = refresh now msg.topic n.registry })
                  (refresh-IsOrphan now msg.topic n.registry i))
        ]

    round-IsOrphan :
        (e : Event) (n : Node)
        → IsOrphan url n.registry
        → IsOrphan url (round parse lossy e n).registry
    unfolding round
    round-IsOrphan (channel now broker c) n i =
        register_channel-IsOrphan url now broker c n.registry i
    round-IsOrphan (swept now) n i = check_timeouts-IsOrphan url now n.registry i
    round-IsOrphan (sweep_dropped now wait done) n i =
        check_timeouts_cut-IsOrphan url now wait done n.registry i
    round-IsOrphan (message now msg) n i = handle_message-IsOrphan now msg n i

    -- A gateway that is known while no record holds it is known and held by no record after every
    -- sequence of rounds of the message loop.
    pub rounds-IsOrphan :
        (es : List Event) (n : Node)
        → IsOrphan url n.registry
        → IsOrphan url (rounds parse lossy es n).registry
    unfolding rounds
    rounds-IsOrphan [] n i = i
    rounds-IsOrphan (e ∷ es) n i = rounds-IsOrphan es (round parse lossy e n) (round-IsOrphan e n i)

known_is_ignored :
    (t u : Text) (p : Json) (m : Node)
    → contains u m.registry.known_gateways ≡ true
    → handle_gateway t u p m ≡ m
unfolding handle_gateway is_gateway_known
known_is_ignored t u p m h = rw (h, handle_gateway)

lost :
    (t u : Text) (p : Json) (m : Node)
    → beacon_of t ≡ none
    → is_gateway_known u m.registry ≡ false
    → ((id : Text) → owns u (get id m.registry.records) ≡ false)
    → Mem m.next_channel (handle_gateway t u p m).registry.closed
      × IsOrphan u (handle_gateway t u p m).registry
unfolding handle_gateway insert_gateway keep_sender connect
lost t u p m e h f =
    rw (h, handle_gateway)
      (rw e
        (mem-cons_self, record { known = contains-head u m.registry.known_gateways; unowned = f }))

-- Where a gateway is neither known nor held by a record, advertising it on a topic that names no
-- beacon closes the channel of its connection at once; and after whatever rounds follow, an
-- advertisement of it changes nothing.
pub unnamed_gateway_lost :
    (parse : List ℕ → Result Text Json) (lossy : List ℕ → Text)
    → (topic url : Text) (payload : Json) (n : Node) → beacon_of topic ≡ none
    → is_gateway_known url n.registry ≡ false
    → ((id : Text) → owns url (get id n.registry.records) ≡ false)
    → (es : List Event) (topic' : Text) (payload' : Json)
    → let n' = handle_gateway topic url payload n in
      let later = rounds parse lossy es n' in
      Mem n.next_channel n'.registry.closed × (handle_gateway topic' url payload' later ≡ later)
unnamed_gateway_lost parse lossy topic url payload n unnamed new un es topic' payload' =
    let (closed, orphan) = lost topic url payload n unnamed new un in
    (
      closed,
      known_is_ignored topic' url payload' _ (rounds-IsOrphan url parse lossy es _ orphan).known,
    )
