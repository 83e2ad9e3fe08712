-- ===== src/Registry/OrphanSweep.antt =====
-- src/services/beacon_management/registry.rs: a sweep, also one that is dropped, keeps a gateway known
-- that no record holds.
use place_net_hamlet.Common.{
  ℕ, zero, suc, ◌≡◌, refl, sym, ap, ◌∙◌, List, [], ◌∷◌, Option, none, some, true, false, Text,
  text_eq, text_same, text_same_iff, arith, if◌then◌else◌, is_empty, contains, Bool-cases,
  Option-cases, inl, inr,
}
use place_net_hamlet.Common.Map.{get, remove, get-remove}
use place_net_hamlet.MqttClient.{MqttCommand}
use place_net_hamlet.Registry.Interrupted.{
  Wait, waits, abandon, deregister_cut, sweep_cut, check_timeouts_cut,
}
use place_net_hamlet.Registry.{
  BeaconRecord, BeaconRegistry, stale, clean_up, deregister, sweep, check_timeouts,
  update_last_seen,
}
use place_net_hamlet.Registry.Sweep.{
  contains-set_remove, gateways_after, clean_up_gateways, clean_up_records, closed_after,
}
use place_net_hamlet.Registry.Orphan.{holds, owns, IsOrphan, owns-modify}

-- What a dropped clean-up leaves: the records, the topics and the gateways as they were.
pub abandon-eq :
    (b : BeaconRecord) (r : BeaconRegistry)
    → abandon b r ≡ record r {
      sent =
          if is_empty b.listen_topic
          then r.sent
          else MqttCommand.unsubscribe b.listen_topic ∷ r.sent;
      closed = closed_after b.gateway_shutdown_tx r.closed;
    }
unfolding abandon
abandon-eq b r = ground arith

module _ (url : Text) where
  owns-remove :
      (id j : Text) (m : List (Text × BeaconRecord))
      → ((k : Text) → owns url (get k m) ≡ false)
      → owns url (get j (remove id m)) ≡ false
  owns-remove id j m un =
      rw (get-remove id j m)
        (elim (Bool-cases (text_same id j)) [ inl hit ↦ rw hit | inr miss ↦ rw miss (un j) ])

  -- Evicting another gateway keeps this one.
  evict-known :
      (o : Option Text) (us : List Text)
      → contains url us ≡ true
      → holds url o ≡ false
      → contains url (gateways_after o us) ≡ true
  evict-known none us h p = h
  evict-known (some u) us h p =
      ground (arith, contains-set_remove u url us, text_same_iff url u, text_same_iff u url)

  clean_up-IsOrphan :
      (b : BeaconRecord) (r : BeaconRegistry)
      → holds url b.gateway_url ≡ false
      → IsOrphan url r
      → IsOrphan url (clean_up b r)
  clean_up-IsOrphan b r p o = record {
    known = rw (clean_up_gateways b r) (evict-known b.gateway_url r.known_gateways o.known p);
    unowned = λ j. rw (clean_up_records b r) (o.unowned j);
  }

  deregister-IsOrphan :
      (id : Text) (r : BeaconRegistry) → IsOrphan url r → IsOrphan url (deregister id r)
  unfolding deregister
  deregister-IsOrphan id r o = elim (Option-cases (get id r.records)) [
    | inl gone ↦ rw (gone, deregister) o
    | inr (b, found) ↦
        rw (found, deregister)
          (clean_up-IsOrphan b (record r { records = remove id r.records })
            (sym (ap (owns url) found) ∙ o.unowned id)
            (record { known = o.known; unowned = λ j. owns-remove id j r.records o.unowned }))
  ]

  sweep-IsOrphan :
      (ids : List Text) (r : BeaconRegistry) → IsOrphan url r → IsOrphan url (sweep ids r)
  unfolding sweep
  sweep-IsOrphan [] r o = o
  sweep-IsOrphan (id ∷ ids) r o = sweep-IsOrphan ids (deregister id r) (deregister-IsOrphan id r o)

  pub check_timeouts-IsOrphan :
      (now : ℕ) (r : BeaconRegistry) → IsOrphan url r → IsOrphan url (check_timeouts now r)
  unfolding check_timeouts
  check_timeouts-IsOrphan now r o = sweep-IsOrphan (stale now r) r o

  deregister_cut-IsOrphan :
      (id : Text) (r : BeaconRegistry) → IsOrphan url r → IsOrphan url (deregister_cut id r)
  unfolding deregister_cut
  deregister_cut-IsOrphan id r o = elim (Option-cases (get id r.records)) [
    | inl gone ↦ rw (gone, deregister_cut) o
    | inr (b, found) ↦
        rw (found, deregister_cut)
          (rw (abandon-eq b (record r { records = remove id r.records }))
            (record { known = o.known; unowned = λ j. owns-remove id j r.records o.unowned }))
  ]

  sweep_cut-IsOrphan :
      (wait : Wait) (done : ℕ) (ids : List Text) (r : BeaconRegistry)
      → IsOrphan url r
      → IsOrphan url (sweep_cut wait done ids r)
  unfolding sweep_cut
  sweep_cut-IsOrphan wait done [] r o = o
  sweep_cut-IsOrphan wait zero (id ∷ ids) r o = elim (Bool-cases (waits wait (get id r.records))) [
    | inl yes_waits ↦ rw yes_waits (deregister_cut-IsOrphan id r o)
    | inr goes_on ↦ rw goes_on (sweep-IsOrphan ids (deregister id r) (deregister-IsOrphan id r o))
  ]
  sweep_cut-IsOrphan wait (suc done) (id ∷ ids) r o =
      sweep_cut-IsOrphan wait done ids (deregister id r) (deregister-IsOrphan id r o)

  pub check_timeouts_cut-IsOrphan :
      (now : ℕ) (wait : Wait) (done : ℕ) (r : BeaconRegistry)
      → IsOrphan url r
      → IsOrphan url (check_timeouts_cut now wait done r)
  unfolding check_timeouts_cut
  check_timeouts_cut-IsOrphan now wait done r o = sweep_cut-IsOrphan wait done (stale now r) r o

  pub update_last_seen-IsOrphan :
      (now : ℕ) (id : Text) (r : BeaconRegistry)
      → IsOrphan url r
      → IsOrphan url (update_last_seen now id r)
  unfolding update_last_seen
  update_last_seen-IsOrphan now id r o = record {
    known = o.known;
    unowned = λ j. owns-modify url id j _ r.records (λ b. refl) o.unowned;
  }
