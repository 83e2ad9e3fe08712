-- ===== src/Registry/Interrupted.antt =====
-- src/services/beacon_management/registry.rs: a sweep that is dropped.
use place_net_hamlet.Common.{
  ℕ, zero, suc, List, [], ◌∷◌, Option, none, some, Bool, false, not, Text, text_eq, if◌then◌else◌,
  is_empty,
}
use place_net_hamlet.Common.Map.{get, remove}
use place_net_hamlet.Registry.{
  BeaconRecord, BeaconRegistry, unsubscribe, drop_record, stale, deregister, sweep,
}

-- `check_timeouts` runs in an arm of `tokio::select!`: it is dropped where it waits if another arm is
-- ready first. It waits for the reply to an unsubscribe request and for the lock of the shared list.
pub data Wait : Type 0 where
  in_unsubscribe in_write : Wait

-- Whether the clean-up of a record waits there.
abbrev pub waits : Wait → Option BeaconRecord → Bool
waits wait none = false
waits in_unsubscribe (some b) = not (is_empty b.listen_topic)
waits in_write (some b) = not (is_empty b.broadcast_topic)

-- What is done for a record by a sweep that is dropped at one of the two: the request to unsubscribe
-- was made, and the record goes out of scope.
unfoldable pub abandon : BeaconRecord → BeaconRegistry → BeaconRegistry
unfolding unsubscribe drop_record
abandon b r = drop_record b (unsubscribe b r)

unfoldable pub deregister_cut : Text → BeaconRegistry → BeaconRegistry
unfolding abandon
deregister_cut id r = elim (get id r.records) [
  | none ↦ r
  | some b ↦ abandon b (record r { records = remove id r.records })
]

-- A sweep that is dropped at `wait`, with `done` beacons behind it; where the next one does not wait
-- there, the sweep goes on to its end.
unfoldable pub sweep_cut : Wait → ℕ → List Text → BeaconRegistry → BeaconRegistry
unfolding sweep deregister deregister_cut
sweep_cut wait done [] r = r
sweep_cut wait zero (id ∷ ids) r =
    if waits wait (get id r.records) then deregister_cut id r else sweep ids (deregister id r)
sweep_cut wait (suc done) (id ∷ ids) r = sweep_cut wait done ids (deregister id r)

unfoldable pub check_timeouts_cut : ℕ → Wait → ℕ → BeaconRegistry → BeaconRegistry
unfolding sweep_cut stale
check_timeouts_cut now wait done r = sweep_cut wait done (stale now r) r
