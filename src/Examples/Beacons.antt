-- ===== src/Examples/Beacons.antt =====
-- src/services/beacon_management/registry.rs and src/app.rs at concrete inputs.
use place_net_hamlet.Common.{
  ℕ, ◌*◌, ◌^◌, ◌≡◌, refl, List, [], ◌∷◌, none, some, false, Result, err, Text, utf8, text_eq,
  text_same, contains, arith,
}
use mathlib.Core.List.{Mem}
use place_net_hamlet.Common.Json.{Json, null}
use place_net_hamlet.Common.Map.{get, UniqueKeys}
use place_net_hamlet.Registry.Interrupted.{in_unsubscribe}
use place_net_hamlet.Registry.{
  BeaconRecord, BeaconRegistry, is_stale, is_gateway_known, check_timeouts,
}
use place_net_hamlet.Registry.Sweep.{IsReleased, check_timeouts-IsReleased, check_timeouts_records}
use place_net_hamlet.Registry.Orphan.{owns}
use place_net_hamlet.App.MessageLoop.{
  Node, Event, swept, sweep_dropped, message, handle_gateway, rounds, beacon_of,
}
use place_net_hamlet.App.Gateways.{unnamed_gateway_lost}

abbrev second : ℕ → ℕ
second n = n * 10 ^ 9

abbrev old : BeaconRecord
old = record {
  listen_topic = utf8 "a/rec";
  broadcast_topic = utf8 "a/snd";
  last_seen = second 10;
  gateway_url = some (utf8 "http://gw");
  gateway_shutdown_tx = some 3;
}

abbrev fresh : BeaconRecord
fresh = record old { last_seen = second 150; gateway_url = none; gateway_shutdown_tx = none }

abbrev registry : BeaconRegistry
registry = record {
  records = (utf8 "a", old) ∷ (utf8 "b", fresh) ∷ [];
  known_gateways = utf8 "http://gw" ∷ [];
  broadcast_topics = utf8 "a/snd" ∷ utf8 "b/snd" ∷ [];
  sent = [];
  closed = [];
}

unique : UniqueKeys registry.records
unfolding get text_same utf8
unique = (refl, (refl, tt))

check_timeouts-IsReleased_example : IsReleased old (check_timeouts (second 200) registry)
unfolding get is_stale text_same utf8
check_timeouts-IsReleased_example =
    check_timeouts-IsReleased (second 200) registry (utf8 "a") old unique refl refl

check_timeouts_records_example :
    get (utf8 "b") (check_timeouts (second 200) registry).records ≡ some fresh
unfolding get is_stale text_same utf8
check_timeouts_records_example = check_timeouts_records (second 200) registry (utf8 "b") unique

-- No record holds the gateway that is known.
abbrev orphaned : Node
orphaned = record {
  server_url = utf8 "http://node";
  registry = record registry { records = (utf8 "b", fresh) ∷ [] };
  connections = [];
  next_channel = 4;
}

-- Payloads are not JSON.
abbrev no_json : List ℕ → Result Text Json
no_json bytes = err (utf8 "expected value")

abbrev events : List Event
events =
    message (second 201) (record { topic = utf8 "b/rec"; payload = utf8 "hi" })
    ∷ sweep_dropped (second 290) in_unsubscribe 0
    ∷ swept (second 400)
    ∷ []

no_owner : (id : Text) → owns (utf8 "http://gw") (get id orphaned.registry.records) ≡ false
unfolding get
no_owner id = ground arith

abbrev start : Node
start = record orphaned { registry = record orphaned.registry { known_gateways = [] } }

-- The topic on which beacons announce themselves names no beacon.
unnamed_gateway_lost_example :
    let n' = handle_gateway (utf8 "registration") (utf8 "http://gw") null start in
    let later = rounds no_json (λ bytes. bytes) events n' in
    Mem 4 n'.registry.closed × (handle_gateway (utf8 "b/rec") (utf8 "http://gw") null later ≡ later)
unfolding contains beacon_of is_gateway_known
unnamed_gateway_lost_example =
    unnamed_gateway_lost no_json (λ bytes. bytes) (utf8 "registration") (utf8 "http://gw") null
      start refl refl no_owner events (utf8 "b/rec") null
