-- ===== src/Examples/Keys.antt =====
-- src/services/beacon_management/key_management.rs at concrete inputs.
use place_net_hamlet.Common.{
  utf8, ◌≤◌, ◌≡◌, refl, [], ◌∷◌, none, true, ok, any, text_same, times, arith,
}
use place_net_hamlet.Common.Word.{lt_i64, add64}
use place_net_hamlet.KeyManagement.{
  KeyRow, is_current, BroadcastKeyManagement, Database, select_active, get_or_rotate_key,
  rotate_key, fresh_key, insert_row, has_id, sweep_expired,
}
use place_net_hamlet.KeyManagement.Hex.{Bytes}
use place_net_hamlet.KeyManagement.Rotation.{
  active_count, get_or_rotate_key_valid, get_or_rotate_key_stable,
}
use place_net_hamlet.App.BroadcastLoop.{Cycle}
use place_net_hamlet.App.Broadcasts.{cycles, cycles-active_count}
use place_net_hamlet.KeyManagement.Lifetime.{sweep_expired-select_active, expiry_too_short}

abbrev pub manager : BroadcastKeyManagement
manager = record { rotation_interval = 3600; key_expiry = 7200 }

-- Every statement succeeds.
abbrev up : Database
up = record {
  query = ok tt;
  retire = ok tt;
  insert = ok tt;
  delete = ok tt;
  constraint = utf8 "UNIQUE";
}

abbrev pub id : Bytes
id = 1 ∷ 2 ∷ 3 ∷ 255 ∷ []

abbrev pub new_id : Bytes
new_id = 7 ∷ 7 ∷ 7 ∷ 7 ∷ []

abbrev pub material : Bytes
material = times 4 (9 ∷ 8 ∷ 7 ∷ 6 ∷ [])

abbrev pub row : KeyRow
row = record {
  key_id = id;
  key_material = material;
  created_at = 1000;
  rotates_at = 4600;
  expires_at = 8200;
  is_active = true;
}

abbrev pub at_5000 : Cycle
at_5000 = record {
  queried_at = 5000;
  rotated_at = 5001;
  swept_at = 5002;
  signed_at = 5003;
  key_id = new_id;
  key_material = material;
  database = up;
}

-- The key is past its deadline, so a second takes its place.
cycles-active_count_example :
    active_count
      (cycles
        (λ key message. key)
        (λ body. [])
        manager
        (utf8 "u")
        ((utf8 "b/cast" ∷ [], at_5000) ∷ ([], at_5000) ∷ [])
        (row ∷ [])).0
    ≤ 1
unfolding active_count
cycles-active_count_example =
    cycles-active_count (λ key message. key) (λ body. []) manager (utf8 "u")
      ((utf8 "b/cast" ∷ [], at_5000) ∷ ([], at_5000) ∷ []) (row ∷ []) (omega arith)

get_or_rotate_key_valid_example : lt_i64 2000 4600 ≡ true
unfolding get_or_rotate_key is_current lt_i64
get_or_rotate_key_valid_example =
    get_or_rotate_key_valid manager up 2000 id material (row ∷ [])
      (record { key_id = id; key_material = material; rotates_at = 4600; expires_at = 8200 })
      (omega arith) (omega arith) refl

get_or_rotate_key_stable_example :
    let table = (rotate_key manager up 5000 new_id material (row ∷ [])).0 in
    get_or_rotate_key manager up 8000 8000 [] [] table
    ≡ (table, ok (fresh_key manager 5000 new_id material))
unfolding rotate_key insert_row has_id any text_same lt_i64 add64
get_or_rotate_key_stable_example =
    get_or_rotate_key_stable manager up 5000 8000 new_id material [] [] (row ∷ [])
      (fresh_key manager 5000 new_id material) refl refl refl refl refl

sweep_expired-select_active_example :
    select_active 3000 (sweep_expired up 3000 (row ∷ [])).0 ≡ select_active 3000 (row ∷ [])
sweep_expired-select_active_example = sweep_expired-select_active up 3000 (row ∷ []) (omega arith) (
  record { rotates_fits = omega arith; expires_fits = omega arith; rotates_first = omega arith },
  tt,
)

abbrev short_lived : BroadcastKeyManagement
short_lived = record { rotation_interval = 3600; key_expiry = 60 }

expiry_too_short_example :
    let rest =
      (sweep_expired up 5060 (rotate_key short_lived up 5000 new_id material (row ∷ [])).0).0 in
    (lt_i64 5060 8600 ≡ true) × (select_active 5060 rest ≡ none)
unfolding rotate_key insert_row has_id any text_same add64
expiry_too_short_example =
    expiry_too_short short_lived up up 5000 5060 new_id material (row ∷ [])
      (fresh_key short_lived 5000 new_id material) (omega arith) (omega arith) refl refl

abbrev mac : Bytes → Bytes → Bytes
mac key message = times 8 (171 ∷ 0 ∷ 16 ∷ 255 ∷ [])
