-- ===== src/KeyManagement.antt =====
-- src/services/beacon_management/key_management.rs and migrations/0004_broadcast_keys.sql: the keys
-- that authenticate broadcasts.
-- A time and every `i64` is its 64-bit pattern, so `as` between `i64` and `u64` changes nothing. The
-- table is the list of its rows, the last inserted first; `Database` says how each statement fares.
pub mod Hex
pub mod Rotation
pub mod Lifetime
use place_net_hamlet.Common.{
  ℕ, ◌/◌, ◌-◌, List, [], ◌∷◌, ◌++◌, map, Option, none, some, Bool, true, false, not, ◌&&◌, Result,
  ok, err, ◌>>=◌, map_err, Text, utf8, ◌==◌, max, length, take, retain, show_uint, any, same,
  text_eq, if◌then◌else◌,
}
use place_net_hamlet.Common.Word.{add64, lt_i64, le_i64}
use Hex.{Bytes, hex_encode, to_be_bytes}

pub record BroadcastKey : Type 0 where
  pub key_id : Bytes
  pub key_material : Bytes
  pub rotates_at : ℕ
  pub expires_at : ℕ

pub record KeyRow : Type 0 where
  pub key_id : Bytes
  pub key_material : Bytes
  pub created_at : ℕ
  pub rotates_at : ℕ
  pub expires_at : ℕ
  pub is_active : Bool

-- The durations are in seconds.
pub record BroadcastKeyManagement : Type 0 where
  pub rotation_interval : ℕ
  pub key_expiry : ℕ

-- How the four statements fare; the texts are those of the database's errors, `constraint` where the
-- table already has a row with the key's id.
pub record Database : Type 0 where
  pub query : Result Text (Unit {0})
  pub retire : Result Text (Unit {0})
  pub insert : Result Text (Unit {0})
  pub delete : Result Text (Unit {0})
  pub constraint : Text

abbrev pub Table : Type 0
Table = List KeyRow

unfoldable pub bytes_error : Text → ℕ → Text → Text
bytes_error what n expected =
    utf8 "Corrupt broadcast_keys row: "
    ++ what
    ++ utf8 " is "
    ++ show_uint n
    ++ utf8 " bytes, expected "
    ++ expected

unfoldable pub build_key : Bytes → Bytes → ℕ → ℕ → Result Text BroadcastKey
build_key id material rotates_at expires_at =
    if length id == 4
    then (if length material == 16
        then ok (record {
          key_id = id;
          key_material = material;
          rotates_at = rotates_at;
          expires_at = expires_at;
        })
        else err (bytes_error (utf8 "key_material") (length material) (utf8 "16")))
    else err (bytes_error (utf8 "key_id") (length id) (utf8 "4"))

-- `WHERE is_active = 1 AND rotates_at > now`.
unfoldable pub is_current : ℕ → KeyRow → Bool
is_current now row = row.is_active && lt_i64 now row.rotates_at

-- `ORDER BY rotates_at DESC LIMIT 1` over the rows that pass.
unfoldable pub newest : KeyRow → List KeyRow → KeyRow
newest best [] = best
newest best (row ∷ rows) = newest (if lt_i64 best.rotates_at row.rotates_at then row else best) rows

abbrev pub first_newest : List KeyRow → Option KeyRow
first_newest [] = none
first_newest (row ∷ rows) = some (newest row rows)

unfoldable pub select_active : ℕ → Table → Option KeyRow
unfolding newest retain
select_active now table = first_newest (retain (is_current now) table)

-- `UPDATE broadcast_keys SET is_active = 0 WHERE is_active = 1`.
abbrev pub retire : KeyRow → KeyRow
retire row = record row { is_active = false }

abbrev pub new_row : BroadcastKey → ℕ → KeyRow
new_row key now = record {
  key_id = key.key_id;
  key_material = key.key_material;
  created_at = now;
  rotates_at = key.rotates_at;
  expires_at = key.expires_at;
  is_active = true;
}

-- The key that a rotation at `now` makes of the random bytes.
unfoldable pub fresh_key : BroadcastKeyManagement → ℕ → Bytes → Bytes → BroadcastKey
fresh_key m now key_id key_material = record {
  key_id = key_id;
  key_material = key_material;
  rotates_at = add64 now m.rotation_interval;
  expires_at = add64 now m.key_expiry;
}

unfoldable pub has_id : Bytes → Table → Bool
unfolding any
has_id id table = any (λ row. same row.key_id id) table

-- `INSERT INTO broadcast_keys`, where `key_id` is the primary key.
unfoldable pub insert_row : Database → KeyRow → Table → Result Text Table
unfolding has_id
insert_row db row table = do
  _ ← db.insert
  if has_id row.key_id table then err db.constraint else ok (row ∷ table)

-- The table after a rotation, and its result. The two statements are not one transaction.
unfoldable pub rotate_key :
    BroadcastKeyManagement → Database → ℕ → Bytes → Bytes → Table → Table × Result Text BroadcastKey
unfolding fresh_key insert_row
rotate_key m db now key_id key_material table =
    let key = fresh_key m now key_id key_material in
    elim db.retire [
      | err e ↦ (table, err (utf8 "Failed to retire active broadcast keys: " ++ e))
      | ok _ ↦
          let retired = map retire table in
          elim (insert_row db (new_row key now) retired) [
            | err e ↦ (retired, err (utf8 "Failed to insert new broadcast key: " ++ e))
            | ok table' ↦ (table', ok key)
          ]
    ]

-- `now` is the time of the query, `later` that of the rotation, if there is one.
unfoldable pub get_or_rotate_key :
    BroadcastKeyManagement
    → Database
    → (now later : ℕ) → Bytes
    → Bytes
    → Table
    → Table × Result Text BroadcastKey
unfolding rotate_key select_active build_key
get_or_rotate_key m db now later key_id key_material table = elim db.query [
  | err e ↦ (table, err (utf8 "Failed to query broadcast keys: " ++ e))
  | ok _ ↦ elim (select_active now table) [
    | some row ↦ (table, build_key row.key_id row.key_material row.rotates_at row.expires_at)
    | none ↦ rotate_key m db later key_id key_material table
  ]
]

-- `DELETE FROM broadcast_keys WHERE expires_at <= now`, with the number of rows.
unfoldable pub sweep_expired : Database → ℕ → Table → Table × Result Text ℕ
unfolding retain
sweep_expired db now table = elim db.delete [
  | err e ↦ (table, err (utf8 "Failed to sweep expired broadcast keys: " ++ e))
  | ok _ ↦
      let kept = retain (λ row. not (le_i64 row.expires_at now)) table in
      (kept, ok (length table - length kept))
]

-- The time slot of a moment.
unfoldable pub slot : BroadcastKeyManagement → ℕ → ℕ
slot m now = let rotation_secs = max m.rotation_interval 1 in now / rotation_secs

-- `hmac` is HMAC-SHA256: the key, the message and the 32 bytes of the result.
module _ (hmac : Bytes → Bytes → Bytes) where
  unfoldable pub generate_token : BroadcastKeyManagement → ℕ → BroadcastKey → Bytes
  unfolding to_be_bytes slot
  generate_token m now key = take 4 (hmac key.key_material (to_be_bytes 8 (slot m now)))

  unfoldable pub ota_fields : BroadcastKeyManagement → ℕ → BroadcastKey → Text × Text
  unfolding hex_encode generate_token
  ota_fields m now key = (hex_encode key.key_id, hex_encode (generate_token m now key))
