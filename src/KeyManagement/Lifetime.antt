-- ===== src/KeyManagement/Lifetime.antt =====
-- src/services/beacon_management/key_management.rs: sweeping, and the tokens of a key.
use place_net_hamlet.Common.{
  ℕ, zero, suc, ◌+◌, ◌^◌, ◌≤◌, ◌<◌, ◌≡◌, refl, ap, ◌∙◌, none, map, Bool, List, [], ◌∷◌, true, not,
  ok, arith, length, length-take, retain, Bool-cases, inl, inr, All, take, Result-cases,
}
use place_net_hamlet.Common.Word.{add64, lt_i64, lt_i64_nonneg, le_i64, le_i64_nonneg}
use place_net_hamlet.KeyManagement.{
  Bytes, BroadcastKey, KeyRow, BroadcastKeyManagement, Database, Table, is_current, select_active,
  first_newest, new_row, fresh_key, retire, rotate_key, sweep_expired, slot, generate_token,
  ota_fields,
}
use place_net_hamlet.KeyManagement.Rotation.{rotate_key_ok}
use place_net_hamlet.KeyManagement.Hex.{hex_encode_shape, IsHexDigit, to_be_bytes}

-- A row whose key is not deleted before it rotates.
pub record IsLasting (row : KeyRow) : Type 0 where
  pub rotates_fits : row.rotates_at < 2 ^ 63
  pub expires_fits : row.expires_at < 2 ^ 63
  pub rotates_first : row.rotates_at ≤ row.expires_at

current_kept :
    (now : ℕ) (row : KeyRow)
    → now < 2 ^ 63
    → IsLasting row
    → is_current now row ≡ true
    → not (le_i64 row.expires_at now) ≡ true
unfolding is_current
current_kept now row fits i h = ground (
  arith,
  lt_i64_nonneg now row.rotates_at fits i.rotates_fits,
  le_i64_nonneg row.expires_at now i.expires_fits fits,
)

retain_current :
    (now : ℕ) (table : Table)
    → now < 2 ^ 63
    → All IsLasting table
    → retain (is_current now) (retain (λ row. not (le_i64 row.expires_at now)) table)
      ≡ retain (is_current now) table
unfolding retain
retain_current now [] fits i = refl
retain_current now (row ∷ rows) fits (i, is) = elim (Bool-cases (is_current now row)) [
  | inl hit ↦
      rw (current_kept now row fits i hit)
        (rw hit (ap (λ r. row ∷ r) (retain_current now rows fits is)))
  | inr miss ↦ elim (Bool-cases (not (le_i64 row.expires_at now))) [
    | inl kept ↦ rw kept (rw miss (retain_current now rows fits is))
    | inr swept ↦ rw swept (rw miss (retain_current now rows fits is))
  ]
]

-- Where no row expires before it rotates, and the times are below 2 ^ 63, a sweep of expired keys
-- does not change which row is selected as the active key.
pub sweep_expired-select_active :
    (db : Database) (now : ℕ) (table : Table)
    → now < 2 ^ 63
    → All IsLasting table
    → select_active now (sweep_expired db now table).0 ≡ select_active now table
unfolding sweep_expired select_active
sweep_expired-select_active db now table fits i = elim (Result-cases db.delete) [
  | inl (done, d) ↦ rw (d, sweep_expired) (ap first_newest (retain_current now table fits i))
  | inr (e, d) ↦ rw (d, sweep_expired)
]

-- A rotation adds such a key exactly if the expiry is not shorter than the rotation interval.
pub fresh_key-IsLasting :
    (m : BroadcastKeyManagement) (now : ℕ) (id material : Bytes)
    → now + m.rotation_interval < 2 ^ 63
    → now + m.key_expiry < 2 ^ 63
    → m.rotation_interval ≤ m.key_expiry
    → IsLasting (new_row (fresh_key m now id material) now)
unfolding fresh_key add64
fresh_key-IsLasting m now id material p q h = omega arith

-- The retired rows that a sweep leaves are never current.
swept_none_current :
    (keep : KeyRow → Bool) (at : ℕ) (table : Table)
    → retain (is_current at) (retain keep (map retire table)) ≡ []
unfolding retain is_current
swept_none_current keep at [] = refl
swept_none_current keep at (row ∷ rows) = ground (arith, swept_none_current keep at rows)

fresh_swept :
    (m : BroadcastKeyManagement) (now : ℕ) (id material : Bytes)
    → now + m.rotation_interval < 2 ^ 63
    → m.key_expiry < m.rotation_interval
    → let key = fresh_key m now id material in
      let at = now + m.key_expiry in
      (lt_i64 at key.rotates_at ≡ true) × (le_i64 key.expires_at at ≡ true)
unfolding fresh_key lt_i64 le_i64 add64
fresh_swept m now id material fits short = ground arith

-- Where the expiry is shorter than the rotation interval, a rotation succeeds over any table, and
-- a sweep at the new key's expiry succeeds: its rotation deadline has not passed then, yet
-- whenever the active key is asked for in the table that is left, none is found; the clock and
-- the interval add up to less than 2 ^ 63.
pub expiry_too_short :
    (m : BroadcastKeyManagement) (db later : Database) (now asked : ℕ) (id material : Bytes)
    (table : Table) (key : BroadcastKey)
    → now + m.rotation_interval < 2 ^ 63
    → m.key_expiry < m.rotation_interval
    → (rotate_key m db now id material table).1 ≡ ok key
    → later.delete ≡ ok tt
    → let at = now + m.key_expiry in
      let rest = (sweep_expired later at (rotate_key m db now id material table).0).0 in
      (lt_i64 at key.rotates_at ≡ true) × (select_active asked rest ≡ none)
unfolding sweep_expired select_active retain
expiry_too_short m db later now asked id material table key fits short rotated d =
    let (rows, fresh) = rotate_key_ok m db now id material table rotated in
    let (open_still, gone) = fresh_swept m now id material fits short in
    let at = now + m.key_expiry in
    (
      ap (λ (k : BroadcastKey). lt_i64 at k.rotates_at) fresh ∙ open_still,
      rw rows (
          rw (d, sweep_expired)
            (rw (ap (λ (k : BroadcastKey). le_i64 k.expires_at at) fresh ∙ gone) (
              ap first_newest
                (swept_none_current (λ row. not (le_i64 row.expires_at at)) asked table)))),
    )

All-take : (P : ℕ → Type 0) (n : ℕ) (xs : List ℕ) → All P xs → All P (take n xs)
All-take P zero xs h = tt
All-take P (suc n) [] h = tt
All-take P (suc n) (x ∷ xs) (h, hs) = (h, All-take P n xs hs)

-- HMAC-SHA256 gives 32 bytes.
abbrev pub GivesBytes : (Bytes → Bytes → Bytes) → Type 0
GivesBytes hmac =
    (key message : Bytes) → (length (hmac key message) ≡ 32) × All (λ b. b < 256) (hmac key message)

-- Where the MAC gives 32 bytes and the key's id has four, the two fields that go over the air are
-- eight lowercase hexadecimal digits each.
pub ota_fields_shape :
    (hmac : Bytes → Bytes → Bytes) (m : BroadcastKeyManagement) (now : ℕ) (key : BroadcastKey)
    → GivesBytes hmac
    → length key.key_id ≡ 4
    → All (λ b. b < 256) key.key_id
    → let (kid, tok) = ota_fields hmac m now key in
      (length kid ≡ 8) × All IsHexDigit kid × (length tok ≡ 8) × All IsHexDigit tok
unfolding ota_fields generate_token
ota_fields_shape hmac m now key gives four bytes =
    let (n, all) = gives key.key_material (to_be_bytes 8 (slot m now)) in
    let (kid_n, kid_all) = hex_encode_shape key.key_id bytes in
    let (tok_n, tok_all) =
      hex_encode_shape (take 4 (hmac key.key_material (to_be_bytes 8 (slot m now))))
        (All-take (λ b. b < 256) 4 _ all) in
    (
      omega arith,
      kid_all,
      omega (arith, length-take 4 (hmac key.key_material (to_be_bytes 8 (slot m now)))),
      tok_all,
    )
