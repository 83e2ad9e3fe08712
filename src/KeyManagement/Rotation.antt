-- ===== src/KeyManagement/Rotation.antt =====
-- src/services/beacon_management/key_management.rs: which key is returned, and what the table holds.
use place_net_hamlet.Common.{
  ℕ, ◌+◌, ◌^◌, ◌≤◌, ◌<◌, ◌≡◌, refl, subst, List, [], ◌∷◌, map, some, Bool, true, not, ok, arith,
  length, retain, if◌then◌else◌, Option-cases, Bool-cases, inl, inr, suc,
}
use place_net_hamlet.Common.Word.{add64, lt_i64, le_i64}
use place_net_hamlet.KeyManagement.{
  Bytes, BroadcastKey, KeyRow, BroadcastKeyManagement, Database, Table, build_key, is_current,
  newest, select_active, retire, new_row, insert_row, fresh_key, rotate_key, get_or_rotate_key,
  sweep_expired,
}

-- The active rows of the table, counted.
unfoldable pub active_count : Table → ℕ
active_count [] = 0
active_count (row ∷ rows) = if row.is_active then suc (active_count rows) else active_count rows

retired-active_count : (table : Table) → active_count (map retire table) ≡ 0
unfolding active_count
retired-active_count [] = refl
retired-active_count (row ∷ rows) = retired-active_count rows

retain-active_count :
    (keep : KeyRow → Bool) (table : Table) → active_count (retain keep table) ≤ active_count table
unfolding active_count retain
retain-active_count keep [] = omega arith
retain-active_count keep (row ∷ rows) = ground (arith, retain-active_count keep rows)

rotate_key-active_count :
    (m : BroadcastKeyManagement) (db : Database) (now : ℕ) (id material : Bytes) (table : Table)
    → active_count table ≤ 1
    → active_count (rotate_key m db now id material table).0 ≤ 1
unfolding rotate_key insert_row active_count
rotate_key-active_count m db now id material table h = ground (arith, retired-active_count table)

-- However the statements fare, a table with at most one active row has at most one after a key
-- was asked for.
pub get_or_rotate_key-active_count :
    (m : BroadcastKeyManagement) (db : Database) (now later : ℕ) (id material : Bytes)
    (table : Table)
    → active_count table ≤ 1
    → active_count (get_or_rotate_key m db now later id material table).0 ≤ 1
unfolding get_or_rotate_key
get_or_rotate_key-active_count m db now later id material table h =
    ground (arith, rotate_key-active_count m db later id material table h)

pub sweep_expired-active_count :
    (db : Database) (now : ℕ) (table : Table)
    → active_count table ≤ 1
    → active_count (sweep_expired db now table).0 ≤ 1
unfolding sweep_expired
sweep_expired-active_count db now table h =
    ground (arith, retain-active_count (λ row. not (le_i64 row.expires_at now)) table)

newest_current :
    (now : ℕ) (best : KeyRow) (rows : List KeyRow)
    → is_current now best ≡ true
    → is_current now (newest best (retain (is_current now) rows)) ≡ true
unfolding newest retain
newest_current now best [] h = h
newest_current now best (row ∷ rows) h = elim (Bool-cases (is_current now row)) [
  | inr miss ↦ rw miss (newest_current now best rows h)
  | inl hit ↦ rw hit (
      newest_current now (if lt_i64 best.rotates_at row.rotates_at then row else best) rows
        (ground arith))
]

-- The row that is selected passes the selection.
pub select_active-is_current :
    (now : ℕ) (table : Table) (row : KeyRow)
    → select_active now table ≡ some row
    → is_current now row ≡ true
unfolding select_active retain
select_active-is_current now [] row h = cc
select_active-is_current now (r ∷ rows) row h = elim (Bool-cases (is_current now r)) [
  | inr miss ↦ select_active-is_current now rows row (rw (miss, select_active) at h)
  | inl hit ↦
      let found : some (newest r (retain (is_current now) rows)) ≡ some row =
        rw (hit, select_active) at h in
      let same_row : newest r (retain (is_current now) rows) ≡ row = cc in
      subst (λ x. is_current now x ≡ true) same_row (newest_current now r rows hit)
]

build_key-rotates_at :
    (id material : Bytes) (rotates_at expires_at : ℕ) {key : BroadcastKey}
    → build_key id material rotates_at expires_at ≡ ok key
    → key.rotates_at ≡ rotates_at
unfolding build_key
build_key-rotates_at id material rotates_at expires_at h = ground arith

pub rotate_key_ok :
    (m : BroadcastKeyManagement) (db : Database) (now : ℕ) (id material : Bytes) (table : Table)
    {key : BroadcastKey}
    → (rotate_key m db now id material table).1 ≡ ok key
    → ((rotate_key m db now id material table).0 ≡ new_row key now ∷ map retire table)
      × (key ≡ fresh_key m now id material)
unfolding rotate_key insert_row
rotate_key_ok m db now id material table h = ground arith

fresh_current :
    (now interval : ℕ)
    → 0 < interval
    → now + interval < 2 ^ 63
    → lt_i64 now (add64 now interval) ≡ true
unfolding lt_i64 add64
fresh_current now interval pos fits = ground arith

is_current_deadline :
    (now : ℕ) (row : KeyRow) → is_current now row ≡ true → lt_i64 now row.rotates_at ≡ true
unfolding is_current
is_current_deadline now row h = ground arith

-- A key that is handed out has not passed its rotation deadline, where the clock does not run
-- between the query and a rotation, the rotation interval is not zero, and the clock and the
-- interval add up to less than 2 ^ 63.
pub get_or_rotate_key_valid :
    (m : BroadcastKeyManagement) (db : Database) (now : ℕ) (id material : Bytes) (table : Table)
    (key : BroadcastKey)
    → 0 < m.rotation_interval
    → now + m.rotation_interval < 2 ^ 63
    → (get_or_rotate_key m db now now id material table).1 ≡ ok key
    → lt_i64 now key.rotates_at ≡ true
unfolding get_or_rotate_key
get_or_rotate_key_valid m db now id material table key pos fits h =
    elim (Option-cases (select_active now table)) [
      | inl nothing ↦
          let rotated : (rotate_key m db now id material table).1 ≡ ok key = ground arith in
          rw ((rotate_key_ok m db now id material table rotated).1)
            (unfold fresh_key in fresh_current now m.rotation_interval pos fits)
      | inr (row, found) ↦
          let built : build_key row.key_id row.key_material row.rotates_at row.expires_at ≡ ok key =
            ground arith in
          rw (build_key-rotates_at row.key_id row.key_material row.rotates_at row.expires_at built)
            (is_current_deadline now row (select_active-is_current now table row found))
    ]

retired_none_current : (now : ℕ) (table : Table) → retain (is_current now) (map retire table) ≡ []
unfolding retain is_current
retired_none_current now [] = refl
retired_none_current now (row ∷ rows) = retired_none_current now rows

select_active-new_row :
    (now later : ℕ) (key : BroadcastKey) (table : Table)
    → lt_i64 later key.rotates_at ≡ true
    → select_active later (new_row key now ∷ map retire table) ≡ some (new_row key now)
unfolding select_active
select_active-new_row now later key table h =
    let current : is_current later (new_row key now) ≡ true = unfold is_current in ground arith in
    rw (current, select_active) (rw (retired_none_current later table))

-- After a rotation that succeeds with an id of four bytes and a material of sixteen, asking for a
-- key at a time before the new key's deadline, with a query that succeeds, returns that key and
-- leaves the table as it is.
pub get_or_rotate_key_stable :
    (m : BroadcastKeyManagement) (db : Database) (now later : ℕ) (id material id' material' : Bytes)
    (table : Table) (key : BroadcastKey)
    → length id ≡ 4
    → length material ≡ 16
    → (rotate_key m db now id material table).1 ≡ ok key
    → lt_i64 later key.rotates_at ≡ true
    → db.query ≡ ok tt
    → let table' = (rotate_key m db now id material table).0 in
      get_or_rotate_key m db later later id' material' table' ≡ (table', ok key)
unfolding get_or_rotate_key
get_or_rotate_key_stable m db now later id material id' material' table key p q h k d =
    let (rows, fresh) = rotate_key_ok m db now id material table h in
    rw rows (
      rw (d, get_or_rotate_key)
        (rw (select_active-new_row now later key table k, get_or_rotate_key)
          (unfold build_key fresh_key in ground arith)))
