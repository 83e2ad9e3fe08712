-- ===== src/Ca/Tables.antt =====
-- migrations/0001_ca_keys.sql, 0002_device_certs.sql and 0003_node_identity.sql: the tables of the
-- certificate authority, with the statements of src/infra/ca. A table whose `id` is checked to be 1
-- holds at most one row. The column `id` of `device_certs` is left out, since no statement reads it.
use place_net_hamlet.Common.{
  ℕ, suc, List, [], ◌∷◌, Option, none, some, Result, ok, err, ◌>>=◌, Text, text_eq, same,
  if◌then◌else◌,
}

pub record CaRow : Type 0 where
  pub cert_pem : Text
  pub key_pem : Text

pub record DeviceRow : Type 0 where
  pub device_id : Text
  pub cert_pem : Text
  pub issued_at : ℕ
  pub expires_at : ℕ
  pub revoked : ℕ

pub record NodeRow : Type 0 where
  pub cert_pem : Text
  pub key_pem : Text
  pub issued_at : ℕ
  pub expires_at : ℕ

pub record Tables : Type 0 where
  pub ca_keys : Option CaRow
  pub device_certs : List DeviceRow
  pub node_identity : Option NodeRow

-- How the migrations, a call's query and its statement fare, and the error that a row which breaks
-- the primary key gives; the texts are those of the database's errors.
pub record Database : Type 0 where
  pub migrate : Result Text (Unit {0})
  pub query : Result Text (Unit {0})
  pub execute : Result Text (Unit {0})
  pub constraint : Text

-- `INSERT` with the id 1 into a table that holds one row at most.
unfoldable pub insert_one : {A : Type 0} → Database → A → Option A → Result Text (Option A)
insert_one db row (some _) = err db.constraint
insert_one db row none = do _ ← db.execute; ok (some row)

-- `SELECT ... WHERE device_id = ?`.
unfoldable pub find_device : Text → List DeviceRow → Option DeviceRow
find_device id [] = none
find_device id (row ∷ rows) = if same row.device_id id then some row else find_device id rows

-- `INSERT ... ON CONFLICT(device_id) DO UPDATE` of the other columns.
unfoldable pub upsert_device : DeviceRow → List DeviceRow → List DeviceRow
upsert_device new [] = new ∷ []
upsert_device new (row ∷ rows) =
    let rest = upsert_device new rows in
    if same row.device_id new.device_id
    then record new { device_id = row.device_id } ∷ rows
    else row ∷ rest

-- `UPDATE device_certs SET revoked = 1 WHERE device_id = ?`.
unfoldable pub mark_revoked : Text → List DeviceRow → List DeviceRow
mark_revoked id [] = []
mark_revoked id (row ∷ rows) =
    (if same row.device_id id then record row { revoked = 1 } else row) ∷ mark_revoked id rows

-- The number of rows that this changes.
unfoldable pub rows_affected : Text → List DeviceRow → ℕ
rows_affected id [] = 0
rows_affected id (row ∷ rows) =
    let rest = rows_affected id rows in if same row.device_id id then suc rest else rest
