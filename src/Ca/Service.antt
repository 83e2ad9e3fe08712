-- ===== src/Ca/Service.antt =====
-- src/infra/ca/ca_service.rs: the authority in memory and its tables. `Call` is what a call takes
-- from outside: how its statements fare, a new key pair, and the clock, which is `none` before 1970.
-- A call that fails leaves the tables as they are. Opening the database is left out.
use place_net_hamlet.Common.{
  ℕ, List, map, Option, none, some, Bool, false, not, ◌++◌, Result, ok, err, ok_or, ◌>>=◌, map_err,
  Text, utf8, ◌==◌, unwrap_or, if◌then◌else◌,
}
use place_net_hamlet.Ca.Tables.{
  DeviceRow, NodeRow, Tables, Database, insert_one, find_device, upsert_device, mark_revoked,
  rows_affected,
}
use place_net_hamlet.Ca.Operations.{
  Rcgen, CaState, load_or_generate_ca, generate_node_identity, generate_broker_identity,
  sign_request,
}

pub record Call (K : Type 0) : Type 0 where
  pub db : Database
  pub generated : Result Text K
  pub clock : Option ℕ

-- The time of a call in seconds.
abbrev pub now : {K : Type 0} → Call K → ℕ
now c = unwrap_or 0 c.clock

pub record CaService (K C : Type 0) : Type 0 where
  pub state : Option (CaState K C)
  pub tables : Tables

pub record DeviceCertRecord : Type 0 where
  pub device_id : Text
  pub cert_pem : Text
  pub issued_at : ℕ
  pub expires_at : ℕ
  pub revoked : Bool

abbrev pub not_initialised : Text
not_initialised = utf8 "CA not initialised"

-- What a call does: an error, or a result with the tables after it.
abbrev pub Outcome : Type 0 → Type 0
Outcome A = Result Text (A × Tables)

-- The service after a call, and the call's result.
abbrev pub settle : {K C A : Type 0} → CaService K C → Outcome A → CaService K C × Result Text A
settle s (ok (a, t)) = (record s { tables = t }, ok a)
settle s (err e) = (s, err e)

-- `CaService::new`, over the tables that the pool gives.
unfoldable pub new : {K C : Type 0} → Tables → CaService K C
new tables = record { state = none; tables = tables }

-- `row.map(|(pem,)| pem)`.
abbrev pub cert_of : Option DeviceRow → Option Text
cert_of none = none
cert_of (some row) = some row.cert_pem

-- `row.map(|(r,)| r != 0).unwrap_or(false)`.
abbrev pub revoked_of : Option DeviceRow → Bool
revoked_of none = false
revoked_of (some row) = not (row.revoked == 0)

unfoldable pub record_of : DeviceRow → DeviceCertRecord
record_of row = record {
  device_id = row.device_id;
  cert_pem = row.cert_pem;
  issued_at = row.issued_at;
  expires_at = row.expires_at;
  revoked = not (row.revoked == 0);
}

module _ {K C Q : Type 0} (rcgen : Rcgen K C Q) where
  unfoldable pub init : Call K → CaService K C → CaService K C × Result Text (Unit {0})
  init c s = elim (map_err (λ e. utf8 "Failed to run CA migrations: " ++ e) c.db.migrate) [
    | err e ↦ (s, err e)
    | ok _ ↦ elim (load_or_generate_ca rcgen c.db c.generated s.tables) [
      | err e ↦ (s, err e)
      | ok (state, t) ↦ (record { state = some state; tables = t }, ok tt)
    ]
  ]

  -- `CaService::register`, once the database is open.
  unfoldable pub register : Call K → Tables → Result Text (CaService K C)
  unfolding new init
  register c t = let (s, r) = init c (new t) in elim r [ ok _ ↦ ok s | err e ↦ err e ]

  unfoldable pub sign_csr : Call K → Text → Text → CaService K C → Outcome Text
  unfolding upsert_device
  sign_csr c device_id csr_pem s = do
    ca ← ok_or not_initialised s.state
    signed ← sign_request rcgen (now c) ca csr_pem
    _ ← map_err (λ e. utf8 "Failed to persist device cert: " ++ e) c.db.execute
    let row : DeviceRow = record {
      device_id = device_id;
      cert_pem = signed.0;
      issued_at = signed.1;
      expires_at = signed.2;
      revoked = 0;
    }
    ok (signed.0, record s.tables { device_certs = upsert_device row s.tables.device_certs })

  unfoldable pub get_cert : Call K → Text → CaService K C → Result Text (Option Text)
  unfolding find_device
  get_cert c device_id s = do
    _ ← map_err (λ e. utf8 "Failed to query device cert: " ++ e) c.db.query
    ok (cert_of (find_device device_id s.tables.device_certs))

  unfoldable pub list_devices : Call K → CaService K C → Result Text (List DeviceCertRecord)
  unfolding record_of
  list_devices c s = do
    _ ← map_err (λ e. utf8 "Failed to list device certs: " ++ e) c.db.query
    ok (map record_of s.tables.device_certs)

  unfoldable pub revoke : Call K → Text → CaService K C → Outcome (Unit {0})
  unfolding mark_revoked rows_affected
  revoke c device_id s = do
    _ ← map_err (λ e. utf8 "Failed to revoke device cert: " ++ e) c.db.execute
    let rows = s.tables.device_certs
    if rows_affected device_id rows == 0
        then err (utf8 "Unknown device: " ++ device_id)
        else ok (tt, record s.tables { device_certs = mark_revoked device_id rows })

  unfoldable pub ca_cert_pem : CaService K C → Result Text Text
  ca_cert_pem s = do ca ← ok_or not_initialised s.state; ok (rcgen.pem ca.cert)

  unfoldable pub generate_broker_cert :
      Call K → List Text → List Text → CaService K C → Result Text (Text × Text)
  generate_broker_cert c san_ips san_hostnames s = do
    ca ← ok_or not_initialised s.state
    generate_broker_identity rcgen c.generated ca san_ips san_hostnames

  -- What follows where the table holds no identity.
  unfoldable pub create_node_identity : Call K → CaService K C → Outcome (Text × Text)
  unfolding insert_one
  create_node_identity c s = do
    ca ← ok_or not_initialised s.state
    made ← generate_node_identity rcgen c.generated (now c) ca
    let row : NodeRow = record {
      cert_pem = made.0;
      key_pem = made.1;
      issued_at = made.2;
      expires_at = made.3;
    }
    node_identity ←
        map_err (λ e. utf8 "Failed to persist node identity: " ++ e)
          (insert_one c.db row s.tables.node_identity)
    ok ((made.0, made.1), record s.tables { node_identity = node_identity })

  unfoldable pub ensure_node_identity : Call K → CaService K C → Outcome (Text × Text)
  unfolding create_node_identity
  ensure_node_identity c s = do
    _ ← map_err (λ e. utf8 "Failed to query node identity: " ++ e) c.db.query
    elim s.tables.node_identity [
      | some row ↦ ok ((row.cert_pem, row.key_pem), s.tables)
      | none ↦ create_node_identity c s
    ]

  unfoldable pub is_revoked : Call K → Text → CaService K C → Result Text Bool
  unfolding find_device
  is_revoked c device_id s = do
    _ ← map_err (λ e. utf8 "Failed to query revocation status: " ++ e) c.db.query
    ok (revoked_of (find_device device_id s.tables.device_certs))
