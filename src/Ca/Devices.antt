-- ===== src/Ca/Devices.antt =====
-- src/infra/ca/ca_service.rs: the calls about devices, one after another, and an independent
-- description of them: a directory that says of each device which certificate it has.
use place_net_hamlet.Common.{
  ℕ, ◌++◌, List, [], ◌∷◌, Option, none, some, Bool, true, false, not, Result, ok, err, ok_or, ◌>>=◌,
  map_err, Text, text_eq, utf8, ◌==◌, same, if◌then◌else◌,
}
use place_net_hamlet.Ca.Tables.{DeviceRow, find_device}
use place_net_hamlet.Ca.Operations.{Rcgen, CaState, sign_request}
use place_net_hamlet.Ca.Service.{
  Call, now, CaService, settle, not_initialised, sign_csr, get_cert, revoke, is_revoked,
}

pub data DeviceRequest : Type 0 where
  sign : (device_id csr_pem : Text) → DeviceRequest
  look_up revoke_cert ask_revoked : (device_id : Text) → DeviceRequest

pub data Answer : Type 0 where
  signed : Result Text Text → Answer
  found : Result Text (Option Text) → Answer
  revoked : Result Text (Unit {0}) → Answer
  flag : Result Text Bool → Answer

module _ {K C Q : Type 0} (rcgen : Rcgen K C Q) where
  unfoldable pub serve : Call K → DeviceRequest → CaService K C → CaService K C × Answer
  unfolding sign_csr get_cert revoke is_revoked
  serve c (sign id csr_pem) s =
      let (s', r) = settle s (sign_csr rcgen c id csr_pem s) in (s', signed r)
  serve c (look_up id) s = (s, found (get_cert rcgen c id s))
  serve c (revoke_cert id) s = let (s', r) = settle s (revoke rcgen c id s) in (s', revoked r)
  serve c (ask_revoked id) s = (s, flag (is_revoked rcgen c id s))

  unfoldable pub serve_all :
      List (Call K × DeviceRequest) → CaService K C → CaService K C × List Answer
  unfolding serve
  serve_all [] s = (s, [])
  serve_all ((c, r) ∷ rs) s =
      let (s', a) = serve c r s in let (last, answers) = serve_all rs s' in (last, a ∷ answers)

-- What the directory holds of a device.
pub record Certificate : Type 0 where
  pub pem : Text
  pub issued_at : ℕ
  pub expires_at : ℕ
  pub is_revoked : Bool

abbrev pub Directory : Type 0
Directory = Text → Option Certificate

abbrev pub update : Text → Option Certificate → Directory → Directory
update id c d j = if same id j then c else d j

abbrev pub pem_of : Option Certificate → Option Text
pem_of none = none
pem_of (some c) = some c.pem

abbrev pub flag_of : Option Certificate → Bool
flag_of none = false
flag_of (some c) = c.is_revoked

unfoldable pub withdraw :
    {K : Type 0} → Call K → Text → Option Certificate → Result Text Certificate
withdraw c id held = do
  _ ← map_err (λ e. utf8 "Failed to revoke device cert: " ++ e) c.db.execute
  cert ← ok_or (utf8 "Unknown device: " ++ id) held
  ok (record cert { is_revoked = true })

module _ {K C Q : Type 0} (rcgen : Rcgen K C Q) (ca : Option (CaState K C)) where
  -- A certificate for a request, not revoked; the database must take it.
  unfoldable pub issue : Call K → Text → Result Text Certificate
  issue c csr_pem = do
    state ← ok_or not_initialised ca
    made ← sign_request rcgen (now c) state csr_pem
    _ ← map_err (λ e. utf8 "Failed to persist device cert: " ++ e) c.db.execute
    ok (record { pem = made.0; issued_at = made.1; expires_at = made.2; is_revoked = false })

  unfoldable pub answer : Call K → DeviceRequest → Directory → Directory × Answer
  unfolding issue withdraw
  answer c (sign id csr_pem) d = elim (issue c csr_pem) [
    | err e ↦ (d, signed (err e))
    | ok cert ↦ (update id (some cert) d, signed (ok cert.pem))
  ]
  answer c (look_up id) d =
      let fail = λ (e : Text). utf8 "Failed to query device cert: " ++ e in
      (d, found (map_err fail c.db.query >>= λ _. ok (pem_of (d id))))
  answer c (revoke_cert id) d = elim (withdraw c id (d id)) [
    | err e ↦ (d, revoked (err e))
    | ok cert ↦ (update id (some cert) d, revoked (ok tt))
  ]
  answer c (ask_revoked id) d =
      let fail = λ (e : Text). utf8 "Failed to query revocation status: " ++ e in
      (d, flag (map_err fail c.db.query >>= λ _. ok (flag_of (d id))))

  unfoldable pub answer_all : List (Call K × DeviceRequest) → Directory → Directory × List Answer
  unfolding answer
  answer_all [] d = (d, [])
  answer_all ((c, r) ∷ rs) d =
      let (d', a) = answer c r d in let (last, answers) = answer_all rs d' in (last, a ∷ answers)

-- The directory that the rows stand for.
abbrev pub certificate : Option DeviceRow → Option Certificate
certificate none = none
certificate (some row) = some (record {
  pem = row.cert_pem;
  issued_at = row.issued_at;
  expires_at = row.expires_at;
  is_revoked = not (row.revoked == 0);
})

unfoldable pub directory : List DeviceRow → Directory
unfolding find_device
directory rows id = certificate (find_device id rows)
