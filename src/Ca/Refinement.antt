-- ===== src/Ca/Refinement.antt =====
-- src/infra/ca/ca_service.rs: the table of devices behaves as the directory of `Devices`.
use mathlib.Core.Path.{fun_ext, ap₂}
use place_net_hamlet.Common.{
  ◌≡◌, refl, Option, ◌>>=◌, ap, ◌∙◌, List, [], ◌∷◌, none, some, true, false, not, ok, Text, ◌==◌,
  text_eq, same, same_iff, if◌then◌else◌, arith, inl, inr, Result-cases, is_some,
}
use place_net_hamlet.Ca.Tables.{DeviceRow, find_device, upsert_device, mark_revoked, rows_affected}
use place_net_hamlet.Ca.Operations.{Rcgen}
use place_net_hamlet.Ca.Service.{Call, CaService, sign_csr, get_cert, revoke, is_revoked}
use place_net_hamlet.Ca.Devices.{
  DeviceRequest, Answer, sign, look_up, revoke_cert, ask_revoked, serve, serve_all, Certificate,
  Directory, update, issue, withdraw, answer, answer_all, directory, certificate,
}

find-upsert :
    (new : DeviceRow) (id : Text) (rows : List DeviceRow)
    → find_device id (upsert_device new rows)
      ≡ (if same new.device_id id then some new else find_device id rows)
unfolding find_device upsert_device
find-upsert new id [] = refl
find-upsert new id (row ∷ rows) = ground (
  arith,
  find-upsert new id rows,
  same_iff new.device_id id,
  same_iff row.device_id new.device_id,
  same_iff row.device_id id,
)

abbrev withdrawn : Option Certificate → Option Certificate
withdrawn none = none
withdrawn (some c) = some (record c { is_revoked = true })

find-mark :
    (marked id : Text) (rows : List DeviceRow)
    → certificate (find_device id (mark_revoked marked rows)) ≡ (
        if same marked id
        then withdrawn (certificate (find_device marked rows))
        else certificate (find_device id rows))
unfolding find_device mark_revoked
find-mark marked id [] = ground arith
find-mark marked id (row ∷ rows) = ground (
  arith,
  find-mark marked id rows,
  same_iff marked id,
  same_iff row.device_id marked,
  same_iff row.device_id id,
)

affected-find :
    (id : Text) (rows : List DeviceRow)
    → (rows_affected id rows == 0) ≡ not (is_some (find_device id rows))
unfolding rows_affected find_device
affected-find id [] = ground arith
affected-find id (row ∷ rows) = ground (arith, affected-find id rows)

directory-upsert :
    (new : DeviceRow) (rows : List DeviceRow)
    → directory (upsert_device new rows)
      ≡ update new.device_id (certificate (some new)) (directory rows)
unfolding directory
directory-upsert new rows = fun_ext (λ id. rw (find-upsert new id rows) (ground arith))

directory-mark :
    (id : Text) (rows : List DeviceRow)
    → directory (mark_revoked id rows) ≡ update id (withdrawn (directory rows id)) (directory rows)
unfolding directory
directory-mark id rows = fun_ext (λ j. find-mark id j rows)

-- The row that holds a certificate.
abbrev pub row_of : Text → Certificate → DeviceRow
row_of id c = record {
  device_id = id;
  cert_pem = c.pem;
  issued_at = c.issued_at;
  expires_at = c.expires_at;
  revoked = 0;
}

module _ {K C Q : Type 0} (rcgen : Rcgen K C Q) (c : Call K) (id : Text) (s : CaService K C) where
  pub sign_csr-issue :
      (csr_pem : Text)
      → sign_csr rcgen c id csr_pem s ≡ (do
        cert ← issue rcgen s.state c csr_pem
        let rows = upsert_device (row_of id cert) s.tables.device_certs
        ok (cert.pem, record s.tables { device_certs = rows }))
  unfolding sign_csr issue
  sign_csr-issue csr_pem = ground arith

  pub issue_fresh :
      (csr_pem : Text) (cert : Certificate)
      → issue rcgen s.state c csr_pem ≡ ok cert
      → cert.is_revoked ≡ false
  unfolding issue
  issue_fresh csr_pem cert h = ground arith

  revoke-withdraw :
      (let rows = s.tables.device_certs in
        revoke rcgen c id s ≡ (do
          cert ← withdraw c id (directory rows id)
          ok (tt, record s.tables { device_certs = mark_revoked id rows })))
  unfolding revoke withdraw directory
  revoke-withdraw = ground (arith, affected-find id s.tables.device_certs)

  pub stored :
      (csr_pem : Text) (cert : Certificate)
      → issue rcgen s.state c csr_pem ≡ ok cert
      → directory (upsert_device (row_of id cert) s.tables.device_certs)
        ≡ update id (some cert) (directory s.tables.device_certs)
  stored csr_pem cert h =
      directory-upsert (row_of id cert) s.tables.device_certs
      ∙ ap (λ (o : Option Certificate). update id o (directory s.tables.device_certs))
          (ground (arith, issue_fresh csr_pem cert h))

  marked :
      (cert : Certificate)
      → withdraw c id (directory s.tables.device_certs id) ≡ ok cert
      → directory (mark_revoked id s.tables.device_certs)
        ≡ update id (some cert) (directory s.tables.device_certs)
  unfolding withdraw
  marked cert h =
      directory-mark id s.tables.device_certs
      ∙ ap (λ (o : Option Certificate). update id o (directory s.tables.device_certs))
          (ground arith)

module _ {K C Q : Type 0} (rcgen : Rcgen K C Q) where
  -- One call: the answers agree, and the rows that it leaves stand for the directory that it leaves.
  serve_refines :
      (c : Call K) (r : DeviceRequest) (s : CaService K C)
      → let (s', a) = serve rcgen c r s in
        let (d', b) = answer rcgen s.state c r (directory s.tables.device_certs) in
        (a ≡ b) × (directory s'.tables.device_certs ≡ d') × (s'.state ≡ s.state)
  unfolding serve answer
  serve_refines c (sign id csr_pem) s = elim (Result-cases (issue rcgen s.state c csr_pem)) [
    | inl (cert, h) ↦
        rw (sign_csr-issue rcgen c id s csr_pem)
          (rw (h, answer) (refl, stored rcgen c id s csr_pem cert h, refl))
    | inr (e, h) ↦ rw (sign_csr-issue rcgen c id s csr_pem) (rw (h, answer) (refl, refl, refl))
  ]
  serve_refines c (look_up id) s = unfold get_cert directory in (ground arith, refl, refl)
  serve_refines c (revoke_cert id) s =
      elim (Result-cases (withdraw c id (directory s.tables.device_certs id))) [
        | inl (cert, h) ↦
            rw (revoke-withdraw rcgen c id s)
              (rw (h, answer) (refl, marked rcgen c id s cert h, refl))
        | inr (e, h) ↦ rw (revoke-withdraw rcgen c id s) (rw (h, answer) (refl, refl, refl))
      ]
  serve_refines c (ask_revoked id) s = unfold is_revoked directory in (ground arith, refl, refl)

  -- Over every sequence of calls about devices, however their statements fare, the table of rows
  -- gives the answers of the directory that it stands for, and stands for that directory's last
  -- state at the end.
  pub serve_all_refines :
      (rs : List (Call K × DeviceRequest)) (s : CaService K C)
      → let (s', answers) = serve_all rcgen rs s in
        let (d', expected) = answer_all rcgen s.state rs (directory s.tables.device_certs) in
        (answers ≡ expected) × (directory s'.tables.device_certs ≡ d')
  unfolding serve_all answer_all
  serve_all_refines [] s = (refl, refl)
  serve_all_refines ((c, r) ∷ rs) s =
      let (a, d, st) = serve_refines c r s in
      let (rest, last) = serve_all_refines rs (serve rcgen c r s).0 in
      let t = (serve rcgen c r s).0 in
      let joined = λ (x : Directory) (e : directory t.tables.device_certs ≡ x).
        ap (λ o. answer_all rcgen o rs (directory t.tables.device_certs)) st
        ∙ ap (answer_all rcgen s.state rs) e in
      let same_end = joined _ d in
      (
        ap₂ ◌∷◌ a (rest ∙ ap (λ (p : Directory × List Answer). p.1) same_end),
        last ∙ ap (λ (p : Directory × List Answer). p.0) same_end,
      )
