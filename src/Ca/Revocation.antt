-- ===== src/Ca/Revocation.antt =====
-- src/infra/ca/ca_service.rs: what becomes of a device's certificate, and of its revocation.
use place_net_hamlet.Common.{
  ◌≡◌, ap, ◌∙◌, List, [], ◌∷◌, Option, some, Bool, true, false, ok, Text, text_eq, same, same_iff,
  if◌then◌else◌, arith, inl, inr, Result-cases, All,
}
use place_net_hamlet.Ca.Operations.{Rcgen, CaState}
use place_net_hamlet.Ca.Service.{Call, CaService, settle, sign_csr, get_cert, is_revoked}
use place_net_hamlet.Ca.Devices.{
  DeviceRequest, sign, look_up, revoke_cert, ask_revoked, serve_all, Certificate, Directory, update,
  issue, withdraw, answer, answer_all, directory, pem_of, flag_of,
}
use place_net_hamlet.Ca.Refinement.{serve_all_refines, sign_csr-issue, issue_fresh, stored}

-- A call that does not sign for a device.
abbrev pub signs_for : Text → DeviceRequest → Bool
signs_for id (sign j csr_pem) = same j id
signs_for id _ = false

abbrev pub Unsigned : {K : Type 0} → Text → Call K × DeviceRequest → Type 0
Unsigned id (c, r) = signs_for id r ≡ false

module _ {K C Q : Type 0} (rcgen : Rcgen K C Q) (ca : Option (CaState K C)) (id : Text) where
  answer_keeps_flag :
      (c : Call K) (r : DeviceRequest) (d : Directory)
      → signs_for id r ≡ false
      → flag_of (d id) ≡ true
      → flag_of ((answer rcgen ca c r d).0 id) ≡ true
  unfolding answer withdraw
  answer_keeps_flag c (sign j csr_pem) d other h = ground arith
  answer_keeps_flag c (look_up j) d other h = h
  answer_keeps_flag c (revoke_cert j) d other h = ground (arith, same_iff j id)
  answer_keeps_flag c (ask_revoked j) d other h = h

  answer_all_keeps_flag :
      (rs : List (Call K × DeviceRequest)) (d : Directory)
      → All (Unsigned id) rs
      → flag_of (d id) ≡ true
      → flag_of ((answer_all rcgen ca rs d).0 id) ≡ true
  unfolding answer_all
  answer_all_keeps_flag [] d others h = h
  answer_all_keeps_flag ((c, r) ∷ rs) d others h =
      answer_all_keeps_flag rs (answer rcgen ca c r d).0 others.1
        (answer_keeps_flag c r d others.0 h)

module _ {K C Q : Type 0} (rcgen : Rcgen K C Q) (id : Text) (s : CaService K C) where
  is_revoked-directory :
      (c : Call K) (t : CaService K C)
      → c.db.query ≡ ok tt
      → is_revoked rcgen c id t ≡ ok (flag_of (directory t.tables.device_certs id))
  unfolding is_revoked directory
  is_revoked-directory c t h = ground arith

  flag_read :
      (c : Call K)
      → is_revoked rcgen c id s ≡ ok true
      → flag_of (directory s.tables.device_certs id) ≡ true
  unfolding is_revoked directory
  flag_read c h = ground arith

  -- A device whose certificate is revoked is still revoked after every sequence of calls about
  -- devices in which no call signs for it, where the last query succeeds.
  pub revoked_stays :
      (rs : List (Call K × DeviceRequest)) (before after : Call K)
      → is_revoked rcgen before id s ≡ ok true
      → All (Unsigned id) rs
      → after.db.query ≡ ok tt
      → is_revoked rcgen after id (serve_all rcgen rs s).0 ≡ ok true
  revoked_stays rs before after h others q =
      let (answers, ends) = serve_all_refines rcgen rs s in
      is_revoked-directory after (serve_all rcgen rs s).0 q
      ∙ ap (λ (d : Directory). ok (flag_of (d id))) ends
      ∙ ap ok (
          answer_all_keeps_flag rcgen s.state id rs (directory s.tables.device_certs) others
            (flag_read before h))

module _ {K C Q : Type 0} (rcgen : Rcgen K C Q) (c : Call K) (j : Text) (t : CaService K C) where
  get_cert-directory :
      c.db.query ≡ ok tt → get_cert rcgen c j t ≡ ok (pem_of (directory t.tables.device_certs j))
  unfolding get_cert directory
  get_cert-directory h = ground arith

module _ {K C Q : Type 0} (rcgen : Rcgen K C Q) (id csr_pem : Text) (s : CaService K C)
    (now later : Call K) where
  -- The rows after a signature that succeeded.
  signed_directory :
      (cert_pem : Text)
      → let (s', signed) = settle s (sign_csr rcgen now id csr_pem s) in
        signed ≡ ok cert_pem
        → (cert : Certificate) × (cert.pem ≡ cert_pem)
          × (cert.is_revoked ≡ false)
          × (directory s'.tables.device_certs
              ≡ update id (some cert) (directory s.tables.device_certs))
  signed_directory cert_pem = elim (Result-cases (issue rcgen s.state now csr_pem)) [
    | inl (cert, h) ↦ rw (sign_csr-issue rcgen now id s csr_pem) (
        rw (h, settle)
          (λ signed. (
            cert,
            cc,
            issue_fresh rcgen now id s csr_pem cert h,
            stored rcgen now id s csr_pem cert h,
          )))
    | inr (e, h) ↦
        rw (sign_csr-issue rcgen now id s csr_pem) (rw (h, settle) (λ signed. absurd (cc)))
  ]

  -- After a signature for a device that succeeds, queries that succeed give the new certificate
  -- for that device, not revoked, whatever was revoked before, and for every other device what
  -- they gave before.
  pub signed_again :
      (cert_pem : Text) (j : Text)
      → let (s', signed) = settle s (sign_csr rcgen now id csr_pem s) in
        signed ≡ ok cert_pem
        → later.db.query ≡ ok tt
        → (get_cert rcgen later j s'
            ≡ (if same id j then ok (some cert_pem) else get_cert rcgen later j s))
          × (is_revoked rcgen later j s'
              ≡ (if same id j then ok false else is_revoked rcgen later j s))
  signed_again cert_pem j signed q =
      let s' = (settle s (sign_csr rcgen now id csr_pem s)).0 in
      let (cert, pem, fresh, rows) = signed_directory cert_pem signed in
      let at_j = ap (λ (d : Directory). d j) rows in
      (
        get_cert-directory rcgen later j s' q
            ∙ ap (λ o. ok (pem_of o)) at_j
            ∙ ground (arith, get_cert-directory rcgen later j s q),
        is_revoked-directory rcgen j s later s' q
            ∙ ap (λ o. ok (flag_of o)) at_j
            ∙ ground (arith, is_revoked-directory rcgen j s later s q),
      )
