-- ===== src/Gateway/Issuing.antt =====
-- src/services/beacon_management/internals/handlers.rs on the authority of src/infra/ca: a device's
-- handshake with the authority that it leaves.
use place_net_hamlet.Common.{
  ◌≡◌, refl, ap, ◌∙◌, some, false, ok, Text, text_eq, same, if◌then◌else◌, arith, inl, inr,
  Result-cases,
}
use place_net_hamlet.Ca.Operations.{Rcgen}
use place_net_hamlet.Ca.Service.{
  Call, CaService, settle, sign_csr, ca_cert_pem, get_cert, is_revoked,
}
use place_net_hamlet.Ca.Revocation.{signed_again}
use place_net_hamlet.Gateway.Requests.{
  Request, json, text_response, json_response, DeviceInitRequest, init_request,
}
use place_net_hamlet.Gateway.Handlers.{
  World, AppState, register_identity, init_body, admit, handle_device_init,
}

module _ {K C Q : Type 0} (rcgen : Rcgen K C Q) where
  -- The authority as the handlers call it while they serve a request.
  unfoldable pub with_ca : Call K → World (CaService K C) → World (CaService K C)
  unfolding sign_csr ca_cert_pem
  with_ca c w = record w {
    sign_csr = λ id csr ca. settle ca (sign_csr rcgen c id csr ca);
    ca_cert_pem = ca_cert_pem rcgen;
  }

  -- An answer of 200 carries the certificate that was signed.
  admit_signed :
      (w : World (CaService K C)) (id : Text) (request : DeviceInitRequest)
      (s : AppState (CaService K C))
      → (admit w id request s).1.status ≡ 200
      → (cert_pem : Text) × ((w.sign_csr request.device.mdns.hostname request.device.csr_pem s.ca).1
          ≡ ok cert_pem)
        × ((admit w id request s).1.body
            ≡ json
                (init_body cert_pem (record s.brokerage_info { address = request.broker_host }) id))
  unfolding admit text_response json_response
  admit_signed w id request s =
      elim (Result-cases (w.sign_csr request.device.mdns.hostname request.device.csr_pem s.ca).1) [
        | inr (e, h) ↦ rw (h, admit) (λ status. absurd (omega arith))
        | inl (cert_pem, h) ↦
            elim (Result-cases
              (register_identity w s.brokerage request.device.mdns.hostname cert_pem s.written)) [
                | inr (e, k) ↦ rw (h, admit) (rw (k, admit) (λ status. absurd (omega arith)))
                | inl (files, k) ↦ rw (h, admit) (rw (k, admit) (λ status. (cert_pem, refl, refl)))
              ]
      ]

  -- Whatever the outcome, the authority is as its call left it.
  admit_ca :
      (w : World (CaService K C)) (id : Text) (request : DeviceInitRequest)
      (s : AppState (CaService K C))
      → (admit w id request s).0.ca
        ≡ (w.sign_csr request.device.mdns.hostname request.device.csr_pem s.ca).0
  unfolding admit
  admit_ca w id request s = ground arith

  -- Where a device's handshake has a request that can be read and is answered with 200, the
  -- answer carries a certificate that the authority's table then holds under the device's host
  -- name, not revoked, whatever it held before; for every other name the certificate and its
  -- revocation are as they were; the later queries succeed.
  pub device_init_recorded :
      (c later : Call K) (w : World (CaService K C)) (id : Text) (req : Request)
      (request : DeviceInitRequest) (s : AppState (CaService K C)) (other : Text)
      → let (s', resp) = handle_device_init (with_ca c w) id req s in
        init_request w.parse_device req ≡ ok request
        → resp.status ≡ 200
        → later.db.query ≡ ok tt
        → let name = request.device.mdns.hostname in
          let info = record s.brokerage_info { address = request.broker_host } in
          (cert_pem : Text) × (resp.body ≡ json (init_body cert_pem info id))
          × (get_cert rcgen later other s'.ca
              ≡ (if same name other then ok (some cert_pem) else get_cert rcgen later other s.ca))
          × (is_revoked rcgen later other s'.ca
              ≡ (if same name other then ok false else is_revoked rcgen later other s.ca))
  unfolding with_ca handle_device_init
  device_init_recorded c later w id req request s other parsed =
      rw (parsed, handle_device_init)
        (λ status q.
          let (cert_pem, signs, body) = admit_signed (with_ca c w) id request s status in
          let (found, flag) =
            signed_again rcgen request.device.mdns.hostname request.device.csr_pem s.ca c later
              cert_pem other signs q in
          let ca = admit_ca (with_ca c w) id request s in
          (
            cert_pem,
            body,
            ap (get_cert rcgen later other) ca ∙ found,
            ap (is_revoked rcgen later other) ca ∙ flag,
          ))
