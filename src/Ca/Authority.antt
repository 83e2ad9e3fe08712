-- ===== src/Ca/Authority.antt =====
-- src/infra/ca/operations.rs: the root authority over restarts of the program.
use place_net_hamlet.Common.{◌≡◌, refl, List, none, some, ok, arith}
use place_net_hamlet.Ca.Tables.{CaRow, Tables, insert_one}
use place_net_hamlet.Ca.Operations.{
  Rcgen, CertificateParams, CaState, ca_cn, root_params, restore_ca, load_ca_from_db,
  generate_and_persist_ca, load_or_generate_ca,
}
use place_net_hamlet.Ca.Service.{Call, new, init}
use place_net_hamlet.Ca.Identity.{Step, steps, steps_keep_ca}

module _ {K C Q : Type 0} (rcgen : Rcgen K C Q) where
  -- What the documentation of rcgen says of its formats: a key is read back as it was printed, and a
  -- self-signed certificate can be read and signed again with its key.
  pub record ReadsBack : Type 0 where
    pub key : (k : K) → rcgen.key_from_pem (rcgen.serialize_pem k) ≡ ok k
    pub cert :
        (p : CertificateParams) (k : K) (c : C)
        → rcgen.self_signed p k ≡ ok c
        → (p' : CertificateParams) × (c' : C) × (rcgen.from_ca_cert_pem (rcgen.pem c) ≡ ok p')
          × (rcgen.self_signed p' k ≡ ok c')

  -- The row that a new authority is kept in.
  abbrev row_of : CaState K C → CaRow
  row_of ca = record { cert_pem = rcgen.pem ca.cert; key_pem = rcgen.serialize_pem ca.key_pair }

  generated_state :
      (c : Call K) (t : Tables) (ca : CaState K C)
      → t.ca_keys ≡ none
      → (init rcgen c (new t)).0.state ≡ some ca
      → ((init rcgen c (new t)).0.tables.ca_keys ≡ some (row_of ca))
        × (rcgen.self_signed root_params ca.key_pair ≡ ok ca.cert)
  unfolding init new load_or_generate_ca load_ca_from_db generate_and_persist_ca insert_one
  generated_state c t ca empty made = (ground arith, ground arith)

  restored :
      (c : Call K) (t : Tables) (row : CaRow) (ca : CaState K C)
      → t.ca_keys ≡ some row
      → restore_ca rcgen row ≡ ok ca
      → c.db.migrate ≡ ok tt
      → c.db.query ≡ ok tt
      → init rcgen c (new t) ≡ (record { state = some ca; tables = t }, ok tt)
  unfolding init new load_or_generate_ca load_ca_from_db
  restored c t row ca there back m q = ground arith

  printed_back :
      (ca : CaState K C) (p : CertificateParams) (c : C)
      → rcgen.key_from_pem (rcgen.serialize_pem ca.key_pair) ≡ ok ca.key_pair
      → rcgen.from_ca_cert_pem (rcgen.pem ca.cert) ≡ ok p
      → rcgen.self_signed p ca.key_pair ≡ ok c
      → restore_ca rcgen (row_of ca)
        ≡ ok (record { subject_cn = ca_cn; cert = c; key_pair = ca.key_pair })
  unfolding restore_ca
  printed_back ca p c key cert again = rw key (rw cert (rw again))

  -- Where rcgen reads back what it prints, and the authority was generated in a table without
  -- one: after whatever calls and restarts, a start of the program whose migrations and query
  -- succeed loads an authority with the same key pair, and leaves the tables as they are.
  pub authority_stable :
      (first later : Call K) (xs : List (Call K × Step)) (t : Tables) (ca : CaState K C)
      → ReadsBack
      → t.ca_keys ≡ none
      → (init rcgen first (new t)).0.state ≡ some ca
      → later.db.migrate ≡ ok tt
      → later.db.query ≡ ok tt
      → let end = (steps rcgen xs (init rcgen first (new t)).0).tables in
        (ca' : CaState K C) × (init rcgen later (new end)
          ≡ (record { state = some ca'; tables = end }, ok tt))
        × (ca'.key_pair ≡ ca.key_pair)
  authority_stable first later xs t ca back empty made m q =
      let s = (init rcgen first (new t)).0 in
      let (row, signed) = generated_state first t ca empty made in
      let (p, c, read, again) = back.cert root_params ca.key_pair ca.cert signed in
      let kept = steps_keep_ca rcgen xs (row_of ca) s row in
      (
        record { subject_cn = ca_cn; cert = c; key_pair = ca.key_pair },
        restored later (steps rcgen xs s).tables (row_of ca) _ kept
            (printed_back ca p c (back.key ca.key_pair) read again) m q,
        refl,
      )
