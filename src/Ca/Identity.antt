-- ===== src/Ca/Identity.antt =====
-- src/infra/ca: what stays the same over calls and restarts of the program, which reads the tables
-- again.
use place_net_hamlet.Common.{
  ◌≡◌, ◌≢◌, refl, ap, ◌∙◌, List, [], ◌∷◌, none, some, ok, Text, arith, inl, inr, Option-cases,
}
use place_net_hamlet.Ca.Tables.{CaRow, NodeRow, Tables, insert_one}
use place_net_hamlet.Ca.Operations.{
  Rcgen, load_ca_from_db, generate_and_persist_ca, load_or_generate_ca,
}
use place_net_hamlet.Ca.Service.{
  Call, CaService, settle, new, init, sign_csr, revoke, create_node_identity, ensure_node_identity,
}
use place_net_hamlet.Ca.Devices.{DeviceRequest, sign, revoke_cert, serve}

-- What the program does with the authority.
pub data Step : Type 0 where
  device : DeviceRequest → Step
  identity : Step
  -- The program ends and starts again on the same database.
  restart : Step

module _ {K C Q : Type 0} (rcgen : Rcgen K C Q) where
  unfoldable pub step : Call K → Step → CaService K C → CaService K C
  unfolding serve ensure_node_identity init new
  step c (device r) s = (serve rcgen c r s).0
  step c identity s = (settle s (ensure_node_identity rcgen c s)).0
  step c restart s = (init rcgen c (new s.tables)).0

  unfoldable pub steps : List (Call K × Step) → CaService K C → CaService K C
  unfolding step
  steps [] s = s
  steps ((c, x) ∷ xs) s = steps xs (step c x s)

  sign_keeps :
      (c : Call K) (id csr : Text) (s : CaService K C)
      → let t = (settle s (sign_csr rcgen c id csr s)).0.tables in
        (t.ca_keys ≡ s.tables.ca_keys) × (t.node_identity ≡ s.tables.node_identity)
  unfolding sign_csr
  sign_keeps c id csr s = ground arith

  revoke_keeps :
      (c : Call K) (id : Text) (s : CaService K C)
      → let t = (settle s (revoke rcgen c id s)).0.tables in
        (t.ca_keys ≡ s.tables.ca_keys) × (t.node_identity ≡ s.tables.node_identity)
  unfolding revoke
  revoke_keeps c id s = ground arith

  serve_keeps :
      (c : Call K) (r : DeviceRequest) (s : CaService K C)
      → let t = (serve rcgen c r s).0.tables in
        (t.ca_keys ≡ s.tables.ca_keys) × (t.node_identity ≡ s.tables.node_identity)
  unfolding serve
  serve_keeps c (sign id csr) s = sign_keeps c id csr s
  serve_keeps c (revoke_cert id) s = revoke_keeps c id s
  serve_keeps c _ s = (refl, refl)

  identity_keeps :
      (c : Call K) (s : CaService K C)
      → (settle s (ensure_node_identity rcgen c s)).0.tables.ca_keys ≡ s.tables.ca_keys
  unfolding ensure_node_identity create_node_identity
  identity_keeps c s = ground arith

  identity_stays :
      (c : Call K) (row : NodeRow) (s : CaService K C)
      → s.tables.node_identity ≡ some row
      → (settle s (ensure_node_identity rcgen c s)).0.tables ≡ s.tables
  unfolding ensure_node_identity
  identity_stays c row s h = ground arith

  load_keeps :
      (c : Call K) (t : Tables) → (init rcgen c (new t)).0.tables.node_identity ≡ t.node_identity
  unfolding init new load_or_generate_ca generate_and_persist_ca
  load_keeps c t = ground arith

  load_stays :
      (c : Call K) (row : CaRow) (t : Tables)
      → t.ca_keys ≡ some row
      → (init rcgen c (new t)).0.tables ≡ t
  unfolding init new load_or_generate_ca load_ca_from_db
  load_stays c row t h = ground arith

  step_keeps_node :
      (c : Call K) (x : Step) (row : NodeRow) (s : CaService K C)
      → s.tables.node_identity ≡ some row
      → (step c x s).tables.node_identity ≡ some row
  unfolding step
  step_keeps_node c (device r) row s h = (serve_keeps c r s).1 ∙ h
  step_keeps_node c identity row s h =
      ap (λ (t : Tables). t.node_identity) (identity_stays c row s h) ∙ h
  step_keeps_node c restart row s h = load_keeps c s.tables ∙ h

  step_keeps_ca :
      (c : Call K) (x : Step) (row : CaRow) (s : CaService K C)
      → s.tables.ca_keys ≡ some row
      → (step c x s).tables.ca_keys ≡ some row
  unfolding step
  step_keeps_ca c (device r) row s h = (serve_keeps c r s).0 ∙ h
  step_keeps_ca c identity row s h = identity_keeps c s ∙ h
  step_keeps_ca c restart row s h = ap (λ (t : Tables). t.ca_keys) (load_stays c row s.tables h) ∙ h

  steps_keep_node :
      (xs : List (Call K × Step)) (row : NodeRow) (s : CaService K C)
      → s.tables.node_identity ≡ some row
      → (steps xs s).tables.node_identity ≡ some row
  unfolding steps
  steps_keep_node [] row s h = h
  steps_keep_node ((c, x) ∷ xs) row s h =
      steps_keep_node xs row (step c x s) (step_keeps_node c x row s h)

  pub steps_keep_ca :
      (xs : List (Call K × Step)) (row : CaRow) (s : CaService K C)
      → s.tables.ca_keys ≡ some row
      → (steps xs s).tables.ca_keys ≡ some row
  unfolding steps
  steps_keep_ca [] row s h = h
  steps_keep_ca ((c, x) ∷ xs) row s h =
      steps_keep_ca xs row (step c x s) (step_keeps_ca c x row s h)

  -- A call that succeeds leaves the identity that it returns in the table.
  identity_there :
      (c : Call K) (s : CaService K C) (pair : Text × Text)
      → let (s', made) = settle s (ensure_node_identity rcgen c s) in
        made ≡ ok pair → s'.tables.node_identity ≢ none
  unfolding ensure_node_identity create_node_identity insert_one
  identity_there c s pair made = ground arith

  identity_row :
      (c : Call K) (s : CaService K C) (pair : Text × Text) (row : NodeRow)
      → let (s', made) = settle s (ensure_node_identity rcgen c s) in
        made ≡ ok pair → s'.tables.node_identity ≡ some row → (row.cert_pem, row.key_pem) ≡ pair
  unfolding ensure_node_identity create_node_identity insert_one
  identity_row c s pair row made there = ground arith

  identity_read :
      (c : Call K) (row : NodeRow) (s : CaService K C)
      → s.tables.node_identity ≡ some row
      → c.db.query ≡ ok tt
      → (settle s (ensure_node_identity rcgen c s)).1 ≡ ok (row.cert_pem, row.key_pem)
  unfolding ensure_node_identity
  identity_read c row s h q = ground arith

  -- Once a call has returned the node's certificate and key, a later call whose query succeeds
  -- returns the same, whatever calls and restarts of the program are between, and however those
  -- fare.
  pub node_identity_stable :
      (first later : Call K) (xs : List (Call K × Step)) (s : CaService K C) (pair : Text × Text)
      → let (s', made) = settle s (ensure_node_identity rcgen first s) in
        made ≡ ok pair
        → later.db.query ≡ ok tt
        → (settle (steps xs s') (ensure_node_identity rcgen later (steps xs s'))).1 ≡ ok pair
  node_identity_stable first later xs s pair made q =
      let s' = (settle s (ensure_node_identity rcgen first s)).0 in
      elim (Option-cases s'.tables.node_identity) [
        | inl gone ↦ absurd (identity_there first s pair made gone)
        | inr (row, there) ↦
            identity_read later row (steps xs s') (steps_keep_node xs row s' there) q
            ∙ ap ok (identity_row first s pair row made there)
      ]
