-- ===== src/Gateway/Handshake.antt =====
-- src/services/beacon_management/internals: which requests change anything, and what a handshake does
-- to the registry (src/services/beacon_management/registry.rs).
use place_net_hamlet.Common.{
  ℕ, suc, ◌≡◌, refl, ap, ◌⊎◌, [], ◌∷◌, ◌++◌, Option, none, some, true, false, Result, ok, Text,
  text_eq, text_same, text_same_iff, same_self, utf8, arith, length, length-append, Bool-cases,
  Result-cases, inl, inr, strip_suffix,
}
use mathlib.Core.Option
use place_net_hamlet.App.MessageLoop.{beacon_of}
use place_net_hamlet.Gateway.Requests.{
  Request, Response, DeviceInitRequest, supported_version, header_init, header_register,
  header_health, header, check_version, init_request, register_request,
}
use place_net_hamlet.Gateway.Handlers.{
  World, AppState, receive_topic, register_identity, admit, handle_device_init,
  handle_client_register,
}
use place_net_hamlet.Gateway.Dispatch.{contains_key, dispatch}

check_version_ok :
    (o : Option Text) (v : Text) → check_version o ≡ ok v → o ≡ some supported_version
unfolding check_version
check_version_ok none v h = cc
check_version_ok (some u) v h = elim (Bool-cases (text_same u supported_version)) [
  | inl e ↦ ap some ((text_same_iff u supported_version).0 e)
  | inr e ↦ let refused = rw (e, check_version) at h in absurd (cc)
]

init_request_version :
    {A : Type 0} (w : World A) (req : Request) (request : DeviceInitRequest)
    → init_request w.parse_device req ≡ ok request
    → header header_init req ≡ some supported_version
unfolding init_request check_version
init_request_version w req request h =
    elim (Result-cases (check_version (header header_init req))) [
      | inl (v, p) ↦ check_version_ok (header header_init req) v p
      | inr (e, p) ↦ let refused = rw (p, init_request) at h in absurd (cc)
    ]

longer : (id suffix : Text) → text_same (id ++ suffix) suffix ≡ true → length id ≡ 0
longer id suffix h =
    let e : length (id ++ suffix) ≡ length suffix =
      ap length ((text_same_iff (id ++ suffix) suffix).0 h) in
    omega (arith, length-append id suffix)

zero_ne : {n : ℕ} → suc n ≡ 0 → ⊥
zero_ne h = omega arith

strip_suffix-append : (suffix id : Text) → strip_suffix suffix (id ++ suffix) ≡ some id
unfolding strip_suffix
strip_suffix-append [] [] = unfold text_same in refl
strip_suffix-append (c ∷ s) [] = rw (same_self (c ∷ s))
strip_suffix-append suffix (c ∷ id) = elim (Bool-cases (text_same (c ∷ id ++ suffix) suffix)) [
  | inl e ↦ absurd (zero_ne (longer (c ∷ id) suffix e))
  | inr e ↦ rw e (ap (Option.map (λ p. c ∷ p)) (strip_suffix-append suffix id))
]

-- The message loop reads from a beacon's receive topic which beacon it is.
pub beacon_of-receive_topic : (id : Text) → beacon_of (receive_topic id) ≡ some id
unfolding beacon_of receive_topic
beacon_of-receive_topic id = strip_suffix-append (utf8 "/rec") id

-- A state with the authority of another.
abbrev pub with_ca_of : {A : Type 0} → AppState A → AppState A → AppState A
with_ca_of s t = record t { ca = s.ca }

module _ {A : Type 0} (w : World A) (id : Text) (s : AppState A) where
  -- An answer that is not 200 changes nothing but the authority.
  admit_changes :
      (request : DeviceInitRequest)
      → (with_ca_of s (admit w id request s).0 ≡ s) ⊎ ((admit w id request s).1.status ≡ 200)
  unfolding admit
  admit_changes request =
      let name = request.device.mdns.hostname in
      elim (Result-cases (w.sign_csr name request.device.csr_pem s.ca).1) [
        | inr (e, h) ↦ rw (h, admit) (inl refl)
        | inl (cert_pem, h) ↦
            elim (Result-cases (register_identity w s.brokerage name cert_pem s.written)) [
              | inr (e, k) ↦ rw (h, admit) (rw (k, admit) (inl refl))
              | inl (files, k) ↦ rw (h, admit) (rw (k, admit) (inr refl))
            ]
      ]

module _ {A : Type 0} (w : World A) (forward : Request → Result Text Response) (id : Text)
    (req : Request) (s : AppState A) where
  init_changes :
      let (s', resp) = handle_device_init w id req s in
      ((s' ≡ s) ⊎ (header header_init req ≡ some supported_version))
      × ((with_ca_of s s' ≡ s)
          ⊎ ((header header_init req ≡ some supported_version) × (resp.status ≡ 200)))
  unfolding handle_device_init
  init_changes = elim (Result-cases (init_request w.parse_device req)) [
    | inr (r, p) ↦ rw (p, handle_device_init) (inl refl, inl refl)
    | inl (request, p) ↦
        let version = init_request_version w req request p in
        rw (p, handle_device_init)
          (
            inr version,
            elim (admit_changes w id s request) [
              | inl same_state ↦ inl same_state
              | inr status ↦ inr (version, status)
            ],
          )
  ]

  -- A registration changes nothing but the authority.
  register_changes : with_ca_of s (handle_client_register w id req s).0 ≡ s
  unfolding handle_client_register
  register_changes = elim (Result-cases (register_request w.parse_csr req)) [
    | inl (request, p) ↦ rw (p, handle_client_register) refl
    | inr (r, p) ↦ rw (p, handle_client_register) refl
  ]

  -- A request changes the state that handlers share, the authority with what it persists
  -- included, only if it carries no health header, and either an init header with the supported
  -- version or a register header and no init header; it changes anything else than the authority
  -- only if it carries no health header and an init header with the supported version and is
  -- answered with 200.
  pub dispatch_changes :
      let (s', resp) = dispatch w forward id req s in
      ((s' ≡ s)
        ⊎ ((contains_key header_health req ≡ false)
            × ((header header_init req ≡ some supported_version)
                ⊎ ((contains_key header_init req ≡ false)
                    × (contains_key header_register req ≡ true)))))
      × ((with_ca_of s s' ≡ s)
          ⊎ ((contains_key header_health req ≡ false)
              × (header header_init req ≡ some supported_version)
              × (resp.status ≡ 200)))
  unfolding dispatch
  dispatch_changes = elim (Bool-cases (contains_key header_health req)) [
    | inl health ↦ rw health (inl refl, inl refl)
    | inr other ↦ elim (Bool-cases (contains_key header_init req)) [
      | inl init ↦ rw other (
          rw init (
            elim init_changes.0 [ inl e ↦ inl e | inr version ↦ inr (refl, inl version) ],
            elim init_changes.1 [ inl e ↦ inl e | inr answer ↦ inr (refl, answer.0, answer.1) ],
          ))
      | inr none_of_both ↦ elim (Bool-cases (contains_key header_register req)) [
        | inl register ↦
            rw other
              (rw none_of_both (rw register (inr (refl, inr (refl, refl)), inl register_changes)))
        | inr upstream ↦ rw other (rw none_of_both (rw upstream (inl refl, inl refl)))
      ]
    ]
  ]
