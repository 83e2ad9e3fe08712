-- ===== src/Supervisor/Isolation.antt =====
-- src/supervisor.rs: a command touches no service but its own, and an unavailable service is never
-- touched at all.
use place_net_hamlet.Common.{
  ◌≡◌, refl, ap, ◌∙◌, ◌≢◌, List, [], ◌∷◌, Option, none, some, Result, err, Text, same, Bool-cases,
  Option-cases, arith, ◌⊎◌, inl, inr,
}
use place_net_hamlet.Common.Map.{get}
use place_net_hamlet.Services.{ServiceId, service_eq, service_same_iff}
use place_net_hamlet.Supervisor.{
  unavailable, ManagedService, Supervisor, SupervisorCommand, status, is_running_status,
  handle_start, handle_stop, handle_restart, serve, serve_all,
}
use place_net_hamlet.Supervisor.Guards.{
  can_start, can_stop, handle_start_refused, handle_start_missing, handle_stop_refused,
  handle_stop_missing, stop_guard_passes, SameBut, get-insert_ne,
}
use place_net_hamlet.Supervisor.Transitions.{handle_start_calls, handle_stop_calls}

-- The service that a command names.
abbrev pub target : SupervisorCommand → Option ServiceId
target (SupervisorCommand.start id) = some id
target (SupervisorCommand.stop id) = some id
target (SupervisorCommand.restart id) = some id
target status = none

SameBut-trans :
    {S : Type 0} (id : ServiceId) (s t u : Supervisor S)
    → SameBut id s t
    → SameBut id t u
    → SameBut id s u
SameBut-trans id s t u p q j ne = ((q j ne).0 ∙ (p j ne).0, (q j ne).1 ∙ (p j ne).1)

module _ {S : Type 0} (ops : ManagedService S) (id : ServiceId) where
  start-SameBut : (s : Supervisor S) → SameBut id s (handle_start ops id s).0
  start-SameBut s = elim (Bool-cases (can_start (get id s.statuses))) [
    | inr h ↦ let (e, p) = handle_start_refused ops id s h in rw p (λ j ne. (refl, refl))
    | inl h ↦ elim (Option-cases (get id s.services)) [
      | inl gone ↦
          rw (handle_start_missing ops id s h gone) (λ j ne. (get-insert_ne id j _ _ ne, refl))
      | inr (svc, k) ↦ (handle_start_calls ops id s svc h k).3
    ]
  ]

  stop-SameBut : (s : Supervisor S) → SameBut id s (handle_stop ops id s).0
  stop-SameBut s = elim (Bool-cases (can_stop (get id s.statuses))) [
    | inr h ↦ let (e, p) = handle_stop_refused ops id s h in rw p (λ j ne. (refl, refl))
    | inl h ↦ elim (Option-cases (get id s.services)) [
      | inl gone ↦ rw (handle_stop_missing ops id s h gone) (λ j ne. (refl, refl))
      | inr (svc, k) ↦ (handle_stop_calls ops id s svc (stop_guard_passes id _ h) k).3
    ]
  ]

  restart-SameBut : (s : Supervisor S) → SameBut id s (handle_restart ops id s).0
  unfolding handle_restart
  restart-SameBut s = elim (Bool-cases (is_running_status (get id s.statuses))) [
    | inl h ↦
        rw (h, handle_restart)
          (SameBut-trans id s (handle_stop ops id s).0
            (handle_start ops id (handle_stop ops id s).0).0 (stop-SameBut s)
            (start-SameBut (handle_stop ops id s).0))
    | inr h ↦ rw (h, handle_restart) (start-SameBut s)
  ]

-- A command changes neither the status nor the service of an id that it does not name.
pub serve-SameBut :
    {S : Type 0} (ops : ManagedService S) (c : SupervisorCommand) (s : Supervisor S) (j : ServiceId)
    → target c ≢ some j
    → (get j (serve ops c s).0.statuses ≡ get j s.statuses)
      × (get j (serve ops c s).0.services ≡ get j s.services)
unfolding serve
serve-SameBut ops (SupervisorCommand.start id) s j ne =
    start-SameBut ops id s j (λ e. ne (ap some e))
serve-SameBut ops (SupervisorCommand.stop id) s j ne = stop-SameBut ops id s j (λ e. ne (ap some e))
serve-SameBut ops (SupervisorCommand.restart id) s j ne =
    restart-SameBut ops id s j (λ e. ne (ap some e))
serve-SameBut ops status s j ne = (refl, refl)

module _ {S : Type 0} (ops : ManagedService S) (id : ServiceId) where
  unavailable_start :
      (s : Supervisor S)
      → get id s.statuses ≡ some unavailable
      → (e : Text) × (handle_start ops id s ≡ (s, err e))
  unavailable_start s u = handle_start_refused ops id s (ap can_start u)

  unavailable_stop :
      (s : Supervisor S)
      → get id s.statuses ≡ some unavailable
      → (e : Text) × (handle_stop ops id s ≡ (s, err e))
  unavailable_stop s u = handle_stop_refused ops id s (ap can_stop u)

  unavailable_restart :
      (s : Supervisor S)
      → get id s.statuses ≡ some unavailable
      → (e : Text) × (handle_restart ops id s ≡ (s, err e))
  unfolding handle_restart
  unavailable_restart s u =
      let (e, p) = unavailable_start s u in (e, rw (ap is_running_status u, handle_restart) p)

  serve_own :
      (c : SupervisorCommand) (s : Supervisor S)
      → get id s.statuses ≡ some unavailable
      → target c ≡ some id
      → (serve ops c s).0 ≡ s
  unfolding serve
  serve_own (SupervisorCommand.start k) s u e =
      let p : k ≡ id = cc in
      rw p (ap (λ (r : Supervisor S × Result Text (Unit {0})). r.0) (unavailable_start s u).1)
  serve_own (SupervisorCommand.stop k) s u e =
      let p : k ≡ id = cc in
      rw p (ap (λ (r : Supervisor S × Result Text (Unit {0})). r.0) (unavailable_stop s u).1)
  serve_own (SupervisorCommand.restart k) s u e =
      let p : k ≡ id = cc in
      rw p (ap (λ (r : Supervisor S × Result Text (Unit {0})). r.0) (unavailable_restart s u).1)
  serve_own status s u e = refl

  pub serve_unavailable :
      (c : SupervisorCommand) (s : Supervisor S)
      → get id s.statuses ≡ some unavailable
      → (get id (serve ops c s).0.statuses ≡ get id s.statuses)
        × (get id (serve ops c s).0.services ≡ get id s.services)
  serve_unavailable c s u = elim (target-cases (target c)) [
    | inl own ↦ rw (serve_own c s u own) (refl, refl)
    | inr other ↦ serve-SameBut ops c s id other
  ]
    where
      target-cases : (o : Option ServiceId) → (o ≡ some id) ⊎ (o ≢ some id)
      target-cases none = inr (λ e. cc)
      target-cases (some j) = elim (Bool-cases (same j id)) [
        | inl e ↦ inl (ap some ((service_same_iff j id).0 e))
        | inr e ↦ inr (λ h. ground (arith, service_same_iff j id))
      ]

  -- Whatever commands arrive, a service whose status is `unavailable` keeps that status, and the
  -- service itself is as it was.
  pub serve_all-unavailable :
      (cs : List SupervisorCommand) (s : Supervisor S)
      → get id s.statuses ≡ some unavailable
      → (get id (serve_all ops cs s).statuses ≡ some unavailable)
        × (get id (serve_all ops cs s).services ≡ get id s.services)
  unfolding serve_all
  serve_all-unavailable [] s u = (u, refl)
  serve_all-unavailable (c ∷ cs) s u =
      let (p, q) = serve_unavailable c s u in
      let (p', q') = serve_all-unavailable cs (serve ops c s).0 (p ∙ u) in (p', q' ∙ q)
