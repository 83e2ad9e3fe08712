-- ===== src/Supervisor/Held.antt =====
-- src/supervisor.rs: a property of a service that its own `start` and `stop` keep is kept by the
-- supervisor, whatever commands arrive. The operations may differ from command to command, as the
-- outcomes of a service's calls of its host do.
use place_net_hamlet.Common.{
  ◌≡◌, List, [], ◌∷◌, some, inl, inr, Bool-cases, Option-cases, All, same,
}
use place_net_hamlet.Common.Map.{get, insert, modify}
use place_net_hamlet.Services.{ServiceId, service_eq}
use place_net_hamlet.Supervisor.{
  starting, ManagedService, Supervisor, SupervisorCommand, status, is_running_status, handle_start,
  handle_stop, handle_restart, serve,
}
use place_net_hamlet.Supervisor.Guards.{
  can_start, can_stop, handle_start_refused, handle_start_missing, handle_start-eq-launch,
  handle_stop_refused, handle_stop_missing, stop_guard_passes, launch_lem, halt_lem,
}
use place_net_hamlet.Supervisor.Transitions.{handle_stop-eq-halt}

-- Every registered service satisfies a predicate.
abbrev pub AllServices : {S : Type 0} → (S → Type 0) → Supervisor S → Type 0
AllServices P s = All (λ (p : ServiceId × _). P p.1) s.services

module _ {S : Type 0} (P : S → Type 0) where
  All-insert :
      (id : ServiceId) (v : S) (m : List (ServiceId × S))
      → P v
      → All (λ (p : ServiceId × S). P p.1) m
      → All (λ (p : ServiceId × S). P p.1) (insert id v m)
  unfolding insert
  All-insert id v [] h all = (h, tt)
  All-insert id v ((j, w) ∷ m) h all = elim (Bool-cases (same j id)) [
    | inl hit ↦ rw hit (h, all.1)
    | inr miss ↦ rw miss (all.0, All-insert id v m h all.1)
  ]

  All-get :
      (id : ServiceId) (v : S) (m : List (ServiceId × S))
      → All (λ (p : ServiceId × S). P p.1) m
      → get id m ≡ some v
      → P v
  unfolding get
  All-get id v [] all = λ h. absurd (cc)
  All-get id v ((j, w) ∷ m) all = elim (Bool-cases (same j id)) [
    | inl hit ↦ rw hit (λ h. let e : w ≡ v = cc in rw (← e) all.0)
    | inr miss ↦ rw miss (All-get id v m all.1)
  ]

-- Both operations keep the predicate.
pub record KeptBy {S : Type 0} (P : S → Type 0) (ops : ManagedService S) : Type 0 where
  pub by_start : (s : S) → P s → P (ops.start s).0
  pub by_stop : (s : S) → P s → P (ops.stop s).0

module _ {S : Type 0} (P : S → Type 0) (ops : ManagedService S) (kept : KeptBy P ops) where
  start-AllServices :
      (id : ServiceId) (s : Supervisor S)
      → AllServices P s
      → AllServices P (handle_start ops id s).0
  start-AllServices id s all = elim (Bool-cases (can_start (get id s.statuses))) [
    | inr h ↦ let (e, p) = handle_start_refused ops id s h in rw p all
    | inl h ↦ elim (Option-cases (get id s.services)) [
      | inl gone ↦ rw (handle_start_missing ops id s h gone) all
      | inr (svc, there) ↦ rw (handle_start-eq-launch ops id s svc h there) (
          rw (launch_lem ops id s svc (record s { statuses = insert id starting s.statuses })) (
            All-insert P id (ops.start svc).0 s.services
              (kept.by_start svc (All-get P id svc s.services all there)) all))
    ]
  ]

  stop-AllServices :
      (id : ServiceId) (s : Supervisor S) → AllServices P s → AllServices P (handle_stop ops id s).0
  stop-AllServices id s all = elim (Bool-cases (can_stop (get id s.statuses))) [
    | inr h ↦ let (e, p) = handle_stop_refused ops id s h in rw p all
    | inl h ↦ elim (Option-cases (get id s.services)) [
      | inl gone ↦ rw (handle_stop_missing ops id s h gone) all
      | inr (svc, there) ↦ rw (handle_stop-eq-halt ops id s svc (stop_guard_passes id _ h) there) (
          rw (halt_lem ops id s svc) (
            All-insert P id (ops.stop svc).0 s.services
              (kept.by_stop svc (All-get P id svc s.services all there)) all))
    ]
  ]

  restart-AllServices :
      (id : ServiceId) (s : Supervisor S)
      → AllServices P s
      → AllServices P (handle_restart ops id s).0
  unfolding handle_restart
  restart-AllServices id s all = elim (Bool-cases (is_running_status (get id s.statuses))) [
    | inl h ↦ rw (h, handle_restart) (start-AllServices id _ (stop-AllServices id s all))
    | inr h ↦ rw (h, handle_restart) (start-AllServices id s all)
  ]

  -- One command keeps the predicate of every service.
  pub serve-AllServices :
      (c : SupervisorCommand) (s : Supervisor S) → AllServices P s → AllServices P (serve ops c s).0
  unfolding serve
  serve-AllServices (SupervisorCommand.start id) s all = start-AllServices id s all
  serve-AllServices (SupervisorCommand.stop id) s all = stop-AllServices id s all
  serve-AllServices (SupervisorCommand.restart id) s all = restart-AllServices id s all
  serve-AllServices status s all = all

-- Commands, each with the outcomes that the services' operations meet in it.
unfoldable pub serve_each :
    {S H : Type 0}
    → (H → ManagedService S)
    → List (H × SupervisorCommand)
    → Supervisor S
    → Supervisor S
unfolding serve
serve_each ops [] s = s
serve_each ops ((h, c) ∷ cs) s = serve_each ops cs (serve (ops h) c s).0

pub serve_each-AllServices :
    {S H : Type 0} (P : S → Type 0) (ops : H → ManagedService S) (kept : (h : H) → KeptBy P (ops h))
    (cs : List (H × SupervisorCommand)) (s : Supervisor S)
    → AllServices P s
    → AllServices P (serve_each ops cs s)
unfolding serve_each
serve_each-AllServices P ops kept [] s all = all
serve_each-AllServices P ops kept ((h, c) ∷ cs) s all =
    serve_each-AllServices P ops kept cs (serve (ops h) c s).0
      (serve-AllServices P (ops h) (kept h) c s all)

-- A step is a command with the outcomes that it meets, or something that befalls a service in between.
pub data Step (H : Type 0) : Type 0 where
  commanded : H → SupervisorCommand → Step H
  befallen : ServiceId → Step H

module _ {S H : Type 0} (ops : H → ManagedService S) (befall : S → S) where
  unfoldable pub take_steps : List (Step H) → Supervisor S → Supervisor S
  unfolding serve modify
  take_steps [] s = s
  take_steps (commanded h c ∷ xs) s = take_steps xs (serve (ops h) c s).0
  take_steps (befallen id ∷ xs) s =
      take_steps xs (record s { services = modify id befall s.services })

module _ {S : Type 0} (P : S → Type 0) (befall : S → S) (keeps : (s : S) → P s → P (befall s)) where
  All-modify :
      (id : ServiceId) (m : List (ServiceId × S))
      → All (λ (p : ServiceId × S). P p.1) m
      → All (λ (p : ServiceId × S). P p.1) (modify id befall m)
  unfolding modify
  All-modify id [] all = tt
  All-modify id ((j, v) ∷ m) all = elim (Bool-cases (same j id)) [
    | inl hit ↦ rw hit (keeps v all.0, all.1)
    | inr miss ↦ rw miss (all.0, All-modify id m all.1)
  ]

  pub take_steps-AllServices :
      {H : Type 0} (ops : H → ManagedService S) (kept : (h : H) → KeptBy P (ops h))
      (xs : List (Step H)) (s : Supervisor S)
      → AllServices P s
      → AllServices P (take_steps ops befall xs s)
  unfolding take_steps
  take_steps-AllServices ops kept [] s all = all
  take_steps-AllServices ops kept (commanded h c ∷ xs) s all =
      take_steps-AllServices ops kept xs (serve (ops h) c s).0
        (serve-AllServices P (ops h) (kept h) c s all)
  take_steps-AllServices ops kept (befallen id ∷ xs) s all =
      take_steps-AllServices ops kept xs (record s { services = modify id befall s.services })
        (All-modify id s.services all)
