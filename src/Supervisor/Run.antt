-- ===== src/Supervisor/Run.antt =====
-- src/supervisor.rs: what holds of the supervisor over every sequence of commands.
use place_net_hamlet.Common.{
  ℕ, ◌≡◌, refl, sym, ap, ◌∙◌, ◌≢◌, inl, inr, List, [], ◌∷◌, Option, none, some, Bool, true, false,
  Result, ok, err, is_ok, Text, arith, if◌then◌else◌, is_some, same, Bool-cases, Option-cases,
}
use place_net_hamlet.Common.Map.{get, get-insert}
use place_net_hamlet.Services.{ServiceId, service_eq, service_same_iff}
use place_net_hamlet.Supervisor.{
  ServiceStatus, unavailable, stopped, starting, ManagedService, Supervisor, SupervisorCommand, new,
  register, status, is_running_status, handle_start, handle_stop, handle_restart, serve, serve_all,
}
use place_net_hamlet.Supervisor.Guards.{
  can_start, can_stop, status_of, handle_start_refused, SameBut, stop_guard_passes,
  handle_stop_refused, handle_stop_missing,
}
use place_net_hamlet.Supervisor.Transitions.{handle_start_calls, handle_stop_calls}

-- Each status belongs to a service and each service has a status, and between two commands no
-- service is starting.
pub record IsWellFormed {S : Type 0} (s : Supervisor S) : Type 0 where
  pub paired : (id : ServiceId) → is_some (get id s.statuses) ≡ is_some (get id s.services)
  pub settled : (id : ServiceId) → get id s.statuses ≢ some starting

-- A supervisor with no service is well-formed.
pub new-IsWellFormed : {S : Type 0} → IsWellFormed (new {S = S})
unfolding new get
new-IsWellFormed = record { paired = λ id. refl; settled = λ id e. cc }

-- Registering a service keeps a supervisor well-formed.
pub register-IsWellFormed :
    {S : Type 0} (id : ServiceId) (svc : S) (available : Bool) (s : Supervisor S)
    → IsWellFormed s
    → IsWellFormed (register id svc available s)
unfolding register
register-IsWellFormed id svc available s w = record {
  paired = λ j. ground (
    arith,
    w.paired j,
    get-insert id j (if available then stopped else unavailable) s.statuses,
    get-insert id j svc s.services,
  );
  settled = λ j e.
      ground (
        arith,
        w.settled j,
        get-insert id j (if available then stopped else unavailable) s.statuses,
      );
}

SameBut-IsWellFormed :
    {S : Type 0} (id : ServiceId) (s t : Supervisor S)
    → IsWellFormed s
    → SameBut id s t
    → is_some (get id t.statuses) ≡ is_some (get id t.services)
    → get id t.statuses ≢ some starting
    → IsWellFormed t
SameBut-IsWellFormed {S} id s t w same_but p q = record {
  paired = λ j. elim (Bool-cases (same id j)) [
    | inl e ↦ rw (← (service_same_iff id j).0 e) p
    | inr e ↦
        let ne : id ≢ j = λ h. cc ((service_same_iff id j).1 h) in
        ap is_some (same_but j ne).0 ∙ w.paired j ∙ sym (ap is_some (same_but j ne).1)
  ];
  settled = λ j e. elim (Bool-cases (same id j)) [
    | inl h ↦ q (ap (λ k. get k t.statuses) ((service_same_iff id j).0 h) ∙ e)
    | inr h ↦
        let ne : id ≢ j = λ h'. cc ((service_same_iff id j).1 h') in
        w.settled j (sym (same_but j ne).0 ∙ e)
  ];
}

status_of-ne-starting : (r : Result Text ℕ) → some (status_of r) ≢ some starting
status_of-ne-starting (ok pid) e = cc
status_of-ne-starting (err x) e = cc

startable : (o : Option ServiceStatus) → can_start o ≡ true → is_some o ≡ true
startable none h = cc
startable (some x) h = refl

from_some {ℓ} : {A : Type ℓ} (o : Option A) → is_some o ≡ true → (a : A) × (o ≡ some a)
from_some none h = cc
from_some (some a) h = (a, refl)

status_after :
    (b : Bool) (o : Option ServiceStatus) (o' : Option ServiceStatus) (k : Bool)
    → o' ≡ (if b then some stopped else o)
    → k ≡ true
    → is_some o ≡ true
    → is_some o' ≡ k
status_after b o o' k p q r = ground arith

settled_after :
    (b : Bool) (o o' : Option ServiceStatus)
    → o' ≡ (if b then some stopped else o)
    → o ≢ some starting
    → o' ≢ some starting
settled_after true o o' p h e = cc
settled_after false o o' p h e = h (sym p ∙ e)

module _ {S : Type 0} (ops : ManagedService S) (id : ServiceId) (s : Supervisor S) where
  handle_start-IsWellFormed : IsWellFormed s → IsWellFormed (handle_start ops id s).0
  handle_start-IsWellFormed w = elim (Bool-cases (can_start (get id s.statuses))) [
    | inr h ↦ let (e, p) = handle_start_refused ops id s h in rw p w
    | inl h ↦
        let (svc, k) =
          from_some (get id s.services) (sym (w.paired id) ∙ startable (get id s.statuses) h) in
        let c = handle_start_calls ops id s svc h k in
        SameBut-IsWellFormed id s (handle_start ops id s).0 w c.3
          (ap is_some c.1 ∙ sym (ap is_some c.2))
          (λ e. status_of-ne-starting (ops.start svc).1 (sym c.1 ∙ e))
  ]

  handle_stop-IsWellFormed : IsWellFormed s → IsWellFormed (handle_stop ops id s).0
  handle_stop-IsWellFormed w = elim (Bool-cases (can_stop (get id s.statuses))) [
    | inr h ↦ let (e, p) = handle_stop_refused ops id s h in rw p w
    | inl h ↦ elim (Option-cases (get id s.services)) [
      | inl gone ↦ rw (handle_stop_missing ops id s h gone) w
      | inr (svc, k) ↦
          let c = handle_stop_calls ops id s svc (stop_guard_passes id _ h) k in
          SameBut-IsWellFormed id s (handle_stop ops id s).0 w c.3
            (status_after (is_ok (ops.stop svc).1) (get id s.statuses) _ _ c.1 (ap is_some c.2)
              (w.paired id ∙ ap is_some k))
            (settled_after (is_ok (ops.stop svc).1) (get id s.statuses) _ c.1 (w.settled id))
    ]
  ]

module _ {S : Type 0} (ops : ManagedService S) where
  handle_restart-IsWellFormed :
      (id : ServiceId) (s : Supervisor S)
      → IsWellFormed s
      → IsWellFormed (handle_restart ops id s).0
  unfolding handle_restart
  handle_restart-IsWellFormed id s w = elim (Bool-cases (is_running_status (get id s.statuses))) [
    | inl h ↦
        rw (h, handle_restart)
          (handle_start-IsWellFormed ops id (handle_stop ops id s).0
            (handle_stop-IsWellFormed ops id s w))
    | inr h ↦ rw (h, handle_restart) (handle_start-IsWellFormed ops id s w)
  ]

  -- So does every command.
  pub serve-IsWellFormed :
      (c : SupervisorCommand) (s : Supervisor S) → IsWellFormed s → IsWellFormed (serve ops c s).0
  unfolding serve
  serve-IsWellFormed (SupervisorCommand.start id) s w = handle_start-IsWellFormed ops id s w
  serve-IsWellFormed (SupervisorCommand.stop id) s w = handle_stop-IsWellFormed ops id s w
  serve-IsWellFormed (SupervisorCommand.restart id) s w = handle_restart-IsWellFormed id s w
  serve-IsWellFormed status s w = w

  -- Every sequence of commands takes a well-formed supervisor to a well-formed one: each status
  -- belongs to a service and each service has a status, and no service is left marked as
  -- starting.
  pub serve_all-IsWellFormed :
      (cs : List SupervisorCommand) (s : Supervisor S)
      → IsWellFormed s
      → IsWellFormed (serve_all ops cs s)
  unfolding serve_all
  serve_all-IsWellFormed [] s w = w
  serve_all-IsWellFormed (c ∷ cs) s w =
      serve_all-IsWellFormed cs (serve ops c s).0 (serve-IsWellFormed c s w)
