-- ===== src/Supervisor/OneShot.antt =====
-- src/supervisor.rs: services that give an end of a channel away when they start and never get it
-- back, as the gateway clients and the MQTT client do.
use place_net_hamlet.Common.{
  ◌≡◌, refl, ap, ◌∙◌, ◌≢◌, List, [], ◌∷◌, Option, none, some, Bool, true, false, ok, err, is_ok,
  Text, arith, if◌then◌else◌, same, Bool-cases, inl, inr, ◌⊎◌,
}
use place_net_hamlet.Common.Map.{get}
use place_net_hamlet.Services.{ServiceId, service_eq, service_same_iff}
use place_net_hamlet.Supervisor.{
  stopped, failed, ServiceStatus, ManagedService, Supervisor, SupervisorCommand, status,
  is_running_status, handle_start, handle_stop, handle_restart, serve, serve_all,
}
use place_net_hamlet.Supervisor.Guards.{
  can_start, can_stop, status_of, reply_of, handle_start_refused, handle_stop_refused,
  stop_guard_passes,
}
use place_net_hamlet.Supervisor.Transitions.{
  handle_start_calls, handle_stop_calls, handle_restart_calls,
}
use place_net_hamlet.Supervisor.Isolation.{target, serve-SameBut}

-- What makes a service one-shot: once it is spent it stays so, and a spent service does not start.
pub record OneShot {S : Type 0} (ops : ManagedService S) (Spent : S → Type 0) (reason : S → Text)
    : Type 0 where
  pub start_fails : (s : S) → Spent s → (ops.start s).1 ≡ err (reason s)
  pub start_keeps : (s : S) → Spent s → Spent (ops.start s).0
  pub stop_keeps : (s : S) → Spent s → Spent (ops.stop s).0

-- A registered service that is spent and not running.
pub record IsDown {S : Type 0} (Spent : S → Type 0) (id : ServiceId) (s : Supervisor S)
    : Type 0 where
  pub svc : S
  pub there : get id s.services ≡ some svc
  pub spent : Spent svc
  pub down : is_running_status (get id s.statuses) ≡ false

module _ {S : Type 0} (ops : ManagedService S) (Spent : S → Type 0) (reason : S → Text)
    (one_shot : OneShot ops Spent reason) where
  -- Restarting a running service that is spent stops it and does not start it again: the reply is
  -- the error of its `start`, and it ends up failed.
  pub restart_fails :
      (id : ServiceId) (s : Supervisor S) (svc : S)
      → is_running_status (get id s.statuses) ≡ true
      → get id s.services ≡ some svc
      → Spent svc
      → (ops.stop svc).1 ≡ ok tt
      → let e = reason (ops.stop svc).0 in
        ((handle_restart ops id s).1 ≡ err e)
        × (get id (handle_restart ops id s).0.statuses ≡ some (failed e))
  restart_fails id s svc up there spent halts =
      let c = handle_restart_calls ops id s svc up there halts in
      let e = one_shot.start_fails (ops.stop svc).0 (one_shot.stop_keeps svc spent) in
      (c.0 ∙ ap reply_of e, c.1 ∙ ap (λ r. some (status_of r)) e)

  start-IsDown :
      (id : ServiceId) (s : Supervisor S)
      → IsDown Spent id s
      → IsDown Spent id (handle_start ops id s).0
  start-IsDown id s d = elim (Bool-cases (can_start (get id s.statuses))) [
    | inr h ↦ let (e, p) = handle_start_refused ops id s h in rw p d
    | inl h ↦
        let c = handle_start_calls ops id s d.svc h d.there in
        record {
          svc = (ops.start d.svc).0;
          there = c.2;
          spent = one_shot.start_keeps d.svc d.spent;
          down =
              ap is_running_status
                (c.1 ∙ ap (λ r. some (status_of r)) (one_shot.start_fails d.svc d.spent));
        }
  ]

  halted :
      (b : Bool) (o : Option ServiceStatus)
      → is_running_status o ≡ false
      → is_running_status (if b then some stopped else o) ≡ false
  halted true o h = refl
  halted false o h = h

  stop-IsDown :
      (id : ServiceId) (s : Supervisor S)
      → IsDown Spent id s
      → IsDown Spent id (handle_stop ops id s).0
  stop-IsDown id s d = elim (Bool-cases (can_stop (get id s.statuses))) [
    | inr h ↦ let (e, p) = handle_stop_refused ops id s h in rw p d
    | inl h ↦
        let c = handle_stop_calls ops id s d.svc (stop_guard_passes id _ h) d.there in
        record {
          svc = (ops.stop d.svc).0;
          there = c.2;
          spent = one_shot.stop_keeps d.svc d.spent;
          down =
              ap is_running_status c.1
              ∙ halted (is_ok (ops.stop d.svc).1) (get id s.statuses) d.down;
        }
  ]

  own-IsDown :
      (id : ServiceId) (c : SupervisorCommand) (s : Supervisor S)
      → target c ≡ some id
      → IsDown Spent id s
      → IsDown Spent id (serve ops c s).0
  unfolding serve handle_restart
  own-IsDown id (SupervisorCommand.start k) s e d =
      let p : k ≡ id = cc in rw p (start-IsDown id s d)
  own-IsDown id (SupervisorCommand.stop k) s e d = let p : k ≡ id = cc in rw p (stop-IsDown id s d)
  own-IsDown id (SupervisorCommand.restart k) s e d =
      let p : k ≡ id = cc in rw p (rw (d.down, handle_restart) (start-IsDown id s d))
  own-IsDown id status s e d = d

  target-cases : (id : ServiceId) (o : Option ServiceId) → (o ≡ some id) ⊎ (o ≢ some id)
  target-cases id none = inr (λ e. cc)
  target-cases id (some j) = elim (Bool-cases (same j id)) [
    | inl e ↦ inl (ap some ((service_same_iff j id).0 e))
    | inr e ↦ inr (λ h. ground (arith, service_same_iff j id))
  ]

  serve-IsDown :
      (id : ServiceId) (c : SupervisorCommand) (s : Supervisor S)
      → IsDown Spent id s
      → IsDown Spent id (serve ops c s).0
  serve-IsDown id c s d = elim (target-cases id (target c)) [
    | inl own ↦ own-IsDown id c s own d
    | inr other ↦
        let (p, q) = serve-SameBut ops c s id other in
        record {
          svc = d.svc;
          there = q ∙ d.there;
          spent = d.spent;
          down = ap is_running_status p ∙ d.down;
        }
  ]

  -- Once a spent service is not running, no sequence of commands makes it run again.
  pub serve_all-IsDown :
      (id : ServiceId) (cs : List SupervisorCommand) (s : Supervisor S)
      → IsDown Spent id s
      → IsDown Spent id (serve_all ops cs s)
  unfolding serve_all
  serve_all-IsDown id [] s d = d
  serve_all-IsDown id (c ∷ cs) s d =
      serve_all-IsDown id cs (serve ops c s).0 (serve-IsDown id c s d)
