-- ===== src/Supervisor/Transitions.antt =====
-- src/supervisor.rs: what `handle_start`, `handle_stop` and `handle_restart` do on every branch.
use place_net_hamlet.Common.{
  ◌≡◌, refl, ap, ◌∙◌, ◌++◌, some, true, ok, err, is_ok, Text, utf8, arith, if◌then◌else◌,
}
use place_net_hamlet.Common.Map.{get, insert}
use place_net_hamlet.Services.{ServiceId, service_eq, debug}
use place_net_hamlet.Supervisor.{
  stopped, ManagedService, Supervisor, stop_guard, is_running_status, handle_start, halt,
  handle_stop, handle_restart,
}
use place_net_hamlet.Supervisor.Guards.{
  status_of, reply_of, can_start, launch_lem, handle_start-eq-launch, halt_lem, SameBut,
  get-insert_ne, get-insert_self, running_passes, handle_start_running,
}

module _ {S : Type 0} (ops : ManagedService S) (id : ServiceId) (s : Supervisor S) (svc : S) where
  -- Where the status allows a start and the service is there, the service's own `start` runs
  -- once, on the registered service: its result decides the reply and between `running` and
  -- `failed`, the service that it left is kept, and no other entry changes.
  pub handle_start_calls :
      can_start (get id s.statuses) ≡ true
      → get id s.services ≡ some svc
      → let (svc', result) = ops.start svc in
        let (s', reply) = handle_start ops id s in
        (reply ≡ reply_of result)
        × (get id s'.statuses ≡ some (status_of result))
        × (get id s'.services ≡ some svc')
        × SameBut id s s'
  handle_start_calls h k =
      rw (handle_start-eq-launch ops id s svc h k, launch_lem ops id s svc)
        (
          refl,
          get-insert_self id _ _,
          get-insert_self id _ _,
          λ j ne. (
            get-insert_ne id j _ _ ne ∙ get-insert_ne id j _ s.statuses ne,
            get-insert_ne id j _ s.services ne,
          ),
        )

  pub handle_stop-eq-halt :
      stop_guard id (get id s.statuses) ≡ ok tt
      → get id s.services ≡ some svc
      → handle_stop ops id s ≡ halt ops id svc s
  unfolding handle_stop
  handle_stop-eq-halt h k = rw (h, handle_stop) (rw (k, handle_stop))

  halt_statuses :
      (j : ServiceId)
      → get j (halt ops id svc s).0.statuses ≡ (
          if is_ok (ops.stop svc).1 then get j (insert id stopped s.statuses) else get j s.statuses)
  halt_statuses j = rw (halt_lem ops id s svc) (ground arith)

  halt_services :
      (j : ServiceId)
      → get j (halt ops id svc s).0.services ≡ get j (insert id (ops.stop svc).0 s.services)
  halt_services j = rw (halt_lem ops id s svc)

  -- Where the guard lets a stop pass and the service is there, the service's own `stop` runs
  -- once, on the registered service: its result is the reply, the status becomes `stopped` if it
  -- succeeds and else stays, the service that it left is kept, and no other entry changes.
  pub handle_stop_calls :
      stop_guard id (get id s.statuses) ≡ ok tt
      → get id s.services ≡ some svc
      → let (svc', result) = ops.stop svc in
        let (s', reply) = handle_stop ops id s in
        (reply ≡ result)
        × (get id s'.statuses ≡ (if is_ok result then some stopped else get id s.statuses))
        × (get id s'.services ≡ some svc')
        × SameBut id s s'
  handle_stop_calls h k = rw (handle_stop-eq-halt h k) (
    rw (halt_lem ops id s svc),
    halt_statuses id ∙ ground (arith, get-insert_self id stopped s.statuses),
    halt_services id ∙ get-insert_self id _ _,
    λ j ne. (
      halt_statuses j ∙ ground (arith, get-insert_ne id j stopped s.statuses ne),
      halt_services j ∙ get-insert_ne id j _ _ ne,
    ),
  )

module _ {S : Type 0} (ops : ManagedService S) (id : ServiceId) (s : Supervisor S) (svc : S) where
  -- Restarting a running service whose `stop` succeeds runs `start` on what `stop` left: the
  -- reply, the status and the service are those of that start, and no other entry changes.
  pub handle_restart_calls :
      is_running_status (get id s.statuses) ≡ true
      → get id s.services ≡ some svc
      → (ops.stop svc).1 ≡ ok tt
      → let (svc', result) = ops.start (ops.stop svc).0 in
        let (s', reply) = handle_restart ops id s in
        (reply ≡ reply_of result)
        × (get id s'.statuses ≡ some (status_of result))
        × (get id s'.services ≡ some svc')
        × SameBut id s s'
  unfolding handle_restart
  handle_restart_calls h k e =
      let stop = handle_stop_calls ops id s svc (running_passes id (get id s.statuses) h) k in
      let t = (handle_stop ops id s).0 in
      let halted : get id t.statuses ≡ some stopped =
        stop.1 ∙ ap (λ r. if is_ok r then some stopped else get id s.statuses) e in
      let start = handle_start_calls ops id t (ops.stop svc).0 (ap can_start halted) stop.2 in
      rw (h, handle_restart)
        (
          start.0,
          start.1,
          start.2,
          λ j ne. ((start.3 j ne).0 ∙ (stop.3 j ne).0, (start.3 j ne).1 ∙ (stop.3 j ne).1),
        )

  -- Where the `stop` fails, the service is left running and the restart is refused.
  pub handle_restart_stop_failed :
      (reason : Text)
      → is_running_status (get id s.statuses) ≡ true
      → get id s.services ≡ some svc
      → (ops.stop svc).1 ≡ err reason
      → let (s', reply) = handle_restart ops id s in
        (reply ≡ err (debug id ++ utf8 " is already running"))
        × (get id s'.statuses ≡ get id s.statuses)
  unfolding handle_restart
  handle_restart_stop_failed reason h k e =
      let stop = handle_stop_calls ops id s svc (running_passes id (get id s.statuses) h) k in
      let t = (handle_stop ops id s).0 in
      let kept : get id t.statuses ≡ get id s.statuses =
        stop.1 ∙ ap (λ r. if is_ok r then some stopped else get id s.statuses) e in
      let refused = handle_start_running ops id t (ap is_running_status kept ∙ h) in
      rw (h, handle_restart) (rw refused (refl, kept))
