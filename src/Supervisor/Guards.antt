-- ===== src/Supervisor/Guards.antt =====
-- src/supervisor.rs: the guards of `handle_start` and `handle_stop`, what each does where its guard refuses,
-- and the calls of the service where it passes.
use place_net_hamlet.Common.{
  ℕ, ◌≡◌, refl, ◌≢◌, ◌⊎◌, List, ◌++◌, Option, none, some, Bool, true, false, Result, ok, err, is_ok,
  Text, utf8, arith, if◌then◌else◌,
}
use place_net_hamlet.Common.Map.{get, insert, get-insert}
use place_net_hamlet.Services.{ServiceId, service_eq, service_same_iff, debug}
use place_net_hamlet.Supervisor.{
  ServiceStatus, unavailable, stopped, starting, running, failed, Reply, ManagedService, Supervisor,
  start_guard, stop_guard, is_running_status, launch, handle_start, halt, handle_stop,
}

-- The status that the result of `start` leads to.
abbrev pub status_of : Result Text ℕ → ServiceStatus
status_of (ok pid) = running pid
status_of (err e) = failed e

abbrev pub reply_of : Result Text ℕ → Reply
reply_of (ok pid) = ok tt
reply_of (err e) = err e

-- The statuses from which `handle_start` goes on to the service.
abbrev pub CanStart : Option ServiceStatus → Type 0
CanStart o = (o ≡ some stopped) ⊎ ((e : Text) × (o ≡ some (failed e)))

abbrev pub can_start : Option ServiceStatus → Bool
can_start (some stopped) = true
can_start (some (failed e)) = true
can_start _ = false

abbrev pub can_stop : Option ServiceStatus → Bool
can_stop (some stopped) = false
can_stop (some unavailable) = false
can_stop _ = true

module _ {S : Type 0} (ops : ManagedService S) (id : ServiceId) (s : Supervisor S) where
  start_guard-cases :
      (o : Option ServiceStatus) → can_start o ≡ false → (e : Text) × (start_guard id o ≡ err e)
  unfolding start_guard
  start_guard-cases none h = (_, refl)
  start_guard-cases (some unavailable) h = (_, refl)
  start_guard-cases (some starting) h = (_, refl)
  start_guard-cases (some (running pid)) h = (_, refl)
  start_guard-cases (some stopped) h = cc
  start_guard-cases (some (failed e)) h = cc

  start_guard_passes : (o : Option ServiceStatus) → can_start o ≡ true → start_guard id o ≡ ok tt
  unfolding start_guard
  start_guard_passes none h = cc
  start_guard_passes (some unavailable) h = cc
  start_guard_passes (some starting) h = cc
  start_guard_passes (some (running pid)) h = cc
  start_guard_passes (some stopped) h = refl
  start_guard_passes (some (failed e)) h = refl

  -- A start that the status does not allow is an error, and neither a status nor a service changes.
  pub handle_start_refused :
      can_start (get id s.statuses) ≡ false → (e : Text) × (handle_start ops id s ≡ (s, err e))
  unfolding handle_start
  handle_start_refused h =
      let (e, p) = start_guard-cases (get id s.statuses) h in (e, rw (p, handle_start))

  pub launch_lem :
      (svc : S) (t : Supervisor S)
      → launch ops id svc t ≡ (
        record t {
          services = insert id (ops.start svc).0 t.services;
          statuses = insert id (status_of (ops.start svc).1) t.statuses;
        },
        reply_of (ops.start svc).1,
      )
  unfolding launch
  launch_lem svc t = ground arith

  pub handle_start-eq-launch :
      (svc : S)
      → can_start (get id s.statuses) ≡ true
      → get id s.services ≡ some svc
      → handle_start ops id s
        ≡ launch ops id svc (record s { statuses = insert id starting s.statuses })
  unfolding handle_start
  handle_start-eq-launch svc h k =
      rw (start_guard_passes (get id s.statuses) h, handle_start) (rw (k, handle_start))

  pub halt_lem :
      (svc : S)
      → halt ops id svc s ≡ (
        record s {
          services = insert id (ops.stop svc).0 s.services;
          statuses = if is_ok (ops.stop svc).1 then insert id stopped s.statuses else s.statuses;
        },
        (ops.stop svc).1,
      )
  unfolding halt
  halt_lem svc = ground arith

-- A service that has a status and is not there is left marked as starting.
pub handle_start_missing :
    {S : Type 0} (ops : ManagedService S) (id : ServiceId) (s : Supervisor S)
    → can_start (get id s.statuses) ≡ true
    → get id s.services ≡ none
    → handle_start ops id s ≡ (
      record s { statuses = insert id starting s.statuses },
      err (debug id ++ utf8 " not registered"),
    )
unfolding handle_start
handle_start_missing ops id s h k =
    rw (start_guard_passes ops id s (get id s.statuses) h, handle_start) (rw (k, handle_start))

-- Nothing but the entries of `id` differs.
abbrev pub SameBut : {S : Type 0} → ServiceId → Supervisor S → Supervisor S → Type 0
SameBut id s t =
    (j : ServiceId)
    → id ≢ j
    → (get j t.statuses ≡ get j s.statuses) × (get j t.services ≡ get j s.services)

pub get-insert_ne {ℓ} :
    {V : Type ℓ} (id j : ServiceId) (v : V) (m : List (ServiceId × V))
    → id ≢ j
    → get j (insert id v m) ≡ get j m
get-insert_ne id j v m h = ground (arith, get-insert id j v m, service_same_iff id j)

pub get-insert_self {ℓ} :
    {V : Type ℓ} (id : ServiceId) (v : V) (m : List (ServiceId × V))
    → get id (insert id v m) ≡ some v
get-insert_self id v m = ground (arith, get-insert id id v m, service_same_iff id id)

stop_guard_refuses :
    (id : ServiceId) (o : Option ServiceStatus)
    → can_stop o ≡ false
    → (e : Text) × (stop_guard id o ≡ err e)
unfolding stop_guard
stop_guard_refuses id (some stopped) h = (_, refl)
stop_guard_refuses id (some unavailable) h = (_, refl)
stop_guard_refuses id o h = cc

pub stop_guard_passes :
    (id : ServiceId) (o : Option ServiceStatus) → can_stop o ≡ true → stop_guard id o ≡ ok tt
unfolding stop_guard
stop_guard_passes id (some stopped) h = cc
stop_guard_passes id (some unavailable) h = cc
stop_guard_passes id o h = refl

-- A stop of a stopped or unavailable service is an error, and nothing changes.
pub handle_stop_refused :
    {S : Type 0} (ops : ManagedService S) (id : ServiceId) (s : Supervisor S)
    → can_stop (get id s.statuses) ≡ false
    → (e : Text) × (handle_stop ops id s ≡ (s, err e))
unfolding handle_stop
handle_stop_refused ops id s h =
    let (e, p) = stop_guard_refuses id (get id s.statuses) h in (e, rw (p, handle_stop))

-- So is a stop of a service that was never registered.
pub handle_stop_missing :
    {S : Type 0} (ops : ManagedService S) (id : ServiceId) (s : Supervisor S)
    → can_stop (get id s.statuses) ≡ true
    → get id s.services ≡ none
    → handle_stop ops id s ≡ (s, err (debug id ++ utf8 " not registered"))
unfolding handle_stop
handle_stop_missing ops id s h k =
    rw (stop_guard_passes id (get id s.statuses) h, handle_stop) (rw (k, handle_stop))

pub running_passes :
    (id : ServiceId) (o : Option ServiceStatus)
    → is_running_status o ≡ true
    → stop_guard id o ≡ ok tt
unfolding stop_guard
running_passes id (some (running pid)) h = refl
running_passes id (some stopped) h = cc
running_passes id (some unavailable) h = cc
running_passes id o h = refl

running_refused :
    (id : ServiceId) (o : Option ServiceStatus)
    → is_running_status o ≡ true
    → start_guard id o ≡ err (debug id ++ utf8 " is already running")
unfolding start_guard
running_refused id (some (running pid)) h = refl
running_refused id (some stopped) h = cc
running_refused id o h = cc

pub handle_start_running :
    {S : Type 0} (ops : ManagedService S) (id : ServiceId) (s : Supervisor S)
    → is_running_status (get id s.statuses) ≡ true
    → handle_start ops id s ≡ (s, err (debug id ++ utf8 " is already running"))
unfolding handle_start
handle_start_running ops id s h = rw (running_refused id (get id s.statuses) h, handle_start)
