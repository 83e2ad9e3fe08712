-- ===== src/Supervisor.antt =====
-- src/supervisor.rs: the supervisor that owns the managed services and serves commands one by one.
-- A `Box<dyn ManagedService>` is a value of `S` with the operations of `ManagedService S`; all that
-- an operation's outcome depends on is part of that value. Log lines are left out.
pub mod Guards
pub mod Transitions
pub mod Run
pub mod Isolation
pub mod OneShot
pub mod Held
use place_net_hamlet.Common.{
  ℕ, ◌≡◌, List, [], ◌∷◌, ◌++◌, map, Option, none, some, Bool, Result, ok, err, Text, utf8,
  if◌then◌else◌,
}
use place_net_hamlet.Common.Map.{get, insert}
use place_net_hamlet.Services.{ServiceId, service_eq, debug}

pub data ServiceStatus : Type 0 where
  unavailable stopped starting : ServiceStatus
  running : (pid : ℕ) → ServiceStatus
  failed : (reason : Text) → ServiceStatus

abbrev pub Reply : Type 0
Reply = Result Text (Unit {0})

-- The trait: each operation returns the service that it has changed, and its result.
pub record ManagedService (S : Type 0) : Type 0 where
  pub start : S → S × Result Text ℕ
  pub stop : S → S × Reply
  pub is_running : S → S × Bool

pub data SupervisorCommand : Type 0 where
  start stop restart : (service : ServiceId) → SupervisorCommand
  status : SupervisorCommand

-- What goes back through the `reply` channel of a command.
pub data Answer : Type 0 where
  done : Reply → Answer
  statuses : List (ServiceId × ServiceStatus) → Answer

pub record Supervisor (S : Type 0) : Type 0 where
  pub services : List (ServiceId × S)
  pub statuses : List (ServiceId × ServiceStatus)
  pub channel_buffer : ℕ

unfoldable pub new : {S : Type 0} → Supervisor S
new = record { services = []; statuses = []; channel_buffer = 32 }

unfoldable pub register : {S : Type 0} → ServiceId → S → Bool → Supervisor S → Supervisor S
register id service available s =
    let initial_status = if available then stopped else unavailable in
    record s {
      statuses = insert id initial_status s.statuses;
      services = insert id service s.services;
    }

-- The `match` that opens `handle_start`.
unfoldable pub start_guard : ServiceId → Option ServiceStatus → Reply
start_guard id (some unavailable) = err (debug id ++ utf8 " is not installed on this system")
start_guard id (some (running pid)) = err (debug id ++ utf8 " is already running")
start_guard id (some starting) = err (debug id ++ utf8 " is already starting")
start_guard id none = err (debug id ++ utf8 " is not registered")
start_guard id _ = ok tt

-- The `match` that opens `handle_stop`.
unfoldable pub stop_guard : ServiceId → Option ServiceStatus → Reply
stop_guard id (some stopped) = err (debug id ++ utf8 " is already stopped")
stop_guard id (some unavailable) = err (debug id ++ utf8 " is not available")
stop_guard id _ = ok tt

abbrev pub is_running_status : Option ServiceStatus → Bool
is_running_status (some (running pid)) = Bool.true
is_running_status _ = Bool.false

module _ {S : Type 0} (ops : ManagedService S) where
  -- The call of `svc.start()` and what follows it.
  unfoldable pub launch : ServiceId → S → Supervisor S → Supervisor S × Reply
  launch id svc s =
      let (svc', result) = ops.start svc in
      let services = insert id svc' s.services in
      elim result [
        | ok pid ↦
            (record s { services = services; statuses = insert id (running pid) s.statuses }, ok tt)
        | err e ↦
            (record s { services = services; statuses = insert id (failed e) s.statuses }, err e)
      ]

  unfoldable pub handle_start : ServiceId → Supervisor S → Supervisor S × Reply
  unfolding launch start_guard
  handle_start id s = elim (start_guard id (get id s.statuses)) [
    | err e ↦ (s, err e)
    | ok _ ↦
        let s' = record s { statuses = insert id starting s.statuses } in
        elim (get id s.services) [
          | none ↦ (s', err (debug id ++ utf8 " not registered"))
          | some svc ↦ launch id svc s'
        ]
  ]

  -- The call of `svc.stop()` and what follows it.
  unfoldable pub halt : ServiceId → S → Supervisor S → Supervisor S × Reply
  halt id svc s =
      let (svc', result) = ops.stop svc in
      let services = insert id svc' s.services in
      elim result [
        | ok _ ↦ (record s { services = services; statuses = insert id stopped s.statuses }, ok tt)
        | err e ↦ (record s { services = services }, err e)
      ]

  unfoldable pub handle_stop : ServiceId → Supervisor S → Supervisor S × Reply
  unfolding halt stop_guard
  handle_stop id s = elim (stop_guard id (get id s.statuses)) [
    | err e ↦ (s, err e)
    | ok _ ↦ elim (get id s.services) [
      | none ↦ (s, err (debug id ++ utf8 " not registered"))
      | some svc ↦ halt id svc s
    ]
  ]

  unfoldable pub handle_restart : ServiceId → Supervisor S → Supervisor S × Reply
  unfolding handle_start handle_stop
  handle_restart id s =
      if is_running_status (get id s.statuses)
      then handle_start id (handle_stop id s).0
      else handle_start id s

  abbrev pub answer : Supervisor S × Reply → Supervisor S × Answer
  answer (s, r) = (s, done r)

  -- One round of the loop of `spawn`: a command is handled, and its answer is sent.
  unfoldable pub serve : SupervisorCommand → Supervisor S → Supervisor S × Answer
  unfolding handle_start handle_stop handle_restart
  serve (SupervisorCommand.start id) s = answer (handle_start id s)
  serve (SupervisorCommand.stop id) s = answer (handle_stop id s)
  serve (SupervisorCommand.restart id) s = answer (handle_restart id s)
  serve status s = (s, Answer.statuses s.statuses)

  -- When every handle is gone the loop ends, and each service is stopped.
  unfoldable pub shut_down : Supervisor S → Supervisor S
  shut_down s = record s {
    services = map (λ (p : ServiceId × S). (p.0, (ops.stop p.1).0)) s.services;
  }

  -- The loop of `spawn` over the commands that arrive, in their order, with the answers sent.
  unfoldable pub run : List SupervisorCommand → Supervisor S → Supervisor S × List Answer
  unfolding serve shut_down
  run [] s = (shut_down s, [])
  run (c ∷ cs) s = let (s', a) = serve c s in let (last, answers) = run cs s' in (last, a ∷ answers)

  -- The supervisor after the commands, before it shuts down.
  unfoldable pub serve_all : List SupervisorCommand → Supervisor S → Supervisor S
  unfolding serve
  serve_all [] s = s
  serve_all (c ∷ cs) s = serve_all cs (serve c s).0

-- How a request of a `SupervisorHandle` fares: the loop answers it, it has ended already, or it ends
-- with the request still in the queue.
pub data Delivery : Type 0 where
  answered closed dropped : Delivery

-- The body that `start_service`, `stop_service`, `restart_service` and `get_status` share.
unfoldable pub request {ℓ} : {A : Type ℓ} → Delivery → Result Text A → Result Text A
request answered r = r
request closed r = err (utf8 "supervisor channel closed")
request dropped r = err (utf8 "supervisor dropped reply")
