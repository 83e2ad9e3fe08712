-- ===== src/Brokerage/Service.antt =====
-- src/services/mqtt_brokerage/mosquitto_brokerage_service.rs: the service that owns the broker's
-- process, and its `ManagedService` operations. A child is the number of its spawning. `events` holds
-- what happened to the processes, the last first; a child that is dropped is killed, since the command
-- sets `kill_on_drop`, and `ended` is a process that exits by itself, which the service does not see.
-- `Host` says how the calls of the operating system fare at one operation.
use place_net_hamlet.Common.{
  ℕ, suc, List, [], ◌∷◌, ◌++◌, Option, none, some, Bool, true, false, not, Result, ok, err, Text,
  utf8, is_some, if◌then◌else◌,
}
use place_net_hamlet.Supervisor.{ManagedService, Reply}
use place_net_hamlet.Config.Types.{MqttBrokerageConfig}

-- How the wait for a child ends that was sent a signal.
pub data Wait : Type 0 where
  exited wait_failed timed_out : Wait

-- The outcomes of `try_wait`.
pub data TryWait : Type 0 where
  over still_running unknown : TryWait

pub record Host : Type 0 where
  pub exists : Text → Bool
  -- The binary and its configuration file; the PID is `none` where the child is already over.
  pub spawn : Text → Text → Result Text (Option ℕ)
  pub wait : Wait
  pub try_wait : TryWait

pub record Child : Type 0 where
  pub number : ℕ
  pub pid : Option ℕ

pub data ProcessEvent : Type 0 where
  spawned reaped killed ended : (child : ℕ) → ProcessEvent
  sigterm : (pid : ℕ) → ProcessEvent

pub record MosquittoBrokerageService : Type 0 where
  pub binary_path : Text
  pub password_binary : Option Text
  pub config : MqttBrokerageConfig
  pub child : Option Child
  pub next_child : ℕ
  pub events : List ProcessEvent

unfoldable pub new : Text → Option Text → MqttBrokerageConfig → MosquittoBrokerageService
new binary_path password_binary config = record {
  binary_path = binary_path;
  password_binary = password_binary;
  config = config;
  child = none;
  next_child = 0;
  events = [];
}

-- What `start` does with a child that was spawned; without a PID the child is dropped.
unfoldable pub adopt :
    Option ℕ → MosquittoBrokerageService → MosquittoBrokerageService × Result Text ℕ
adopt none s = (
  record s {
    next_child = suc s.next_child;
    events = killed s.next_child ∷ spawned s.next_child ∷ s.events;
  },
  err (utf8 "Failed to get mosquitto PID"),
)
adopt (some pid) s = (
  record s {
    child = some (record { number = s.next_child; pid = some pid });
    next_child = suc s.next_child;
    events = spawned s.next_child ∷ s.events;
  },
  ok pid,
)

unfoldable pub start : Host → MosquittoBrokerageService → MosquittoBrokerageService × Result Text ℕ
unfolding adopt
start host s =
    if is_some s.child
    then (s, err (utf8 "Mosquitto is already running"))
    else if not (host.exists s.config.config_file)
    then (
      s,
      err (
          utf8 "Config file not found at "
          ++ s.config.config_file
          ++ utf8 ". Call write_config() first."),
    )
    else elim (host.spawn s.binary_path s.config.config_file) [
      | err e ↦ (s, err (utf8 "Failed to spawn mosquitto: " ++ e))
      | ok pid ↦ adopt pid s
    ]

-- The signal, where the child still has a PID.
unfoldable pub terminate : Option ℕ → List ProcessEvent → List ProcessEvent
terminate none es = es
terminate (some pid) es = sigterm pid ∷ es

-- What the wait of at most five seconds does with the child.
unfoldable pub await_exit : Wait → ℕ → List ProcessEvent → List ProcessEvent
await_exit exited n es = reaped n ∷ es
await_exit wait_failed n es = killed n ∷ es
await_exit timed_out n es = killed n ∷ es

unfoldable pub stop : Host → MosquittoBrokerageService → MosquittoBrokerageService × Reply
unfolding terminate await_exit
stop host s = elim s.child [
  | none ↦ (s, err (utf8 "Mosquitto is not running"))
  | some child ↦ (
    record s {
      child = none;
      events = await_exit host.wait child.number (terminate child.pid s.events);
    },
    ok tt,
  )
]

unfoldable pub is_running : Host → MosquittoBrokerageService → MosquittoBrokerageService × Bool
is_running host s = elim s.child [
  | none ↦ (s, false)
  | some child ↦ elim host.try_wait [
    | over ↦ (record s { child = none; events = reaped child.number ∷ s.events }, false)
    | still_running ↦ (s, true)
    | unknown ↦ (s, false)
  ]
]

-- The child that the service holds exits by itself.
unfoldable pub end_by_itself : MosquittoBrokerageService → MosquittoBrokerageService
end_by_itself s = elim s.child [
  | none ↦ s
  | some child ↦ record s { events = ended child.number ∷ s.events }
]

abbrev pub service : Host → ManagedService MosquittoBrokerageService
service host = record { start = start host; stop = stop host; is_running = is_running host }
