-- ===== src/MqttClient/Lifecycle.antt =====
-- src/services/mqtt_client/mqtt_client_service.rs: starts, stops and restarts of the service.
use place_net_hamlet.Common.{
  ◌≡◌, ap, ◌∙◌, List, none, some, true, false, ok, err, is_ok, is_some, arith, Text, utf8,
  Result-cases, inl, inr, if◌then◌else◌,
}
use place_net_hamlet.Common.Map.{get}
use place_net_hamlet.Services.{ServiceId, service_eq}
use place_net_hamlet.Supervisor.{
  failed, running, Supervisor, is_running_status, handle_start, handle_restart, serve_all,
  SupervisorCommand,
}
use place_net_hamlet.Supervisor.Guards.{can_start, status_of, reply_of}
use place_net_hamlet.Supervisor.Transitions.{handle_start_calls}
use place_net_hamlet.Supervisor.OneShot.{OneShot, restart_fails, serve_all-IsDown}
use place_net_hamlet.MqttClient.Options.{TlsFiles}
use place_net_hamlet.MqttClient.Service.{
  MqttClientService, Channels, take_channels, launch, start, stop, service,
}

-- The receiver of the commands was taken.
abbrev pub Spent : MqttClientService → Type 0
Spent s = s.cmd_rx ≡ none

-- The error of a start of a spent service.
abbrev pub spent_reason : MqttClientService → Text
spent_reason s =
    if is_some s.shutdown_tx
    then utf8 "MqttClientService is already running"
    else utf8 "MqttClientService command receiver already consumed"

take_takes : (s : MqttClientService) → Spent (take_channels s).0
unfolding take_channels
take_takes s = ground arith

launch_keeps :
    (files : TlsFiles) (chs : Channels) (s : MqttClientService)
    → (launch files chs s).0.cmd_rx ≡ s.cmd_rx
unfolding launch
launch_keeps files chs s = ground arith

start_again :
    (files : TlsFiles) (s : MqttClientService) → Spent s → (start files s).1 ≡ err (spent_reason s)
unfolding start take_channels
start_again files s h = ground arith

start_keeps : (files : TlsFiles) (s : MqttClientService) → Spent s → Spent (start files s).0
unfolding start take_channels
start_keeps files s h = ground arith

stop_keeps : (s : MqttClientService) → (stop s).0.cmd_rx ≡ s.cmd_rx
unfolding stop
stop_keeps s = ground arith

-- A start of a service that is not running takes the channels, whether it succeeds or not.
start_takes :
    (files : TlsFiles) (s : MqttClientService) → s.shutdown_tx ≡ none → Spent (start files s).0
unfolding start
start_takes files s h = elim (Result-cases (take_channels s).1) [
  | inl (chs, p) ↦
      rw (ap is_some h, start) (rw (p, start) (launch_keeps files chs _ ∙ take_takes s))
  | inr (e, p) ↦ rw (ap is_some h, start) (rw (p, start) (take_takes s))
]

-- One that succeeds can be stopped.
launch_stoppable :
    (files : TlsFiles) (chs : Channels) (s : MqttClientService)
    → is_ok (launch files chs s).1 ≡ true
    → is_some (launch files chs s).0.shutdown_tx ≡ true
unfolding launch
launch_stoppable files chs s h = ground arith

start_stoppable :
    (files : TlsFiles) (s : MqttClientService)
    → s.shutdown_tx ≡ none
    → is_ok (start files s).1 ≡ true
    → is_some (start files s).0.shutdown_tx ≡ true
unfolding start
start_stoppable files s h = elim (Result-cases (take_channels s).1) [
  | inl (chs, p) ↦ rw (ap is_some h, start) (rw (p, start) (launch_stoppable files chs _))
  | inr (e, p) ↦ rw (ap is_some h, start) (rw (p, start) (λ k. cc))
]

stop_succeeds : (s : MqttClientService) → is_some s.shutdown_tx ≡ true → (stop s).1 ≡ ok tt
unfolding stop
stop_succeeds s h = ground arith

stop_clears : (s : MqttClientService) → (stop s).0.shutdown_tx ≡ none
unfolding stop
stop_clears s = ground arith

pub one_shot : (files : TlsFiles) → OneShot (service files) Spent spent_reason
one_shot files = record {
  start_fails = start_again files;
  start_keeps = start_keeps files;
  stop_keeps = λ s h. stop_keeps s ∙ h;
}

module _ (files : TlsFiles) (id : ServiceId) (s : Supervisor MqttClientService)
    (svc : MqttClientService) where
  -- Where the supervisor starts an MQTT client service that was not running, with success, a
  -- restart replies that the command receiver is consumed and leaves the service failed.
  pub mqtt_client_restart_fails :
      can_start (get id s.statuses) ≡ true
      → get id s.services ≡ some svc
      → svc.shutdown_tx ≡ none
      → (start files svc).1 ≡ ok 0
      → let gone = utf8 "MqttClientService command receiver already consumed" in
        let (up, reply) = handle_start (service files) id s in
        let (after, reply') = handle_restart (service files) id up in
        (reply ≡ ok tt)
        × (get id up.statuses ≡ some (running 0))
        × (reply' ≡ err gone)
        × (get id after.statuses ≡ some (failed gone))
  mqtt_client_restart_fails can there idle p =
      let c = handle_start_calls (service files) id s svc can there in
      let up = c.1 ∙ ap (λ r. some (status_of r)) p in
      let t = (start files svc).0 in
      let f =
        restart_fails (service files) Spent spent_reason (one_shot files) id
          (handle_start (service files) id s).0 t (ap is_running_status up) c.2
          (start_takes files svc idle)
          (stop_succeeds t (start_stoppable files svc idle (ap is_ok p))) in
      let gone : spent_reason (stop t).0
          ≡ utf8 "MqttClientService command receiver already consumed" =
        ap
          (λ o.
            if is_some o
            then utf8 "MqttClientService is already running"
            else utf8 "MqttClientService command receiver already consumed")
          (stop_clears t) in
      (c.0 ∙ ap reply_of p, up, f.0 ∙ ap err gone, f.1 ∙ ap (λ e. some (failed e)) gone)

  -- Where the supervisor may start an MQTT client service that is not running, and that start
  -- fails, the service does not run after any sequence of commands, whatever the files hold by
  -- then.
  pub failed_start_is_final :
      (reason : Text) (later : TlsFiles) (cs : List SupervisorCommand)
      → can_start (get id s.statuses) ≡ true
      → get id s.services ≡ some svc
      → svc.shutdown_tx ≡ none
      → (start files svc).1 ≡ err reason
      → is_running_status
          (get id (serve_all (service later) cs (handle_start (service files) id s).0).statuses)
        ≡ false
  failed_start_is_final reason later cs can there idle p =
      let c = handle_start_calls (service files) id s svc can there in
      (serve_all-IsDown (service later) Spent spent_reason (one_shot later) id cs
        (handle_start (service files) id s).0
        (record {
          svc = (start files svc).0;
          there = c.2;
          spent = start_takes files svc idle;
          down = ap is_running_status (c.1 ∙ ap (λ r. some (status_of r)) p);
        })).down
