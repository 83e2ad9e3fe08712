-- ===== src/GatewayMqtt/Task/Laws.antt =====
-- src/services/gateway_mqtt/tasks.rs: what holds of the connection task over every sequence of events.
use place_net_hamlet.Common.{
  ℕ, zero, suc, ◌+◌, ◌≡◌, refl, ap, ◌∙◌, subst, inl, inr, List, [], ◌∷◌, ◌++◌, Option, none, some,
  err, arith, Option-cases, All, times, Bool, true, false, ◌≤◌,
}
use place_net_hamlet.Common.Backoff.{IsDelay, next_delay, next_delay-IsDelay, delay_after}
use place_net_hamlet.GatewayMqtt.Protocol.{
  LoginResponse, LoginError, unauthorized, transient, GatewayMqttConfig,
}
use place_net_hamlet.MqttClient.{MqttMessage}
use place_net_hamlet.GatewayMqtt.Task.{
  Phase, logging_in, building, in_session, backing_off, stopped, Task, Event, login_ended, refused,
  woke, spawn, step, run, reconnect,
}

-- What every step keeps, every run keeps.
run_inv {κ} :
    (P : Task → Type κ)
    → ((e : Event) (t u : Task) → step e t ≡ some u → P t → P u)
    → (es : List Event) (t u : Task) → run es t ≡ some u
    → P t
    → P u
unfolding run
run_inv P keep [] t u h p = subst P (cc) p
run_inv P keep (e ∷ es) t u h p = elim (Option-cases (step e t)) [
  | inl stuck ↦ let none_is_some = rw (stuck, run) at h in absurd (cc)
  | inr (t', q) ↦ run_inv P keep es t' u (rw (q, run) at h) (keep e t t' q p)
]

step-IsDelay :
    (e : Event) (t : Task) {u : Task} → step e t ≡ some u → IsDelay t.delay → IsDelay u.delay
unfolding step
step-IsDelay e t h d = ground (arith, next_delay-IsDelay t.delay d)

-- From a delay between 2 and 60 seconds, the gateway MQTT task's delay is between 2 and 60
-- seconds after every sequence of events.
pub run-IsDelay :
    (es : List Event) (t : Task) {u : Task} → run es t ≡ some u → IsDelay t.delay → IsDelay u.delay
run-IsDelay es t {u} h d = run_inv (λ v. IsDelay v.delay) (λ e v w. step-IsDelay e v) es t u h d

-- The phase and the cache agree.
abbrev pub Agrees : Phase → Option LoginResponse → Type 0
Agrees logging_in o = o ≡ none
Agrees (building creds) o = o ≡ some creds
Agrees (in_session creds) o = o ≡ some creds
Agrees backing_off o = Unit {0}
Agrees stopped o = Unit {0}

step-Agrees :
    (e : Event) (t u : Task) → step e t ≡ some u → Agrees t.phase t.cached → Agrees u.phase u.cached
unfolding step
step-Agrees e t u h a = ground arith

-- The broker refuses the connection, with whatever code.
abbrev pub is_refusal : Event → Bool
is_refusal (refused code) = true
is_refusal _ = false

-- The step that is not a refusal of the broker keeps the cached credentials, and logs in no more.
step_keeps_login :
    (e : Event) (t u : Task) (creds : LoginResponse)
    → step e t ≡ some u
    → is_refusal e ≡ false
    → Agrees t.phase t.cached
    → t.cached ≡ some creds
    → (u.cached ≡ some creds) × (u.logins ≡ t.logins)
unfolding step
step_keeps_login e t u creds h ne a c = ground arith

-- Where the phase agrees with the cache and the cache holds credentials, they are still cached
-- after every sequence of events in which the broker refuses no connection, and no login was
-- made.
pub run_keeps_login :
    (es : List Event) (t u : Task) (creds : LoginResponse)
    → All (λ e. is_refusal e ≡ false) es
    → Agrees t.phase t.cached
    → t.cached ≡ some creds
    → run es t ≡ some u
    → (u.cached ≡ some creds) × (u.logins ≡ t.logins)
unfolding run
run_keeps_login [] t u creds all a c h =
    let same_task : t ≡ u = cc in
    subst (λ (v : Task). (v.cached ≡ some creds) × (v.logins ≡ t.logins)) same_task (c, refl)
run_keeps_login (e ∷ es) t u creds (ne, all) a c h = elim (Option-cases (step e t)) [
  | inl stuck ↦ let none_is_some = rw (stuck, run) at h in absurd (cc)
  | inr (t', q) ↦
      let (c', l) = step_keeps_login e t t' creds q ne a c in
      let (c'', l') =
        run_keeps_login es t' u creds all (step-Agrees e t t' q a) c' (rw (q, run) at h) in
      (c'', l' ∙ l)
]

-- From the start the cache agrees with the phase, after every sequence of events.
pub run-Agrees :
    (config : GatewayMqttConfig) (es : List Event) (u : Task)
    → run es (spawn config []) ≡ some u
    → Agrees u.phase u.cached
unfolding spawn
run-Agrees config es u h =
    run_inv (λ v. Agrees v.phase v.cached) step-Agrees es (spawn config []) u h refl

-- How many of the events are a refusal or a login that fails.
abbrev pub setback : Event → ℕ
setback (refused code) = 1
setback (login_ended (err e)) = 1
setback _ = 0

unfoldable pub setbacks : List Event → ℕ
setbacks [] = 0
setbacks (e ∷ es) = setback e + setbacks es

-- A task without credentials has a login before it.
abbrev pending : Option LoginResponse → ℕ
pending none = 1
pending (some creds) = 0

step_logins :
    (e : Event) (t u : Task)
    → step e t ≡ some u
    → Agrees t.phase t.cached
    → u.logins + pending u.cached ≤ t.logins + pending t.cached + setback e
unfolding step
step_logins e t u h a = ground arith

run_logins :
    (es : List Event) (t u : Task)
    → run es t ≡ some u
    → Agrees t.phase t.cached
    → u.logins + pending u.cached ≤ t.logins + pending t.cached + setbacks es
unfolding run setbacks
run_logins [] t u h a =
    let same_task : t ≡ u = cc in
    subst (λ (v : Task). v.logins + pending v.cached ≤ t.logins + pending t.cached + 0) same_task
      (omega arith)
run_logins (e ∷ es) t u h a = elim (Option-cases (step e t)) [
  | inl stuck ↦ let none_is_some = rw (stuck, run) at h in absurd (cc)
  | inr (t', q) ↦
      let one = step_logins e t t' q a in
      let more = run_logins es t' u (rw (q, run) at h) (step-Agrees e t t' q a) in omega arith
]

-- From its start, over every sequence of events, the task ends at most one login more than there
-- are logins that fail and connections that the broker refuses, with whatever code.
pub logins_bounded :
    (config : GatewayMqttConfig) (outbound : List MqttMessage) (es : List Event) (u : Task)
    → run es (spawn config outbound) ≡ some u
    → u.logins ≤ 1 + setbacks es
unfolding spawn
logins_bounded config outbound es u h =
    let bound = run_logins es (spawn config outbound) u h refl in omega arith

abbrev pub failed_login : LoginError → List Event
failed_login e = login_ended (err e) ∷ woke ∷ []

one_failure :
    (x : LoginError) (es : List Event) (t : Task)
    → t.phase ≡ logging_in
    → t.cached ≡ none
    → run (failed_login x ++ es) t
      ≡ run es (record t {
        phase = logging_in;
        logins = suc t.logins;
        slept = t.slept + t.delay;
        delay = next_delay t.delay;
      })
unfolding run step reconnect
one_failure unauthorized es t p c = rw (p, run) (rw (c, run))
one_failure (transient m) es t p c = rw (p, run) (rw (c, run))

-- Where a task without cached credentials is about to log in after `k` failures, `n` logins that
-- fail alike, each followed by its sleep, count `n` logins, leave it about to log in, and its
-- delay is that after `k + n` failures.
pub login_failures :
    (x : LoginError) (n k : ℕ) (t : Task)
    → t.phase ≡ logging_in
    → t.cached ≡ none
    → t.delay ≡ delay_after k
    → (u : Task) × (run (times n (failed_login x)) t ≡ some u)
      × (u.phase ≡ logging_in)
      × (u.logins ≡ t.logins + n)
      × (u.delay ≡ delay_after (k + n))
unfolding run delay_after
login_failures x zero k t p c d = (t, refl, p, omega arith, d ∙ ap delay_after (omega arith))
login_failures x (suc n) k t p c d =
    let t' = record t {
      phase = logging_in;
      logins = suc t.logins;
      slept = t.slept + t.delay;
      delay = next_delay t.delay;
    } in
    let (u, r, q, l, e) = login_failures x n (suc k) t' refl c (ap next_delay d) in
    (
      u,
      one_failure x (times n (failed_login x)) t p c ∙ r,
      q,
      omega arith,
      e ∙ ap delay_after (omega arith),
    )
