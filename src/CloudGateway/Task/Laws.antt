-- ===== src/CloudGateway/Task/Laws.antt =====
-- src/services/cloud_gateway/cloud_gateway_service.rs: what holds of the connection task over every
-- sequence of events.
use place_net_hamlet.Common.{
  ℕ, zero, suc, ◌+◌, ◌≡◌, refl, ◌⊎◌, inl, inr, List, [], ◌∷◌, some, Bool, true, false, arith,
  Option-cases, ap, ◌∙◌, ◌≢◌, subst, is_some, times,
}
use place_net_hamlet.Common.Backoff.{
  initial_reconnect_delay, IsDelay, next_delay, next_delay-IsDelay, delay_after,
}
use place_net_hamlet.CloudGateway.Task.{
  Phase, connecting, registering, in_session, sleeping, stopped, Task, Event, enqueued, shutdown,
  connected, connect_failed, register_failed, woke, step, run,
}

step-IsDelay :
    (e : Event) (t : Task) {u : Task} → step e t ≡ some u → IsDelay t.delay → IsDelay u.delay
unfolding step
step-IsDelay e t h d = ground (arith, next_delay-IsDelay t.delay d)

-- What every step keeps, every run keeps.
run_inv {κ} :
    (P : Task → Type κ)
    → ((e : Event) (t u : Task) → step e t ≡ some u → P t → P u)
    → (es : List Event) (t u : Task) → run es t ≡ some u
    → P t
    → P u
unfolding run
run_inv P keep [] t u h p = subst P (cc) p
run_inv P keep (e ∷ es) t u h p = elim (Option-cases (step e t)) [
  | inl stuck ↦ let none_is_some = rw (stuck, run) at h in absurd (cc)
  | inr (t', q) ↦ run_inv P keep es t' u (rw (q, run) at h) (keep e t t' q p)
]

-- Over every sequence of events the delay stays between 2 and 60 seconds.
pub run-IsDelay :
    (es : List Event) (t : Task) {u : Task} → run es t ≡ some u → IsDelay t.delay → IsDelay u.delay
run-IsDelay es t {u} h d = run_inv (λ v. IsDelay v.delay) (λ e v w. step-IsDelay e v) es t u h d

abbrev is_enqueue : Event → Bool
is_enqueue (enqueued m) = true
is_enqueue _ = false

sees_shutdown :
    (p : Phase) (e : Event) (t u : Task)
    → t.phase ≡ p
    → p ≢ stopped
    → is_enqueue e ≡ false
    → step e t ≡ some u
    → (is_some (step shutdown t) ≡ true) ⊎ (is_some (step shutdown u) ≡ true)
unfolding step
sees_shutdown connecting e t u q ne k h = inl (rw q)
sees_shutdown in_session e t u q ne k h = inl (rw q)
sees_shutdown registering e t u q ne k h = inr (ground arith)
sees_shutdown sleeping e t u q ne k h = inr (ground arith)
sees_shutdown stopped e t u q ne k h = absurd (ne refl)

-- A task that has not ended takes the shutdown signal now, or after the next event, whichever
-- that is, other than a message that is put into its queue.
pub shutdown_seen :
    (e : Event) (t u : Task)
    → t.phase ≢ stopped
    → is_enqueue e ≡ false
    → step e t ≡ some u
    → (is_some (step shutdown t) ≡ true) ⊎ (is_some (step shutdown u) ≡ true)
shutdown_seen e t u ne k h = sees_shutdown t.phase e t u refl ne k h

one_failure :
    (es : List Event) (t : Task)
    → t.phase ≡ connecting
    → run (connect_failed ∷ woke ∷ es) t
      ≡ run es
          (record t { phase = connecting; slept = t.slept + t.delay; delay = next_delay t.delay })
unfolding run step
one_failure es t p = rw (p, run)

one_spin :
    (es : List Event) (t : Task)
    → t.phase ≡ connecting
    → run (connected ∷ register_failed ∷ es) t
      ≡ run es (record t { phase = connecting; delay = initial_reconnect_delay })
unfolding run step
one_spin es t p = rw (p, run)

-- Where a task is about to connect after `k` failures, `n` connections that fail, each followed
-- by its sleep, leave it about to connect, and its delay is that after `k + n` failures.
pub connect_failures :
    (n k : ℕ) (t : Task)
    → t.phase ≡ connecting
    → t.delay ≡ delay_after k
    → (u : Task) × (run (times n (connect_failed ∷ woke ∷ [])) t ≡ some u)
      × (u.phase ≡ connecting)
      × (u.delay ≡ delay_after (k + n))
unfolding run delay_after
connect_failures zero k t p d = (t, refl, p, d ∙ ap delay_after (omega arith))
connect_failures (suc n) k t p d =
    let t' = record t {
      phase = connecting;
      slept = t.slept + t.delay;
      delay = next_delay t.delay;
    } in
    let (u, r, q, e) = connect_failures n (suc k) t' refl (ap next_delay d) in
    (u, one_failure _ t p ∙ r, q, e ∙ ap delay_after (omega arith))

-- From a task that is about to connect, `n` connections that are made and whose `Register` frame
-- then fails leave it about to connect, and it has not slept.
pub register_failures_spin :
    (n : ℕ) (t : Task)
    → t.phase ≡ connecting
    → (u : Task) × (run (times n (connected ∷ register_failed ∷ [])) t ≡ some u)
      × (u.phase ≡ connecting)
      × (u.slept ≡ t.slept)
unfolding run
register_failures_spin zero t p = (t, refl, p, refl)
register_failures_spin (suc n) t p =
    let t' = record t { phase = connecting; delay = initial_reconnect_delay } in
    let (u, r, q, e) = register_failures_spin n t' refl in (u, one_spin _ t p ∙ r, q, e)
