-- ===== src/Gateway/Listening.antt =====
-- src/services/beacon_management/gateway_service.rs: which accept loops run, over any commands of the
-- supervisor (src/supervisor.rs). A loop runs until a shutdown is sent on its channel.
use place_net_hamlet.Common.{
  ℕ, suc, ◌≡◌, refl, ap, sym, subst, ◌∙◌, List, [], ◌∷◌, none, some, Bool, true, false, not, ◌&&◌,
  ◌⊎◌, ◌==◌, any, retain, Result, ok, err, ltb, arith, Result-cases, Option-cases, is_some, inl,
  inr, Text, if◌then◌else◌,
}
use place_net_hamlet.Supervisor.{Supervisor, SupervisorCommand}
use place_net_hamlet.Supervisor.Held.{AllServices, KeptBy, serve_each, serve_each-AllServices}
use place_net_hamlet.Gateway.Service.{
  Host, AcceptLoop, GatewayService, initialize, spawn_accept_loop, start, stop, service,
}

-- The channels of the loops that were spawned and not told to end.
unfoldable pub running_loops : List AcceptLoop → List ℕ → List ℕ
unfolding any
running_loops [] signalled = []
running_loops (l ∷ ls) signalled =
    let rest = running_loops ls signalled in
    if any (λ n. n == l.shutdown_rx) signalled then rest else l.shutdown_rx ∷ rest

unfoldable pub loops_below : ℕ → List AcceptLoop → Bool
loops_below n [] = true
loops_below n (l ∷ ls) = ltb l.shutdown_rx n && loops_below n ls

unfoldable pub all_below : ℕ → List ℕ → Bool
all_below n [] = true
all_below n (m ∷ ms) = ltb m n && all_below n ms

-- Every channel is older than the next; the one loop that may run is that whose sender is held.
pub record IsListening (s : GatewayService) : Type 0 where
  pub loops : loops_below s.next_channel s.listening ≡ true
  pub sent : all_below s.next_channel s.signalled ≡ true
  pub held : (n : ℕ) → s.shutdown_tx ≡ some n → ltb n s.next_channel ≡ true
  pub one :
      (running_loops s.listening s.signalled ≡ [])
      ⊎ ((n : ℕ) × (s.shutdown_tx ≡ some n) × (running_loops s.listening s.signalled ≡ n ∷ []))

fresh : (n : ℕ) (ms : List ℕ) → all_below n ms ≡ true → any (λ m. m == n) ms ≡ false
unfolding all_below any
fresh n [] h = refl
fresh n (m ∷ ms) h = ground (arith, fresh n ms)

loops_below-suc :
    (n : ℕ) (ls : List AcceptLoop) → loops_below n ls ≡ true → loops_below (suc n) ls ≡ true
unfolding loops_below
loops_below-suc n [] h = refl
loops_below-suc n (l ∷ ls) h = ground (arith, loops_below-suc n ls)

all_below-suc : (n : ℕ) (ms : List ℕ) → all_below n ms ≡ true → all_below (suc n) ms ≡ true
unfolding all_below
all_below-suc n [] h = refl
all_below-suc n (m ∷ ms) h = ground (arith, all_below-suc n ms)

-- A signal on a channel ends its loop.
running_loops-signal :
    (n : ℕ) (ls : List AcceptLoop) (signalled : List ℕ)
    → running_loops ls (n ∷ signalled) ≡ retain (λ m. not (m == n)) (running_loops ls signalled)
unfolding running_loops any retain
running_loops-signal n [] signalled = refl
running_loops-signal n (l ∷ ls) signalled = ground (arith, running_loops-signal n ls signalled)

idle :
    (s : GatewayService)
    → IsListening s
    → s.shutdown_tx ≡ none
    → running_loops s.listening s.signalled ≡ []
idle s l h = elim l.one [ inl none_runs ↦ none_runs | inr (n, there, runs) ↦ absurd (cc) ]

suc_below : (n m : ℕ) → some n ≡ some m → ltb m (suc n) ≡ true
suc_below n m h = ground arith

-- A property of the outcome of a test and of a call, by the cases of both.
by_cases :
    {A B : Type 0} (P : A → Type 0) (b : Bool) (r : Result Text (Unit {0})) (bad : Text → A × B)
    (good other : A × B)
    → ((e : Text) → P (bad e).0)
    → P good.0
    → P other.0
    → P (if b then elim r [ err e ↦ bad e | ok _ ↦ good ] else other).0
by_cases P true (ok u) bad good other x y z = y
by_cases P true (err e) bad good other x y z = x e
by_cases P false r bad good other x y z = z

module _ (s : GatewayService) (l : IsListening s) (h : s.shutdown_tx ≡ none) where
  -- A start that spawns no loop, and one that does.
  no_loop-IsListening :
      IsListening
        (record s { shutdown_tx = some s.next_channel; next_channel = suc s.next_channel })
  no_loop-IsListening = record {
    loops = loops_below-suc s.next_channel s.listening l.loops;
    sent = all_below-suc s.next_channel s.signalled l.sent;
    held = suc_below s.next_channel;
    one = inl (idle s l h);
  }

  loop-IsListening :
      (addr : Text) (tls : Bool)
      → IsListening (record s {
        shutdown_tx = some s.next_channel;
        next_channel = suc s.next_channel;
        listening =
            record { local_addr = addr; tls = tls; shutdown_rx = s.next_channel } ∷ s.listening;
      })
  unfolding loops_below running_loops
  loop-IsListening addr tls = record {
    loops = ground (arith, loops_below-suc s.next_channel s.listening l.loops);
    sent = all_below-suc s.next_channel s.signalled l.sent;
    held = suc_below s.next_channel;
    one =
        inr (
          s.next_channel,
          refl,
          ground (arith, fresh s.next_channel s.signalled l.sent, idle s l h),
        );
  }

  spawn-IsListening : (host : Host) (addr : Text) → IsListening (spawn_accept_loop host addr s).0
  unfolding spawn_accept_loop
  spawn-IsListening host addr =
      by_cases IsListening s.config.tls_enabled host.build_tls_config _ _ _
        (λ e. no_loop-IsListening) (loop-IsListening addr true) (loop-IsListening addr false)

start-IsListening :
    (host : Host) (s : GatewayService) → IsListening s → IsListening (start host s).0
unfolding start
start-IsListening host s l = elim (Option-cases s.shutdown_tx) [
  | inr (n, h) ↦ rw (ap is_some h, start) l
  | inl h ↦ elim (Result-cases (initialize host s.config)) [
    | inl (addr, p) ↦ rw (ap is_some h, start) (rw (p, start) (spawn-IsListening s l h host addr))
    | inr (e, p) ↦ rw (ap is_some h, start) (rw (p, start) l)
  ]
]

-- The signal is sent on the channel of the loop that runs.
signalled-IsListening :
    (s : GatewayService) (n : ℕ)
    → IsListening s
    → s.shutdown_tx ≡ some n
    → IsListening (record s { shutdown_tx = none; signalled = n ∷ s.signalled })
unfolding all_below retain
signalled-IsListening s n l h = record {
  loops = l.loops;
  sent = ground (arith, l.held n h, l.sent);
  held = λ m e. absurd (cc);
  one = inl (
      running_loops-signal n s.listening s.signalled ∙ elim l.one [
        | inl none_runs ↦ rw none_runs refl
        | inr (m, there, runs) ↦ rw runs (ground (arith, there, h))
      ]);
}

nothing_to_stop : (s : GatewayService) → s.shutdown_tx ≡ none → (stop s).0 ≡ s
unfolding stop
nothing_to_stop s h = ground arith

stop-IsListening : (s : GatewayService) → IsListening s → IsListening (stop s).0
unfolding stop
stop-IsListening s l = elim (Option-cases s.shutdown_tx) [
  | inl h ↦ subst IsListening (sym (nothing_to_stop s h)) l
  | inr (n, h) ↦ rw (h, stop) (signalled-IsListening s n l h)
]

kept : (host : Host) → KeptBy IsListening (service host)
kept host = record { by_start = start-IsListening host; by_stop = stop-IsListening }

-- Whatever commands arrive, and however the sockets and the TLS configuration fare in each: where
-- at most one accept loop of each gateway service runs, namely that whose channel's sender the
-- service holds, and the channels are older than the next one, it is so after the commands.
pub serve_each-IsListening :
    (cs : List (Host × SupervisorCommand)) (s : Supervisor GatewayService)
    → AllServices IsListening s
    → AllServices IsListening (serve_each service cs s)
serve_each-IsListening cs s all = serve_each-AllServices IsListening service kept cs s all
