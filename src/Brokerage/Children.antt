-- ===== src/Brokerage/Children.antt =====
-- src/services/mqtt_brokerage/mosquitto_brokerage_service.rs: which processes are alive.
use place_net_hamlet.Common.{
  ℕ, ◌≡◌, List, [], ◌∷◌, Option, none, some, not, ◌==◌, retain, arith, ◌⊎◌, inl, ok, true,
}
use place_net_hamlet.Supervisor.{Supervisor}
use place_net_hamlet.Supervisor.Held.{AllServices, KeptBy, Step, take_steps, take_steps-AllServices}
use place_net_hamlet.Brokerage.Service.{
  Host, Child, ProcessEvent, spawned, reaped, killed, ended, sigterm, end_by_itself,
  MosquittoBrokerageService, adopt, start, terminate, await_exit, stop, service,
}

-- The children that were spawned and have neither exited by themselves nor been reaped or killed since.
unfoldable pub alive : List ProcessEvent → List ℕ
unfolding retain
alive [] = []
alive (spawned n ∷ es) = n ∷ alive es
alive (reaped n ∷ es) = retain (λ m. not (m == n)) (alive es)
alive (killed n ∷ es) = retain (λ m. not (m == n)) (alive es)
alive (ended n ∷ es) = retain (λ m. not (m == n)) (alive es)
alive (sigterm pid ∷ es) = alive es

abbrev pub held : Option Child → List ℕ
held none = []
held (some c) = c.number ∷ []

-- The child that the service holds, or none, is alive: no other child of its own ever is.
abbrev pub IsSupervised : MosquittoBrokerageService → Type 0
IsSupervised s = (alive s.events ≡ []) ⊎ (alive s.events ≡ held s.child)

start-IsSupervised :
    (host : Host) (s : MosquittoBrokerageService) → IsSupervised s → IsSupervised (start host s).0
unfolding start alive adopt
start-IsSupervised host s h = ground (arith, h)

-- A stop leaves no child alive.
pub stopped_none_alive :
    (host : Host) (s : MosquittoBrokerageService)
    → IsSupervised s
    → alive (stop host s).0.events ≡ []
unfolding stop alive terminate await_exit
stopped_none_alive host s h = ground (arith, h)

end-IsSupervised : (s : MosquittoBrokerageService) → IsSupervised s → IsSupervised (end_by_itself s)
unfolding end_by_itself alive
end-IsSupervised s h = ground (arith, h)

kept : (host : Host) → KeptBy IsSupervised (service host)
kept host = record {
  by_start = start-IsSupervised host;
  by_stop = λ s h. inl (stopped_none_alive host s h);
}

-- Whatever commands arrive, and however the calls of the operating system fare in each, and
-- whenever the children that are held exit by themselves in between: where at most one child
-- process of each broker service is alive, namely the one that the service holds, it is so at the
-- end.
pub take_steps-IsSupervised :
    (xs : List (Step Host)) (s : Supervisor MosquittoBrokerageService)
    → AllServices IsSupervised s
    → AllServices IsSupervised (take_steps service end_by_itself xs s)
take_steps-IsSupervised xs s all =
    take_steps-AllServices IsSupervised end_by_itself end-IsSupervised service kept xs s all

-- A child that is spawned where none is alive is the only one.
pub started_alive :
    (host : Host) (s : MosquittoBrokerageService) (pid : ℕ)
    → alive s.events ≡ []
    → s.child ≡ none
    → host.exists s.config.config_file ≡ true
    → host.spawn s.binary_path s.config.config_file ≡ ok (some pid)
    → alive (start host s).0.events ≡ s.next_child ∷ []
unfolding start alive adopt
started_alive host s pid none_alive idle file spawns =
    ground (arith, none_alive, idle, file, spawns)
