-- ===== src/Gateway/Connections.antt =====
-- src/services/beacon_management/tasks.rs and internals/proxy.rs: an accept loop and the tasks that it
-- spawns, one for each connection. A connection is its number. `handshaking` holds those whose TLS
-- handshake has not ended and `established` those whose requests are read; the steps of all of them
-- and of the loop come in any order. A request is answered in one step; `answers` holds each answer
-- with its connection, the last first.
use place_net_hamlet.Common.{
  ℕ, suc, List, [], ◌∷◌, Bool, true, false, not, Result, ok, err, ◌>>=◌, Text, ◌==◌, any, retain,
  if◌then◌else◌,
}
use place_net_hamlet.Gateway.Requests.{Request, Response}
use place_net_hamlet.Gateway.Handlers.{World, AppState}
use place_net_hamlet.Gateway.Dispatch.{dispatch}

-- The upstream server: connecting to a local port, the handshake of HTTP, and the answer.
pub record Upstream : Type 0 where
  pub connect : ℕ → Result Text (Unit {0})
  pub handshake : Result Text (Unit {0})
  pub send_request : Request → Result Text Response

unfoldable pub try_forward : Upstream → ℕ → Request → Result Text Response
try_forward up port req = do _ ← up.connect port; _ ← up.handshake; up.send_request req

pub data Event (A : Type 0) : Type 0 where
  accepted accept_failed shutdown : Event A
  -- The TLS handshake of a connection ended.
  handshake_ended : ℕ → Result Text (Unit {0}) → Event A
  -- A request was read, with what its handler meets outside and a fresh identifier.
  requested : ℕ → World A → Upstream → Text → Request → Event A
  closed : ℕ → Event A

pub record Serving (A : Type 0) : Type 0 where
  pub tls : Bool
  pub upstream_port : ℕ
  pub ended : Bool
  pub spawned : ℕ
  pub handshaking : List ℕ
  pub established : List ℕ
  pub state : AppState A
  pub answers : List (ℕ × Response)

-- `spawn_tls_accept_loop` and `spawn_plain_accept_loop`.
unfoldable pub spawn_accept : {A : Type 0} → Bool → ℕ → AppState A → Serving A
spawn_accept tls upstream_port state = record {
  tls = tls;
  upstream_port = upstream_port;
  ended = false;
  spawned = 0;
  handshaking = [];
  established = [];
  state = state;
  answers = [];
}

unfoldable pub among : ℕ → List ℕ → Bool
unfolding any
among n ns = any (λ m. m == n) ns

unfoldable pub without : ℕ → List ℕ → List ℕ
unfolding retain
without n ns = retain (λ m. not (m == n)) ns

-- The loop accepts until its shutdown; behind TLS a connection starts with its handshake.
unfoldable pub accept : {A : Type 0} → Serving A → Serving A
accept t =
    let n = t.spawned in
    if t.ended
    then t
    else if t.tls
    then record t { spawned = suc n; handshaking = n ∷ t.handshaking }
    else record t { spawned = suc n; established = n ∷ t.established }

-- `serve_tls_connection`: a handshake that fails ends the connection.
unfoldable pub end_handshake : {A : Type 0} → ℕ → Result Text (Unit {0}) → Serving A → Serving A
unfolding among without
end_handshake n r t =
    if among n t.handshaking
    then elim r [
      | err e ↦ record t { handshaking = without n t.handshaking }
      | ok _ ↦ record t { handshaking = without n t.handshaking; established = n ∷ t.established }
    ]
    else t

-- `serve_connection`: one request, and its answer.
unfoldable pub answer :
    {A : Type 0} → ℕ → World A → Upstream → Text → Request → Serving A → Serving A
unfolding among try_forward dispatch
answer n w up id req t =
    let (state, resp) = dispatch w (try_forward up t.upstream_port) id req t.state in
    if among n t.established then record t { state = state; answers = (n, resp) ∷ t.answers } else t

unfoldable pub step : {A : Type 0} → Event A → Serving A → Serving A
unfolding accept end_handshake answer without
step accepted t = accept t
step accept_failed t = t
step shutdown t = record t { ended = true }
step (handshake_ended n r) t = end_handshake n r t
step (requested n w up id req) t = answer n w up id req t
step (closed n) t = record t { established = without n t.established }

unfoldable pub run : {A : Type 0} → List (Event A) → Serving A → Serving A
unfolding step
run [] t = t
run (e ∷ es) t = run es (step e t)
