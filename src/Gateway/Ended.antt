-- ===== src/Gateway/Ended.antt =====
-- src/services/beacon_management/tasks.rs: an accept loop after its shutdown.
use place_net_hamlet.Common.{ℕ, ◌≡◌, refl, ◌∙◌, List, [], ◌∷◌, true, Text, arith}
use place_net_hamlet.Gateway.Requests.{Request}
use place_net_hamlet.Gateway.Handlers.{World}
use place_net_hamlet.Gateway.Dispatch.{dispatch}
use place_net_hamlet.Gateway.Connections.{
  Upstream, try_forward, Event, accepted, accept_failed, shutdown, handshake_ended, requested,
  closed, Serving, among, accept, end_handshake, answer, step, run,
}

-- What a step of an ended loop keeps.
step_ended :
    {A : Type 0} (e : Event A) (t : Serving A)
    → t.ended ≡ true
    → ((step e t).ended ≡ true) × ((step e t).spawned ≡ t.spawned)
unfolding step accept end_handshake answer
step_ended accepted t h = ground (arith, h)
step_ended accept_failed t h = (h, refl)
step_ended shutdown t h = (refl, refl)
step_ended (handshake_ended n r) t h = ground (arith, h)
step_ended (requested n w up id req) t h = ground (arith, h)
step_ended (closed n) t h = (h, refl)

run_ended :
    {A : Type 0} (es : List (Event A)) (t : Serving A)
    → t.ended ≡ true
    → ((run es t).ended ≡ true) × ((run es t).spawned ≡ t.spawned)
unfolding run
run_ended [] t h = (h, refl)
run_ended (e ∷ es) t h =
    let (ended, same_count) = step_ended e t h in
    let (ended', count) = run_ended es (step e t) ended in (ended', count ∙ same_count)

-- After the shutdown of an accept loop no connection is spawned, whatever steps follow, yet a
-- request on a connection that is still established then is dispatched and answered as before.
pub shutdown_ends_accepting :
    {A : Type 0} (es : List (Event A)) (t : Serving A) (n : ℕ) (w : World A) (up : Upstream)
    (id : Text) (req : Request)
    → let t' = run es (step shutdown t) in
      (t'.spawned ≡ t.spawned)
      × (among n t'.established ≡ true
          → (step (requested n w up id req) t').answers
            ≡ (n, (dispatch w (try_forward up t'.upstream_port) id req t'.state).1) ∷ t'.answers)
unfolding step answer
shutdown_ends_accepting es t n w up id req =
    ((run_ended es (step shutdown t) refl).1, λ there. ground (arith, there))
