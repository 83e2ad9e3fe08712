-- ===== src/Gateway/Secured.antt =====
-- src/services/beacon_management/tasks.rs: which connections an accept loop answers, whatever the order
-- of the steps.
use place_net_hamlet.Common.{
  ℕ, ◌≡◌, refl, List, [], ◌∷◌, Bool, true, false, ◌||◌, ◌&&◌, Result, is_ok, Text, ◌==◌, any,
  retain, arith,
}
use place_net_hamlet.Gateway.Requests.{Response, Request}
use place_net_hamlet.Gateway.Handlers.{World, AppState}
use place_net_hamlet.Gateway.Connections.{
  Upstream, Event, accepted, accept_failed, shutdown, handshake_ended, requested, closed, Serving,
  spawn_accept, among, without, accept, end_handshake, answer, step, run,
}

-- A handshake of the connection that succeeds.
unfoldable pub grants : {A : Type 0} → ℕ → Event A → Bool
grants n (handshake_ended m r) = (m == n) && is_ok r
grants n accepted = false
grants n accept_failed = false
grants n shutdown = false
grants n (requested m w up id req) = false
grants n (closed m) = false

unfoldable pub answered : ℕ → List (ℕ × Response) → Bool
answered n [] = false
answered n ((m, r) ∷ rest) = (m == n) || answered n rest

among-without : (n m : ℕ) (ns : List ℕ) → among n ns ≡ false → among n (without m ns) ≡ false
unfolding among without any retain
among-without n m [] h = refl
among-without n m (k ∷ ns) h = ground (arith, among-without n m ns)

-- Behind TLS, without a handshake of the connection: it is not established and was not answered.
record Unanswered {A : Type 0} (n : ℕ) (t : Serving A) : Type 0 where
  behind_tls : t.tls ≡ true
  not_established : among n t.established ≡ false
  no_answer : answered n t.answers ≡ false

accept-Unanswered : {A : Type 0} (n : ℕ) (t : Serving A) → Unanswered n t → Unanswered n (accept t)
unfolding accept
accept-Unanswered n t u = ground (arith, u.behind_tls, u.not_established, u.no_answer)

close-Unanswered :
    {A : Type 0} (n m : ℕ) (t : Serving A)
    → Unanswered n t
    → Unanswered n (record t { established = without m t.established })
close-Unanswered n m t u = record {
  behind_tls = u.behind_tls;
  not_established = among-without n m t.established u.not_established;
  no_answer = u.no_answer;
}

among_ne : (n m : ℕ) (ns : List ℕ) → among n ns ≡ false → among m ns ≡ true → (m == n) ≡ false
unfolding among any
among_ne n m [] h k = absurd (cc)
among_ne n m (j ∷ ns) h k = ground (arith, among_ne n m ns)

handshake-Unanswered :
    {A : Type 0} (n m : ℕ) (r : Result Text (Unit {0})) (t : Serving A)
    → ((m == n) && is_ok r) ≡ false
    → Unanswered n t
    → Unanswered n (end_handshake m r t)
unfolding end_handshake among any
handshake-Unanswered n m r t other u = ground (arith, u.behind_tls, u.not_established, u.no_answer)

answer-Unanswered :
    {A : Type 0} (n m : ℕ) (w : World A) (up : Upstream) (id : Text) (req : Request) (t : Serving A)
    → Unanswered n t
    → Unanswered n (answer m w up id req t)
unfolding answer answered
answer-Unanswered n m w up id req t u =
    ground (arith, u.behind_tls, u.not_established, u.no_answer, among_ne n m t.established)

step-Unanswered :
    {A : Type 0} (n : ℕ) (e : Event A) (t : Serving A)
    → grants n e ≡ false
    → Unanswered n t
    → Unanswered n (step e t)
unfolding step grants
step-Unanswered n accepted t h u = accept-Unanswered n t u
step-Unanswered n accept_failed t h u = u
step-Unanswered n shutdown t h u = record {
  behind_tls = u.behind_tls;
  not_established = u.not_established;
  no_answer = u.no_answer;
}
step-Unanswered n (handshake_ended m r) t h u = handshake-Unanswered n m r t h u
step-Unanswered n (requested m w up id req) t h u = answer-Unanswered n m w up id req t u
step-Unanswered n (closed m) t h u = close-Unanswered n m t u

run-Unanswered :
    {A : Type 0} (n : ℕ) (es : List (Event A)) (t : Serving A)
    → any (grants n) es ≡ false
    → Unanswered n t
    → Unanswered n (run es t)
unfolding run any
run-Unanswered n [] t h u = u
run-Unanswered n (e ∷ es) t h u =
    run-Unanswered n es (step e t) (ground arith) (step-Unanswered n e t (ground arith) u)

-- Behind TLS, a connection on which no handshake succeeds is never answered, in whatever order
-- its steps, those of the accept loop and those of the other connections come.
pub tls_required :
    {A : Type 0} (n port : ℕ) (es : List (Event A)) (s : AppState A)
    → any (grants n) es ≡ false
    → answered n (run es (spawn_accept true port s)).answers ≡ false
unfolding spawn_accept among answered
tls_required n port es s none_granted =
    (run-Unanswered n es (spawn_accept true port s) none_granted
      (record { behind_tls = refl; not_established = refl; no_answer = refl })).no_answer
