-- ===== src/Gateway/Queue.antt =====
-- src/services/beacon_management/internals/handlers.rs: the two `try_send` calls of a handshake, into
-- the bounded queue to the message loop.
use place_net_hamlet.Common.{
  ℕ, zero, suc, ◌+◌, ◌-◌, take, ◌≤◌, ◌<◌, ◌≡◌, refl, sym, ap, ◌∙◌, List, [], ◌∷◌, ◌++◌, some, true,
  Text, text_eq, arith, length, length-append, ltb, Bool-cases, inl, inr,
}
use mathlib.Core.List.{append_assoc, append-nil}
use place_net_hamlet.Registry.{TopicChannel}
use place_net_hamlet.Gateway.Handlers.{
  TopicQueue, try_send, listen_channel, broadcast_channel, announce,
}

try_send_room :
    (c : TopicChannel) (q : TopicQueue)
    → q.is_open ≡ true
    → length q.waiting < q.capacity
    → try_send c q ≡ record q { waiting = q.waiting ++ c ∷ [] }
unfolding try_send
try_send_room c q o room = ground arith

try_send_full :
    (c : TopicChannel) (q : TopicQueue) → q.capacity ≤ length q.waiting → try_send c q ≡ q
unfolding try_send
try_send_full c q full = ground arith

-- Two sends into a queue with room for both.
pub announce_both :
    (id : Text) (q : TopicQueue)
    → q.is_open ≡ true
    → length q.waiting + 2 ≤ q.capacity
    → announce id (some q)
      ≡ some (record q { waiting = q.waiting ++ listen_channel id ∷ broadcast_channel id ∷ [] })
unfolding announce
announce_both id q o room =
    let q' : TopicQueue = record q { waiting = q.waiting ++ listen_channel id ∷ [] } in
    let shorter : length q'.waiting < q.capacity =
      omega (arith, length-append q.waiting (listen_channel id ∷ [])) in
    ap some (
      ap (try_send (broadcast_channel id)) (try_send_room (listen_channel id) q o (omega arith))
      ∙ try_send_room (broadcast_channel id) q' o shorter
      ∙ ap (λ (ws : List TopicChannel). record q { waiting = ws })
          (append_assoc q.waiting (listen_channel id ∷ []) (broadcast_channel id ∷ [])))

-- One place left.
announce_last_place :
    (id : Text) (q : TopicQueue)
    → q.is_open ≡ true
    → length q.waiting + 1 ≡ q.capacity
    → announce id (some q) ≡ some (record q { waiting = q.waiting ++ listen_channel id ∷ [] })
unfolding announce
announce_last_place id q o room =
    let q' : TopicQueue = record q { waiting = q.waiting ++ listen_channel id ∷ [] } in
    let full : q.capacity ≤ length q'.waiting =
      omega (arith, length-append q.waiting (listen_channel id ∷ [])) in
    ap some (
      ap (try_send (broadcast_channel id)) (try_send_room (listen_channel id) q o (omega arith))
      ∙ try_send_full (broadcast_channel id) q' full)

announce_full :
    (id : Text) (q : TopicQueue) → q.capacity ≤ length q.waiting → announce id (some q) ≡ some q
unfolding announce
announce_full id q full = ap some (
    ap (try_send (broadcast_channel id)) (try_send_full (listen_channel id) q full)
    ∙ try_send_full (broadcast_channel id) q full)

take_two {ℓ} : {A : Type ℓ} (n : ℕ) (a b : A) → 2 ≤ n → take n (a ∷ b ∷ []) ≡ a ∷ b ∷ []
take_two zero a b h = absurd (omega arith)
take_two (suc zero) a b h = absurd (omega arith)
take_two (suc (suc zero)) a b h = refl
take_two (suc (suc (suc n))) a b h = refl

-- Of the two channels of a handshake, the listen channel and then the broadcast channel, as many
-- reach an open queue as it has places left.
pub announce_lem :
    (id : Text) (q : TopicQueue)
    → q.is_open ≡ true
    → length q.waiting ≤ q.capacity
    → announce id (some q)
      ≡ some (record q {
        waiting =
            q.waiting
            ++ take (q.capacity - length q.waiting) (listen_channel id ∷ broadcast_channel id ∷ []);
      })
announce_lem id q o fits = elim (Bool-cases (ltb (length q.waiting) q.capacity)) [
  | inr none_left ↦
      let e : q.capacity - length q.waiting ≡ 0 = ground arith in
      announce_full id q (ground arith)
      ∙ rw e (
          ap (λ (ws : List TopicChannel). some (record q { waiting = ws }))
            (sym (append-nil q.waiting)))
  | inl left ↦ elim (Bool-cases (ltb (length q.waiting + 1) q.capacity)) [
    | inr one_left ↦
        let e : q.capacity - length q.waiting ≡ 1 = ground arith in
        announce_last_place id q o (ground arith) ∙ rw e refl
    | inl two_left ↦
        announce_both id q o (ground arith)
        ∙ ap (λ (ws : List TopicChannel). some (record q { waiting = q.waiting ++ ws }))
            (sym (take_two (q.capacity - length q.waiting) _ _ (ground arith)))
  ]
]
