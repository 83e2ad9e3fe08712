-- ===== src/Peer/Delivery.antt =====
-- src/services/peer/peer_service.rs: when a message counts as delivered.
use place_net_hamlet.Common.{
  ℕ, ◌≡◌, ◌++◌, List, some, true, ok, Text, utf8, arith, Option-cases, Result-cases, inl, inr,
}
use place_net_hamlet.Peer.{
  Url, PeerResponse, Net, is_success, address, peer_request, acknowledged, send_message,
}

module _ (net : Net) where
  acknowledged_ok :
      (response : PeerResponse)
      → acknowledged net response ≡ ok tt
      → (is_success response.status ≡ true) × (body : List ℕ) × (response.body ≡ ok body)
  unfolding acknowledged
  acknowledged_ok response h = elim (Result-cases response.body) [
    | inr (e, bad) ↦ absurd (ground arith)
    | inl (body, read) ↦ (ground arith, body, read)
  ]

  -- A message that is delivered was answered with a status of success.
  pub delivered :
      (base_url message : Text)
      → send_message net base_url message ≡ ok tt
      → (url : Url) × (host : Text) × (response : PeerResponse) × (net.parse
            (base_url ++ utf8 "/peer/message")
          ≡ ok url)
        × (url.host ≡ some host)
        × (net.connect (address host url) ≡ ok tt)
        × (net.send_request (peer_request host url message) ≡ ok response)
        × (is_success response.status ≡ true)
  unfolding send_message
  delivered base_url message h =
      elim (Result-cases (net.parse (base_url ++ utf8 "/peer/message"))) [
        | inr (e, bad) ↦ absurd (ground arith)
        | inl (url, parsed) ↦ elim (Option-cases url.host) [
          | inl gone ↦ absurd (ground arith)
          | inr (host, there) ↦
              elim (Result-cases (net.send_request (peer_request host url message))) [
                | inr (e, bad) ↦ absurd (ground arith)
                | inl (response, sent) ↦ (
                  url,
                  host,
                  response,
                  parsed,
                  there,
                  ground arith,
                  sent,
                  (acknowledged_ok response (ground arith)).0,
                )
              ]
        ]
      ]
