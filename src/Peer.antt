-- ===== src/Peer.antt =====
-- src/services/peer/peer_service.rs: a message to another node, as one HTTP request. `Net` stands for
-- the parser of URLs, the sockets and hyper; a status is displayed by `show_status`, and `lossy` is
-- `String::from_utf8_lossy`. No code calls this.
pub mod Delivery
use place_net_hamlet.Common.{
  ℕ, ◌++◌, List, Option, Bool, ◌&&◌, Result, ok, err, ok_or, ◌>>=◌, map_err, Text, utf8, show_uint,
  unwrap_or, ltb, leb, if◌then◌else◌,
}

pub record Url : Type 0 where
  pub host : Option Text
  pub port_u16 : Option ℕ
  pub path_and_query : Option Text

pub record PeerRequest : Type 0 where
  pub method : Text
  pub uri : Text
  pub host : Text
  pub content_type : Text
  pub body : Text

pub record PeerResponse : Type 0 where
  pub status : ℕ
  pub body : Result Text (List ℕ)

pub record Net : Type 0 where
  pub parse : Text → Result Text Url
  pub connect : Text → Result Text (Unit {0})
  pub handshake : Text → Result Text (Unit {0})
  -- `Request::builder` refuses a target or a header value that is not well-formed.
  pub well_formed : PeerRequest → Result Text (Unit {0})
  pub send_request : PeerRequest → Result Text PeerResponse
  pub show_status : ℕ → Text
  pub lossy : List ℕ → Text

-- `StatusCode::is_success`.
unfoldable pub is_success : ℕ → Bool
is_success status = leb 200 status && ltb status 300

unfoldable pub address : Text → Url → Text
unfolding show_uint
address host url = host ++ utf8 ":" ++ show_uint (unwrap_or 80 url.port_u16)

unfoldable pub peer_request : Text → Url → Text → PeerRequest
unfolding address
peer_request host url message = record {
  method = utf8 "POST";
  uri = unwrap_or (utf8 "/peer/message") url.path_and_query;
  host = address host url;
  content_type = utf8 "text/plain";
  body = message;
}

-- What the answer is taken for, once it is there.
unfoldable pub acknowledged : Net → PeerResponse → Result Text (Unit {0})
unfolding is_success
acknowledged net response = do
  body ← map_err (λ e. utf8 "Failed to read peer response body: " ++ e) response.body
  if is_success response.status
      then ok tt
      else err
          (utf8 "Peer returned " ++ net.show_status response.status ++ utf8 " — " ++ net.lossy body)

unfoldable pub send_message : Net → Text → Text → Result Text (Unit {0})
unfolding address peer_request acknowledged
send_message net base_url message = do
  url ← map_err (λ e. utf8 "Invalid peer URL: " ++ e) (net.parse (base_url ++ utf8 "/peer/message"))
  host ← ok_or (utf8 "Peer URL has no host") url.host
  let addr = address host url
  _ ← map_err (λ e. utf8 "Failed to connect to peer " ++ addr ++ utf8 ": " ++ e) (net.connect addr)
  _ ← map_err (λ e. utf8 "HTTP handshake failed: " ++ e) (net.handshake addr)
  let request = peer_request host url message
  _ ← map_err (λ e. utf8 "Failed to build request: " ++ e) (net.well_formed request)
  response ← map_err (λ e. utf8 "Failed to send request to peer: " ++ e) (net.send_request request)
  acknowledged net response
