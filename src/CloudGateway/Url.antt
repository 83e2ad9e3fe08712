-- ===== src/CloudGateway/Url.antt =====
-- src/services/cloud_gateway/cloud_gateway_service.rs: `compute_ws_url`.
use place_net_hamlet.Common.{
  ◌≡◌, refl, ◌++◌, none, some, Text, utf8, strip_prefix, ends_with, trim_end_matches, if◌then◌else◌,
}

-- The scheme's replacement: `replacen` with a count of 1 at a prefix.
unfoldable pub ws_scheme : Text → Text
unfolding strip_prefix utf8
ws_scheme base = elim (strip_prefix (utf8 "https://") base) [
  | some rest ↦ utf8 "wss://" ++ rest
  | none ↦ elim (strip_prefix (utf8 "http://") base) [
    | some rest ↦ utf8 "ws://" ++ rest
    | none ↦ base
  ]
]

unfoldable pub add_ws : Text → Text
unfolding ends_with utf8
add_ws base = if ends_with (utf8 "/ws") base then base else base ++ utf8 "/ws"

unfoldable pub compute_ws_url : Text → Text
unfolding ws_scheme add_ws trim_end_matches
compute_ws_url gateway_url = add_ws (ws_scheme (trim_end_matches b'/' gateway_url))

test_https : compute_ws_url (utf8 "https://g.example//") ≡ utf8 "wss://g.example/ws"
unfolding compute_ws_url
test_https = refl
