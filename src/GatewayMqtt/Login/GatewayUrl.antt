-- ===== src/GatewayMqtt/Login/GatewayUrl.antt =====
-- src/services/gateway_mqtt/login.rs: `Url::parse`.
use place_net_hamlet.Common.{
  ℕ, ◌≡◌, refl, [], ◌∷◌, ◌++◌, Option, none, some, Bool, true, false, Result, ok, err, ok_or, ◌>>=◌,
  Text, utf8, text_same, strip_prefix, rsplit_once, parse_uint, is_empty, if◌then◌else◌, ◌==◌,
}

pub record Url : Type 0 where
  pub tls : Bool
  pub host : Text
  pub port : ℕ
  pub path : Text

-- `split_once("://")`: the first place where the separator stands.
unfoldable pub split_scheme : Text → Option (Text × Text)
unfolding strip_prefix utf8
split_scheme [] = none
split_scheme (c ∷ s) =
    let rest = split_scheme s in
    elim (strip_prefix (utf8 "://") (c ∷ s)) [
      | some after ↦ some ([], after)
      | none ↦ elim rest [ none ↦ none | some p ↦ some (c ∷ p.0, p.1) ]
    ]

unfoldable pub scheme_tls : Text → Result Text Bool
unfolding text_same
scheme_tls scheme =
    if text_same scheme (utf8 "https")
    then ok true
    else if text_same scheme (utf8 "http")
    then ok false
    else err (utf8 "unsupported gateway scheme '" ++ scheme ++ utf8 "'")

-- The authority, and the path from its first slash on.
unfoldable pub split_path : Text → Text × Text
split_path [] = ([], utf8 "/")
split_path (c ∷ s) =
    let rest = split_path s in if c == b'/' then ([], c ∷ s) else (c ∷ rest.0, rest.1)

abbrev pub default_port : Bool → ℕ
default_port true = 443
default_port false = 80

-- The last colon of the authority ends the host, unless nothing stands in front of it.
unfoldable pub host_port : Text → Bool → Text → Result Text (Text × ℕ)
unfolding rsplit_once parse_uint
host_port input tls authority = elim (rsplit_once b':' authority) [
  | none ↦ ok (authority, default_port tls)
  | some (h, p) ↦
      if is_empty h then ok (authority, default_port tls) else elim (parse_uint 65535 p) [
        | none ↦ err (utf8 "invalid port in '" ++ input ++ utf8 "'")
        | some port ↦ ok (h, port)
      ]
]

unfoldable pub parse : Text → Result Text Url
unfolding split_scheme scheme_tls split_path host_port
parse input = do
  (scheme, rest) ← ok_or (utf8 "invalid gateway url '" ++ input ++ utf8 "'") (split_scheme input)
  tls ← scheme_tls scheme
  let (authority, path) = split_path rest
  (host, port) ← host_port input tls authority
  ok (record { tls = tls; host = host; port = port; path = path })

test_parse :
    parse (utf8 "https://g.example:8443/x")
    ≡ ok (record { tls = true; host = utf8 "g.example"; port = 8443; path = utf8 "/x" })
unfolding parse utf8
test_parse = refl
