-- ===== src/Gateway/Dispatch.antt =====
-- src/services/beacon_management/internals/proxy.rs: which requests the node answers itself.
-- `forward` stands for `try_forward`, the request to the upstream server.
use place_net_hamlet.Common.{Bool, Result, ok, err, Text, text_eq, utf8, is_some, if◌then◌else◌}
use place_net_hamlet.Common.Map.{get}
use place_net_hamlet.Gateway.Requests.{
  Request, Response, text_response, header_init, header_register, header_health,
}
use place_net_hamlet.Gateway.Handlers.{
  World, AppState, handle_health, handle_device_init, handle_client_register,
}

-- `headers().contains_key(name)`.
unfoldable pub contains_key : Text → Request → Bool
unfolding get
contains_key name req = is_some (get name req.headers)

unfoldable pub forward_or_502 : Result Text Response → Response
unfolding text_response
forward_or_502 (ok resp) = resp
forward_or_502 (err e) = text_response 502 (utf8 "Bad Gateway")

unfoldable pub dispatch :
    {A : Type 0}
    → World A
    → (Request → Result Text Response)
    → Text
    → Request
    → AppState A
    → AppState A × Response
unfolding contains_key forward_or_502 handle_health handle_device_init handle_client_register
dispatch w forward id req s =
    if contains_key header_health req
    then (s, handle_health)
    else if contains_key header_init req
    then handle_device_init w id req s
    else if contains_key header_register req
    then handle_client_register w id req s
    else (s, forward_or_502 (forward req))
