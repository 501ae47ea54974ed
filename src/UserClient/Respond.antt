-- ===== src/UserClient/Respond.antt =====
-- `processServiceSocketFilterResponse` of NKE/NetworkKernelExtension/NkeIOUserClient.cpp: the call by
-- which a client sends its response.
use mac_osx_network_sockets.Base.{ℕ, Bool, List, ltb, if◌then◌else◌}
use mac_osx_network_sockets.Socket.Response.{Property}
use mac_osx_network_sockets.Filter.{Environment, Filter}
use mac_osx_network_sockets.Filter.Service.{process_service_response}
use mac_osx_network_sockets.UserClient.Session.{Status, success, bad_argument}

-- `response_size` is `sizeof( NkeSocketFilterServiceResponse )`, and `has_filter` says whether there is
-- a `gSocketFilter`.
pub process_service_socket_filter_response :
    Environment → ℕ → Bool → ℕ → List ℕ → List Property → Filter → Status × Filter
process_service_socket_filter_response env response_size has_filter in_size buffers rs f =
    if ltb in_size response_size
    then (bad_argument, f)
    else (if has_filter
        then (success, process_service_response env buffers rs f)
        else (bad_argument, f))
