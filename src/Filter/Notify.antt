-- ===== src/Filter/Notify.antt =====
-- `FltNotify` of NKE/NetworkKernelExtension/NkeSocketFilter.cpp: the events of a socket.
pub mod Valid
pub mod References
pub mod Addresses
use mac_osx_network_sockets.Base.{
  ℕ, zero, suc, Bool, true, false, Option, none, some, List, [], ◌∷◌, ◌++◌, ◌==◌, if◌then◌else◌,
  update,
}
use mac_osx_network_sockets.Packet.{
  FilterEvent, Notification, notified, data_all, data_inbound_only, data_outbound_only,
}
use mac_osx_network_sockets.Socket.{SocketObject, check_for_injection_completion}
use mac_osx_network_sockets.Socket.Events.{
  SocketEvent, connecting, connected, disconnecting, disconnected, flush_read, shutdown,
  cantrecvmore, cantsendmore, closing, bound, other_event, log_socket_pre_event,
  log_socket_post_event,
}
use mac_osx_network_sockets.Socket.Address.{
  ObjectAddress, set_address, is_address_valid, get_address, zeroed,
}
use mac_osx_network_sockets.Filter.{Environment, Filter}
use mac_osx_network_sockets.Filter.Close.{How, closing_data, shutdown_data, reinject_socket}
use mac_osx_network_sockets.Filter.Service.{get_socket_object_ref, release_object}

-- What `sock_getsockname` and `sock_getpeername` return: an error, and the bytes of an address.
pub record Names : Type 0 where
  pub local_name : ℕ × List ℕ
  pub peer_name : ℕ × List ℕ

-- A change of one object.
abbrev pub change_object : ℕ → SocketObject → Filter → Filter
change_object o t f = record f { objects = update f.objects o t }

-- The address field after the block that sets it, unless it is valid; `none` as in `set_address`.
pub completed : ℕ × List ℕ → ObjectAddress → Option ObjectAddress
completed (error, address) field =
    if is_address_valid field
    then some field
    else (if error == 0 then set_address address field else some field)

-- The local and the remote address after the part of a case that sets them.
pub addresses_at : Names → SocketEvent → SocketObject → Option (ObjectAddress × ObjectAddress)
unfolding completed
addresses_at names connecting s = elim (completed names.local_name s.local_address) [
  | none ↦ none
  | some local ↦ some (local, s.remote_address)
]
addresses_at names connected s = elim (completed names.local_name s.local_address) [
  | none ↦ none
  | some local ↦ elim (completed names.peer_name s.remote_address) [
    | none ↦ none
    | some remote ↦ some (local, remote)
  ]
]
addresses_at names e s = some (s.local_address, s.remote_address)

-- `INIT_SOCKET_NOTIFICATION` for an event that is not one of data.
abbrev pub init_socket_notification : SocketObject → FilterEvent → Notification
init_socket_notification s event = record {
  event = event;
  socket = s.socket;
  socket_sequence = s.socket_sequence;
  for_disconnected_socket = s.disconnected;
  data_size = 0;
  data_index = 0;
  buffers = [];
  addresses = none;
}

abbrev pub connected_notification : SocketObject → Notification
connected_notification s = record (init_socket_notification s FilterEvent.connected) {
  addresses =
      some (s.sa_family, get_address s.local_address zeroed, get_address s.remote_address zeroed);
}

-- `if( userClient )`: the notification, whose failure has no consequence.
abbrev pub sent : Option ℕ → Notification → Filter → Filter
sent none n f = f
sent (some zero) n f = record f { trace = f.trace ++ notified n ∷ [] }
sent (some (suc e)) n f = f

abbrev pub send : Environment → Notification → Filter → Filter
send env n f = sent (env.user_client f.trace n) n f

-- The notification does not bear the mark that the object gets here.
abbrev pub handle_disconnected : Environment → ℕ → Filter → Filter
handle_disconnected env o f =
    let s = f.objects o in
    send env (init_socket_notification s FilterEvent.disconnected)
      (change_object o (record s { disconnected = true }) f)

-- The cases of the `switch` of `FltNotify`, for the object `o` whose addresses have been set, up to the
-- wait of `sock_evt_disconnecting`; `how` is the parameter of a shutdown.
pub handle_case : Environment → SocketEvent → How → ℕ → Filter → Filter
handle_case env connecting how o f = f
handle_case env connected how o f = send env (connected_notification (f.objects o)) f
handle_case env closing how o f =
    let g = closing_data o f in
    send env (init_socket_notification (g.objects o) FilterEvent.closing) g
handle_case env disconnecting how o f = reinject_socket env data_all o f
handle_case env disconnected how o f = handle_disconnected env o f
handle_case env shutdown how o f = shutdown_data env how o f
handle_case env cantrecvmore how o f = reinject_socket env data_inbound_only o f
handle_case env flush_read how o f = f
handle_case env cantsendmore how o f = f
handle_case env bound how o f = f
handle_case env other_event how o f = f

abbrev with_addresses : ℕ → ObjectAddress × ObjectAddress → Filter → Filter
with_addresses o (local, remote) f =
    change_object o (record (f.objects o) { local_address = local; remote_address = remote }) f

-- The `switch`, `none` as in `set_address`.
pub handle_event : Environment → Names → SocketEvent → How → ℕ → Filter → Option Filter
unfolding addresses_at handle_case
handle_event env names e how o f = elim (addresses_at names e (f.objects o)) [
  | none ↦ none
  | some a ↦ some (handle_case env e how o (with_addresses o a f))
]

abbrev pub log_pre : SocketEvent → ℕ → Filter → Filter
log_pre e o f =
    let s = f.objects o in
    change_object o (record s { event_flags = log_socket_pre_event e s.event_flags }) f

abbrev pub log_post : SocketEvent → ℕ → Filter → Filter
log_post e o f =
    let s = f.objects o in
    change_object o (record s { event_flags = log_socket_post_event e s.event_flags }) f

-- Does `checkForInjectionCompletion( NkeSocketDataAll, true )` wait, which `sock_evt_disconnecting`
-- calls last?
pub must_wait : SocketEvent → SocketObject → Bool
must_wait disconnecting s = elim (check_for_injection_completion data_all true s) [
  | none ↦ true
  | some b ↦ false
]
must_wait e s = false

-- What follows the `switch`
unfoldable pub finish_notify : SocketEvent → ℕ → Filter → Filter
finish_notify e o f = release_object o (log_post e o f)

-- The end of the call, or, with the object of which it holds a reference, a call that waits.
pub finish_or_wait : SocketEvent → ℕ → Filter → Option ℕ × Filter
unfolding must_wait finish_notify
finish_or_wait e o f =
    if must_wait e (f.objects o) then (some o, f) else (none, finish_notify e o f)

pub notify_object :
    Environment → Names → SocketEvent → How → Option ℕ × Filter → Option (Option ℕ × Filter)
unfolding handle_event finish_or_wait
notify_object env names e how (none, f) = some (none, f)
notify_object env names e how (some o, f) = elim (handle_event env names e how o (log_pre e o f)) [
  | none ↦ none
  | some g ↦ some (finish_or_wait e o g)
]

-- `FltNotify` for the socket `so`, as far as it runs without waiting: `none` as in `set_address`, and
-- otherwise the object if the call waits, and the state. A socket without an object is ignored.
unfoldable pub flt_notify :
    Environment → Names → SocketEvent → How → ℕ → Filter → Option (Option ℕ × Filter)
unfolding notify_object
flt_notify env names e how so f = notify_object env names e how (get_socket_object_ref so f)

-- The end of a call of `FltNotify` that waits for the object `o`, once the counters are zero; until
-- then it goes on waiting.
unfoldable pub resume_notify : ℕ → Filter → Option ℕ × Filter
unfolding finish_or_wait
resume_notify o f = finish_or_wait disconnecting o f
