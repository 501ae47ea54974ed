-- ===== src/Filter/Close.antt =====
-- What `FltDetach` and the events `sock_evt_closing` and `sock_evt_shutdown` of `FltNotify` do to the
-- pending packets of a socket.
pub mod Valid
pub mod References
use mac_osx_network_sockets.Base.{ℕ, List, ◌++◌, update}
use mac_osx_network_sockets.Packet.{DirectionType, data_all, data_inbound_only, data_outbound_only}
use mac_osx_network_sockets.Socket.Reinject.{reinject_deferred_data}
use mac_osx_network_sockets.Socket.Purge.{purge_pending_queue}
use mac_osx_network_sockets.Filter.{Environment, Filter}

-- The direction that is shut down, `how` of the event's parameter; `unknown_how` is any other value.
pub data How : Type 0 where
  shut_rd shut_wr shut_rdwr unknown_how : How

unfoldable pub purge_socket : DirectionType → ℕ → Filter → Filter
purge_socket type o f =
    let (t, es) = purge_pending_queue type (f.objects o) in
    record f { objects = update f.objects o t; trace = f.trace ++ es }

unfoldable pub reinject_socket : Environment → DirectionType → ℕ → Filter → Filter
reinject_socket env type o f =
    let (t, es) =
      reinject_deferred_data env.inject_error env.uninitialised type env.now (f.objects o) in
    record f { objects = update f.objects o t; trace = f.trace ++ es }

unfoldable pub detach_data : ℕ → Filter → Filter
unfolding purge_socket
detach_data o f = purge_socket data_all o f

unfoldable pub closing_data : ℕ → Filter → Filter
unfolding purge_socket
closing_data o f = purge_socket data_inbound_only o f

unfoldable pub shutdown_data : Environment → How → ℕ → Filter → Filter
unfolding purge_socket reinject_socket
shutdown_data env shut_rdwr o f =
    purge_socket data_inbound_only o (reinject_socket env data_outbound_only o f)
shutdown_data env shut_wr o f = reinject_socket env data_outbound_only o f
shutdown_data env shut_rd o f = purge_socket data_inbound_only o f
shutdown_data env unknown_how o f = f
