-- ===== src/Filter/Close/References.antt =====
-- The purge and the reinjection of a socket's packets, and the references of the socket objects.
use mac_osx_network_sockets.Base.{ℕ}
use mac_osx_network_sockets.Packet.{DirectionType, data_inbound_only, data_outbound_only}
use mac_osx_network_sockets.Socket.Purge.Roots.{purge-SameRoots}
use mac_osx_network_sockets.Socket.Reinject.Roots.{reinject-SameRoots}
use mac_osx_network_sockets.Filter.{Environment, Filter}
use mac_osx_network_sockets.Filter.References.{Counted, change-Counted}
use mac_osx_network_sockets.Filter.Close.{
  How, shut_rd, shut_wr, shut_rdwr, unknown_how, purge_socket, reinject_socket, shutdown_data,
}

module _ (x : ℕ → ℕ) where
  pub purge_socket-Counted :
      (type : DirectionType) (o : ℕ) (f : Filter) → Counted x f → Counted x (purge_socket type o f)
  unfolding purge_socket
  purge_socket-Counted type o f c = record {
    counted = (change-Counted x o _ f (purge-SameRoots type (f.objects o)) c).counted;
  }

  pub reinject_socket-Counted :
      (env : Environment) (type : DirectionType) (o : ℕ) (f : Filter)
      → Counted x f
      → Counted x (reinject_socket env type o f)
  unfolding reinject_socket
  reinject_socket-Counted env type o f c =
      let same = reinject-SameRoots env.inject_error env.uninitialised type env.now (f.objects o) in
      record { counted = (change-Counted x o _ f same c).counted }

  pub shutdown_data-Counted :
      (env : Environment) (how : How) (o : ℕ) (f : Filter)
      → Counted x f
      → Counted x (shutdown_data env how o f)
  unfolding shutdown_data
  shutdown_data-Counted env shut_rdwr o f c =
      purge_socket-Counted data_inbound_only o _
        (reinject_socket-Counted env data_outbound_only o f c)
  shutdown_data-Counted env shut_wr o f c = reinject_socket-Counted env data_outbound_only o f c
  shutdown_data-Counted env shut_rd o f c = purge_socket-Counted data_inbound_only o f c
  shutdown_data-Counted env unknown_how o f c = c
