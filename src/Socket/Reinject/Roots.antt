-- ===== src/Socket/Reinject/Roots.antt =====
-- `reinjectDeferredData` leaves the references and the lists of the object alone.
use mac_osx_network_sockets.Base.{ℕ, refl, List, [], ◌∷◌}
use mac_osx_network_sockets.Packet.{Pkt, DirectionType}
use mac_osx_network_sockets.Socket.{SocketObject, uncount_pkt}
use mac_osx_network_sockets.Socket.Roots.{SameRoots, SameRoots-trans, uncount_pkt-SameRoots}
use mac_osx_network_sockets.Socket.Reinject.{
  leave_queue, select, inject_all, inject_selection, reinject_deferred_data,
}

module _ (inject_error uninitialised : Pkt → ℕ) where
  inject_all-SameRoots :
      (s : SocketObject) (ps : List Pkt)
      → SameRoots s (inject_all inject_error uninitialised s ps).0
  unfolding inject_all
  inject_all-SameRoots s [] = (refl, refl, refl)
  inject_all-SameRoots s (p ∷ ps) =
      let t : SocketObject = uncount_pkt p.data_inbound p.totalbytes s in
      SameRoots-trans s t (inject_all inject_error uninitialised t ps).0
        (uncount_pkt-SameRoots p.data_inbound p.totalbytes s) (inject_all-SameRoots t ps)

  pub reinject-SameRoots :
      (type : DirectionType) (now : ℕ) (s : SocketObject)
      → SameRoots s (reinject_deferred_data inject_error uninitialised type now s).0
  unfolding reinject_deferred_data inject_selection
  reinject-SameRoots type now s =
      let c = select type now s.pending_queue in inject_all-SameRoots (leave_queue s c) c.to_inject
