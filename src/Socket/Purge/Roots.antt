-- ===== src/Socket/Purge/Roots.antt =====
-- `purgePendingQueue` leaves the references and the lists of the object alone.
use mac_osx_network_sockets.Base.{refl, List, [], ◌∷◌, inl, inr, Bool-cases, sub32}
use mac_osx_network_sockets.Packet.{Pkt, DirectionType, is_meant}
use mac_osx_network_sockets.Socket.{SocketObject}
use mac_osx_network_sockets.Socket.Roots.{SameRoots, SameRoots-trans, uncount_pkt-SameRoots}
use mac_osx_network_sockets.Socket.Purge.{purge_pkt, purge_queue, purge_pending_queue}

purge_pkt-SameRoots : (p : Pkt) (s : SocketObject) → SameRoots s (purge_pkt p s).0
unfolding purge_pkt
purge_pkt-SameRoots p s = elim (Bool-cases p.need_to_be_reported) [
  | inl e ↦ rw e (
      uncount_pkt-SameRoots p.data_inbound p.totalbytes
        (record s { packets_waiting_for_reporting = sub32 s.packets_waiting_for_reporting 1 }))
  | inr e ↦ rw e (uncount_pkt-SameRoots p.data_inbound p.totalbytes s)
]

purge_queue-SameRoots :
    (type : DirectionType) (q : List Pkt) (s : SocketObject) → SameRoots s (purge_queue type q s).1
unfolding purge_queue
purge_queue-SameRoots type [] s = (refl, refl, refl)
purge_queue-SameRoots type (p ∷ ps) s = elim (Bool-cases (is_meant type p.data_inbound)) [
  | inl e ↦ rw e (
      SameRoots-trans s (purge_pkt p s).0 (purge_queue type ps (purge_pkt p s).0).1
        (purge_pkt-SameRoots p s) (purge_queue-SameRoots type ps (purge_pkt p s).0))
  | inr e ↦ rw e (purge_queue-SameRoots type ps s)
]

pub purge-SameRoots :
    (type : DirectionType) (s : SocketObject) → SameRoots s (purge_pending_queue type s).0
unfolding purge_pending_queue
purge-SameRoots type s = purge_queue-SameRoots type s.pending_queue s
