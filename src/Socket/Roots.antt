-- ===== src/Socket/Roots.antt =====
-- What keeps a socket object alive: its references and the flags of the two lists. The operations on
-- packets leave them alone.
use mac_osx_network_sockets.Base.{ℕ, ◌≡◌, refl, ◌∙◌, Bool, true, false, Option, none, some}
use mac_osx_network_sockets.Packet.{Mbuf}
use mac_osx_network_sockets.Socket.{SocketObject, count_pkt, uncount_pkt, allocate_pkt}

abbrev pub SameRoots : SocketObject → SocketObject → Type 0
SameRoots s t =
    (t.references ≡ s.references)
    × (t.inserted_in_sockets_list ≡ s.inserted_in_sockets_list)
    × (t.inserted_in_sockets_list_to_report ≡ s.inserted_in_sockets_list_to_report)

pub SameRoots-trans : (s t u : SocketObject) → SameRoots s t → SameRoots t u → SameRoots s u
SameRoots-trans s t u (r, i, j) (r', i', j') = (r' ∙ r, i' ∙ i, j' ∙ j)

pub uncount_pkt-SameRoots :
    (inbound : Bool) (bytes : ℕ) (s : SocketObject) → SameRoots s (uncount_pkt inbound bytes s)
unfolding uncount_pkt
uncount_pkt-SameRoots true bytes s = (refl, refl, refl)
uncount_pkt-SameRoots false bytes s = (refl, refl, refl)

pub allocate_pkt-SameRoots :
    (os_malloc : Bool) (now : ℕ) (mbuf control : Option Mbuf) (flags : ℕ) (inbound : Bool)
    (s : SocketObject)
    → SameRoots s (allocate_pkt os_malloc now mbuf control flags inbound s).1
unfolding allocate_pkt count_pkt
allocate_pkt-SameRoots os_malloc now none none flags inbound s = (refl, refl, refl)
allocate_pkt-SameRoots true now (some m) none flags true s = (refl, refl, refl)
allocate_pkt-SameRoots true now (some m) none flags false s = (refl, refl, refl)
allocate_pkt-SameRoots false now (some m) none flags inbound s = (refl, refl, refl)
allocate_pkt-SameRoots true now none (some c) flags true s = (refl, refl, refl)
allocate_pkt-SameRoots true now none (some c) flags false s = (refl, refl, refl)
allocate_pkt-SameRoots false now none (some c) flags inbound s = (refl, refl, refl)
allocate_pkt-SameRoots true now (some m) (some c) flags true s = (refl, refl, refl)
allocate_pkt-SameRoots true now (some m) (some c) flags false s = (refl, refl, refl)
allocate_pkt-SameRoots false now (some m) (some c) flags inbound s = (refl, refl, refl)
