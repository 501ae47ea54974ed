-- ===== src/Socket/Pending.antt =====
-- A packet between `allocatePkt` and its place at the tail of the pending queue.
use mac_osx_network_sockets.Base.{
  [], ◌++◌, Bool-cases, List, ℕ, ◌%◌, ◌≡◌, refl, none, add32, Bool, true, false, Option, some, ◌∷◌,
  arith,
}
use mac_osx_network_sockets.Packet.{Mbuf, Pkt}
use mac_osx_network_sockets.Socket.{SocketObject, new_pkt, allocate_pkt, count_pkt}
use mac_osx_network_sockets.Socket.Counters.{
  AllUnreported, unreported_count, Counts, IsTailed, IsAnswered, IsValid,
}

-- A new packet in hand: it is counted, but it is not in the queue yet.
pub record IsPending (s : SocketObject) (p : Pkt) : Type 0 where
  pub counts : Counts s (p ∷ s.pending_queue)
  pub waiting : s.packets_waiting_for_reporting ≡ unreported_count s.pending_queue % 4294967296
  pub tailed : IsTailed s.pending_queue
  pub answered : IsAnswered s.pending_queue
  pub reported : p.need_to_be_reported ≡ false
  pub allowed : p.allow_data ≡ false

-- The object after a packet of this direction and size has been allocated.
abbrev pub allocated : Bool → ℕ → SocketObject → SocketObject
allocated inbound bytes s = record (count_pkt inbound bytes s) {
  pending_data_next_index = add32 s.pending_data_next_index 1;
}

pub new_pkt-IsPending :
    (now : ℕ) (mbuf control : Option Mbuf) (flags : ℕ) (inbound : Bool) (s : SocketObject)
    → IsValid s
    → let p = new_pkt now mbuf control flags inbound s in
      IsPending (allocated inbound p.totalbytes s) p
      × ((allocated inbound p.totalbytes s).pending_queue ≡ s.pending_queue)
      × ((allocated inbound p.totalbytes s).inserted_in_sockets_list_to_report
          ≡ s.inserted_in_sockets_list_to_report)
unfolding new_pkt count_pkt
new_pkt-IsPending now mbuf control flags true s v = (ground arith, refl, refl)
new_pkt-IsPending now mbuf control flags false s v = (ground arith, refl, refl)

-- `allocatePkt` for a packet with data fails with `OSMalloc` only.
pub allocate_pkt-some :
    (now : ℕ) (m : Mbuf) (control : Option Mbuf) (flags : ℕ) (inbound : Bool) (s : SocketObject)
    → let p = new_pkt now (some m) control flags inbound s in
      allocate_pkt true now (some m) control flags inbound s
      ≡ (some p, allocated inbound p.totalbytes s)
unfolding allocate_pkt new_pkt
allocate_pkt-some now m control flags inbound s = refl

pub allocate_pkt-none :
    (now : ℕ) (m : Mbuf) (control : Option Mbuf) (flags : ℕ) (inbound : Bool) (s : SocketObject)
    → allocate_pkt false now (some m) control flags inbound s ≡ (none, s)
unfolding allocate_pkt
allocate_pkt-none now m control flags inbound s = refl

AllUnreported-append :
    (q : List Pkt) (p : Pkt)
    → AllUnreported q
    → p.need_to_be_reported ≡ true
    → AllUnreported (q ++ p ∷ [])
AllUnreported-append [] p u n = (n, tt)
AllUnreported-append (x ∷ q) p u n = (u.0, AllUnreported-append q p u.1 n)

-- A packet that is unreported, or behind a queue without unreported packets, may stand at the tail.
pub IsTailed-append :
    (q : List Pkt) (p : Pkt)
    → IsTailed q
    → (p.need_to_be_reported ≡ false → unreported_count q ≡ 0)
    → IsTailed (q ++ p ∷ [])
IsTailed-append [] p t h = ground arith
IsTailed-append (x ∷ q) p t h =
    let behind : AllUnreported q → p.need_to_be_reported ≡ true → AllUnreported (q ++ p ∷ []) =
      AllUnreported-append q p in
    ground (arith, IsTailed-append q p t.1, Bool-cases p.need_to_be_reported)

pub IsAnswered-append :
    (q : List Pkt) (p : Pkt)
    → IsAnswered q
    → (p.allow_data ≡ true → p.response_received ≡ true)
    → IsAnswered (q ++ p ∷ [])
IsAnswered-append [] p a h = (h, tt)
IsAnswered-append (x ∷ q) p a h = (a.0, IsAnswered-append q p a.1 h)
