-- ===== src/Socket/Counters.antt =====
-- The counters of a socket object against its pending queue, and the shape of the queue: all packets
-- that are not reported stand at its tail.
use mac_osx_network_sockets.Base.{
  ℕ, ◌+◌, ◌%◌, ◌≡◌, Bool, true, not, List, [], ◌∷◌, ◌++◌, if◌then◌else◌, arith,
}
use mac_osx_network_sockets.Packet.{Pkt}
use mac_osx_network_sockets.Socket.{SocketObject, count_pkt, uncount_pkt}

abbrev pub one_if : Bool → ℕ
one_if b = if b then 1 else 0

abbrev pub inbound_count : List Pkt → ℕ
inbound_count [] = 0
inbound_count (p ∷ ps) = one_if p.data_inbound + inbound_count ps

abbrev pub outbound_count : List Pkt → ℕ
outbound_count [] = 0
outbound_count (p ∷ ps) = one_if (not p.data_inbound) + outbound_count ps

abbrev pub inbound_bytes : List Pkt → ℕ
inbound_bytes [] = 0
inbound_bytes (p ∷ ps) = (if p.data_inbound then p.totalbytes else 0) + inbound_bytes ps

abbrev pub outbound_bytes : List Pkt → ℕ
outbound_bytes [] = 0
outbound_bytes (p ∷ ps) = (if p.data_inbound then 0 else p.totalbytes) + outbound_bytes ps

abbrev pub unreported_count : List Pkt → ℕ
unreported_count [] = 0
unreported_count (p ∷ ps) = one_if p.need_to_be_reported + unreported_count ps

-- The counters are those of the packets `q`, modulo 2^32.
pub record Counts (s : SocketObject) (q : List Pkt) : Type 0 where
  pub in_packets : s.number_of_pending_in_packets ≡ inbound_count q % 4294967296
  pub out_packets : s.number_of_pending_out_packets ≡ outbound_count q % 4294967296
  pub in_bytes : s.total_pending_bytes_in ≡ inbound_bytes q % 4294967296
  pub out_bytes : s.total_pending_bytes_out ≡ outbound_bytes q % 4294967296

abbrev pub AllUnreported : List Pkt → Type 0
AllUnreported [] = Unit
AllUnreported (p ∷ ps) = (p.need_to_be_reported ≡ true) × AllUnreported ps

-- What `verifyPendingPacketsQueue` checks: behind a packet that waits for reporting stand only such.
abbrev pub IsTailed : List Pkt → Type 0
IsTailed [] = Unit
IsTailed (p ∷ ps) = (p.need_to_be_reported ≡ true → AllUnreported ps) × IsTailed ps

-- No packet may be sent on unless the service has answered for it.
abbrev pub IsAnswered : List Pkt → Type 0
IsAnswered [] = Unit
IsAnswered (p ∷ ps) = (p.allow_data ≡ true → p.response_received ≡ true) × IsAnswered ps

-- The invariant of a socket object between two operations.
pub record IsValid (s : SocketObject) : Type 0 where
  pub counts : Counts s s.pending_queue
  pub waiting : s.packets_waiting_for_reporting ≡ unreported_count s.pending_queue % 4294967296
  pub tailed : IsTailed s.pending_queue
  pub answered : IsAnswered s.pending_queue

pub count_pkt-Counts :
    (s : SocketObject) (p : Pkt) (q : List Pkt)
    → Counts s q
    → Counts (count_pkt p.data_inbound p.totalbytes s) (p ∷ q)
unfolding count_pkt
count_pkt-Counts s p q c = ground arith

pub uncount_pkt-Counts :
    (s : SocketObject) (p : Pkt) (q : List Pkt)
    → Counts s (p ∷ q)
    → Counts (uncount_pkt p.data_inbound p.totalbytes s) q
unfolding uncount_pkt
uncount_pkt-Counts s p q c = ground arith

pub Counts-same :
    (s : SocketObject) (q r : List Pkt)
    → inbound_count q ≡ inbound_count r
    → outbound_count q ≡ outbound_count r
    → inbound_bytes q ≡ inbound_bytes r
    → outbound_bytes q ≡ outbound_bytes r
    → Counts s q
    → Counts s r
Counts-same s q r a b c d k = omega arith

pub inbound_count-append :
    (q r : List Pkt) → inbound_count (q ++ r) ≡ inbound_count q + inbound_count r
inbound_count-append [] r = omega arith
inbound_count-append (p ∷ q) r = omega (arith, inbound_count-append q r)

pub outbound_count-append :
    (q r : List Pkt) → outbound_count (q ++ r) ≡ outbound_count q + outbound_count r
outbound_count-append [] r = omega arith
outbound_count-append (p ∷ q) r = omega (arith, outbound_count-append q r)

pub inbound_bytes-append :
    (q r : List Pkt) → inbound_bytes (q ++ r) ≡ inbound_bytes q + inbound_bytes r
inbound_bytes-append [] r = omega arith
inbound_bytes-append (p ∷ q) r = omega (arith, inbound_bytes-append q r)

pub outbound_bytes-append :
    (q r : List Pkt) → outbound_bytes (q ++ r) ≡ outbound_bytes q + outbound_bytes r
outbound_bytes-append [] r = omega arith
outbound_bytes-append (p ∷ q) r = omega (arith, outbound_bytes-append q r)

pub unreported_count-append :
    (q r : List Pkt) → unreported_count (q ++ r) ≡ unreported_count q + unreported_count r
unreported_count-append [] r = omega arith
unreported_count-append (p ∷ q) r = omega (arith, unreported_count-append q r)
