-- ===== src/Socket/Verify.antt =====
-- `verifyPendingPacketsQueue`, the check of a debug build: its loop against the shape of the queue that
-- the invariant states.
use mac_osx_network_sockets.Base.{
  ◌≡◌, refl, Bool, true, false, not, ◌&&◌, List, [], ◌∷◌, arith, if◌then◌else◌, Bool-cases,
}
use mac_osx_network_sockets.Packet.{Pkt}
use mac_osx_network_sockets.Socket.{SocketObject}
use mac_osx_network_sockets.Socket.Counters.{AllUnreported, IsTailed}

-- The `TAILQ_FOREACH`: does no assertion fail? `found` is `needToBeReportedWasFound`.
verify_rest : Bool → List Pkt → Bool
verify_rest found [] = true
verify_rest found (p ∷ ps) =
    let rest = verify_rest p.need_to_be_reported ps in
    if found && not p.need_to_be_reported then false else rest

pub verify_pending_packets_queue : SocketObject → Bool
unfolding verify_rest
verify_pending_packets_queue s = verify_rest false s.pending_queue

verify_rest-AllUnreported : (q : List Pkt) → verify_rest true q ≡ true → AllUnreported q
unfolding verify_rest
verify_rest-AllUnreported [] h = tt
verify_rest-AllUnreported (p ∷ ps) h = ground (arith, verify_rest-AllUnreported ps)

verify_rest-IsTailed : (found : Bool) (q : List Pkt) → verify_rest found q ≡ true → IsTailed q
unfolding verify_rest
verify_rest-IsTailed found [] h = tt
verify_rest-IsTailed found (p ∷ ps) h = ground (
  arith,
  verify_rest-IsTailed p.need_to_be_reported ps,
  verify_rest-AllUnreported ps,
  Bool-cases p.need_to_be_reported,
)

AllUnreported-verify_rest : (q : List Pkt) → AllUnreported q → verify_rest true q ≡ true
unfolding verify_rest
AllUnreported-verify_rest [] u = refl
AllUnreported-verify_rest (p ∷ ps) u = ground (arith, AllUnreported-verify_rest ps u.1)

IsTailed-verify_rest : (q : List Pkt) → IsTailed q → verify_rest false q ≡ true
unfolding verify_rest
IsTailed-verify_rest [] t = refl
IsTailed-verify_rest (p ∷ ps) t = ground (
  arith,
  IsTailed-verify_rest ps t.1,
  AllUnreported-verify_rest ps,
  Bool-cases p.need_to_be_reported,
)

-- No assertion of `verifyPendingPacketsQueue` fails exactly if all packets behind one that waits for
-- its report wait too, although the loop compares each packet with its neighbour only.
pub verify_iff_IsTailed :
    (s : SocketObject)
    → (verify_pending_packets_queue s ≡ true → IsTailed s.pending_queue)
      × (IsTailed s.pending_queue → verify_pending_packets_queue s ≡ true)
unfolding verify_pending_packets_queue
verify_iff_IsTailed s =
    (verify_rest-IsTailed false s.pending_queue, IsTailed-verify_rest s.pending_queue)
