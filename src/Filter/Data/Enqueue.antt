-- ===== src/Filter/Data/Enqueue.antt =====
-- The locked part of `FltData`, in which a packet is put in the queue, and the invariant of the socket
-- object.
use mac_osx_network_sockets.Base.{
  ℕ, ◌<◌, ◌≡◌, sym, subst, false, List, [], ◌∷◌, ◌++◌, arith, if◌then◌else◌, add32, inl, inr,
  Bool-cases,
}
use mac_osx_network_sockets.Packet.{Pkt}
use mac_osx_network_sockets.Socket.{SocketObject}
use mac_osx_network_sockets.Socket.Counters.{
  unreported_count, Counts, Counts-same, IsValid, inbound_count-append, outbound_count-append,
  inbound_bytes-append, outbound_bytes-append, unreported_count-append,
}
use mac_osx_network_sockets.Socket.Pending.{IsPending, IsTailed-append, IsAnswered-append}
use mac_osx_network_sockets.Filter.Data.{Arrival, is_postponed, queued_pkt, enqueue}

-- The packet that `FltData` puts in the queue, against the packet that it has allocated.
queued_pkt-same :
    (error : ℕ) (a : Arrival) (s : SocketObject) (p : Pkt)
    → p.need_to_be_reported ≡ false
    → let q = queued_pkt error a s p in
      (q.data_inbound ≡ p.data_inbound)
      × (q.totalbytes ≡ p.totalbytes)
      × (q.need_to_be_reported ≡ is_postponed error s)
      × (q.allow_data ≡ p.allow_data)
unfolding queued_pkt is_postponed
queued_pkt-same error a s p n = ground arith

enqueue-fields :
    (error : ℕ) (a : Arrival) (p : Pkt) (s : SocketObject)
    → let t = enqueue error a p s in
      (t.pending_queue ≡ s.pending_queue ++ queued_pkt error a s p ∷ [])
      × (t.packets_waiting_for_reporting ≡ (
          if is_postponed error s
          then add32 s.packets_waiting_for_reporting 1
          else s.packets_waiting_for_reporting))
      × ((q : List Pkt) → Counts s q → Counts t q)
unfolding enqueue
enqueue-fields error a p s = elim (Bool-cases (is_postponed error s)) [
  | inl e ↦ (ground arith, ground arith, λ q c. ground arith)
  | inr e ↦ (ground arith, ground arith, λ q c. ground arith)
]

postponed_behind :
    (error : ℕ) (s : SocketObject)
    → is_postponed error s ≡ false
    → s.packets_waiting_for_reporting ≡ 0
unfolding is_postponed
postponed_behind error s h = ground arith

pub enqueue-IsValid :
    (error : ℕ) (a : Arrival) (p : Pkt) (s : SocketObject)
    → IsPending s p
    → unreported_count s.pending_queue < 4294967296
    → IsValid (enqueue error a p s)
enqueue-IsValid error a p s v few =
    let (same, waiting, counts) = enqueue-fields error a p s in
    let x = queued_pkt-same error a s p v.reported in
    let q = s.pending_queue in
    let y = queued_pkt error a s p in
    record {
      counts = subst (Counts (enqueue error a p s)) (sym same) (
          counts _ (
            Counts-same s (p ∷ q) (q ++ y ∷ []) (ground (arith, inbound_count-append q (y ∷ [])))
              (ground (arith, outbound_count-append q (y ∷ [])))
              (ground (arith, inbound_bytes-append q (y ∷ [])))
              (ground (arith, outbound_bytes-append q (y ∷ []))) v.counts));
      waiting =
          rw same (
            ground
              (arith, v.waiting, unreported_count-append q (y ∷ []), postponed_behind error s));
      tailed =
          rw same (IsTailed-append q y v.tailed (λ n. ground (arith, postponed_behind error s)));
      answered = rw same (IsAnswered-append q y v.answered (λ h. ground arith));
    }
