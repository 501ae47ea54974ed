-- ===== src/Socket/Purge/Valid.antt =====
-- `purgePendingQueue` and the invariant of the socket object.
use mac_osx_network_sockets.Base.{
  ◌%◌, ◌≤◌, ◌≡◌, refl, ap, ◌∙◌, true, some, List, [], ◌∷◌, ◌++◌, arith, if◌then◌else◌, inl, inr,
  Bool-cases, append-nil,
}
use mac_osx_network_sockets.Packet.{Pkt, DirectionType, data_all, is_meant, Effect}
use mac_osx_network_sockets.Socket.{
  SocketObject, uncount_pkt, check_for_injection_completion, wakeup_waiting,
}
use mac_osx_network_sockets.Socket.Counters.{
  inbound_count, outbound_count, unreported_count, Counts, Counts-same, AllUnreported, IsTailed,
  IsAnswered, IsValid, inbound_count-append, outbound_count-append, inbound_bytes-append,
  outbound_bytes-append, unreported_count-append,
}
use mac_osx_network_sockets.Socket.Purge.{
  my_mbuf_freem, wake, purge_pkt, purge_queue, purge_pending_queue,
}

record Tally (s : SocketObject) (q : List Pkt) : Type 0 where
  counts : Counts s q
  waiting : s.packets_waiting_for_reporting ≡ unreported_count q % 4294967296

Tally-out :
    (s : SocketObject) (p : Pkt) (q r : List Pkt) → Tally s (p ∷ (q ++ r)) → Tally s (q ++ p ∷ r)
Tally-out s p q r t = record {
  counts =
      Counts-same s (p ∷ (q ++ r)) (q ++ p ∷ r)
        (omega (arith, inbound_count-append q r, inbound_count-append q (p ∷ r)))
        (omega (arith, outbound_count-append q r, outbound_count-append q (p ∷ r)))
        (omega (arith, inbound_bytes-append q r, inbound_bytes-append q (p ∷ r)))
        (omega (arith, outbound_bytes-append q r, outbound_bytes-append q (p ∷ r))) t.counts;
  waiting =
      omega (arith, t.waiting, unreported_count-append q r, unreported_count-append q (p ∷ r));
}

Tally-in :
    (s : SocketObject) (p : Pkt) (q r : List Pkt) → Tally s (q ++ p ∷ r) → Tally s (p ∷ (q ++ r))
Tally-in s p q r t = record {
  counts =
      Counts-same s (q ++ p ∷ r) (p ∷ (q ++ r))
        (omega (arith, inbound_count-append q r, inbound_count-append q (p ∷ r)))
        (omega (arith, outbound_count-append q r, outbound_count-append q (p ∷ r)))
        (omega (arith, inbound_bytes-append q r, inbound_bytes-append q (p ∷ r)))
        (omega (arith, outbound_bytes-append q r, outbound_bytes-append q (p ∷ r))) t.counts;
  waiting =
      omega (arith, t.waiting, unreported_count-append q r, unreported_count-append q (p ∷ r));
}

purge_pkt-Tally :
    (s : SocketObject) (p : Pkt) (q : List Pkt) → Tally s (p ∷ q) → Tally (purge_pkt p s).0 q
unfolding purge_pkt uncount_pkt
purge_pkt-Tally s p q t = ground arith

-- The packets that stay, and those that go.
pub kept_packets : DirectionType → List Pkt → List Pkt
kept_packets type [] = []
kept_packets type (p ∷ ps) =
    if is_meant type p.data_inbound then kept_packets type ps else p ∷ kept_packets type ps

-- What each packet that goes leaves behind: its thread is woken, its mbufs are freed.
pub disposals : DirectionType → List Pkt → List Effect
unfolding my_mbuf_freem
disposals type [] = []
disposals type (p ∷ ps) =
    if is_meant type p.data_inbound
    then (wake p.wait_entry ++ (my_mbuf_freem p.mbuf ++ my_mbuf_freem p.control))
      ++ disposals type ps
    else disposals type ps

module _ (type : DirectionType) where
  kept_packets-AllUnreported :
      (q : List Pkt) → AllUnreported q → AllUnreported (kept_packets type q)
  unfolding kept_packets
  kept_packets-AllUnreported [] u = tt
  kept_packets-AllUnreported (p ∷ ps) u = ground (arith, kept_packets-AllUnreported ps u.1)

  kept_packets-IsTailed : (q : List Pkt) → IsTailed q → IsTailed (kept_packets type q)
  unfolding kept_packets
  kept_packets-IsTailed [] t = tt
  kept_packets-IsTailed (p ∷ ps) t =
      ground (arith, kept_packets-IsTailed ps t.1, kept_packets-AllUnreported ps)

  kept_packets-IsAnswered : (q : List Pkt) → IsAnswered q → IsAnswered (kept_packets type q)
  unfolding kept_packets
  kept_packets-IsAnswered [] a = tt
  kept_packets-IsAnswered (p ∷ ps) a = ground (arith, kept_packets-IsAnswered ps a.1)

  purge_queue-kept :
      (q : List Pkt) (s : SocketObject)
      → ((purge_queue type q s).0 ≡ kept_packets type q)
        × ((purge_queue type q s).2 ≡ disposals type q)
  unfolding purge_queue kept_packets disposals
  purge_queue-kept [] s = (refl, refl)
  purge_queue-kept (p ∷ ps) s = elim (Bool-cases (is_meant type p.data_inbound)) [
    | inl e ↦ let ih = purge_queue-kept ps (purge_pkt p s).0 in ground (arith, ih)
    | inr e ↦ let ih = purge_queue-kept ps s in ground (arith, ih)
  ]

  purge_queue-Tally :
      (q k : List Pkt) (s : SocketObject)
      → Tally s (q ++ k)
      → Tally (purge_queue type q s).1 ((purge_queue type q s).0 ++ k)
  unfolding purge_queue
  purge_queue-Tally [] k s t = t
  purge_queue-Tally (p ∷ ps) k s t = elim (Bool-cases (is_meant type p.data_inbound)) [
    | inl e ↦ rw e (purge_queue-Tally ps k (purge_pkt p s).0 (purge_pkt-Tally s p (ps ++ k) t))
    | inr e ↦ rw e (Tally-in _ p _ k (purge_queue-Tally ps (p ∷ k) s (Tally-out s p ps k t)))
  ]

with_queue-IsValid :
    (t : SocketObject) (q : List Pkt)
    → Tally t q
    → IsTailed q
    → IsAnswered q
    → IsValid (record t { pending_queue = q })
with_queue-IsValid t q y tailed answered = record {
  counts = record {
    in_packets = y.counts.in_packets;
    out_packets = y.counts.out_packets;
    in_bytes = y.counts.in_bytes;
    out_bytes = y.counts.out_bytes;
  };
  waiting = y.waiting;
  tailed = tailed;
  answered = answered;
}

pub kept_packets-all : (q : List Pkt) → kept_packets data_all q ≡ []
unfolding kept_packets is_meant
kept_packets-all [] = refl
kept_packets-all (p ∷ ps) = kept_packets-all ps

drained :
    (s : SocketObject)
    → IsValid s
    → s.pending_queue ≡ []
    → check_for_injection_completion data_all true s ≡ some true
unfolding check_for_injection_completion
drained s v e =
    ground
      (arith, v.counts.in_packets, v.counts.out_packets, ap inbound_count e, ap outbound_count e)

-- `purgePendingQueue` removes exactly the packets of the given direction, keeps the others in order,
-- wakes the thread of each packet that it removes and frees its mbufs, and keeps the invariant.
pub purge-IsValid :
    (type : DirectionType) (s : SocketObject)
    → IsValid s
    → let (t, es) = purge_pending_queue type s in
      IsValid t
      × (t.pending_queue ≡ kept_packets type s.pending_queue)
      × (es ≡ disposals type s.pending_queue ++ wakeup_waiting t)
unfolding purge_pending_queue
purge-IsValid type s v =
    let q : List Pkt = s.pending_queue in
    let (same, effects) = purge_queue-kept type q s in
    let tally : Tally (purge_queue type q s).1 ((purge_queue type q s).0 ++ []) =
      purge_queue-Tally type q [] s
        (rw append-nil (record { counts = v.counts; waiting = v.waiting })) in
    (
      with_queue-IsValid _ _ (rw append-nil at tally)
          (rw same (kept_packets-IsTailed type q v.tailed))
          (rw same (kept_packets-IsAnswered type q v.answered)),
      same,
      ap (λ es. es ++ wakeup_waiting (purge_pending_queue type s).0) effects,
    )

-- After `purgePendingQueue( NkeSocketDataAll )` of a valid object, whose counters are those of its
-- pending queue, the wait of `FltDetach` for the end of all
-- injections, `checkForInjectionCompletion( NkeSocketDataAll, true )`, is over at once.
pub purge_all_drains :
    (s : SocketObject)
    → IsValid s
    → check_for_injection_completion data_all true (purge_pending_queue data_all s).0 ≡ some true
purge_all_drains s v =
    let (valid, queue, _) = purge-IsValid data_all s v in
    drained (purge_pending_queue data_all s).0 valid (queue ∙ kept_packets-all s.pending_queue)

kept_packets-unreported :
    (type : DirectionType) (q : List Pkt)
    → unreported_count (kept_packets type q) ≤ unreported_count q
unfolding kept_packets
kept_packets-unreported type [] = omega arith
kept_packets-unreported type (p ∷ ps) = ground (arith, kept_packets-unreported type ps)

purge_pkt-flag :
    (p : Pkt) (s : SocketObject)
    → (purge_pkt p s).0.inserted_in_sockets_list_to_report ≡ s.inserted_in_sockets_list_to_report
unfolding purge_pkt uncount_pkt
purge_pkt-flag p s = ground arith

purge_queue-flag :
    (type : DirectionType) (q : List Pkt) (s : SocketObject)
    → (purge_queue type q s).1.inserted_in_sockets_list_to_report
      ≡ s.inserted_in_sockets_list_to_report
unfolding purge_queue
purge_queue-flag type [] s = refl
purge_queue-flag type (p ∷ ps) s = elim (Bool-cases (is_meant type p.data_inbound)) [
  | inl e ↦ rw e (purge_queue-flag type ps (purge_pkt p s).0 ∙ purge_pkt-flag p s)
  | inr e ↦ rw e (purge_queue-flag type ps s)
]

-- `purgePendingQueue` does not list an object, and no more packets wait than before.
pub purge-waiting :
    (type : DirectionType) (s : SocketObject)
    → let t = (purge_pending_queue type s).0 in
      (t.inserted_in_sockets_list_to_report ≡ s.inserted_in_sockets_list_to_report)
      × (unreported_count t.pending_queue ≤ unreported_count s.pending_queue)
unfolding purge_pending_queue
purge-waiting type s =
    let q : List Pkt = s.pending_queue in
    let (same, _) = purge_queue-kept type q s in
    (purge_queue-flag type q s, rw same (kept_packets-unreported type q))

pub purge-empty : (s : SocketObject) → (purge_pending_queue data_all s).0.pending_queue ≡ []
unfolding purge_pending_queue
purge-empty s =
    let (same, _) = purge_queue-kept data_all s.pending_queue s in
    same ∙ kept_packets-all s.pending_queue
