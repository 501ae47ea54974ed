-- ===== src/Socket/Reinject/Valid.antt =====
-- `reinjectDeferredData` and the invariant of the socket object.
use mac_osx_network_sockets.Base.{
  ℕ, ◌+◌, ◌≡◌, refl, sym, subst, ◌∙◌, ap, List, [], ◌∷◌, ◌++◌, arith,
}
use mac_osx_network_sockets.Packet.{Pkt, DirectionType, is_deadline_timer_expired}
use mac_osx_network_sockets.Socket.{SocketObject, uncount_pkt}
use mac_osx_network_sockets.Socket.Counters.{
  inbound_count, outbound_count, inbound_bytes, outbound_bytes, unreported_count, Counts,
  Counts-same, uncount_pkt-Counts, AllUnreported, IsTailed, IsAnswered, IsValid,
  inbound_count-append, outbound_count-append, inbound_bytes-append, outbound_bytes-append,
}
use mac_osx_network_sockets.Socket.Reinject.{
  Selection, leave_queue, select, inject_all, inject_selection, reinject_deferred_data,
}

-- The selection loses no packet and keeps what the invariant says of each.
record Selects (q : List Pkt) (c : Selection) : Type 0 where
  in_packets : inbound_count c.to_inject + inbound_count c.queue ≡ inbound_count q
  out_packets : outbound_count c.to_inject + outbound_count c.queue ≡ outbound_count q
  in_bytes : inbound_bytes c.to_inject + inbound_bytes c.queue ≡ inbound_bytes q
  out_bytes : outbound_bytes c.to_inject + outbound_bytes c.queue ≡ outbound_bytes q
  waiting : unreported_count c.queue ≡ unreported_count q
  answered : IsAnswered c.queue

module _ (type : DirectionType) (now : ℕ) where
  select-AllUnreported : (q : List Pkt) → AllUnreported q → AllUnreported (select type now q).queue
  unfolding select is_deadline_timer_expired
  select-AllUnreported [] u = tt
  select-AllUnreported (p ∷ ps) u = ground (arith, select-AllUnreported ps u.1)

  select-IsTailed : (q : List Pkt) → IsTailed q → IsTailed (select type now q).queue
  unfolding select is_deadline_timer_expired
  select-IsTailed [] t = tt
  select-IsTailed (p ∷ ps) t = ground (arith, select-IsTailed ps t.1, select-AllUnreported ps)

  select-Selects : (q : List Pkt) → IsAnswered q → Selects q (select type now q)
  unfolding select is_deadline_timer_expired
  select-Selects [] a = ground arith
  select-Selects (p ∷ ps) a = ground (arith, select-Selects ps a.1)

module _ (inject_error uninitialised : Pkt → ℕ) where
  abbrev final : SocketObject → List Pkt → SocketObject
  final s xs = (inject_all inject_error uninitialised s xs).0

  inject_all-Counts :
      (s : SocketObject) (xs ys : List Pkt) → Counts s (xs ++ ys) → Counts (final s xs) ys
  unfolding inject_all
  inject_all-Counts s [] ys c = c
  inject_all-Counts s (x ∷ xs) ys c =
      inject_all-Counts (uncount_pkt x.data_inbound x.totalbytes s) xs ys
        (uncount_pkt-Counts s x (xs ++ ys) c)

  -- The injection touches the counters of the two directions alone.
  pub inject_all-rest :
      (s : SocketObject) (xs : List Pkt)
      → ((final s xs).pending_queue ≡ s.pending_queue)
        × ((final s xs).packets_waiting_for_reporting ≡ s.packets_waiting_for_reporting)
        × ((final s xs).inserted_in_sockets_list_to_report ≡ s.inserted_in_sockets_list_to_report)
  unfolding inject_all uncount_pkt
  inject_all-rest s [] = (refl, refl, refl)
  inject_all-rest s (x ∷ xs) =
      ground (arith, inject_all-rest (uncount_pkt x.data_inbound x.totalbytes s) xs)

  inject_selection-IsValid :
      (s t : SocketObject) (c : Selection)
      → IsValid s
      → Selects s.pending_queue c
      → IsTailed c.queue
      → t.pending_queue ≡ c.queue
      → t.packets_waiting_for_reporting ≡ s.packets_waiting_for_reporting
      → Counts t s.pending_queue
      → IsValid (final t c.to_inject)
  inject_selection-IsValid s t c v w tailed queue waiting counts =
      let (kept, same, _) = inject_all-rest t c.to_inject in
      let left : Counts (final t c.to_inject) c.queue = inject_all-Counts t c.to_inject c.queue (
        Counts-same t s.pending_queue (c.to_inject ++ c.queue)
          (omega (arith, w, inbound_count-append c.to_inject c.queue))
          (omega (arith, w, outbound_count-append c.to_inject c.queue))
          (omega (arith, w, inbound_bytes-append c.to_inject c.queue))
          (omega (arith, w, outbound_bytes-append c.to_inject c.queue)) counts) in
      let here : (final t c.to_inject).pending_queue ≡ c.queue = kept ∙ queue in
      record {
        counts = subst (Counts (final t c.to_inject)) (sym here) left;
        waiting = rw here (omega (arith, w, v.waiting));
        tailed = rw here tailed;
        answered = rw here w.answered;
      }

  -- `reinjectDeferredData` keeps the invariant: the four counters of pending packets and bytes are
  -- those of the queue that is left, `packetsWaitingForReporting` is the number of its packets that
  -- are not reported, these stand at its tail, and none is allowed without an answer.
  pub reinject-IsValid :
      (type : DirectionType) (now : ℕ) (s : SocketObject)
      → IsValid s
      → IsValid (reinject_deferred_data inject_error uninitialised type now s).0
  unfolding reinject_deferred_data inject_selection
  reinject-IsValid type now s v =
      inject_selection-IsValid s _ (select type now s.pending_queue) v
        (select-Selects type now s.pending_queue v.answered)
        (select-IsTailed type now s.pending_queue v.tailed) refl refl
        (record {
          in_packets = v.counts.in_packets;
          out_packets = v.counts.out_packets;
          in_bytes = v.counts.in_bytes;
          out_bytes = v.counts.out_bytes;
        })

  -- `reinjectDeferredData` neither lists an object nor changes how many packets wait.
  pub reinject-waiting :
      (type : DirectionType) (now : ℕ) (s : SocketObject)
      → IsAnswered s.pending_queue
      → let t = (reinject_deferred_data inject_error uninitialised type now s).0 in
        (t.inserted_in_sockets_list_to_report ≡ s.inserted_in_sockets_list_to_report)
        × (unreported_count t.pending_queue ≡ unreported_count s.pending_queue)
  unfolding reinject_deferred_data inject_selection
  reinject-waiting type now s a =
      let c = select type now s.pending_queue in
      let w = select-Selects type now s.pending_queue a in
      let (queue, _, flag) = inject_all-rest (leave_queue s c) c.to_inject in
      (flag, ap unreported_count queue ∙ w.waiting)
