-- ===== src/Filter/Data/Listed.antt =====
-- `FltData` and the list `SocketsListToReport`.
use mac_osx_network_sockets.Base.{
  ap, ℕ, zero, suc, ◌≡◌, refl, sym, ◌∙◌, Bool, true, false, not, ◌&&◌, Option, none, some, [], ◌∷◌,
  ◌++◌, ◌==◌, ==-self, arith, if◌then◌else◌, inl, inr, Bool-cases, contains-append,
}
use mac_osx_network_sockets.Packet.{Mbuf, Pkt, Notification, notified}
use mac_osx_network_sockets.Tags.{MbufKpi, set_tag}
use mac_osx_network_sockets.Pool.{copy_data_to_buffers}
use mac_osx_network_sockets.Socket.{SocketObject, allocate_pkt, new_pkt}
use mac_osx_network_sockets.Socket.Counters.{unreported_count, unreported_count-append}
use mac_osx_network_sockets.Socket.Pending.{
  IsPending, new_pkt-IsPending, allocate_pkt-some, allocate_pkt-none,
}
use mac_osx_network_sockets.Filter.{Environment, Filter}
use mac_osx_network_sockets.Filter.Delivery.{release_data_buffers_and_deliver}
use mac_osx_network_sockets.Filter.Delivery.Valid.{AllValid}
use mac_osx_network_sockets.Filter.Delivery.Listed.{
  NoneStranded, Distinct-append, release_and_deliver-NoneStranded, update-NoneStranded,
}
use mac_osx_network_sockets.Filter.Data.{
  Arrival, Verdict, is_postponed, queued_pkt, enqueue, enqueue_in_filter, send_notification,
  is_nothing, pass_inbound, pass_outbound, pend, pend_allocated, tag_and_pend, check_and_pend,
  flt_data, done_flag,
}

-- Is the object put in the list when this packet is enqueued?
abbrev is_listed_now : ℕ → SocketObject → Bool
is_listed_now error s =
    is_postponed error s
    && ((s.packets_waiting_for_reporting == 0) && not s.inserted_in_sockets_list_to_report)

now_unlisted :
    (error : ℕ) (s : SocketObject)
    → is_listed_now error s ≡ true
    → s.inserted_in_sockets_list_to_report ≡ false
now_unlisted error s e = ground arith

enqueue-listed :
    (error : ℕ) (a : Arrival) (p : Pkt) (s : SocketObject)
    → IsPending s p
    → (s.inserted_in_sockets_list_to_report ≡ false → unreported_count s.pending_queue ≡ 0)
    → let t = enqueue error a p s in
      (t.inserted_in_sockets_list_to_report
        ≡ (if is_listed_now error s then true else s.inserted_in_sockets_list_to_report))
      × (t.inserted_in_sockets_list_to_report ≡ false → unreported_count t.pending_queue ≡ 0)
unfolding enqueue queued_pkt is_postponed
enqueue-listed error a p s v w =
    let y = unreported_count-append s.pending_queue (queued_pkt error a s p ∷ []) in
    (ground arith, λ n. ground (arith, v.waiting, v.reported))

module _ (env : Environment) where
  pub enqueue_in_filter-NoneStranded :
      (error : ℕ) (a : Arrival) (p : Pkt) (o : ℕ) (f : Filter)
      → IsPending (f.objects o) p
      → NoneStranded f
      → NoneStranded (enqueue_in_filter env error a p o f)
  unfolding enqueue_in_filter
  enqueue_in_filter-NoneStranded error a p o f v h =
      let s = f.objects o in
      let (flag, waits) = enqueue-listed error a p s v (h.reported o refl) in
      record {
        listed = elim (Bool-cases (is_listed_now error s)) [
          | inl e ↦ rw e (record {
            distinct =
                Distinct-append f.sockets_list_to_report o h.listed.distinct
                  (sym (h.listed.flagged o) ∙ now_unlisted error s e);
            flagged = λ i.
                ground
                  (arith, h.listed.flagged i, contains-append f.sockets_list_to_report (o ∷ []) i);
          })
          | inr e ↦ rw e (record {
            distinct = h.listed.distinct;
            flagged = λ i. ground (arith, h.listed.flagged i);
          })
        ];
        reported = λ i _ m. ground (arith, h.reported i);
      }

  send_notification-NoneStranded :
      (n : Notification) (f : Filter) → NoneStranded f → NoneStranded (send_notification env n f)
  unfolding send_notification
  send_notification-NoneStranded n f h =
      go (env.user_client f.trace n) (release_and_deliver-NoneStranded env n.buffers f h)
    where
      go :
          (r : Option ℕ)
          → NoneStranded (release_data_buffers_and_deliver env n.buffers f)
          → NoneStranded (elim r [
            | some zero ↦ record f { trace = f.trace ++ notified n ∷ [] }
            | _ ↦ release_data_buffers_and_deliver env n.buffers f
          ])
      go none w = w
      go (some zero) w = record {
        listed = record { distinct = h.listed.distinct; flagged = h.listed.flagged };
        reported = h.reported;
      }
      go (some (suc e)) w = w

either-NoneStranded :
    (b : Bool) (x y : Filter × Verdict)
    → NoneStranded x.0
    → NoneStranded y.0
    → NoneStranded (if b then x else y).0
either-NoneStranded true x y v w = v
either-NoneStranded false x y v w = w

pass_inbound-NoneStranded :
    (f : Filter) (next : Filter × Verdict) (r : Option Bool)
    → NoneStranded f
    → NoneStranded next.0
    → NoneStranded (pass_inbound f next r).0
unfolding pass_inbound
pass_inbound-NoneStranded f next none v w = w
pass_inbound-NoneStranded f next (some true) v w = v
pass_inbound-NoneStranded f next (some false) v w = w

pass_outbound-NoneStranded :
    (f : Filter) (r : Option Bool) → NoneStranded f → NoneStranded (pass_outbound f r).0
unfolding pass_outbound
pass_outbound-NoneStranded f none v = v
pass_outbound-NoneStranded f (some b) v = v

module _ (env : Environment) where
  pend-NoneStranded :
      (m : Mbuf) (a : Arrival) (p : Pkt) (o : ℕ) (f : Filter)
      → IsPending (f.objects o) p
      → NoneStranded f
      → NoneStranded (pend env m a p o f).0
  unfolding pend
  pend-NoneStranded m a p o f v h =
      let s = f.objects o in
      let c = copy_data_to_buffers (env.copydata m) m.pkthdr_len f.pool in
      let g = record f { pool = c.pool } in
      let k : NoneStranded (enqueue_in_filter env c.error a p o g) =
        enqueue_in_filter-NoneStranded env c.error a p o g v (record {
          listed = record { distinct = h.listed.distinct; flagged = h.listed.flagged };
          reported = h.reported;
        }) in
      either-NoneStranded (is_postponed c.error s) _ _
        (release_and_deliver-NoneStranded env c.indices _ k)
        (send_notification-NoneStranded env _ _ k)

  pend_allocated-NoneStranded :
      (os_malloc : Bool) (m : Mbuf) (a : Arrival) (o : ℕ) (f : Filter)
      → AllValid f
      → NoneStranded f
      → NoneStranded
          (pend_allocated env m a o f
            (allocate_pkt os_malloc env.now (some m) a.control a.flags a.inbound (f.objects o))).0
  unfolding pend_allocated
  pend_allocated-NoneStranded true m a o f v h =
      let p = new_pkt env.now (some m) a.control a.flags a.inbound (f.objects o) in
      let (pending, queue, flag) =
        new_pkt-IsPending env.now (some m) a.control a.flags a.inbound (f.objects o) (v o) in
      rw (allocate_pkt-some env.now m a.control a.flags a.inbound (f.objects o)) (
        pend-NoneStranded m a p o _ (rw (==-self o) pending)
          (update-NoneStranded o _ f flag (λ n. ap unreported_count queue ∙ n) h))
  pend_allocated-NoneStranded false m a o f v h =
      rw (allocate_pkt-none env.now m a.control a.flags a.inbound (f.objects o)) h

  check_and_pend-NoneStranded :
      (kpi : MbufKpi Mbuf) (a : Arrival) (o : ℕ) (f : Filter)
      → AllValid f
      → NoneStranded f
      → NoneStranded (check_and_pend env kpi a o f).0
  unfolding check_and_pend tag_and_pend
  check_and_pend-NoneStranded kpi a o f v h =
      let (error, m) = set_tag kpi a.mbuf (done_flag a.inbound) in
      either-NoneStranded _ _ _ h (
        either-NoneStranded (error == 0) _ _ (pend_allocated-NoneStranded a.os_malloc m a o f v h)
          h)

  -- `FltData` strands no packet, on each of its paths and whatever the kernel and the user client
  -- return: if every socket object is valid, and each with a packet that waits for its report
  -- stands in `SocketsListToReport`, then this is so of the list afterwards.
  pub flt_data-NoneStranded :
      (kpi : MbufKpi Mbuf) (a : Arrival) (o : ℕ) (f : Filter)
      → AllValid f
      → NoneStranded f
      → NoneStranded (flt_data env kpi a o f).0
  unfolding flt_data
  flt_data-NoneStranded kpi a o f v h =
      let w = check_and_pend-NoneStranded kpi a o f v h in
      either-NoneStranded (is_nothing (f.objects o).capturing_mode) _ _
        (either-NoneStranded a.inbound _ _ (pass_inbound-NoneStranded f _ _ h w)
          (pass_outbound-NoneStranded f _ h))
        w
