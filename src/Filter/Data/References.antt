-- ===== src/Filter/Data/References.antt =====
-- `FltData` and the references of the socket objects.
use mac_osx_network_sockets.Base.{
  ℕ, zero, suc, Bool, true, false, Option, none, some, [], ◌∷◌, ◌++◌, ◌==◌, if◌then◌else◌, arith,
  ==-self, ap, ◌∙◌, subst,
}
use mac_osx_network_sockets.Packet.{Mbuf, Pkt, Notification, notified}
use mac_osx_network_sockets.Pool.{copy_data_to_buffers}
use mac_osx_network_sockets.Tags.{MbufKpi, set_tag}
use mac_osx_network_sockets.Socket.{allocate_pkt, new_pkt}
use mac_osx_network_sockets.Socket.Counters.{unreported_count}
use mac_osx_network_sockets.Socket.Pending.{
  IsPending, new_pkt-IsPending, allocate_pkt-some, allocate_pkt-none,
}
use mac_osx_network_sockets.Socket.Roots.{SameRoots, allocate_pkt-SameRoots}
use mac_osx_network_sockets.Filter.{Environment, Filter}
use mac_osx_network_sockets.Filter.References.{Counted, change-Counted}
use mac_osx_network_sockets.Filter.Delivery.{release_data_buffers_and_deliver}
use mac_osx_network_sockets.Filter.Delivery.Valid.{AllValid}
use mac_osx_network_sockets.Filter.Delivery.Listed.{IsListed, NoneStranded, update-NoneStranded}
use mac_osx_network_sockets.Filter.Delivery.References.{release_and_deliver-Counted}
use mac_osx_network_sockets.Filter.Data.{
  Arrival, Verdict, is_postponed, enqueue, enqueue_in_filter, send_notification, pend,
  pend_allocated, tag_and_pend, check_and_pend, pass_inbound, pass_outbound, flt_data, is_nothing,
  done_flag,
}
use mac_osx_network_sockets.Filter.Data.Listed.{enqueue_in_filter-NoneStranded}

module _ (env : Environment) (x : ℕ → ℕ) where
  enqueue_in_filter-Counted :
      (error : ℕ) (a : Arrival) (p : Pkt) (o : ℕ) (f : Filter)
      → Counted x f
      → Counted x (enqueue_in_filter env error a p o f)
  unfolding enqueue_in_filter enqueue
  enqueue_in_filter-Counted error a p o f c = record { counted = λ i. ground (arith, c.counted i) }

  send_notification-Counted :
      (n : Notification) (f : Filter)
      → IsListed f
      → Counted x f
      → Counted x (send_notification env n f)
  unfolding send_notification
  send_notification-Counted n f l c =
      go (env.user_client f.trace n) (release_and_deliver-Counted env x n.buffers f l c)
    where
      go :
          (r : Option ℕ)
          → Counted x (release_data_buffers_and_deliver env n.buffers f)
          → Counted x (elim r [
            | some zero ↦ record f { trace = f.trace ++ notified n ∷ [] }
            | _ ↦ release_data_buffers_and_deliver env n.buffers f
          ])
      go none w = w
      go (some zero) w = record { counted = c.counted }
      go (some (suc e)) w = w

  either-Counted_verdict :
      (b : Bool) (y z : Filter × Verdict)
      → Counted x y.0
      → Counted x z.0
      → Counted x (if b then y else z).0
  either-Counted_verdict true y z c d = c
  either-Counted_verdict false y z c d = d

  pend-Counted :
      (m : Mbuf) (a : Arrival) (p : Pkt) (o : ℕ) (f : Filter)
      → IsPending (f.objects o) p
      → NoneStranded f
      → Counted x f
      → Counted x (pend env m a p o f).0
  unfolding pend
  pend-Counted m a p o f v h c =
      let s = f.objects o in
      let copy = copy_data_to_buffers (env.copydata m) m.pkthdr_len f.pool in
      let g = record f { pool = copy.pool } in
      let k : NoneStranded (enqueue_in_filter env copy.error a p o g) =
        enqueue_in_filter-NoneStranded env copy.error a p o g v (record {
          listed = record { distinct = h.listed.distinct; flagged = h.listed.flagged };
          reported = h.reported;
        }) in
      let d : Counted x (enqueue_in_filter env copy.error a p o g) =
        enqueue_in_filter-Counted copy.error a p o g (record { counted = c.counted }) in
      either-Counted_verdict (is_postponed copy.error s) _ _
        (release_and_deliver-Counted env x copy.indices _ k.listed d)
        (send_notification-Counted _ _ k.listed d)

  pend_allocated-Counted :
      (os_malloc : Bool) (m : Mbuf) (a : Arrival) (o : ℕ) (f : Filter)
      → AllValid f
      → NoneStranded f
      → Counted x f
      → Counted x
          (pend_allocated env m a o f
            (allocate_pkt os_malloc env.now (some m) a.control a.flags a.inbound (f.objects o))).0
  unfolding pend_allocated
  pend_allocated-Counted true m a o f v h c =
      let p : Pkt = new_pkt env.now (some m) a.control a.flags a.inbound (f.objects o) in
      let (pending, queue, flag) =
        new_pkt-IsPending env.now (some m) a.control a.flags a.inbound (f.objects o) (v o) in
      let same =
        allocate_pkt-SameRoots true env.now (some m) a.control a.flags a.inbound (f.objects o) in
      let e = allocate_pkt-some env.now m a.control a.flags a.inbound (f.objects o) in
      rw e (
        pend-Counted m a p o _ (rw (==-self o) pending)
          (update-NoneStranded o _ f flag (λ n. ap unreported_count queue ∙ n) h)
          (change-Counted x o _ f (subst (λ y. SameRoots (f.objects o) y.1) e same) c))
  pend_allocated-Counted false m a o f v h c =
      rw (allocate_pkt-none env.now m a.control a.flags a.inbound (f.objects o)) c

  pass_inbound-Counted :
      (f : Filter) (next : Filter × Verdict) (r : Option Bool)
      → Counted x f
      → Counted x next.0
      → Counted x (pass_inbound f next r).0
  unfolding pass_inbound
  pass_inbound-Counted f next none c d = d
  pass_inbound-Counted f next (some true) c d = c
  pass_inbound-Counted f next (some false) c d = d

  pass_outbound-Counted :
      (f : Filter) (r : Option Bool) → Counted x f → Counted x (pass_outbound f r).0
  unfolding pass_outbound
  pass_outbound-Counted f none c = c
  pass_outbound-Counted f (some b) c = c

  check_and_pend-Counted :
      (kpi : MbufKpi Mbuf) (a : Arrival) (o : ℕ) (f : Filter)
      → AllValid f
      → NoneStranded f
      → Counted x f
      → Counted x (check_and_pend env kpi a o f).0
  unfolding check_and_pend tag_and_pend
  check_and_pend-Counted kpi a o f v h c =
      let (error, m) = set_tag kpi a.mbuf (done_flag a.inbound) in
      either-Counted_verdict _ _ _ c (
        either-Counted_verdict (error == 0) _ _ (pend_allocated-Counted a.os_malloc m a o f v h c)
          c)

  pub flt_data-Counted :
      (kpi : MbufKpi Mbuf) (a : Arrival) (o : ℕ) (f : Filter)
      → AllValid f
      → NoneStranded f
      → Counted x f
      → Counted x (flt_data env kpi a o f).0
  unfolding flt_data
  flt_data-Counted kpi a o f v h c =
      let d = check_and_pend-Counted kpi a o f v h c in
      either-Counted_verdict (is_nothing (f.objects o).capturing_mode) _ _
        (either-Counted_verdict a.inbound _ _ (pass_inbound-Counted f _ _ c d)
          (pass_outbound-Counted f _ c))
        d
