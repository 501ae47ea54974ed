-- ===== src/Filter/Data/Valid.antt =====
-- `FltData` and the invariant of the socket objects.
use mac_osx_network_sockets.Base.{
  ℕ, zero, suc, ◌<◌, ◌≡◌, Bool, true, false, Option, none, some, [], ◌∷◌, ◌++◌, ◌==◌, ==-self,
  if◌then◌else◌, update, inl, inr, Bool-cases,
}
use mac_osx_network_sockets.Packet.{Mbuf, Pkt, Notification, notified}
use mac_osx_network_sockets.Tags.{MbufKpi, set_tag}
use mac_osx_network_sockets.Pool.{copy_data_to_buffers}
use mac_osx_network_sockets.Socket.{allocate_pkt, new_pkt}
use mac_osx_network_sockets.Socket.Counters.{unreported_count, IsValid}
use mac_osx_network_sockets.Socket.Pending.{
  IsPending, allocated, new_pkt-IsPending, allocate_pkt-some, allocate_pkt-none,
}
use mac_osx_network_sockets.Filter.{Environment, Filter}
use mac_osx_network_sockets.Filter.Delivery.{release_data_buffers_and_deliver}
use mac_osx_network_sockets.Filter.Delivery.Valid.{AllValid, release_and_deliver-IsValid}
use mac_osx_network_sockets.Filter.Data.Enqueue.{enqueue-IsValid}
use mac_osx_network_sockets.Filter.Data.{
  Arrival, Verdict, is_postponed, enqueue_in_filter, send_notification, pass_inbound, pass_outbound,
  is_nothing, pend, pend_allocated, tag_and_pend, check_and_pend, flt_data, done_flag,
}

-- The socket object `o` has a new packet in hand, and all others keep their invariant.
abbrev Pending : ℕ → Pkt → Filter → Type 0
Pending o p f =
    ((i : ℕ) → (o == i) ≡ false → IsValid (f.objects i))
    × IsPending (f.objects o) p
    × (unreported_count (f.objects o).pending_queue < 4294967296)

either-IsValid :
    (b : Bool) (x y : Filter × Verdict)
    → AllValid x.0
    → AllValid y.0
    → AllValid (if b then x else y).0
either-IsValid true x y v w = v
either-IsValid false x y v w = w

pass_inbound-IsValid :
    (f : Filter) (next : Filter × Verdict) (r : Option Bool)
    → AllValid f
    → AllValid next.0
    → AllValid (pass_inbound f next r).0
unfolding pass_inbound
pass_inbound-IsValid f next none v w = w
pass_inbound-IsValid f next (some true) v w = v
pass_inbound-IsValid f next (some false) v w = w

pass_outbound-IsValid : (f : Filter) (r : Option Bool) → AllValid f → AllValid (pass_outbound f r).0
unfolding pass_outbound
pass_outbound-IsValid f none v = v
pass_outbound-IsValid f (some b) v = v

new_pkt-Pending :
    (now : ℕ) (m : Mbuf) (a : Arrival) (o : ℕ) (f : Filter)
    → AllValid f
    → unreported_count (f.objects o).pending_queue < 4294967296
    → let p = new_pkt now (some m) a.control a.flags a.inbound (f.objects o) in
      Pending o p
        (record f { objects = update f.objects o (allocated a.inbound p.totalbytes (f.objects o)) })
new_pkt-Pending now m a o f v few =
    let (pending, queue, _) =
      new_pkt-IsPending now (some m) a.control a.flags a.inbound (f.objects o) (v o) in
    (λ i ne. rw ne (v i), rw (==-self o) pending, rw (==-self o, queue) few)

module _ (env : Environment) where
  enqueue_in_filter-IsValid :
      (error : ℕ) (a : Arrival) (p : Pkt) (o : ℕ) (f : Filter)
      → Pending o p f
      → AllValid (enqueue_in_filter env error a p o f)
  unfolding enqueue_in_filter
  enqueue_in_filter-IsValid error a p o f (others, v, few) i = elim (Bool-cases (o == i)) [
    | inl e ↦ rw e (enqueue-IsValid error a p (f.objects o) v few)
    | inr e ↦ rw e (others i e)
  ]

  send_notification-IsValid :
      (n : Notification) (f : Filter) → AllValid f → AllValid (send_notification env n f)
  unfolding send_notification
  send_notification-IsValid n f v =
      let w = release_and_deliver-IsValid env n.buffers f v in go (env.user_client f.trace n) w
    where
      go :
          (r : Option ℕ)
          → AllValid (release_data_buffers_and_deliver env n.buffers f)
          → AllValid (elim r [
            | some zero ↦ record f { trace = f.trace ++ notified n ∷ [] }
            | _ ↦ release_data_buffers_and_deliver env n.buffers f
          ])
      go none w = w
      go (some zero) w = v
      go (some (suc e)) w = w

  pend-IsValid :
      (m : Mbuf) (a : Arrival) (p : Pkt) (o : ℕ) (f : Filter)
      → Pending o p f
      → AllValid (pend env m a p o f).0
  unfolding pend
  pend-IsValid m a p o f h =
      let s = f.objects o in
      let c = copy_data_to_buffers (env.copydata m) m.pkthdr_len f.pool in
      let g = record f { pool = c.pool } in
      let v : AllValid (enqueue_in_filter env c.error a p o g) =
        enqueue_in_filter-IsValid c.error a p o g h in
      either-IsValid (is_postponed c.error s) _ _ (release_and_deliver-IsValid env c.indices _ v)
        (send_notification-IsValid _ _ v)

  pend_allocated-IsValid :
      (os_malloc : Bool) (m : Mbuf) (a : Arrival) (o : ℕ) (f : Filter)
      → AllValid f
      → unreported_count (f.objects o).pending_queue < 4294967296
      → AllValid
          (pend_allocated env m a o f
            (allocate_pkt os_malloc env.now (some m) a.control a.flags a.inbound (f.objects o))).0
  unfolding pend_allocated
  pend_allocated-IsValid true m a o f v few =
      rw (allocate_pkt-some env.now m a.control a.flags a.inbound (f.objects o))
        (pend-IsValid m a _ o _ (new_pkt-Pending env.now m a o f v few))
  pend_allocated-IsValid false m a o f v few =
      rw (allocate_pkt-none env.now m a.control a.flags a.inbound (f.objects o)) v

  tag_and_pend-IsValid :
      (kpi : MbufKpi Mbuf) (a : Arrival) (o : ℕ) (f : Filter)
      → AllValid f
      → unreported_count (f.objects o).pending_queue < 4294967296
      → AllValid (tag_and_pend env kpi a o f).0
  unfolding tag_and_pend
  tag_and_pend-IsValid kpi a o f v few =
      let (error, m) = set_tag kpi a.mbuf (done_flag a.inbound) in
      either-IsValid (error == 0) _ _ (pend_allocated-IsValid a.os_malloc m a o f v few) v

  check_and_pend-IsValid :
      (kpi : MbufKpi Mbuf) (a : Arrival) (o : ℕ) (f : Filter)
      → AllValid f
      → unreported_count (f.objects o).pending_queue < 4294967296
      → AllValid (check_and_pend env kpi a o f).0
  unfolding check_and_pend
  check_and_pend-IsValid kpi a o f v few =
      either-IsValid _ _ _ v (tag_and_pend-IsValid kpi a o f v few)

  -- `FltData`, on each of its paths and whatever the kernel, the tags of the packet and the user
  -- client return, keeps the invariant of every socket object, if fewer than 2^32 packets of the
  -- socket wait for reporting.
  pub flt_data-IsValid :
      (kpi : MbufKpi Mbuf) (a : Arrival) (o : ℕ) (f : Filter)
      → AllValid f
      → unreported_count (f.objects o).pending_queue < 4294967296
      → AllValid (flt_data env kpi a o f).0
  unfolding flt_data
  flt_data-IsValid kpi a o f v few =
      let w = check_and_pend-IsValid kpi a o f v few in
      either-IsValid (is_nothing (f.objects o).capturing_mode) _ _
        (either-IsValid a.inbound _ _ (pass_inbound-IsValid f _ _ v w)
          (pass_outbound-IsValid f _ v))
        w
