-- ===== src/Filter/Delivery.antt =====
-- `DeliverWaitingNotifications`: the packets that could not be reported when they came in are
-- reported, socket by socket.
pub mod Valid
pub mod References
pub mod Fuel
pub mod Listed
pub mod Handled
pub mod Order
use mac_osx_network_sockets.Base.{
  ℕ, zero, suc, ◌+◌, Bool, true, false, not, ◌&&◌, none, some, List, [], ◌∷◌, ◌++◌, ◌==◌,
  if◌then◌else◌, update, sub32, length,
}
use mac_osx_network_sockets.Packet.{
  Mbuf, Pkt, is_deadline_timer_expired, Effect, notified, wakeup_entry, set_receive_buffer,
}
use mac_osx_network_sockets.Pool.{Pool, uint8_max, copy_data_to_buffers, release_data_buffers}
use mac_osx_network_sockets.Socket.{SocketObject}
use mac_osx_network_sockets.Filter.{Environment, Filter, enoent, data_notification}

-- The variables of one round of the outer loop, with the state that the loop over the pending queue
-- changes: the buffer pool, the trace and `packetsWaitingForReporting`. `buffers` is the index array
-- of `notification`.
pub record Round : Type 0 where
  pub pool : Pool
  pub trace : List Effect
  pub waiting : ℕ
  pub error : ℕ
  pub release_buffers : Bool
  pub buffers : List ℕ
  pub reinsert_in_list : Bool

module _ (env : Environment) (s : SocketObject) where
  -- The notification of a packet whose data has been copied to buffers.
  pub notify : Pkt → Mbuf → Round → Round
  unfolding data_notification
  notify p m r =
      let n = data_notification s p.data_inbound m.pkthdr_len p.data_index r.buffers in
      elim (env.user_client r.trace n) [
        | none ↦ record r { error = enoent; release_buffers = true }
        | some zero ↦ record r { error = 0; trace = r.trace ++ notified n ∷ [] }
        | some (suc e) ↦ record r { error = suc e; release_buffers = true }
      ]

  -- The `if( pendingPkt->data )` block.
  pub report : Pkt → Round → Round
  unfolding notify
  report p r = elim p.mbuf [
    | none ↦ r
    | some m ↦
        let c = copy_data_to_buffers (env.copydata m) m.pkthdr_len r.pool in
        let r' : Round = record r { pool = c.pool; error = c.error; buffers = c.indices } in
        if c.error == 0 then notify p m r' else r'
  ]

  -- The packet has been reported, or given up: the rest of the loop's body.
  pub settle : Pkt → Pkt
  settle p = record p { need_to_be_reported = false; wait_entry = none }

  pub settle_effects : Pkt → List Effect
  settle_effects p =
      elim p.wait_entry [ none ↦ [] | some w ↦ wakeup_entry w ∷ [] ]
      ++ (if p.data_inbound then set_receive_buffer s.orig_receive_buffer_size ∷ [] else [])

  pub settled : Pkt → Round → Round
  unfolding settle_effects
  settled p r = record r { waiting = sub32 r.waiting 1; trace = r.trace ++ settle_effects p }

  -- What follows the report of a packet: does the loop end, the packet, and the variables.
  pub after_report : Pkt → Round → Bool × Pkt × Round
  unfolding settle settled
  after_report p r =
      if r.error == 0
      then (false, settle p, settled p r)
      else (let (expired, p') = is_deadline_timer_expired env.now p in
          if expired
          then (false, settle (record p' { allow_data = false }), settled p' r)
          else (true, p', record r { reinsert_in_list = true }))

  pub deliver_pkt : Pkt → Round → Bool × Pkt × Round
  unfolding report after_report
  deliver_pkt p r = if p.need_to_be_reported then after_report p (report p r) else (false, p, r)

  -- The `TAILQ_FOREACH` over the pending queue.
  pub deliver_queue : List Pkt → Round → List Pkt × Round
  unfolding deliver_pkt
  deliver_queue [] r = ([], r)
  deliver_queue (p ∷ ps) r =
      let (stop, p', r') = deliver_pkt p r in
      let (qs, r'') = deliver_queue ps r' in if stop then (p' ∷ ps, r') else (p' ∷ qs, r'')

abbrev pub first_round : Filter → SocketObject → Round
first_round f s = record {
  pool = f.pool;
  trace = f.trace;
  waiting = s.packets_waiting_for_reporting;
  error = 0;
  release_buffers = false;
  buffers = uint8_max ∷ [];
  reinsert_in_list = false;
}

-- The end of a round: the socket goes back to the list's tail, or its reference is given back.
pub put_back : ℕ → Bool → Filter → Filter
put_back o reinsert f =
    let s = f.objects o in
    if reinsert && not s.inserted_in_sockets_list_to_report
    then record f {
      sockets_list_to_report = f.sockets_list_to_report ++ o ∷ [];
      objects = update f.objects o (record s { inserted_in_sockets_list_to_report = true });
    }
    else record f { objects = update f.objects o (record s { references = sub32 s.references 1 }) }

-- The buffers of the last notification go back to the pool, before the nested call.
pub released : Filter × Round → Filter
released (f, r) = record f { pool = release_data_buffers r.buffers f.pool }

-- The end of a round, at the result `nested` of the call that is made if buffers are released.
pub finish_round : ℕ → Filter → Filter × Round → Filter
unfolding put_back
finish_round o nested (f, r) =
    put_back o r.reinsert_in_list (if r.release_buffers then nested else f)

module _ (env : Environment) where
  -- The part of a round between the removal of socket `o` from the list and the release of buffers.
  pub deliver_object : ℕ → Filter → Filter × Round
  unfolding deliver_queue
  deliver_object o f =
      let s = f.objects o in
      let (qs, r) = deliver_queue env s s.pending_queue (first_round f s) in
      (
        record f {
          pool = r.pool;
          trace = r.trace;
          objects = update f.objects o (record s {
            pending_queue = qs;
            packets_waiting_for_reporting = r.waiting;
            inserted_in_sockets_list_to_report = false;
          });
        },
        r,
      )

  -- The `while`, and the call of it in `releaseDataBuffersAndDeliverNotifications`. The fuel is
  -- counted against the length of the list, in Filter/Delivery/Fuel.
  pub deliver : ℕ → Filter → Filter
  unfolding deliver_object released finish_round
  deliver zero f = f
  deliver (suc fuel) f = elim f.sockets_list_to_report [
    | [] ↦ f
    | o ∷ rest ↦
        let x = deliver_object o (record f { sockets_list_to_report = rest }) in
        let h = finish_round o (deliver fuel (released x)) x in
        let next = deliver fuel h in if x.1.error == 0 then next else h
  ]

  pub deliver_waiting_notifications : Filter → Filter
  unfolding deliver
  deliver_waiting_notifications f = deliver (length f.sockets_list_to_report + 1) f

  -- `releaseDataBuffersAndDeliverNotifications`
  pub release_data_buffers_and_deliver : List ℕ → Filter → Filter
  unfolding deliver_waiting_notifications
  release_data_buffers_and_deliver is f =
      deliver_waiting_notifications (record f { pool = release_data_buffers is f.pool })
