-- ===== src/Filter/Delivery/Valid.antt =====
-- `DeliverWaitingNotifications` and the invariant of the socket objects.
use mac_osx_network_sockets.Base.{
  ◌==◌, List-cases, ℕ, zero, suc, ◌%◌, ◌≡◌, Bool, true, false, List, [], ◌∷◌, arith, if◌then◌else◌,
  sub32, inl, inr, Bool-cases,
}
use mac_osx_network_sockets.Packet.{Mbuf, Pkt, is_deadline_timer_expired}
use mac_osx_network_sockets.Socket.{SocketObject}
use mac_osx_network_sockets.Socket.Counters.{
  inbound_count, outbound_count, inbound_bytes, outbound_bytes, unreported_count, Counts-same,
  IsTailed, IsAnswered, IsValid,
}
use mac_osx_network_sockets.Pool.{release_data_buffers}
use mac_osx_network_sockets.Filter.{Environment, Filter}
use mac_osx_network_sockets.Filter.Delivery.{
  Round, notify, report, settle, settled, after_report, deliver_pkt, deliver_queue, first_round,
  deliver_object, put_back, released, finish_round, deliver, deliver_waiting_notifications,
  release_data_buffers_and_deliver,
}

-- Every socket object keeps its invariant.
abbrev pub AllValid : Filter → Type 0
AllValid f = (o : ℕ) → IsValid (f.objects o)

module _ (env : Environment) (s : SocketObject) where
  notify-waiting : (p : Pkt) (m : Mbuf) (r : Round) → (notify env s p m r).waiting ≡ r.waiting
  unfolding notify
  notify-waiting p m r = ground arith

  report-waiting : (p : Pkt) (r : Round) → (report env s p r).waiting ≡ r.waiting
  unfolding report
  report-waiting p r = grind (arith, notify-waiting)

  -- One packet: it keeps its direction and size; it is reported, or the loop stops at it.
  after_report-waiting :
      (p : Pkt) (r : Round)
      → p.need_to_be_reported ≡ true
      → (p.allow_data ≡ true → p.response_received ≡ true)
      → let (stop, p', r') = after_report env s p r in
        (p'.data_inbound ≡ p.data_inbound)
        × (p'.totalbytes ≡ p.totalbytes)
        × (p'.need_to_be_reported ≡ stop)
        × (r'.waiting ≡ (if stop then r.waiting else sub32 r.waiting 1))
        × (p'.allow_data ≡ true → p'.response_received ≡ true)
  unfolding after_report settle settled is_deadline_timer_expired
  after_report-waiting p r n a = ground arith

  deliver_pkt-waiting :
      (p : Pkt) (r : Round)
      → (p.allow_data ≡ true → p.response_received ≡ true)
      → let (stop, p', r') = deliver_pkt env s p r in
        (p'.data_inbound ≡ p.data_inbound)
        × (p'.totalbytes ≡ p.totalbytes)
        × (p'.need_to_be_reported ≡ stop)
        × (r'.waiting ≡ (
            if p.need_to_be_reported
            then (if stop then r.waiting else sub32 r.waiting 1)
            else r.waiting))
        × (p'.allow_data ≡ true → p'.response_received ≡ true)
        × (stop ≡ true → p.need_to_be_reported ≡ true)
  unfolding deliver_pkt
  deliver_pkt-waiting p r a = elim (Bool-cases p.need_to_be_reported) [
    | inl e ↦
        let h = after_report-waiting p (report env s p r) e a in
        let w = report-waiting p r in ground arith
    | inr e ↦ ground arith
  ]

  -- The loop keeps what the invariant says of the queue.
  record Keeps (q : List Pkt) (x : List Pkt × Round) : Type 0 where
    in_packets : inbound_count q ≡ inbound_count x.0
    out_packets : outbound_count q ≡ outbound_count x.0
    in_bytes : inbound_bytes q ≡ inbound_bytes x.0
    out_bytes : outbound_bytes q ≡ outbound_bytes x.0
    waiting : x.1.waiting ≡ unreported_count x.0 % 4294967296
    tailed : IsTailed x.0
    answered : IsAnswered x.0

  deliver_queue-Keeps :
      (q : List Pkt) (r : Round)
      → r.waiting ≡ unreported_count q % 4294967296
      → IsTailed q
      → IsAnswered q
      → Keeps q (deliver_queue env s q r)
  unfolding deliver_queue
  deliver_queue-Keeps [] r w t a = ground arith
  deliver_queue-Keeps (p ∷ ps) r w t a =
      let h = deliver_pkt-waiting p r a.0 in
      let ih = deliver_queue-Keeps ps (deliver_pkt env s p r).2 in
      elim (Bool-cases (deliver_pkt env s p r).0) [
        | inl e ↦ ground arith
        | inr e ↦ ground (arith, ih (ground arith) t.1 a.1)
      ]

deliver_object-IsValid :
    (env : Environment) (o : ℕ) (f : Filter) → AllValid f → AllValid (deliver_object env o f).0
unfolding deliver_object
deliver_object-IsValid env o f v i =
    let k =
      deliver_queue-Keeps env (f.objects o) (f.objects o).pending_queue
        (first_round f (f.objects o)) (v o).waiting (v o).tailed (v o).answered in
    elim (Bool-cases (o == i)) [
      | inl e ↦ rw e (record {
        counts =
            Counts-same _ (f.objects o).pending_queue _ k.in_packets k.out_packets k.in_bytes
              k.out_bytes
              (record {
                in_packets = (v o).counts.in_packets;
                out_packets = (v o).counts.out_packets;
                in_bytes = (v o).counts.in_bytes;
                out_bytes = (v o).counts.out_bytes;
              });
        waiting = k.waiting;
        tailed = k.tailed;
        answered = k.answered;
      })
      | inr e ↦ rw e (v i)
    ]

put_back-IsValid :
    (o : ℕ) (reinsert : Bool) (f : Filter) → AllValid f → AllValid (put_back o reinsert f)
unfolding put_back
put_back-IsValid o reinsert f v i = let h = v o in let k = v i in ground arith

pub either-AllValid :
    (b : Bool) (f g : Filter) → AllValid f → AllValid g → AllValid (if b then f else g)
either-AllValid true f g v w = v
either-AllValid false f g v w = w

released-IsValid : (x : Filter × Round) → AllValid x.0 → AllValid (released x)
unfolding released
released-IsValid (f, r) v = v

finish_round-IsValid :
    (o : ℕ) (nested : Filter) (x : Filter × Round)
    → AllValid nested
    → AllValid x.0
    → AllValid (finish_round o nested x)
unfolding finish_round
finish_round-IsValid o nested (f, r) w v =
    put_back-IsValid o r.reinsert_in_list _ (either-AllValid r.release_buffers nested f w v)

deliver-IsValid :
    (env : Environment) (fuel : ℕ) (f : Filter) → AllValid f → AllValid (deliver env fuel f)
unfolding deliver
deliver-IsValid env zero f v = v
deliver-IsValid env (suc fuel) f v = elim (List-cases f.sockets_list_to_report) [
  | inl e ↦ rw e v
  | inr (o, rest, e) ↦ rw e (
      let x = deliver_object env o (record f { sockets_list_to_report = rest }) in
      let v' : AllValid x.0 =
        deliver_object-IsValid env o (record f { sockets_list_to_report = rest }) v in
      let nested = deliver env fuel (released x) in
      let w : AllValid nested = deliver-IsValid env fuel _ (released-IsValid x v') in
      let u = finish_round-IsValid o nested x w v' in
      either-AllValid (x.1.error == 0) _ _ (deliver-IsValid env fuel _ u) u)
]

-- The invariant of every socket object is kept by `releaseDataBuffersAndDeliverNotifications`,
-- whichever buffers it releases, and whatever the user client and the copies of packets return.
pub release_and_deliver-IsValid :
    (env : Environment) (is : List ℕ) (f : Filter)
    → AllValid f
    → AllValid (release_data_buffers_and_deliver env is f)
unfolding release_data_buffers_and_deliver deliver_waiting_notifications
release_and_deliver-IsValid env is f v =
    deliver-IsValid env _ (record f { pool = release_data_buffers is f.pool }) v

pub deliver_waiting-IsValid :
    (env : Environment) (f : Filter) → AllValid f → AllValid (deliver_waiting_notifications env f)
unfolding deliver_waiting_notifications
deliver_waiting-IsValid env f v = deliver-IsValid env _ f v
