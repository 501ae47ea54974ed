-- ===== src/Filter/Delivery/Fuel.antt =====
-- The loop of `DeliverWaitingNotifications`, its nested calls, and the length of
-- `SocketsListToReport`.
use mac_osx_network_sockets.Base.{
  ap, ℕ, zero, suc, ◌+◌, ◌≤◌, ◌<◌, ◌≡◌, ◌≢◌, refl, Bool, true, false, List, [], ◌∷◌, ◌==◌, ◌∙◌,
  arith, if◌then◌else◌, length, length-append, List-cases, inl, inr, Bool-cases,
}
use mac_osx_network_sockets.Packet.{Mbuf, Pkt, is_deadline_timer_expired}
use mac_osx_network_sockets.Socket.{SocketObject}
use mac_osx_network_sockets.Socket.Counters.{unreported_count}
use mac_osx_network_sockets.Filter.{Environment, Filter}
use mac_osx_network_sockets.Filter.Delivery.{
  Round, notify, report, settle, settled, after_report, deliver_pkt, deliver_queue, first_round,
  deliver_object, put_back, released, finish_round, deliver,
}

module _ (env : Environment) (s : SocketObject) where
  notify-reinsert :
      (p : Pkt) (m : Mbuf) (r : Round) → (notify env s p m r).reinsert_in_list ≡ r.reinsert_in_list
  unfolding notify
  notify-reinsert p m r = ground arith

  report-reinsert : (p : Pkt) (r : Round) → (report env s p r).reinsert_in_list ≡ r.reinsert_in_list
  unfolding report
  report-reinsert p r = grind (arith, notify-reinsert)

  -- The loop stops exactly where it asks for the object to be put back, and that after an error.
  after_report-reinsert :
      (p : Pkt) (r : Round)
      → p.need_to_be_reported ≡ true
      → r.reinsert_in_list ≡ false
      → let (stop, p', r') = after_report env s p r in
        (r'.reinsert_in_list ≡ stop)
        × (stop ≡ true → r'.error ≢ 0)
        × (p'.need_to_be_reported ≡ stop)
  unfolding after_report settle settled is_deadline_timer_expired
  after_report-reinsert p r m n = ground arith

  deliver_pkt-reinsert :
      (p : Pkt) (r : Round)
      → r.reinsert_in_list ≡ false
      → let (stop, p', r') = deliver_pkt env s p r in
        (r'.reinsert_in_list ≡ stop)
        × (stop ≡ true → r'.error ≢ 0)
        × (p'.need_to_be_reported ≡ stop)
  unfolding deliver_pkt
  deliver_pkt-reinsert p r n = elim (Bool-cases p.need_to_be_reported) [
    | inl e ↦
        let w = report-reinsert p r in
        let h = after_report-reinsert p (report env s p r) e (w ∙ n) in ground arith
    | inr e ↦ ground arith
  ]

  pub deliver_queue-reinsert :
      (q : List Pkt) (r : Round)
      → r.reinsert_in_list ≡ false
      → let (q', r') = deliver_queue env s q r in
        (r'.reinsert_in_list ≡ true → r'.error ≢ 0)
        × (r'.reinsert_in_list ≡ false → unreported_count q' ≡ 0)
  unfolding deliver_queue
  deliver_queue-reinsert [] r n = ground arith
  deliver_queue-reinsert (p ∷ ps) r n =
      let h = deliver_pkt-reinsert p r n in
      let ih = deliver_queue-reinsert ps (deliver_pkt env s p r).2 in
      elim (Bool-cases (deliver_pkt env s p r).0) [
        | inl e ↦ ground arith
        | inr e ↦ ground (arith, ih (ground arith))
      ]

abbrev pub to_report : Filter → ℕ
to_report f = length f.sockets_list_to_report

put_back-length :
    (o : ℕ) (reinsert : Bool) (f : Filter)
    → to_report (put_back o reinsert f) ≤ to_report f + (if reinsert then 1 else 0)
unfolding put_back
put_back-length o reinsert f = ground (arith, length-append f.sockets_list_to_report (o ∷ []))

finish_round-length :
    (o : ℕ) (nested : Filter) (x : Filter × Round)
    → to_report nested ≤ to_report x.0
    → to_report (finish_round o nested x) ≤ to_report x.0 + (if x.1.reinsert_in_list then 1 else 0)
unfolding finish_round
finish_round-length o nested (f, r) h =
    ground
      (arith, put_back-length o r.reinsert_in_list nested, put_back-length o r.reinsert_in_list f)

deliver_object-list :
    (env : Environment) (o : ℕ) (f : Filter)
    → ((deliver_object env o f).0.sockets_list_to_report ≡ f.sockets_list_to_report)
      × ((deliver_object env o f).1.reinsert_in_list ≡ true → (deliver_object env o f).1.error ≢ 0)
unfolding deliver_object
deliver_object-list env o f =
    let s = f.objects o in
    (refl, (deliver_queue-reinsert env s s.pending_queue (first_round f s) refl).0)

released-list :
    (x : Filter × Round) → (released x).sockets_list_to_report ≡ x.0.sockets_list_to_report
unfolding released
released-list (f, r) = refl

either-length :
    (b : Bool) (f g : Filter) (n : ℕ)
    → to_report f ≤ n
    → to_report g ≤ n
    → to_report (if b then f else g) ≤ n
either-length true f g n v w = v
either-length false f g n v w = w

module _ (env : Environment) where
  deliver-length : (fuel : ℕ) (f : Filter) → to_report (deliver env fuel f) ≤ to_report f
  unfolding deliver
  deliver-length zero f = omega arith
  deliver-length (suc fuel) f = elim (List-cases f.sockets_list_to_report) [
    | inl e ↦ rw e (omega arith)
    | inr (o, rest, e) ↦ rw e (
        let x = deliver_object env o (record f { sockets_list_to_report = rest }) in
        let nested = deliver env fuel (released x) in
        let h = finish_round o nested x in
        let same = deliver_object-list env o (record f { sockets_list_to_report = rest }) in
        let n = deliver-length fuel (released x) in
        let l = ap length (released-list x) in
        let k : to_report h ≤ suc (length rest) =
          ground (arith, finish_round-length o nested x, ap length same.0) in
        either-length (x.1.error == 0) (deliver env fuel h) h (suc (length rest))
          (omega (arith, deliver-length fuel h)) k)
  ]

  -- After a round without an error the list is shorter than before it.
  round-length :
      (o : ℕ) (fuel : ℕ) (g : Filter)
      → let x = deliver_object env o g in
        (x.1.error == 0) ≡ true
        → to_report (finish_round o (deliver env fuel (released x)) x) ≤ to_report g
  round-length o fuel g e =
      let x = deliver_object env o g in
      let same = deliver_object-list env o g in
      let n = deliver-length fuel (released x) in
      let k = finish_round-length o (deliver env fuel (released x)) x in
      ground (arith, ap length same.0, ap length (released-list x))

  -- Two amounts of fuel above the number of sockets in `SocketsListToReport` give the same result: the
  -- loop of `DeliverWaitingNotifications`, its nested calls included, always ends.
  pub deliver_enough :
      (m n : ℕ) (f : Filter) → to_report f < m → to_report f < n → deliver env m f ≡ deliver env n f
  unfolding deliver
  deliver_enough zero n f a b = absurd (omega arith)
  deliver_enough (suc m) zero f a b = absurd (omega arith)
  deliver_enough (suc m) (suc n) f a b = elim (List-cases f.sockets_list_to_report) [
    | inl e ↦ rw e refl
    | inr (o, rest, e) ↦
        let len : length rest < m = ground (arith, ap length e) in
        let len' : length rest < n = ground (arith, ap length e) in
        rw e (
          let g = record f { sockets_list_to_report = rest } in
          let x = deliver_object env o g in
          let same = ap length ((deliver_object-list env o g).0) in
          let l = ap length (released-list x) in
          let nested : deliver env m (released x) ≡ deliver env n (released x) =
            deliver_enough m n (released x) (omega arith) (omega arith) in
          rw nested (
            let h = finish_round o (deliver env n (released x)) x in
            elim (Bool-cases (x.1.error == 0)) [
              | inl ok ↦
                  let k : to_report h ≤ length rest = round-length o n g ok in
                  rw ok (deliver_enough m n h (omega arith) (omega arith))
              | inr bad ↦ rw bad refl
            ]))
  ]
