-- ===== src/Filter/Delivery/References.antt =====
-- `DeliverWaitingNotifications` and the references of the socket objects.
use mac_osx_network_sockets.Base.{
  ℕ, zero, suc, ◌≡◌, ap, Bool, true, List, ◌==◌, arith, contains, inl, inr, List-cases, ==-self,
}
use mac_osx_network_sockets.Filter.{Environment, Filter}
use mac_osx_network_sockets.Filter.References.{Counted, bump, either-Counted}
use mac_osx_network_sockets.Filter.Delivery.{
  Round, deliver_object, put_back, released, finish_round, deliver, deliver_waiting_notifications,
  release_data_buffers_and_deliver,
}
use mac_osx_network_sockets.Filter.Delivery.Listed.{
  IsListed, deliver_object-IsListed, deliver-IsListed, released-IsListed, finish_round-IsListed,
}
use mac_osx_network_sockets.Pool.{release_data_buffers}

-- The reference of the list is now that of the call.
deliver_object-Counted :
    (env : Environment) (x : ℕ → ℕ) (o : ℕ) (f : Filter)
    → (f.objects o).inserted_in_sockets_list_to_report ≡ true
    → Counted x f
    → Counted (bump o x) (deliver_object env o f).0
unfolding deliver_object
deliver_object-Counted env x o f flag c = record {
  counted = λ i. ground (arith, c.counted o, c.counted i);
}

put_back-Counted :
    (x : ℕ → ℕ) (o : ℕ) (reinsert : Bool) (f : Filter)
    → Counted (bump o x) f
    → Counted x (put_back o reinsert f)
unfolding put_back
put_back-Counted x o reinsert f c = record {
  counted = λ i. (let h = c.counted o in let k = c.counted i in ground (arith, ==-self o));
}

released-Counted : (x : ℕ → ℕ) (y : Filter × Round) → Counted x y.0 → Counted x (released y)
unfolding released
released-Counted x (f, r) c = record { counted = c.counted }

finish_round-Counted :
    (x : ℕ → ℕ) (o : ℕ) (nested : Filter) (y : Filter × Round)
    → Counted (bump o x) nested
    → Counted (bump o x) y.0
    → Counted x (finish_round o nested y)
unfolding finish_round
finish_round-Counted x o nested (f, r) c d =
    put_back-Counted x o r.reinsert_in_list _
      (either-Counted (bump o x) r.release_buffers nested f c d)

deliver-Counted :
    (env : Environment) (fuel : ℕ) (x : ℕ → ℕ) (f : Filter)
    → IsListed f
    → Counted x f
    → Counted x (deliver env fuel f)
unfolding deliver
deliver-Counted env zero x f l c = c
deliver-Counted env (suc fuel) x f l c = elim (List-cases f.sockets_list_to_report) [
  | inl e ↦ rw e (record { counted = c.counted })
  | inr (o, rest, e) ↦
      let listed = deliver_object-IsListed env o rest f e l in
      let flag : (f.objects o).inserted_in_sockets_list_to_report ≡ true =
        ground (arith, l.flagged o, ap (λ xs. contains xs o) e, ==-self o) in
      rw e (
        let g : Filter = record f { sockets_list_to_report = rest } in
        let y = deliver_object env o g in
        let n = deliver env fuel (released y) in
        let d : Counted (bump o x) y.0 =
          deliver_object-Counted env x o g flag (record { counted = c.counted }) in
        let released_listed = released-IsListed y listed in
        let k : Counted (bump o x) n =
          deliver-Counted env fuel (bump o x) _ released_listed (released-Counted (bump o x) y d) in
        let u = finish_round-Counted x o n y k d in
        let w = finish_round-IsListed o n y (deliver-IsListed env fuel _ released_listed) listed in
        either-Counted x (y.1.error == 0) _ _ (deliver-Counted env fuel x _ w u) u)
]

pub deliver_waiting-Counted :
    (env : Environment) (x : ℕ → ℕ) (f : Filter)
    → IsListed f
    → Counted x f
    → Counted x (deliver_waiting_notifications env f)
unfolding deliver_waiting_notifications
deliver_waiting-Counted env x f l c = deliver-Counted env _ x f l c

pub release_and_deliver-Counted :
    (env : Environment) (x : ℕ → ℕ) (is : List ℕ) (f : Filter)
    → IsListed f
    → Counted x f
    → Counted x (release_data_buffers_and_deliver env is f)
unfolding release_data_buffers_and_deliver
release_and_deliver-Counted env x is f l c =
    deliver_waiting-Counted env x (record f { pool = release_data_buffers is f.pool })
      (record { distinct = l.distinct; flagged = l.flagged }) (record { counted = c.counted })
